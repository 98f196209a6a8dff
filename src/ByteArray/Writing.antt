-- ===== src/ByteArray/Writing.antt =====
-- `write` against the run of bytes that the chain stands for.
use fishjoy.Base.{
  ℕ, zero, suc, ◌+◌, ◌-◌, ◌*◌, ◌≤◌, ◌<◌, ◌≡◌, refl, sym, ap, ◌∙◌, subst, List, [], ◌∷◌, length,
  take, drop, overwrite, ok, arith, Bool-cases, inl, inr, le→leb, lt→leb, ◌==◌, ==_iff, ne_of_test,
  dec_le, if◌then◌else◌, length-take, length-drop, overwrite-append, take-append-drop,
}
use fishjoy.ByteArray.{ByteArray, Block, peek, poke, write_last, write_part, write_loop}
use fishjoy.ByteArray.Chain.{
  flat, Uniform, lt_of_mul_lt, peek-ok, flat-poke, poke-Uniform, length-poke,
}

-- The block `c` is the one that holds the place `p`.
abbrev pub Holds : ℕ → ℕ → ℕ → Type 0
Holds base c p = (c * base ≤ p) × (p < c * base + base)

-- What the loop leaves: the blocks `ns` and the current block `c`.
pub record Written (b : ByteArray) (bytes : List ℕ) (ns : List Block) (c : ℕ) : Type 0 where
  pub bytes_in : flat ns ≡ overwrite (flat b.blocks) b.position bytes
  pub uniform : Uniform b.base_size ns
  pub kept : length ns ≡ length b.blocks
  pub at_cur : Holds b.base_size c (b.position + length bytes)

abbrev pub moved : ByteArray → List ℕ → List Block → ℕ → ByteArray
moved b bytes ns c = record b { blocks = ns; cur = c; position = b.position + length bytes }

abbrev pub Fits : ByteArray → ℕ → List ℕ → Type 0
Fits b npos bytes =
    (npos < b.base_size)
    × (b.position ≡ b.cur * b.base_size + npos)
    × (b.position + length bytes ≤ length b.blocks * b.base_size)

-- Behind the last byte of a block the next block is current.
pub Holds-next :
    (base s npos k c p : ℕ)
    → s ≡ base
    → npos + k ≤ base
    → p ≡ c * base + npos
    → 0 < k
    → Holds base (if s == npos + k then suc c else c) (p + k)
Holds-next base s npos k c p hs fit hp pos = elim (Bool-cases (s == npos + k)) [
  | inl full ↦ let e = (==_iff s (npos + k)).0 full in rw full (omega arith)
  | inr room ↦ rw room (omega (arith, ne_of_test s (npos + k) room))
]

write_last-Written :
    (b : ByteArray) (npos : ℕ) (bytes : List ℕ) (block : Block)
    → Uniform b.base_size b.blocks
    → Fits b npos bytes
    → 0 < length bytes
    → length block ≡ b.base_size
    → npos + length bytes ≤ b.base_size
    → (ns : List Block) × (c : ℕ) × (write_last b (length block) npos bytes ≡ moved b bytes ns c)
      × Written b bytes ns c
unfolding write_last
write_last-Written b npos bytes block u (hn, hp, hf) pos hb fit = (
  poke b.blocks b.cur npos bytes,
  (write_last b (length block) npos bytes).cur,
  refl,
  record {
    bytes_in =
        flat-poke b.base_size b.blocks b.cur npos bytes u fit in_chain
        ∙ ap (λ (k : ℕ). overwrite (flat b.blocks) k bytes) (sym hp);
    uniform = poke-Uniform b.base_size b.blocks b.cur npos bytes u;
    kept = length-poke b.blocks b.cur npos bytes;
    at_cur =
        Holds-next b.base_size (length block) npos (length bytes) b.cur b.position hb fit hp pos;
  },
)
  where
    in_chain : b.cur < length b.blocks
    in_chain = lt_of_mul_lt b.cur (length b.blocks) b.base_size npos (omega arith)

-- A block filled up, and the rest written behind it.
module _ (b : ByteArray) (npos k : ℕ) (bytes : List ℕ) (fits : Fits b npos bytes) where
  abbrev part : ByteArray
  unfolding write_part
  part = write_part b npos k bytes

  abbrev rest : List ℕ
  rest = drop k bytes

  part-moved :
      k ≤ length bytes → (ns : List Block) (c : ℕ) → moved part rest ns c ≡ moved b bytes ns c
  unfolding part
  part-moved hk ns c =
      ap (λ (p : ℕ). record b { blocks = ns; cur = c; position = p })
        (omega (arith, length-drop k bytes))

  part-Written :
      Uniform b.base_size b.blocks
      → npos + k ≡ b.base_size
      → k ≤ length bytes
      → {ns : List Block} {c : ℕ} → Written part rest ns c
      → Written b bytes ns c
  unfolding part
  part-Written u hk le {ns} {c} w = record {
    bytes_in =
        w.bytes_in
        ∙ ap (λ xs. overwrite xs (b.position + k) rest)
            (flat-poke b.base_size b.blocks b.cur npos (take k bytes) u
                (omega (arith, length-take k bytes)) in_chain
              ∙ ap (λ (j : ℕ). overwrite (flat b.blocks) j (take k bytes)) (sym fits.1))
        ∙ ap (λ (j : ℕ). overwrite (overwrite (flat b.blocks) b.position (take k bytes)) j rest)
            (omega (arith, length-take k bytes))
        ∙ sym (overwrite-append (flat b.blocks) b.position (take k bytes) rest)
        ∙ ap (overwrite (flat b.blocks) b.position) (take-append-drop k bytes);
    uniform = w.uniform;
    kept = w.kept ∙ length-poke b.blocks b.cur npos (take k bytes);
    at_cur = subst (Holds b.base_size c) (omega (arith, length-drop k bytes)) w.at_cur;
  }
    where
      in_chain : b.cur < length b.blocks
      in_chain =
          lt_of_mul_lt b.cur (length b.blocks) b.base_size npos
            (omega (arith, fits.0, fits.1, fits.2))

-- With `fuel` rounds the loop writes all the bytes.
abbrev pub Writes : ℕ → Type 0
Writes fuel =
    (b : ByteArray) (npos : ℕ) (bytes : List ℕ)
    → Uniform b.base_size b.blocks
    → Fits b npos bytes
    → 0 < length bytes
    → length bytes ≤ fuel
    → (ns : List Block) × (c : ℕ) × (write_loop fuel b npos bytes ≡ ok (moved b bytes ns c))
      × Written b bytes ns c

module _ (b : ByteArray) (npos x : ℕ) (bytes : List ℕ) (block : Block)
    (u : Uniform b.base_size b.blocks) (fits : Fits b npos (x ∷ bytes))
    (e : peek b.blocks b.cur ≡ ok block) (hb : length block ≡ b.base_size) where
  last_round :
      (fuel : ℕ)
      → suc (length bytes) ≤ length block - npos
      → (ns : List Block) × (c : ℕ) × (write_loop (suc fuel) b npos (x ∷ bytes)
          ≡ ok (moved b (x ∷ bytes) ns c))
        × Written b (x ∷ bytes) ns c
  unfolding write_loop write_part
  last_round fuel last =
      let (ns, c, moves, w) =
        write_last-Written b npos (x ∷ bytes) block u fits (omega arith) hb
          (omega (arith, fits.0)) in
      (ns, c, rw (e, le→leb _ _ last) (ap ok moves), w)

  more_rounds :
      (fuel : ℕ)
      → Writes fuel
      → length bytes ≤ fuel
      → length block - npos < suc (length bytes)
      → (ns : List Block) × (c : ℕ) × (write_loop (suc fuel) b npos (x ∷ bytes)
          ≡ ok (moved b (x ∷ bytes) ns c))
        × Written b (x ∷ bytes) ns c
  unfolding write_loop write_part
  more_rounds fuel ih hf more =
      let k = length block - npos in
      let filled : npos + k ≡ b.base_size = omega (arith, fits.0) in
      let (ns, c, moves, w) =
        ih (write_part b npos k (x ∷ bytes)) 0 (drop k (x ∷ bytes))
          (poke-Uniform b.base_size b.blocks b.cur npos (take k (x ∷ bytes)) u)
          (
            omega (arith, fits.0),
            omega (arith, fits.1),
            omega (
              arith,
              fits.2,
              ap (λ (t : ℕ). t * b.base_size)
                  (length-poke b.blocks b.cur npos (take k (x ∷ bytes))),
              length-drop k (x ∷ bytes),
            ),
          )
          (omega (arith, length-drop k (x ∷ bytes)))
          (omega (arith, fits.0, length-drop k (x ∷ bytes))) in
      (
        ns,
        c,
        rw (e, lt→leb _ _ more)
            (moves ∙ ap ok (part-moved b npos k (x ∷ bytes) fits (omega arith) ns c)),
        part-Written b npos k (x ∷ bytes) fits u filled (omega arith) w,
      )

-- With a round for each byte the loop ends, and writes all the bytes.
pub write_loop-Written : (fuel : ℕ) → Writes fuel
write_loop-Written fuel b npos [] u fits pos hf = elim pos [ ]
write_loop-Written zero b npos (x ∷ bytes) u fits pos hf = absurd (omega arith)
write_loop-Written (suc fuel) b npos (x ∷ bytes) u fits pos hf =
    let (block, e, hb) = peek-ok b.base_size b.blocks b.cur u in_chain in
    elim (dec_le (suc (length bytes)) (length block - npos)) [
      | yes last ↦ last_round b npos x bytes block u fits e hb fuel last
      | no more ↦
          more_rounds b npos x bytes block u fits e hb fuel (write_loop-Written fuel) (omega arith)
            (omega arith)
    ]
  where
    in_chain : b.cur < length b.blocks
    in_chain =
        lt_of_mul_lt b.cur (length b.blocks) b.base_size npos
          (omega (arith, fits.0, fits.1, fits.2))
