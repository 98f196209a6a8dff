-- ===== src/ByteArray/Reading.antt =====
-- `read` of src/net/bytearray.cpp against the contents.
use fishjoy.Base.{
  ℕ, zero, suc, ◌+◌, ◌-◌, ◌*◌, ◌%◌, ◌≤◌, ◌<◌, ◌≡◌, refl, sym, ap, ap₂, ◌∙◌, subst, List, ◌++◌,
  length, slice, ok, err, out_of_range, if◌then◌else◌, ◌==◌, arith, dec_le, le→ltb, lt→ltb, le→leb,
  lt→leb, slice-add, slice-take,
}
use fishjoy.ByteArray.{ByteArray, Block, read, read_loop, peek}
use fishjoy.ByteArray.Chain.{flat, Uniform, lt_of_mul_lt, peek-ok, slice-flat}
use fishjoy.ByteArray.Writing.{Holds, Holds-next}
use fishjoy.ByteArray.Valid.{IsValid, contents}
use fishjoy.ByteArray.Appending.{Holds-mod}

-- `n` bytes read from the place `p` on in the block `c`, and the block where the loop stops.
abbrev pub Reads : ℕ → Type 0
Reads fuel =
    (base : ℕ) (ns : List Block) (c npos n : ℕ)
    → Uniform base ns
    → npos < base
    → c * base + npos + n ≤ length ns * base
    → n ≤ fuel
    → (c' : ℕ) × (read_loop fuel ns c npos n ≡ ok (slice (c * base + npos) n (flat ns), c'))
      × Holds base c' (c * base + npos + n)

module _ (base : ℕ) (ns : List Block) (c npos n : ℕ) (block : Block) (u : Uniform base ns)
    (hn : npos < base) (inside : c * base + npos + suc n ≤ length ns * base)
    (e : peek ns c ≡ ok block) (hb : length block ≡ base) where
  last_round :
      (fuel : ℕ)
      → suc n ≤ length block - npos
      → (c' : ℕ) × (read_loop (suc fuel) ns c npos (suc n)
          ≡ ok (slice (c * base + npos) (suc n) (flat ns), c'))
        × Holds base c' (c * base + npos + suc n)
  unfolding read_loop
  last_round fuel last = (
    (if length block == npos + suc n then suc c else c),
    rw (e, le→leb _ _ last)
        (ap (λ bytes. ok (bytes, (if length block == npos + suc n then suc c else c)))
          (sym (slice-flat base ns c npos (suc n) u e (omega arith)))),
    Holds-next base (length block) npos (suc n) c (c * base + npos) hb (omega arith) refl
        (omega arith),
  )

  more_rounds :
      (fuel : ℕ)
      → Reads fuel
      → n ≤ fuel
      → length block - npos < suc n
      → (c' : ℕ) × (read_loop (suc fuel) ns c npos (suc n)
          ≡ ok (slice (c * base + npos) (suc n) (flat ns), c'))
        × Holds base c' (c * base + npos + suc n)
  unfolding read_loop
  more_rounds fuel ih hf more =
      let k = length block - npos in
      let (c', rest, at) =
        ih base ns (suc c) 0 (suc n - k) u (omega arith) (omega arith) (omega arith) in
      (
        c',
        rw (e, lt→leb _ _ more, rest)
            (ap (λ bytes. ok (bytes, c'))
              (ap₂ (λ front (i : ℕ). front ++ slice i (suc n - k) (flat ns))
                  (sym (slice-flat base ns c npos k u e (omega arith))) (omega arith)
                ∙ slice-add (c * base + npos) k (suc n - k) (suc n) (flat ns) (omega arith))),
        subst (Holds base c') (omega arith) at,
      )

pub read_loop-Reads : (fuel : ℕ) → Reads fuel
read_loop-Reads fuel base ns c npos zero u hn inside hf = (c, unfold read_loop in refl, omega arith)
read_loop-Reads zero base ns c npos (suc n) u hn inside hf = absurd (omega arith)
read_loop-Reads (suc fuel) base ns c npos (suc n) u hn inside hf =
    let (block, e, hb) = peek-ok base ns c u (lt_of_mul_lt c (length ns) base npos (omega arith)) in
    elim (dec_le (suc n) (length block - npos)) [
      | yes last ↦ last_round base ns c npos n block u hn inside e hb fuel last
      | no more ↦
          more_rounds base ns c npos n block u hn inside e hb fuel (read_loop-Reads fuel)
            (omega arith) (omega arith)
    ]

-- What `read` leaves behind: the bytes of the contents, and the position behind them.
pub record Read (b : ByteArray) (n : ℕ) (b' : ByteArray) : Type 0 where
  pub valid : IsValid b'
  pub moved_on : b'.position ≡ b.position + n
  pub same_contents : contents b' ≡ contents b
  pub same_endian : b'.endian ≡ b.endian

-- In a valid buffer with `n` bytes behind the position, where the position is below the capacity,
-- `read` returns these bytes of the contents and moves the position behind them; the buffer stays
-- valid, with the same contents and byte order.
pub read-Read :
    (b : ByteArray) (n : ℕ)
    → IsValid b
    → b.position + n ≤ b.size
    → b.position < b.capacity
    → (b' : ByteArray) × (read b n ≡ ok (slice b.position n (contents b), b')) × Read b n b'
unfolding read
read-Read b n v inside room =
    let (block, e, _) = peek-ok b.base_size b.blocks b.cur v.uniform (
      lt_of_mul_lt b.cur (length b.blocks) b.base_size (b.position % b.base_size)
        (omega (arith, v.full, offset.1))) in
    let (c, reads, at) =
      read_loop-Reads n b.base_size b.blocks b.cur (b.position % b.base_size) n v.uniform offset.0
        (omega (arith, offset.1, v.size_le, v.full)) (omega arith) in
    (
      record b { cur = c; position = b.position + n },
      rw (le→ltb (b.size - b.position) n (omega arith), e, reads)
          (ap (λ bytes. ok (bytes, record b { cur = c; position = b.position + n }))
            (ap (λ (i : ℕ). slice i n (flat b.blocks)) (sym offset.1)
              ∙ sym (slice-take b.position n b.size (flat b.blocks) inside))),
      record {
        valid = record {
          base_pos = v.base_pos;
          rooted = v.rooted;
          uniform = v.uniform;
          full = v.full;
          position_le = inside;
          size_le = v.size_le;
          at_cur = subst (Holds b.base_size c) (omega (arith, offset.1)) at;
        };
        moved_on = refl;
        same_contents = refl;
        same_endian = refl;
      },
    )
  where
    offset :
        (b.position % b.base_size < b.base_size)
        × (b.position ≡ b.cur * b.base_size + b.position % b.base_size)
    offset = Holds-mod b.base_size b.cur b.position v.base_pos v.at_cur

-- Where fewer bytes are left, `read` throws.
pub read_short : (b : ByteArray) (n : ℕ) → b.size - b.position < n → read b n ≡ err out_of_range
unfolding read
read_short b n h = rw (lt→ltb (b.size - b.position) n h)
