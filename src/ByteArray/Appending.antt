-- ===== src/ByteArray/Appending.antt =====
-- `add_capacity` and `write` against the contents.
use fishjoy.Base.{
  ℕ, ◌+◌, ◌-◌, ◌*◌, ◌/◌, ◌%◌, ◌≤◌, ◌<◌, ◌≡◌, refl, sym, ap, ap₂, take-append-drop, append-nil, ◌∙◌,
  subst, ==_iff, inl, inr, List, [], ◌∷◌, ◌++◌, length, take, drop, replicate, ok, ◌==◌, arith,
  dec_le, Bool-cases, length-append, length-replicate, overwrite_splice, take-append_left, le→leb,
  lt→leb,
}
use fishjoy.ByteArray.{
  ByteArray, Block, append_blocks, add_capacity, get_capacity, blocks_needed, write, grow_size,
}
use fishjoy.ByteArray.Chain.{
  flat, Uniform, length-flat, flat-append, append-Uniform, replicate-Uniform, lt_of_mul_lt, peek-ok,
}
use fishjoy.ByteArray.Writing.{Holds, moved, Written, write_loop-Written}
use fishjoy.ByteArray.Valid.{IsValid, contents}
use native.Mathlib.Nat.{div-add-mod', mod-lt, mod-eq-sub-div-mul, div-eq_of_lt-le}

blocks_needed-enough : (base n : ℕ) → 0 < base → n ≤ blocks_needed base n * base
blocks_needed-enough base n h =
    omega (arith, div-add-mod' (n + base - 1) base, mod-lt (n + base - 1) {m = base} h)

-- What stays and what grows when room is made for `n` bytes.
pub record Grown (b : ByteArray) (n : ℕ) (b' : ByteArray) : Type 0 where
  pub room : b.position + n ≤ b'.capacity
  pub valid : IsValid b'
  pub same_position : b'.position ≡ b.position
  pub same_size : b'.size ≡ b.size
  pub same_endian : b'.endian ≡ b.endian
  pub same_contents : contents b' ≡ contents b

module _ (b : ByteArray) (count : ℕ) (v : IsValid b) where
  append_blocks-IsValid : IsValid (append_blocks b count)
  unfolding append_blocks
  append_blocks-IsValid = record {
    base_pos = v.base_pos;
    rooted = omega (arith, v.rooted, length-append b.blocks fresh);
    uniform = append-Uniform b.base_size b.blocks fresh v.uniform fresh-Uniform;
    full = omega (
      arith,
      v.full,
      ap (λ (k : ℕ). k * b.base_size) (length-append b.blocks fresh),
      ap (λ (k : ℕ). k * b.base_size) (length-replicate count (replicate b.base_size b.fill)),
    );
    position_le = v.position_le;
    size_le = omega (arith, v.size_le);
    at_cur = elim (Bool-cases (get_capacity b == 0)) [
      | inl spent ↦ rw spent (
          omega (
            arith,
            v.full,
            v.position_le,
            v.size_le,
            v.base_pos,
            (==_iff (get_capacity b) 0).0 spent,
          ))
      | inr left ↦ rw left v.at_cur
    ];
  }
    where
      fresh : List Block
      fresh = replicate count (replicate b.base_size b.fill)

      fresh-Uniform : Uniform b.base_size fresh
      fresh-Uniform =
          subst (λ (k : ℕ). Uniform k fresh) (length-replicate b.base_size b.fill)
            (replicate-Uniform count (replicate b.base_size b.fill))

  append_blocks-contents : contents (append_blocks b count) ≡ contents b
  unfolding append_blocks
  append_blocks-contents =
      ap (take b.size) (flat-append b.blocks (replicate count (replicate b.base_size b.fill)))
      ∙ take-append_left b.size (flat b.blocks) _
          (omega (arith, length-flat b.base_size b.blocks v.uniform, v.full, v.size_le))

add_capacity-Grown : (b : ByteArray) (n : ℕ) → IsValid b → Grown b n (add_capacity b n)
unfolding add_capacity
add_capacity-Grown b n v = elim (Bool-cases (n == 0)) [
  | inl none_wanted ↦
      rw none_wanted (stays (omega (arith, (==_iff n 0).0 none_wanted, v.position_le, v.size_le)))
  | inr wanted ↦ rw wanted (elim (dec_le n (get_capacity b)) [
    | yes fits ↦ rw (le→leb _ _ fits) (stays (omega (arith, v.position_le, v.size_le)))
    | no short ↦ rw (lt→leb n (get_capacity b) (omega arith)) grows
  ])
]
  where
    stays : b.position + n ≤ b.capacity → Grown b n b
    stays h = record {
      room = h;
      valid = v;
      same_position = refl;
      same_size = refl;
      same_endian = refl;
      same_contents = refl;
    }

    grows : Grown b n (append_blocks b (blocks_needed b.base_size (n - get_capacity b)))
    grows = record {
      room = omega (arith, blocks_needed-enough b.base_size (n - get_capacity b) v.base_pos);
      valid = append_blocks-IsValid b _ v;
      same_position = refl;
      same_size = refl;
      same_endian = refl;
      same_contents = append_blocks-contents b _ v;
    }

-- The offset in the current block.
pub Holds-mod :
    (base c p : ℕ) → 0 < base → Holds base c p → (p % base < base) × (p ≡ c * base + p % base)
Holds-mod base c p h at =
    omega
      (arith, mod-lt p {m = base} h, mod-eq-sub-div-mul p base, ap (λ (k : ℕ). k * base) in_block)
  where
    in_block : p / base ≡ c
    in_block = div-eq_of_lt-le {k = c} base (omega (arith, at.0)) (omega (arith, at.1))

-- What a write that succeeds leaves behind.
pub record Wrote (b : ByteArray) (bytes : List ℕ) (b' : ByteArray) : Type 0 where
  pub valid : IsValid b'
  pub moved_on : b'.position ≡ b.position + length bytes
  pub same_endian : b'.endian ≡ b.endian
  pub spliced :
      contents b'
      ≡ take b.position (contents b) ++ bytes ++ drop (b.position + length bytes) (contents b)

module _ (b : ByteArray) (bytes : List ℕ) (v : IsValid b)
    (room : b.position + length bytes ≤ b.capacity) {ns : List Block} {c : ℕ}
    (w : Written b bytes ns c) where
  grow_size-IsValid : IsValid (grow_size (moved b bytes ns c))
  unfolding grow_size
  grow_size-IsValid = record {
    base_pos = v.base_pos;
    rooted = omega (arith, w.kept, v.rooted);
    uniform = w.uniform;
    full = omega (arith, v.full, ap (λ (k : ℕ). k * b.base_size) w.kept);
    position_le = ground arith;
    size_le = ground (arith, v.size_le);
    at_cur = w.at_cur;
  }

  grow_size-contents :
      contents (grow_size (moved b bytes ns c))
      ≡ take b.position (contents b) ++ bytes ++ drop (b.position + length bytes) (contents b)
  unfolding grow_size
  grow_size-contents =
      ap (take _) w.bytes_in
      ∙ overwrite_splice (flat b.blocks) b.position bytes b.size _ v.position_le
          (omega (arith, len, v.size_le, v.full)) (omega (arith, len, v.full)) (ground arith)
          (ground arith) (ground arith)
    where
      len : length (flat b.blocks) ≡ length b.blocks * b.base_size
      len = length-flat b.base_size b.blocks v.uniform

write_nil-Wrote : (b : ByteArray) → IsValid b → Wrote b [] b
write_nil-Wrote b v = record {
  valid = v;
  moved_on = omega arith;
  same_endian = refl;
  spliced =
      sym (take-append-drop b.position (contents b))
      ∙ ap₂ (λ front (k : ℕ). front ++ drop k (contents b))
          (sym (append-nil (take b.position (contents b)))) (omega arith);
}

-- In a valid buffer `write` always returns, and leaves a valid buffer behind: the bytes stand in
-- the contents at the old position (what lies before and behind them stays), the position is
-- behind them, and the byte order is the same.
pub write-Wrote :
    (b : ByteArray) (bytes : List ℕ)
    → IsValid b
    → (b' : ByteArray) × (write b bytes ≡ ok b') × Wrote b bytes b'
unfolding write
write-Wrote b [] v = (b, refl, write_nil-Wrote b v)
write-Wrote b (x ∷ bytes) v =
    let (block, e, _) = peek-ok b'.base_size b'.blocks b'.cur v'.uniform in_chain in
    let (ns, c, moves, w) =
      write_loop-Written (length all) b' (b'.position % b'.base_size) all v'.uniform
        (offset.0, offset.1, omega (arith, v'.full, room)) (omega arith) (omega arith) in
    (
      grow_size (moved b' all ns c),
      rw (e, moves),
      record {
        valid = grow_size-IsValid b' all v' room w;
        moved_on = ap (λ (k : ℕ). k + length all) g.same_position;
        same_endian = g.same_endian;
        spliced =
            grow_size-contents b' all v' room w
            ∙ ap₂ (λ (p : ℕ) xs. take p xs ++ all ++ drop (p + length all) xs) g.same_position
                g.same_contents;
      },
    )
  where
    all : List ℕ
    all = x ∷ bytes

    b' : ByteArray
    b' = add_capacity b (length all)

    g : Grown b (length all) b'
    g = add_capacity-Grown b (length all) v

    v' : IsValid b'
    v' = g.valid

    room : b'.position + length all ≤ b'.capacity
    room = omega (arith, g.room, g.same_position)

    offset :
        (b'.position % b'.base_size < b'.base_size)
        × (b'.position ≡ b'.cur * b'.base_size + b'.position % b'.base_size)
    offset = Holds-mod b'.base_size b'.cur b'.position v'.base_pos v'.at_cur

    in_chain : b'.cur < length b'.blocks
    in_chain =
        lt_of_mul_lt b'.cur (length b'.blocks) b'.base_size (b'.position % b'.base_size)
          (omega (arith, room, v'.full, offset.1))
