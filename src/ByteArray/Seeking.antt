-- ===== src/ByteArray/Seeking.antt =====
-- `set_position` of src/net/bytearray.cpp against the contents, and the end of the chain.
use fishjoy.Base.{
  ℕ, zero, suc, ◌+◌, ◌-◌, ◌*◌, ◌≤◌, ◌<◌, ◌≡◌, refl, ap, ◌∙◌, subst, ==_iff, inl, inr, List, [], ◌∷◌,
  length, ok, err, out_of_range, null_pointer, ◌==◌, arith, dec_lt, Bool-cases, le→ltb, lt→ltb,
  ne_of_test, positive,
}
use fishjoy.ByteArray.{ByteArray, Block, read, seek, set_position, grow_size, peek}
use fishjoy.ByteArray.Chain.{Uniform}
use fishjoy.ByteArray.Writing.{Holds}
use fishjoy.ByteArray.Valid.{IsValid, contents}

seek-Holds :
    (base : ℕ) (ns : List Block) (c v : ℕ)
    → Uniform base ns
    → 0 < base
    → 0 < length ns
    → v ≤ length ns * base
    → (j : ℕ) × (seek ns c v ≡ ok (c + j)) × Holds base j v
unfolding seek
seek-Holds base [] c v u hb pos h = elim pos [ ]
seek-Holds base (n ∷ ns) c v u hb pos h = elim (dec_lt (length n) v) [
  | yes far ↦
      let (j, e, at) =
        seek-Holds base ns (suc c) (v - length n) u.1 hb (later (omega arith))
          (omega (arith, u.0)) in
      (suc j, rw (lt→ltb _ _ far) (e ∙ ap ok (omega arith)), omega (arith, u.0))
  | no here ↦ elim (Bool-cases (v == length n)) [
    | inl full ↦ (
      1,
      rw (le→ltb (length n) v (omega arith), full) (ap ok (omega arith)),
      omega (arith, u.0, (==_iff v (length n)).0 full),
    )
    | inr inside ↦ (
      0,
      rw (le→ltb (length n) v (omega arith), inside) (ap ok (omega arith)),
      omega (arith, u.0, ne_of_test v (length n) inside),
    )
  ]
]
  where
    later : length n < v → 0 < length ns
    later far = positive (length ns) base (omega (arith, u.0))

-- What `set_position` leaves behind.
pub record Sought (b : ByteArray) (v : ℕ) (b' : ByteArray) : Type 0 where
  pub valid : IsValid b'
  pub at_place : b'.position ≡ v
  pub same_endian : b'.endian ≡ b.endian
  pub same_contents : v ≤ b.size → contents b' ≡ contents b

-- In a valid buffer `set_position` to a place up to the capacity returns, and leaves a valid
-- buffer with the position there and the same byte order; up to the size the contents stay too.
pub set_position-Sought :
    (b : ByteArray) (v : ℕ)
    → IsValid b
    → v ≤ b.capacity
    → (b' : ByteArray) × (set_position b v ≡ ok b') × Sought b v b'
unfolding set_position grow_size
set_position-Sought b v ok_b h =
    let (j, e, at) =
      seek-Holds b.base_size b.blocks 0 v ok_b.uniform ok_b.base_pos ok_b.rooted
        (omega (arith, ok_b.full)) in
    (
      grow_size (record b { position = v; cur = 0 + j }),
      rw (le→ltb b.capacity v h, e),
      record {
        valid = record {
          base_pos = ok_b.base_pos;
          rooted = ok_b.rooted;
          uniform = ok_b.uniform;
          full = ok_b.full;
          position_le = ground arith;
          size_le = ground (arith, ok_b.size_le);
          at_cur = subst (λ (c : ℕ). Holds b.base_size c v) (omega arith) at;
        };
        at_place = refl;
        same_endian = refl;
        same_contents = λ inside. rw (le→ltb b.size v inside);
      },
    )

pub set_position_far :
    (b : ByteArray) (v : ℕ) → b.capacity < v → set_position b v ≡ err out_of_range
unfolding set_position
set_position_far b v h = rw (lt→ltb b.capacity v h)

peek_end : (ns : List Block) (c : ℕ) → length ns ≤ c → peek ns c ≡ err null_pointer
unfolding peek
peek_end [] c h = refl
peek_end (n ∷ ns) zero h = absurd (omega arith)
peek_end (n ∷ ns) (suc c) h = peek_end ns c (omega arith)

le_of_mul_le : (n c base p : ℕ) → p ≡ n * base → Holds base c p → n ≤ c
le_of_mul_le n c base p e at = grind (arith, at.0, at.1)

-- In a valid buffer whose position is at the capacity there is no current block, and a read of no
-- bytes goes through a null pointer.
pub read_nothing_at_end :
    (b : ByteArray) → IsValid b → b.position ≡ b.capacity → read b 0 ≡ err null_pointer
unfolding read
read_nothing_at_end b v e = rw (
  le→ltb (b.size - b.position) 0 (omega arith),
  peek_end b.blocks b.cur (
      le_of_mul_le (length b.blocks) b.cur b.base_size b.position (omega (arith, v.full)) v.at_cur),
)
