-- ===== src/ByteArray/Valid.antt =====
-- The invariant of the buffer of src/net/bytearray.cpp, and its contents.
use fishjoy.Base.{
  ℕ, ◌*◌, ◌≤◌, ◌<◌, ◌≡◌, refl, ap, List, [], ◌∷◌, length, take, arith, length-take,
  length-replicate,
}
use fishjoy.ByteArray.{ByteArray, Block, create, clear}
use fishjoy.ByteArray.Chain.{flat, Uniform, length-flat}
use fishjoy.ByteArray.Writing.{Holds}

pub record IsValid (b : ByteArray) : Type 0 where
  pub base_pos : 0 < b.base_size
  pub rooted : 0 < length b.blocks
  pub uniform : Uniform b.base_size b.blocks
  pub full : b.capacity ≡ length b.blocks * b.base_size
  pub position_le : b.position ≤ b.size
  pub size_le : b.size ≤ b.capacity
  pub at_cur : Holds b.base_size b.cur b.position

-- The bytes that the buffer holds, whatever the size of its blocks.
abbrev pub contents : ByteArray → List ℕ
contents b = take b.size (flat b.blocks)

pub create-IsValid : (fill base : ℕ) → 0 < base → IsValid (create fill base)
unfolding create
create-IsValid fill base h = record {
  base_pos = h;
  rooted = omega arith;
  uniform = (length-replicate base fill, tt);
  full = omega arith;
  position_le = omega arith;
  size_le = omega arith;
  at_cur = omega arith;
}

clear_blocks :
    (ns : List Block) (base : ℕ)
    → 0 < length ns
    → Uniform base ns
    → (length (take 1 ns) ≡ 1) × Uniform base (take 1 ns)
clear_blocks [] base h u = elim h [ ]
clear_blocks (n ∷ ns) base h u = (refl, (u.0, tt))

pub clear-IsValid : (b : ByteArray) → IsValid b → IsValid (clear b)
unfolding clear
clear-IsValid b v =
    let (one, u) = clear_blocks b.blocks b.base_size v.rooted v.uniform in
    record {
      base_pos = v.base_pos;
      rooted = omega (arith, one);
      uniform = u;
      full = omega (arith, ap (λ (k : ℕ). k * b.base_size) one);
      position_le = omega arith;
      size_le = omega arith;
      at_cur = omega (arith, v.base_pos);
    }

pub length-contents : (b : ByteArray) → IsValid b → length (contents b) ≡ b.size
length-contents b v = omega (
  arith,
  length-take b.size (flat b.blocks),
  length-flat b.base_size b.blocks v.uniform,
  v.full,
  v.size_le,
)
