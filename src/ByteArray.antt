-- ===== src/ByteArray.antt =====
-- The buffer of src/net/bytearray.cpp: a chain of equal memory blocks with a position.
-- A block is the list of its bytes, and its length stands for the field `size`. The chain from
-- m_root on is a list. m_cur is the number of a block in it; behind the last block it is null, and
-- a read through it there is the error `null_pointer`. Sizes are unbounded numbers.
pub mod Chain
pub mod Writing
pub mod Valid
pub mod Appending
pub mod Reading
pub mod Seeking
pub mod Runs
pub mod Fixed
pub mod Varint
pub mod Zigzag
pub mod Strings
pub mod RoundTrip
pub mod Refinement
mod Tests
use fishjoy.Base.{
  ℕ, zero, suc, ◌+◌, ◌-◌, ◌*◌, ◌/◌, ◌%◌, List, [], ◌∷◌, ◌++◌, length, take, drop, replicate, slice,
  overwrite, ltb, leb, ◌==◌, if◌then◌else◌, Result, ok, err, out_of_range, null_pointer,
  out_of_fuel, ◌>>=◌, sub64,
}
use fishjoy.Endian.{Endian, big}

abbrev pub Block : Type 0
Block = List ℕ

-- `fill` is what memory from `new char[s]` happens to hold.
pub record ByteArray : Type 0 where
  pub base_size : ℕ
  pub position : ℕ
  pub capacity : ℕ
  pub size : ℕ
  pub endian : Endian
  pub blocks : List Block
  pub cur : ℕ
  pub fill : ℕ

pub create : ℕ → ℕ → ByteArray
create fill base_size = record {
  base_size = base_size;
  position = 0;
  capacity = base_size;
  size = 0;
  endian = big;
  blocks = replicate base_size fill ∷ [];
  cur = 0;
  fill = fill;
}

pub clear : ByteArray → ByteArray
clear b = record b {
  position = 0;
  size = 0;
  capacity = b.base_size;
  blocks = take 1 b.blocks;
  cur = 0;
}

-- In a valid buffer the position is at most the size, and the size at most the capacity, so that
-- these differences do not wrap.
abbrev pub get_capacity : ByteArray → ℕ
get_capacity b = b.capacity - b.position

abbrev pub get_read_size : ByteArray → ℕ
get_read_size b = b.size - b.position

-- ceil(1.0 * size / m_baseSize), which is exact for sizes below 2 ^ 53.
abbrev blocks_needed : ℕ → ℕ → ℕ
blocks_needed base n = (n + base - 1) / base

-- The loop that adds `count` blocks at the end of the chain, and the new current block.
append_blocks : ByteArray → ℕ → ByteArray
append_blocks b count = record b {
  blocks = b.blocks ++ replicate count (replicate b.base_size b.fill);
  capacity = b.capacity + count * b.base_size;
  cur = if get_capacity b == 0 then length b.blocks else b.cur;
}

pub add_capacity : ByteArray → ℕ → ByteArray
unfolding append_blocks
add_capacity b n =
    if n == 0
    then b
    else if leb n (get_capacity b)
    then b
    else append_blocks b (blocks_needed b.base_size (n - get_capacity b))

-- What m_cur points to.
pub peek : List Block → ℕ → Result Block
peek [] c = err null_pointer
peek (n ∷ ns) zero = ok n
peek (n ∷ ns) (suc c) = peek ns c

-- memcpy(m_cur->ptr + npos, bytes)
pub poke : List Block → ℕ → ℕ → List ℕ → List Block
poke [] c npos bytes = []
poke (n ∷ ns) zero npos bytes = overwrite n npos bytes ∷ ns
poke (n ∷ ns) (suc c) npos bytes = n ∷ poke ns c npos bytes

-- The two branches of the loop's body, where `ncap` bytes are left in the current block of the size
-- `block_size`: the bytes fit into the block, or they fill it up.
write_last : ByteArray → ℕ → ℕ → List ℕ → ByteArray
write_last b block_size npos bytes = record b {
  blocks = poke b.blocks b.cur npos bytes;
  cur = if block_size == npos + length bytes then suc b.cur else b.cur;
  position = b.position + length bytes;
}

write_part : ByteArray → ℕ → ℕ → List ℕ → ByteArray
write_part b npos ncap bytes = record b {
  blocks = poke b.blocks b.cur npos (take ncap bytes);
  cur = suc b.cur;
  position = b.position + ncap;
}

-- The loop of `write`. A round that does not end it takes a byte at least. The source reads the
-- size of the next block at the end of a round, the model at the start of the next.
pub write_loop : ℕ → ByteArray → ℕ → List ℕ → Result ByteArray
unfolding peek write_last write_part
write_loop fuel b npos [] = ok b
write_loop zero b npos (x ∷ bytes) = err out_of_fuel
write_loop (suc fuel) b npos (x ∷ bytes) = do
  block ← peek b.blocks b.cur
  let ncap = length block - npos
  let more = write_loop fuel (write_part b npos ncap (x ∷ bytes)) 0 (drop ncap (x ∷ bytes))
  if leb (length (x ∷ bytes)) ncap then ok (write_last b (length block) npos (x ∷ bytes)) else more

grow_size : ByteArray → ByteArray
grow_size b = record b { size = if ltb b.size b.position then b.position else b.size }

-- Before the loop `m_cur->size` is read.
pub write : ByteArray → List ℕ → Result ByteArray
unfolding add_capacity grow_size
write b [] = ok b
write b (x ∷ bytes) = do
  let b' = add_capacity b (length (x ∷ bytes))
  _ ← peek b'.blocks b'.cur
  b'' ← write_loop (length (x ∷ bytes)) b' (b'.position % b'.base_size) (x ∷ bytes)
  ok (grow_size b'')

-- The loop of both overloads of `read`: from the block `c` on, `n` bytes behind `npos`. It returns
-- them with the number of the block where it stops.
pub read_loop : ℕ → List Block → ℕ → ℕ → ℕ → Result (List ℕ × ℕ)
unfolding peek
read_loop fuel blocks c npos zero = ok ([], c)
read_loop zero blocks c npos (suc n) = err out_of_fuel
read_loop (suc fuel) blocks c npos (suc n) = do
  block ← peek blocks c
  let ncap = length block - npos
  let more = (do
    (bytes, c') ← read_loop fuel blocks (suc c) 0 (suc n - ncap)
    ok (slice npos ncap block ++ bytes, c'))
  if leb (suc n) ncap
      then ok (slice npos (suc n) block, (if length block == npos + suc n then suc c else c))
      else more

-- `m_cur->size` is read before the loop, also where no byte is wanted.
pub read : ByteArray → ℕ → Result (List ℕ × ByteArray)
read b n = if ltb (get_read_size b) n then err out_of_range else (do
  _ ← peek b.blocks b.cur
  (bytes, c) ← read_loop n b.blocks b.cur (b.position % b.base_size) n
  ok (bytes, record b { cur = c; position = b.position + n }))

-- `m_size - position` wraps where the position lies behind the size. The walk starts at m_cur,
-- whatever the position.
pub read_at : ByteArray → ℕ → ℕ → Result (List ℕ)
unfolding read_loop
read_at b n position = if ltb (sub64 b.size position) n then err out_of_range else (do
  _ ← peek b.blocks b.cur
  (bytes, _) ← read_loop n b.blocks b.cur (position % b.base_size) n
  ok bytes)

-- The walk of `set_position` along the chain, from the block number `c` on.
seek : List Block → ℕ → ℕ → Result ℕ
seek [] c v = err null_pointer
seek (n ∷ ns) c v =
    let more = seek ns (suc c) (v - length n) in
    if ltb (length n) v then more else if v == length n then ok (suc c) else ok c

pub set_position : ByteArray → ℕ → Result ByteArray
unfolding seek grow_size
set_position b v =
    if ltb b.capacity v
    then err out_of_range
    else (do c ← seek b.blocks 0 v; ok (grow_size (record b { position = v; cur = c })))

pub to_string : ByteArray → Result (List ℕ)
unfolding read_at
to_string b = if get_read_size b == 0 then ok [] else read_at b (get_read_size b) b.position
