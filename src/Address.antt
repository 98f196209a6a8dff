-- ===== src/Address.antt =====
-- The addresses of src/net/address.cpp. An address of the internet is the bytes of s_addr or s6_addr
-- as they stand in memory, which a byte swap puts in the order of the network on every host. A prefix
-- for which the code shifts or indexes beyond the bounds of C++ has the outcome `undefined`.
pub mod Masks
pub mod Networks
pub mod Comparison
pub mod Names
mod Tests
use Prim.Native.Nat.{bit_and, bit_or}
use mathlib.Core.List.{reverse}
use fishjoy.Base.{
  ℕ, zero, suc, ◌+◌, ◌-◌, ◌*◌, ◌/◌, ◌%◌, ◌^◌, Bool, true, false, not, ◌&&◌, ◌||◌, Option, none,
  some, List, [], ◌∷◌, ◌++◌, length, take, drop, set, replicate, min, ltb, leb, ◌==◌, if◌then◌else◌,
}
use fishjoy.Endian.{to_bytes}

pub data Reply : Type 0 where
  null_address undefined : Reply
  address : List ℕ → Reply

-- The bytes of a number of 32 bits in the order of the network.
unfoldable pub network_bytes : ℕ → List ℕ
unfolding to_bytes
network_bytes v = reverse (to_bytes 4 v)

-- CreateMask on uint32_t. The shift of the `int` 1 overflows for a prefix of 0, and the subtraction
-- for one of 1.
unfoldable pub create_mask_32 : ℕ → Option ℕ
create_mask_32 bits = if ltb 1 bits && leb bits 32 then some (2 ^ (32 - bits) - 1) else none

-- CreateMask on uint8_t, which cuts the `int` off.
unfoldable pub create_mask_8 : ℕ → ℕ
create_mask_8 bits = (2 ^ (8 - bits) - 1) % 256

abbrev pub zip : (ℕ → ℕ → ℕ) → List ℕ → List ℕ → List ℕ
zip f [] bs = []
zip f (a ∷ as') [] = []
zip f (a ∷ as') (b ∷ bs) = f a b ∷ zip f as' bs

abbrev pub masked : (ℕ → List ℕ) → Option ℕ → Reply
masked f none = undefined
masked f (some m) = address (f m)

unfoldable pub broadcast_address_4 : List ℕ → ℕ → Reply
unfolding create_mask_32 network_bytes
broadcast_address_4 a prefix_len =
    if ltb 32 prefix_len
    then null_address
    else masked (λ m. zip bit_or a (network_bytes m)) (create_mask_32 prefix_len)

unfoldable pub network_address_4 : List ℕ → ℕ → Reply
unfolding create_mask_32 network_bytes
network_address_4 a prefix_len =
    if ltb 32 prefix_len
    then null_address
    else masked (λ m. zip bit_and a (network_bytes (2 ^ 32 - 1 - m))) (create_mask_32 prefix_len)

abbrev pub invert : List ℕ → List ℕ
invert [] = []
invert (b ∷ bs) = (255 - b) ∷ invert bs

unfoldable pub subnet_mask_4 : ℕ → Reply
unfolding create_mask_32 network_bytes
subnet_mask_4 prefix_len = masked (λ m. invert (network_bytes m)) (create_mask_32 prefix_len)

abbrev pub all_to : ℕ → List ℕ → List ℕ
all_to v [] = []
all_to v (b ∷ bs) = v ∷ all_to v bs

-- The byte at `i` is changed by `f`, and those behind it are set to `v`.
unfoldable pub change_from : ℕ → (ℕ → ℕ) → ℕ → List ℕ → List ℕ
change_from i f v [] = []
change_from zero f v (b ∷ bs) = f b ∷ all_to v bs
change_from (suc i) f v (b ∷ bs) = b ∷ change_from i f v bs

unfoldable pub broadcast_address_6 : List ℕ → ℕ → Reply
unfolding change_from create_mask_8
broadcast_address_6 a prefix_len =
    if ltb (prefix_len / 8) 16
    then address
        (change_from (prefix_len / 8) (λ b. bit_or b (create_mask_8 (prefix_len % 8))) 255 a)
    else undefined

unfoldable pub network_address_6 : List ℕ → ℕ → Reply
unfolding change_from create_mask_8
network_address_6 a prefix_len =
    if ltb (prefix_len / 8) 16
    then address
        (change_from (prefix_len / 8) (λ b. bit_and b (create_mask_8 (prefix_len % 8))) 0 a)
    else undefined

abbrev pub fill_before : ℕ → List ℕ → List ℕ
fill_before i [] = []
fill_before zero (b ∷ bs) = b ∷ bs
fill_before (suc i) (b ∷ bs) = 255 ∷ fill_before i bs

unfoldable pub subnet_mask_6 : ℕ → Reply
unfolding create_mask_8
subnet_mask_6 prefix_len =
    if ltb (prefix_len / 8) 16
    then address (
        fill_before (prefix_len / 8)
          (set (replicate 16 0) (prefix_len / 8) (255 - create_mask_8 (prefix_len % 8))))
    else undefined

-- CountBytes, whose rounds take one digit 1 away.
unfoldable pub count_bytes : ℕ → ℕ → ℕ
count_bytes zero value = 0
count_bytes (suc fuel) value =
    let rest = count_bytes fuel (bit_and value (value - 1)) in if value == 0 then 0 else suc rest

-- The prefix that GetInterfaceAddresses gives for a netmask of IPv6.
unfoldable pub prefix_of_6 : List ℕ → ℕ
unfolding count_bytes
prefix_of_6 [] = 0
prefix_of_6 (b ∷ bs) = count_bytes 8 b + prefix_of_6 bs

-- The sign of memcmp on the first `n` bytes.
pub data Order : Type 0 where
  below equal above : Order

abbrev pub memcmp : ℕ → List ℕ → List ℕ → Order
memcmp zero xs ys = equal
memcmp (suc n) [] ys = equal
memcmp (suc n) (x ∷ xs) [] = equal
memcmp (suc n) (x ∷ xs) (y ∷ ys) =
    let rest = memcmp n xs ys in if ltb x y then below else if ltb y x then above else rest

abbrev pub by_order : Order → Bool → Bool
by_order below shorter = true
by_order above shorter = false
by_order equal shorter = shorter

abbrev pub is_equal : Order → Bool
is_equal equal = true
is_equal below = false
is_equal above = false

-- The comparisons of addresses by their bytes, of which getAddrLen gives the number.
unfoldable pub less : List ℕ → List ℕ → Bool
less a b = by_order (memcmp (min (length a) (length b)) a b) (ltb (length a) (length b))

unfoldable pub same_address : List ℕ → List ℕ → Bool
same_address a b = (length a == length b) && is_equal (memcmp (length a) a b)
