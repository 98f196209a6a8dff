-- ===== src/Endian.antt =====
-- The byte orders of include/fishjoy/net/endian.hpp. A value of an integer type of `w` bytes is its
-- bit pattern, a number below 256 ^ w. The host's byte order, which the build fixes, is an argument.
use fishjoy.Base.{
  ℕ, zero, suc, ◌+◌, ◌*◌, ◌/◌, ◌%◌, ◌^◌, ◌<◌, ◌≡◌, refl, sym, ap, ap₂, subst, ◌∙◌, Bool, true,
  false, List, [], ◌∷◌, length, All, arith, length-reverse, reverse-All,
}
use native.Mathlib.Nat.{div-lt_iff_lt-mul, pow-suc}
use mathlib.Core.List.{reverse, reverse-reverse}

pub data Endian : Type 0 where
  little big : Endian

abbrev pub same : Endian → Endian → Bool
same little little = true
same big big = true
same little big = false
same big little = false

abbrev pub IsByte : ℕ → Type 0
IsByte b = b < 256

-- The `w` bytes of a value, the lowest first, and back.
unfoldable pub to_bytes : ℕ → ℕ → List ℕ
to_bytes zero v = []
to_bytes (suc w) v = (v % 256) ∷ to_bytes w (v / 256)

pub from_bytes : List ℕ → ℕ
from_bytes [] = 0
from_bytes (b ∷ bs) = b + 256 * from_bytes bs

-- bswap_16, bswap_32, bswap_64.
unfoldable pub byteswap : ℕ → ℕ → ℕ
unfolding to_bytes from_bytes
byteswap w v = from_bytes (reverse (to_bytes w v))

-- `byteswapOnLittleEndian` and `byteswapOnBigEndian`: one of them swaps, by the host.
unfoldable pub byteswap_on_little_endian : Endian → ℕ → ℕ → ℕ
unfolding byteswap
byteswap_on_little_endian little w v = byteswap w v
byteswap_on_little_endian big w v = v

unfoldable pub byteswap_on_big_endian : Endian → ℕ → ℕ → ℕ
unfolding byteswap
byteswap_on_big_endian little w v = v
byteswap_on_big_endian big w v = byteswap w v

-- The bytes of a variable in the host's memory, and the value that such bytes have there.
unfoldable pub store : Endian → ℕ → ℕ → List ℕ
unfolding to_bytes
store little w v = to_bytes w v
store big w v = reverse (to_bytes w v)

unfoldable pub load : Endian → List ℕ → ℕ
unfolding from_bytes
load little bytes = from_bytes bytes
load big bytes = from_bytes (reverse bytes)

pub length-to_bytes : (w v : ℕ) → length (to_bytes w v) ≡ w
unfolding to_bytes
length-to_bytes zero v = refl
length-to_bytes (suc w) v = ap suc (length-to_bytes w (v / 256))

pub to_bytes-IsByte : (w v : ℕ) → All IsByte (to_bytes w v)
unfolding to_bytes
to_bytes-IsByte zero v = tt
to_bytes-IsByte (suc w) v = (omega arith, to_bytes-IsByte w (v / 256))

pub to_bytes-from_bytes : (bs : List ℕ) → All IsByte bs → to_bytes (length bs) (from_bytes bs) ≡ bs
unfolding to_bytes from_bytes
to_bytes-from_bytes [] h = refl
to_bytes-from_bytes (b ∷ bs) h =
    ap₂ ◌∷◌ (omega (arith, h.0))
      (ap (to_bytes (length bs)) (omega (arith, h.0)) ∙ to_bytes-from_bytes bs h.1)

below_suc : (w v : ℕ) → v < 256 ^ suc w → v / 256 < 256 ^ w
below_suc w v h =
    (div-lt_iff_lt-mul {k = 256} (omega arith)).1 (subst (λ (m : ℕ). v < m) (pow-suc 256 w) h)

pub from_bytes-to_bytes : (w v : ℕ) → v < 256 ^ w → from_bytes (to_bytes w v) ≡ v
unfolding to_bytes from_bytes
from_bytes-to_bytes zero v h = omega arith
from_bytes-to_bytes (suc w) v h = omega (arith, from_bytes-to_bytes w (v / 256) (below_suc w v h))

-- The bytes of a value in a given order, whatever the host.
unfoldable pub wire : Endian → ℕ → ℕ → List ℕ
wire little w v = to_bytes w v
wire big w v = reverse (to_bytes w v)

pub to_bytes-byteswap : (w v : ℕ) → to_bytes w (byteswap w v) ≡ reverse (to_bytes w v)
unfolding byteswap
to_bytes-byteswap w v =
    ap (λ (k : ℕ). to_bytes k (from_bytes (reverse (to_bytes w v))))
      (sym (length-reverse (to_bytes w v) ∙ length-to_bytes w v))
    ∙ to_bytes-from_bytes (reverse (to_bytes w v))
        (reverse-All IsByte (to_bytes w v) (to_bytes-IsByte w v))

-- Swapping the bytes of a number of `w` bytes twice gives the number back.
pub byteswap-byteswap : (w v : ℕ) → v < 256 ^ w → byteswap w (byteswap w v) ≡ v
unfolding byteswap
byteswap-byteswap w v h =
    ap (λ bs. from_bytes (reverse bs)) (to_bytes-byteswap w v)
    ∙ ap from_bytes (reverse-reverse (to_bytes w v))
    ∙ from_bytes-to_bytes w v h

-- What `m_endian != FISHJOY_BYTE_ORDER` and the swap under it come to, before a store and after a load.
unfoldable pub swap_unless : Bool → ℕ → ℕ → ℕ
unfolding byteswap
swap_unless true w v = v
swap_unless false w v = byteswap w v

-- What a host of any byte order stores, after the swap that the buffer's byte order asks for, are
-- the bytes of the number in the buffer's order.
pub store-swap_unless :
    (host e : Endian) (w v : ℕ) → store host w (swap_unless (same e host) w v) ≡ wire e w v
unfolding store wire swap_unless
store-swap_unless little little w v = refl
store-swap_unless little big w v = to_bytes-byteswap w v
store-swap_unless big little w v =
    ap reverse (to_bytes-byteswap w v) ∙ reverse-reverse (to_bytes w v)
store-swap_unless big big w v = refl

pub swap_unless-load :
    (host e : Endian) (w v : ℕ)
    → v < 256 ^ w
    → swap_unless (same e host) w (load host (wire e w v)) ≡ v
unfolding load wire swap_unless
swap_unless-load little little w v h = from_bytes-to_bytes w v h
swap_unless-load little big w v h = byteswap-byteswap w v h
swap_unless-load big little w v h = byteswap-byteswap w v h
swap_unless-load big big w v h =
    ap from_bytes (reverse-reverse (to_bytes w v)) ∙ from_bytes-to_bytes w v h

pub length-wire : (e : Endian) (w v : ℕ) → length (wire e w v) ≡ w
unfolding wire
length-wire little w v = length-to_bytes w v
length-wire big w v = length-reverse (to_bytes w v) ∙ length-to_bytes w v
