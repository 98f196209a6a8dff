-- ===== src/ByteArray/Zigzag.antt =====
-- The zigzag encoding of signed numbers, in src/net/bytearray.cpp. An int32_t or int64_t is its bit
-- pattern, a number below the modulus `m` (2 ^ 32 or 2 ^ 64), negative from m / 2 on. Negation and
-- the doubling of a signed number wrap. In the decoder `-(v & 1)` is 0 or all ones, and `^` with all
-- ones is `m - 1 - x`.
use fishjoy.Base.{ℕ, ◌+◌, ◌-◌, ◌*◌, ◌/◌, ◌%◌, ◌^◌, ◌<◌, ◌≡◌, ltb, ◌==◌, if◌then◌else◌, arith}

unfoldable pub encode_zigzag : ℕ → ℕ → ℕ
encode_zigzag m v = if ltb v (m / 2) then v * 2 % m else ((m - v) % m * 2 + m - 1) % m

unfoldable pub decode_zigzag : ℕ → ℕ → ℕ
decode_zigzag m v = if v % 2 == 0 then v / 2 else m - 1 - v / 2

pub decode-encode :
    (v : ℕ)
    → (v < 2 ^ 32 → decode_zigzag (2 ^ 32) (encode_zigzag (2 ^ 32) v) ≡ v)
      × (v < 2 ^ 64 → decode_zigzag (2 ^ 64) (encode_zigzag (2 ^ 64) v) ≡ v)
unfolding decode_zigzag encode_zigzag
decode-encode v = (λ h. ground arith, λ h. ground arith)

-- The zigzag encoder gives back every number of 32 bits, and every number of 64 bits, from what
-- the decoder makes of it.
pub encode-decode :
    (v : ℕ)
    → (v < 2 ^ 32 → encode_zigzag (2 ^ 32) (decode_zigzag (2 ^ 32) v) ≡ v)
      × (v < 2 ^ 64 → encode_zigzag (2 ^ 64) (decode_zigzag (2 ^ 64) v) ≡ v)
unfolding decode_zigzag encode_zigzag
encode-decode v = (λ h. ground arith, λ h. ground arith)

pub encode-lt : (v : ℕ) → (encode_zigzag (2 ^ 32) v < 2 ^ 32) × (encode_zigzag (2 ^ 64) v < 2 ^ 64)
unfolding encode_zigzag
encode-lt v = ground arith
