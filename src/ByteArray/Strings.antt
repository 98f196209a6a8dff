-- ===== src/ByteArray/Strings.antt =====
-- The strings of src/net/bytearray.cpp: a length, of fixed or of variable width, and the bytes.
use fishjoy.Base.{
  ℕ, ◌%◌, ◌^◌, ◌≤◌, ◌<◌, ◌≡◌, sym, subst, List, length, take, drop, Result, ok, ◌>>=◌, arith,
  take-append-drop, length-take,
}
use fishjoy.Endian.{Endian}
use fishjoy.ByteArray.{ByteArray, write, read}
use fishjoy.ByteArray.Runs.{Ahead, read-Ahead}
use fishjoy.ByteArray.Fixed.{write_fuint, read_fuint}
use fishjoy.ByteArray.Varint.{write_uint, read_uint}
use fishjoy.ByteArray.Zigzag.{encode_zigzag, decode_zigzag}

-- writeStringF16, F32 and F64 for 2, 4 and 8 bytes of length: the size is cut to them.
unfoldable pub write_string : Endian → ℕ → ByteArray → List ℕ → Result ByteArray
write_string host w b s = do b' ← write_fuint host w b (length s % 256 ^ w); write b' s

unfoldable pub read_string : Endian → ℕ → ByteArray → Result (List ℕ × ByteArray)
read_string host w b = do (len, b') ← read_fuint host w b; read b' len

-- writeStringVint and readStringVint.
unfoldable pub write_string_vint : ByteArray → List ℕ → Result ByteArray
write_string_vint b s = do b' ← write_uint 10 b (length s % 2 ^ 64); write b' s

unfoldable pub read_string_vint : ByteArray → Result (List ℕ × ByteArray)
read_string_vint b = do (len, b') ← read_uint 10 64 b; read b' len

-- writeInt32 and writeInt64 with readInt32 and readInt64: `size` bytes of `tmp`, `bits` of the word.
unfoldable pub write_int : ℕ → ℕ → ByteArray → ℕ → Result ByteArray
unfolding encode_zigzag
write_int size bits b v = write_uint size b (encode_zigzag (2 ^ bits) v)

unfoldable pub read_int : ℕ → ℕ → ByteArray → Result (ℕ × ByteArray)
unfolding decode_zigzag
read_int rounds bits b = do (v, b') ← read_uint rounds bits b; ok (decode_zigzag (2 ^ bits) v, b')

-- The bytes of a string stand behind its length, and the length takes that many of them.
pub string-Ahead :
    {e : Endian} {b : ByteArray} (s : List ℕ) (k : ℕ)
    → 0 < k
    → k ≤ length s
    → Ahead e s b
    → (b' : ByteArray) × (read b k ≡ ok (take k s, b')) × Ahead e (drop k s) b'
string-Ahead {e} {b} s k pos le r =
    let (b', reads, r') =
      read-Ahead (take k s) (drop k s) (omega (arith, cut))
        (subst (λ bytes. Ahead e bytes b) (sym (take-append-drop k s)) r) in
    (b', subst (λ (n : ℕ). read b n ≡ ok (take k s, b')) cut reads, r')
  where
    cut : length (take k s) ≡ k
    cut = omega (arith, length-take k s)
