-- ===== src/ByteArray/RoundTrip.antt =====
-- The writers of src/net/bytearray.cpp and their readers, at one position.
use fishjoy.Base.{
  ℕ, zero, suc, ◌%◌, ◌^◌, ◌≤◌, ◌<◌, ◌≡◌, refl, sym, ap, ◌∙◌, subst, List, [], ◌∷◌, ◌++◌, length,
  take, Result, ok, ◌>>=◌, arith, append-nil, >>=-eq-ok, ok-injective,
}
use fishjoy.Endian.{Endian, wire}
use fishjoy.ByteArray.{ByteArray, set_position}
use fishjoy.ByteArray.Valid.{IsValid}
use fishjoy.ByteArray.Runs.{Behind, Ahead, start-Behind, write-Behind, set_position-Ahead}
use fishjoy.ByteArray.Fixed.{write_fuint, read_fuint, write_fuint-Behind, read_fuint-Ahead}
use fishjoy.ByteArray.Varint.{write_uint, read_uint, write_uint-Behind, read_uint-Ahead}
use fishjoy.ByteArray.Zigzag.{encode_zigzag, decode_zigzag, decode-encode, encode-lt}
use fishjoy.ByteArray.Strings.{
  write_string, read_string, write_string_vint, read_string_vint, write_int, read_int, string-Ahead,
}
use native.Mathlib.Nat.{mod-lt, mod-eq_of_lt, pow-suc}

-- The writer runs at the position, the position is set back, and the reader runs.
pub write_then_read :
    {A : Type 0}
    → (ByteArray → Result ByteArray)
    → (ByteArray → Result (A × ByteArray))
    → ByteArray
    → Result A
write_then_read writer reader b = do
  b₁ ← writer b
  b₂ ← set_position b₁ b.position
  (a, _) ← reader b₂
  ok a

reread :
    {A : Type 0} (writer : ByteArray → Result ByteArray)
    (reader : ByteArray → Result (A × ByteArray)) (b b₁ : ByteArray) (run : List ℕ) (a : A)
    → writer b ≡ ok b₁
    → Behind b.endian b.position run b₁
    → ((b₂ : ByteArray) → Ahead b.endian run b₂ → (b₃ : ByteArray) × (reader b₂ ≡ ok (a, b₃)))
    → write_then_read writer reader b ≡ ok a
unfolding write_then_read
reread writer reader b b₁ run a writes r k =
    let (b₂, seeks, ahead) = set_position-Ahead r in
    let (b₃, reads) = k b₂ ahead in rw (writes, seeks, reads)

-- In a valid buffer an unsigned number of `w` bytes, for `w` above 0, that is written, and read
-- after the position is set back, comes back the same, for either byte order of the buffer and of
-- the host.
pub write_fuint-read_fuint :
    (host : Endian) (w v : ℕ) (b : ByteArray)
    → IsValid b
    → 0 < w
    → v < 256 ^ w
    → write_then_read (λ b. write_fuint host w b v) (read_fuint host w) b ≡ ok v
write_fuint-read_fuint host w v b valid pos h =
    let (b₁, writes, r) = write_fuint-Behind host w v (start-Behind b valid) in
    reread _ (read_fuint host w) b b₁ (wire b.endian w v) v writes r λ b₂ ahead.
      let (b₃, reads, _) =
        read_fuint-Ahead host w v [] pos h
          (subst (λ run. Ahead b.endian run b₂) (sym (append-nil _)) ahead) in
      (b₃, reads)

-- In a valid buffer a number of 32 bits (or 64) that is written with variable length, in a scratch
-- array of 5 (or 10) bytes, and read after the position is set back, comes back the same.
pub write_uint-read_uint :
    (b : ByteArray) (v : ℕ)
    → IsValid b
    → (v < 2 ^ 32 → write_then_read (λ b. write_uint 5 b v) (read_uint 5 32) b ≡ ok v)
      × (v < 2 ^ 64 → write_then_read (λ b. write_uint 10 b v) (read_uint 10 64) b ≡ ok v)
write_uint-read_uint b v valid =
    (λ h. sized 5 32 (omega arith) (omega arith) h, λ h. sized 10 64 (omega arith) (omega arith) h)
  where
    sized :
        (size bits : ℕ)
        → 0 < size
        → v < 128 ^ size
        → v < 2 ^ bits
        → write_then_read (λ b. write_uint size b v) (read_uint size bits) b ≡ ok v
    sized size bits pos h fits =
        let (run, b₁, e, writes, r) = write_uint-Behind size v pos h (start-Behind b valid) in
        reread _ (read_uint size bits) b b₁ run v writes r λ b₂ ahead.
          let (b₃, reads, _) =
            read_uint-Ahead b₂ size size bits v run [] e (omega arith) fits
              (subst (λ run. Ahead b.endian run b₂) (sym (append-nil _)) ahead) in
          (b₃, reads)

pos_pow : (w : ℕ) → 0 < 256 ^ w
pos_pow zero = omega arith
pos_pow (suc w) = omega (arith, pow-suc 256 w, pos_pow w)

mod_le : (n m : ℕ) → n % m ≤ n
mod_le n m = omega arith

take_all : (s : List ℕ) → take (length s) s ≡ s
take_all [] = refl
take_all (x ∷ s) = ap (◌∷◌ x) (take_all s)

map_read :
    {A B : Type 0} (f : A → B) (writer : ByteArray → Result ByteArray)
    (reader : ByteArray → Result (A × ByteArray)) (b : ByteArray) (a : A)
    → write_then_read writer reader b ≡ ok a
    → write_then_read writer (λ b. reader b >>= λ r. ok (f r.0, r.1)) b ≡ ok (f a)
unfolding write_then_read
map_read f writer reader b a e =
    let (b₁, e₁, h₁) = >>=-eq-ok (writer b) _ e in
    let (b₂, e₂, h₂) = >>=-eq-ok (set_position b₁ b.position) _ h₁ in
    let (r, e₃, h₃) = >>=-eq-ok (reader b₂) _ h₂ in
    rw (e₁, e₂, e₃) (ap (λ x. ok (f x)) (ok-injective h₃))

-- In a valid buffer a signed number of 32 or 64 bits, given by its bit pattern, that is written
-- with variable length, and read after the position is set back, comes back the same.
pub write_int-read_int :
    (b : ByteArray) (v : ℕ)
    → IsValid b
    → (v < 2 ^ 32 → write_then_read (λ b. write_int 5 32 b v) (read_int 5 32) b ≡ ok v)
      × (v < 2 ^ 64 → write_then_read (λ b. write_int 10 64 b v) (read_int 10 64) b ≡ ok v)
unfolding write_int read_int
write_int-read_int b v valid = (
  λ h.
      map_read (decode_zigzag (2 ^ 32)) _ (read_uint 5 32) b _
        ((write_uint-read_uint b (encode_zigzag (2 ^ 32) v) valid).0 (encode-lt v).0)
      ∙ ap ok ((decode-encode v).0 h),
  λ h.
      map_read (decode_zigzag (2 ^ 64)) _ (read_uint 10 64) b _
        ((write_uint-read_uint b (encode_zigzag (2 ^ 64) v) valid).1 (encode-lt v).1)
      ∙ ap ok ((decode-encode v).1 h),
)

-- In a valid buffer a string that is written behind its length, a field of `w` bytes with `w`
-- above 0, and read after the position is set back, comes back cut to its length modulo 256 ^ w,
-- if that is not 0.
pub write_string-read_string :
    (host : Endian) (w : ℕ) (b : ByteArray) (s : List ℕ)
    → IsValid b
    → 0 < w
    → 0 < length s % 256 ^ w
    → write_then_read (λ b. write_string host w b s) (read_string host w) b
      ≡ ok (take (length s % 256 ^ w) s)
unfolding write_string read_string
write_string-read_string host w b s valid pos some =
    let len = length s % 256 ^ w in
    let (b₁, writes, r) = write_fuint-Behind host w len (start-Behind b valid) in
    let (b₂, writes', r') = write-Behind s r in
    reread _ (read_string host w) b b₂ (([] ++ wire b.endian w len) ++ s) (take len s)
      (rw (writes, writes')) r'
      λ b₃ ahead.
        let (b₄, reads, ahead') =
          read_fuint-Ahead host w len s pos (mod-lt (length s) {m = 256 ^ w} (pos_pow w)) ahead in
        let (b₅, reads', _) = string-Ahead s len some (mod_le (length s) (256 ^ w)) ahead' in
        (b₅, rw (reads, reads'))

-- In a valid buffer a string of 1 to 2 ^ 64 - 1 bytes that is written behind its length of
-- variable width, and read after the position is set back, comes back the same.
pub write_string_vint-read_string_vint :
    (b : ByteArray) (s : List ℕ)
    → IsValid b
    → 0 < length s
    → length s < 2 ^ 64
    → write_then_read (λ b. write_string_vint b s) read_string_vint b ≡ ok s
unfolding write_string_vint read_string_vint
write_string_vint-read_string_vint b s valid some h =
    let len = length s % 2 ^ 64 in
    let whole : len ≡ length s = mod-eq_of_lt h in
    let (run, b₁, e, writes, r) =
      write_uint-Behind 10 len (omega arith) (omega arith) (start-Behind b valid) in
    let (b₂, writes', r') = write-Behind s r in
    reread _ read_string_vint b b₂ (([] ++ run) ++ s) s (rw (writes, writes')) r' λ b₃ ahead.
      let (b₄, reads, ahead') =
        read_uint-Ahead b₃ 10 10 64 len run s e (omega arith) (omega arith) ahead in
      let (b₅, reads', _) =
        string-Ahead s len (omega (arith, whole)) (omega (arith, whole)) ahead' in
      (
        b₅,
        rw (reads, reads') (ap (λ xs. ok (xs, b₅)) (ap (λ (k : ℕ). take k s) whole ∙ take_all s)),
      )
