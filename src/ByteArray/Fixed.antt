-- ===== src/ByteArray/Fixed.antt =====
-- The integers of fixed width of src/net/bytearray.cpp. `w` is the number of bytes: 1 for
-- writeFint8 and writeFuint8, then 2, 4 and 8. The signed and the unsigned functions of one width
-- have the same body, and take the bit pattern here; so do writeFloat and writeDouble, which copy
-- the bits of the number and go on as writeFuint32 and writeFuint64.
use fishjoy.Base.{ℕ, ◌^◌, ◌<◌, ◌≡◌, ap, ◌∙◌, subst, List, ◌++◌, Result, ok, ◌>>=◌, arith}
use fishjoy.Endian.{
  Endian, same, store, load, swap_unless, wire, store-swap_unless, swap_unless-load, length-wire,
}
use fishjoy.ByteArray.{ByteArray, write, read}
use fishjoy.ByteArray.Runs.{Behind, Ahead, write-Behind, read-Ahead}

module _ (host : Endian) where
  unfoldable pub write_fuint : ℕ → ByteArray → ℕ → Result ByteArray
  write_fuint w b v = write b (store host w (swap_unless (same b.endian host) w v))

  unfoldable pub read_fuint : ℕ → ByteArray → Result (ℕ × ByteArray)
  read_fuint w b = do
    (bytes, b') ← read b w
    ok (swap_unless (same b.endian host) w (load host bytes), b')

  pub write_fuint-Behind :
      {e : Endian} {p : ℕ} {bytes : List ℕ} {b : ByteArray} (w v : ℕ)
      → Behind e p bytes b
      → (b' : ByteArray) × (write_fuint w b v ≡ ok b') × Behind e p (bytes ++ wire e w v) b'
  unfolding write_fuint
  write_fuint-Behind {e} {p} {bytes} {b} w v r =
      let (b', writes, r') = write-Behind (wire e w v) r in
      (
        b',
        ap (write b) (
              ap (λ o. store host w (swap_unless (same o host) w v)) r.order
              ∙ store-swap_unless host e w v)
            ∙ writes,
        r',
      )

  pub read_fuint-Ahead :
      {e : Endian} {b : ByteArray} (w v : ℕ) (more : List ℕ)
      → 0 < w
      → v < 256 ^ w
      → Ahead e (wire e w v ++ more) b
      → (b' : ByteArray) × (read_fuint w b ≡ ok (v, b')) × Ahead e more b'
  unfolding read_fuint
  read_fuint-Ahead {e} {b} w v more some_bytes h r =
      let (b', reads, r') = read-Ahead (wire e w v) more (omega (arith, length-wire e w v)) r in
      (
        b',
        rw (subst (λ (n : ℕ). read b n ≡ ok (wire e w v, b')) (length-wire e w v) reads, r.order)
            (ap (λ (x : ℕ). ok (x, b')) (swap_unless-load host e w v h)),
        r',
      )
