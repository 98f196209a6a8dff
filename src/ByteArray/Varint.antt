-- ===== src/ByteArray/Varint.antt =====
-- The integers of variable length of src/net/bytearray.cpp: seven bits a byte, the lowest group
-- first, the top bit set on every byte but the last. `value & 0x7F` is `value % 128`, `| 0x80` on
-- such a value adds 128, and the groups that the reader joins by `|` have no bit in common, so that
-- it adds them.
use fishjoy.Base.{
  ℕ, zero, suc, ◌+◌, ◌*◌, ◌/◌, ◌%◌, ◌^◌, ◌≤◌, ◌<◌, ◌≡◌, sym, ap, ◌∙◌, subst, List, [], ◌∷◌, ◌++◌,
  length, leb, ltb, if◌then◌else◌, Result, ok, err, out_of_fuel, ◌>>=◌, arith, dec_le, le→leb,
  lt→leb, lt→ltb, le→ltb, >>=-eq-ok, ok-injective,
}
use fishjoy.Endian.{Endian}
use fishjoy.ByteArray.{ByteArray, write, read}
use fishjoy.ByteArray.Runs.{Behind, Ahead, write-Behind, read-Ahead}
use native.Mathlib.Nat.{mod-eq_of_lt, pow-suc, div-lt_iff_lt-mul, div-add-mod}
use native.Mathlib.Numerals.{towards_suc}

-- The bytes that the loop of writeUint32 and writeUint64 puts into `tmp`.
unfoldable pub groups : ℕ → ℕ → Result (List ℕ)
groups zero v = err out_of_fuel
groups (suc fuel) v =
    let more = (do bytes ← groups fuel (v / 128); ok ((v % 128 + 128) ∷ bytes)) in
    if leb 128 v then more else ok (v ∷ [])

-- `tmp` has 5 bytes for 32 bits, and 10 for 64.
unfoldable pub write_uint : ℕ → ByteArray → ℕ → Result ByteArray
write_uint size b v = do bytes ← groups size v; write b bytes

-- readFuint8. One byte has no order.
unfoldable pub read_fuint8 : ByteArray → Result (ℕ × ByteArray)
read_fuint8 b = do (bytes, b') ← read b 1; ok ((elim bytes [ [] ↦ 0 | x ∷ _ ↦ x ]), b')

-- The loop of readUint32 and readUint64 with `rounds` rounds left, on a word with 2 ^ bits values.
unfoldable pub join : ℕ → ℕ → ℕ → ℕ → ByteArray → Result (ℕ × ByteArray)
unfolding read_fuint8
join zero bits shift result b = ok (result, b)
join (suc rounds) bits shift result b = do
  (x, b') ← read_fuint8 b
  let more = join rounds bits (shift + 7) (result + x % 128 * 2 ^ shift % 2 ^ bits) b'
  if ltb x 128 then ok (result + x * 2 ^ shift % 2 ^ bits, b') else more

-- `for (int i = 0; i < 32; i += 7)` has 5 rounds, and up to 64 it has 10.
unfoldable pub read_uint : ℕ → ℕ → ByteArray → Result (ℕ × ByteArray)
unfolding join
read_uint rounds bits b = join rounds bits 0 0 b

below_suc : (fuel v : ℕ) → v < 128 ^ suc fuel → v / 128 < 128 ^ fuel
below_suc fuel v h =
    (div-lt_iff_lt-mul {k = 128} (omega arith)).1 (subst (λ (m : ℕ). v < m) (pow-suc 128 fuel) h)

fuel_left : (fuel v : ℕ) → v < 128 ^ suc fuel → 128 ≤ v → 0 < fuel
fuel_left zero v h big = omega arith
fuel_left (suc fuel) v h big = omega arith

-- The loop of the writer on a number below 128 ^ fuel, with fuel above 0, ends with at least one
-- byte and at most `fuel` bytes.
pub groups_total :
    (fuel v : ℕ)
    → 0 < fuel
    → v < 128 ^ fuel
    → (bytes : List ℕ) × (groups fuel v ≡ ok bytes) × (0 < length bytes) × (length bytes ≤ fuel)
unfolding groups
groups_total zero v pos h = elim pos [ ]
groups_total (suc fuel) v pos h = elim (dec_le 128 v) [
  | yes big ↦
      let (bytes, e, _, le) =
        groups_total fuel (v / 128) (fuel_left fuel v h big) (below_suc fuel v h) in
      ((v % 128 + 128) ∷ bytes, rw (le→leb 128 v big, e), omega arith, omega arith)
  | no small ↦ (v ∷ [], rw (lt→leb 128 v (omega arith)), omega arith, omega arith)
]

read_fuint8-Ahead :
    {e : Endian} {b : ByteArray} (x : ℕ) (more : List ℕ)
    → Ahead e ((x ∷ []) ++ more) b
    → (b' : ByteArray) × (read_fuint8 b ≡ ok (x, b')) × Ahead e more b'
unfolding read_fuint8
read_fuint8-Ahead x more r =
    let (b', reads, r') = read-Ahead (x ∷ []) more (omega arith) r in (b', rw reads, r')

shift_seven : (s : ℕ) → 2 ^ (s + 7) ≡ 128 * 2 ^ s
shift_seven s = simp towards_suc (omega arith)

split_group : (v s : ℕ) → v * 2 ^ s ≡ v % 128 * 2 ^ s + v / 128 * 2 ^ (s + 7)
split_group v s = omega (
  arith,
  ap (λ (t : ℕ). t * 2 ^ s) (div-add-mod v 128),
  ap (λ (t : ℕ). v / 128 * t) (shift_seven s),
)

-- A round that goes on.
join_more :
    (rounds bits shift acc acc' x : ℕ) (b b' : ByteArray)
    → read_fuint8 b ≡ ok (x, b')
    → 128 ≤ x
    → acc + x % 128 * 2 ^ shift % 2 ^ bits ≡ acc'
    → join (suc rounds) bits shift acc b ≡ join rounds bits (shift + 7) acc' b'
unfolding join
join_more rounds bits shift acc acc' x b b' reads big e =
    rw (reads, le→ltb x 128 big) (ap (λ (k : ℕ). join rounds bits (shift + 7) k b') e)

join-groups :
    {e : Endian} (fuel : ℕ) (b : ByteArray) (rounds bits shift v acc : ℕ) (bytes more : List ℕ)
    → groups fuel v ≡ ok bytes
    → fuel ≤ rounds
    → acc + v * 2 ^ shift < 2 ^ bits
    → Ahead e (bytes ++ more) b
    → (b' : ByteArray) × (join rounds bits shift acc b ≡ ok (acc + v * 2 ^ shift, b'))
      × Ahead e more b'
unfolding groups
join-groups zero b rounds bits shift v acc bytes more g h fits r = cc
join-groups (suc fuel) b zero bits shift v acc bytes more g h fits r = absurd (omega arith)
join-groups {e} (suc fuel) b (suc rounds) bits shift v acc bytes more g h fits r =
    elim (dec_le 128 v) [
      | no small ↦
          let found : (v ∷ []) ≡ bytes = ok-injective (rw (lt→leb 128 v (omega arith)) at g) in
          let (b', reads, r') =
            read_fuint8-Ahead v more (subst (λ bs. Ahead e (bs ++ more) b) (sym found) r) in
          (
            b',
            unfold join in
                rw (reads, lt→ltb v 128 (omega arith))
                  (ap (λ (k : ℕ). ok (acc + k, b')) (mod-eq_of_lt (omega (arith, fits)))),
            r',
          )
      | yes big ↦
          let (bs, e', found) = >>=-eq-ok (groups fuel (v / 128)) _ (rw (le→leb 128 v big) at g) in
          let x = v % 128 + 128 in
          let (b', reads, r') =
            read_fuint8-Ahead x (bs ++ more)
              (subst (λ ys. Ahead e (ys ++ more) b) (sym (ok-injective found)) r) in
          let low : x % 128 * 2 ^ shift % 2 ^ bits ≡ v % 128 * 2 ^ shift =
            ap (λ (k : ℕ). k * 2 ^ shift % 2 ^ bits) (omega arith)
            ∙ mod-eq_of_lt (omega (arith, split_group v shift)) in
          let (b'', joins, r'') =
            join-groups fuel b' rounds bits (shift + 7) (v / 128) (acc + v % 128 * 2 ^ shift) bs
              more e' (omega arith) (omega (arith, split_group v shift)) r' in
          (
            b'',
            join_more rounds bits shift acc _ x b b' reads (omega arith)
                  (ap (λ (k : ℕ). acc + k) low)
                ∙ joins
                ∙ ap (λ (k : ℕ). ok (k, b'')) (omega (arith, split_group v shift)),
            r'',
          )
    ]

-- writeUint32 and writeUint64 append a run that readUint32 and readUint64 take back. `size` is the
-- length of `tmp`, and of the rounds of the reader there are at least as many.
pub write_uint-Behind :
    {e : Endian} {p : ℕ} {bytes : List ℕ} {b : ByteArray} (size v : ℕ)
    → 0 < size
    → v < 128 ^ size
    → Behind e p bytes b
    → (run : List ℕ) × (b' : ByteArray) × (groups size v ≡ ok run)
      × (write_uint size b v ≡ ok b')
      × Behind e p (bytes ++ run) b'
unfolding write_uint
write_uint-Behind size v pos h r =
    let (run, e, _, _) = groups_total size v pos h in
    let (b', writes, r') = write-Behind run r in (run, b', e, rw (e, writes), r')

pub read_uint-Ahead :
    {e : Endian} (b : ByteArray) (size rounds bits v : ℕ) (run more : List ℕ)
    → groups size v ≡ ok run
    → size ≤ rounds
    → v < 2 ^ bits
    → Ahead e (run ++ more) b
    → (b' : ByteArray) × (read_uint rounds bits b ≡ ok (v, b')) × Ahead e more b'
unfolding read_uint
read_uint-Ahead b size rounds bits v run more g h fits r =
    let (b', joins, r') =
      join-groups size b rounds bits 0 v 0 run more g h (subst (λ (k : ℕ). k < 2 ^ bits) one fits)
        r in
    (b', joins ∙ ap (λ (k : ℕ). ok (k, b')) (sym one), r')
  where
    one : v ≡ 0 + v * 2 ^ 0
    one = omega arith
