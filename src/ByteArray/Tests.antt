-- ===== src/ByteArray/Tests.antt =====
-- The theorems on the buffer at concrete inputs: blocks of 4 bytes.
use fishjoy.Base.{List, ◌^◌, ◌<◌, ◌≡◌, refl, [], ◌∷◌, ok, arith}
use fishjoy.Endian.{little, big}
use fishjoy.ByteArray.{ByteArray, write, read}
use fishjoy.ByteArray.Valid.{IsValid}
use fishjoy.ByteArray.Appending.{Wrote, write-Wrote}
use fishjoy.ByteArray.Reading.{Read, read-Read}
use fishjoy.ByteArray.Refinement.{Command, put, get, go, Flat, flat_of, flat_run, run, run-flat_run}
use fishjoy.ByteArray.Fixed.{write_fuint, read_fuint}
use fishjoy.ByteArray.Varint.{write_uint, read_uint}
use fishjoy.ByteArray.Strings.{write_string, read_string, write_string_vint, read_string_vint}
use fishjoy.ByteArray.RoundTrip.{
  write_then_read, write_fuint-read_fuint, write_uint-read_uint, write_string-read_string,
  write_string_vint-read_string_vint,
}

-- Seven bytes over two blocks, the position in the second.
abbrev seven : ByteArray
seven = record {
  base_size = 4;
  position = 5;
  capacity = 8;
  size = 7;
  endian = big;
  blocks = (1 ∷ 2 ∷ 3 ∷ 4 ∷ []) ∷ (5 ∷ 6 ∷ 7 ∷ 0 ∷ []) ∷ [];
  cur = 1;
  fill = 0;
}

seven-IsValid : IsValid seven
seven-IsValid = record {
  base_pos = omega arith;
  rooted = omega arith;
  uniform = (refl, (refl, tt));
  full = refl;
  position_le = omega arith;
  size_le = omega arith;
  at_cur = omega arith;
}

-- The position behind the last block.
abbrev spent : ByteArray
spent = record {
  base_size = 4;
  position = 4;
  capacity = 4;
  size = 4;
  endian = big;
  blocks = (1 ∷ 2 ∷ 3 ∷ 4 ∷ []) ∷ [];
  cur = 1;
  fill = 0;
}

spent-IsValid : IsValid spent
spent-IsValid = record {
  base_pos = omega arith;
  rooted = omega arith;
  uniform = (refl, tt);
  full = refl;
  position_le = omega arith;
  size_le = omega arith;
  at_cur = omega arith;
}

write-Wrote_example :
    (b' : ByteArray) × (write seven (8 ∷ 9 ∷ 10 ∷ 11 ∷ []) ≡ ok b')
    × Wrote seven (8 ∷ 9 ∷ 10 ∷ 11 ∷ []) b'
write-Wrote_example = write-Wrote seven (8 ∷ 9 ∷ 10 ∷ 11 ∷ []) seven-IsValid

read-Read_example : (b' : ByteArray) × (read seven 2 ≡ ok (6 ∷ 7 ∷ [], b')) × Read seven 2 b'
read-Read_example = read-Read seven 2 seven-IsValid (omega arith) (omega arith)

write_fuint-read_fuint_example :
    write_then_read (λ b. write_fuint little 4 b 305419896) (read_fuint little 4) seven
    ≡ ok 305419896
write_fuint-read_fuint_example =
    write_fuint-read_fuint little 4 305419896 seven seven-IsValid (omega arith) (omega arith)

write_uint-read_uint_example :
    (300 < 2 ^ 32 → write_then_read (λ b. write_uint 5 b 300) (read_uint 5 32) seven ≡ ok 300)
    × (300 < 2 ^ 64 → write_then_read (λ b. write_uint 10 b 300) (read_uint 10 64) seven ≡ ok 300)
write_uint-read_uint_example = write_uint-read_uint seven 300 seven-IsValid

write_string-read_string_example :
    write_then_read (λ b. write_string little 2 b (104 ∷ 105 ∷ [])) (read_string little 2) seven
    ≡ ok (104 ∷ 105 ∷ [])
write_string-read_string_example =
    write_string-read_string little 2 seven (104 ∷ 105 ∷ []) seven-IsValid (omega arith)
      (omega arith)

write_string_vint-read_string_vint_example :
    write_then_read (λ b. write_string_vint b (104 ∷ 105 ∷ [])) read_string_vint seven
    ≡ ok (104 ∷ 105 ∷ [])
write_string_vint-read_string_vint_example =
    write_string_vint-read_string_vint seven (104 ∷ 105 ∷ []) seven-IsValid (omega arith)
      (omega arith)

abbrev program : List Command
program = get 1 ∷ put (8 ∷ 9 ∷ 10 ∷ []) ∷ go 2 ∷ get 0 ∷ []

abbrev ten : Flat
ten = record { bytes = 1 ∷ 2 ∷ 3 ∷ 4 ∷ 5 ∷ 6 ∷ 7 ∷ 8 ∷ 9 ∷ 10 ∷ []; place = 3 }

run-flat_run_example :
    (b' : ByteArray) × (run seven program ≡ ok (b', 6 ∷ 7 ∷ 3 ∷ []))
    × IsValid b'
    × (flat_of b' ≡ ten)
unfolding flat_run
run-flat_run_example = run-flat_run program seven ten (6 ∷ 7 ∷ 3 ∷ []) seven-IsValid refl
