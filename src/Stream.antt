-- ===== src/Stream.antt =====
-- The loops of src/streams/stream.cpp that move a whole run of bytes. `step` is the virtual `read` or
-- `write` of a stream: it takes the state of the stream and the buffer, the offset in the buffer and
-- the number of bytes, and tells how many bytes it has moved. The overloads on a ByteArray have no
-- offset: their buffer keeps its own position. Lengths are below 2 ^ 31, so that the result of type
-- int holds them.
pub mod Laws
mod Tests
use fishjoy.Base.{ℕ, zero, suc, ◌+◌, ◌-◌, Result, ok, err, out_of_fuel}

-- The result of a step: a number above 0, or 0 (the stream is closed) or -n (an error).
pub data Outcome : Type 0 where
  moved : ℕ → Outcome
  stopped : ℕ → Outcome

abbrev pub Step : Type 0 → Type 0
Step S = S → ℕ → ℕ → S × Outcome

module _ {S : Type 0} where
  -- `if(len <= 0) return len;`, and what follows it.
  abbrev pub on_outcome : S × Outcome → (S → ℕ → Result (S × Outcome)) → Result (S × Outcome)
  on_outcome (s, moved n) k = k s n
  on_outcome (s, stopped n) k = ok (s, stopped n)

  -- The loop, with `left` bytes to go. A step that does not stop it moves a byte at least.
  unfoldable pub fix_size : Step S → ℕ → S → ℕ → ℕ → ℕ → Result (S × Outcome)
  fix_size step fuel s offset zero length = ok (s, moved length)
  fix_size step zero s offset (suc left) length = err out_of_fuel
  fix_size step (suc fuel) s offset (suc left) length =
      on_outcome (step s offset (suc left))
        λ s' n. fix_size step fuel s' (offset + n) (suc left - n) length

  unfoldable pub read_fix_size : Step S → S → ℕ → Result (S × Outcome)
  unfolding fix_size
  read_fix_size read s length = fix_size read length s 0 length length

  unfoldable pub read_fix_size_ba : (S → ℕ → S × Outcome) → S → ℕ → Result (S × Outcome)
  unfolding fix_size
  read_fix_size_ba read s length = fix_size (λ s offset n. read s n) length s 0 length length

  unfoldable pub write_fix_size : Step S → S → ℕ → Result (S × Outcome)
  unfolding fix_size
  write_fix_size write s length = fix_size write length s 0 length length

  unfoldable pub write_fix_size_ba : (S → ℕ → S × Outcome) → S → ℕ → Result (S × Outcome)
  unfolding fix_size
  write_fix_size_ba write s length = fix_size (λ s offset n. write s n) length s 0 length length
