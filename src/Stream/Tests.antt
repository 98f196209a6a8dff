-- ===== src/Stream/Tests.antt =====
-- Runs of the loops, and the theorem at a stream that gives out at most two bytes at a time.
use fishjoy.Base.{ℕ, ◌+◌, ◌≡◌, refl, ap, min, ok, arith}
use fishjoy.Stream.{
  Outcome, moved, stopped, Step, fix_size, read_fix_size, read_fix_size_ba, write_fix_size,
  write_fix_size_ba,
}
use fishjoy.Stream.Laws.{Contract, Ends, fix_sizes-Run}

-- The state counts the bytes that the stream has moved.
abbrev two : Step ℕ
two s offset n = (s + min 2 n, moved (min 2 n))

abbrev two_ba : ℕ → ℕ → ℕ × Outcome
two_ba s n = two s 0 n

amount : Outcome → ℕ
amount (moved k) = k
amount (stopped k) = 0

two-Contract : Contract two
unfolding amount
two-Contract s s' offset n k pos e = omega (arith, same)
  where
    same : min 2 n ≡ k
    same = ap (λ (r : ℕ × Outcome). amount r.1) e

reads : read_fix_size two 0 5 ≡ ok (5, moved 5)
unfolding read_fix_size fix_size
reads = refl

fix_sizes-Run_example :
    Ends two 5 0 0 5 (read_fix_size two 0 5)
    × Ends two 5 0 0 5 (write_fix_size two 0 5)
    × Ends (λ s offset n. two_ba s n) 5 0 0 5 (read_fix_size_ba two_ba 0 5)
    × Ends (λ s offset n. two_ba s n) 5 0 0 5 (write_fix_size_ba two_ba 0 5)
fix_sizes-Run_example = fix_sizes-Run two two_ba 0 5 two-Contract two-Contract
