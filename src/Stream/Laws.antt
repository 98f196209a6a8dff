-- ===== src/Stream/Laws.antt =====
-- What the loops do, where a step that moves bytes moves one at least and no more than asked for.
use fishjoy.Base.{ℕ, zero, suc, ◌+◌, ◌-◌, ◌≤◌, ◌<◌, ◌≡◌, refl, Result, ok, arith}
use fishjoy.Stream.{
  Outcome, moved, stopped, Step, fix_size, on_outcome, read_fix_size, read_fix_size_ba,
  write_fix_size, write_fix_size_ba,
}

module _ {S : Type 0} where
  -- The documented contract of `read` and `write`.
  abbrev pub Contract : Step S → Type 0
  Contract step =
      (s s' : S) (offset n k : ℕ) → 0 < n → step s offset n ≡ (s', moved k) → (0 < k) × (k ≤ n)

  -- The steps from a state on, with an offset and the bytes to go: each goes on where the one before
  -- stopped, until nothing is left or a step stops.
  pub data Runs (step : Step S) (length : ℕ) : S → ℕ → ℕ → S × Outcome → Type 0 where
    complete : (s : S) (offset : ℕ) → Runs step length s offset 0 (s, moved length)
    stop :
        (s s' : S) (offset left n : ℕ)
        → step s offset (suc left) ≡ (s', stopped n)
        → Runs step length s offset (suc left) (s', stopped n)
    go_on :
        (s s' : S) (offset left n : ℕ) (r : S × Outcome)
        → step s offset (suc left) ≡ (s', moved n)
        → Runs step length s' (offset + n) (suc left - n) r
        → Runs step length s offset (suc left) r

  abbrev pub Ends : Step S → ℕ → S → ℕ → ℕ → Result (S × Outcome) → Type 0
  Ends step length s offset left result =
      (r : S × Outcome) × (result ≡ ok r) × Runs step length s offset left r

  fix_size-Runs :
      (step : Step S) (length fuel : ℕ) (s : S) (offset left : ℕ)
      → Contract step
      → left ≤ fuel
      → Ends step length s offset left (fix_size step fuel s offset left length)
  unfolding fix_size
  fix_size-Runs step length fuel s offset zero c h = ((s, moved length), refl, complete s offset)
  fix_size-Runs step length zero s offset (suc left) c h = absurd (omega arith)
  fix_size-Runs step length (suc fuel) s offset (suc left) c h =
      branch (step s offset (suc left)) refl
        (λ s' n le. fix_size-Runs step length fuel s' (offset + n) (suc left - n) c le)
    where
      branch :
          (o : S × Outcome)
          → step s offset (suc left) ≡ o
          → ((s' : S) (n : ℕ)
              → suc left - n ≤ fuel
              → Ends step length s'
                  (offset + n)
                  (suc left - n)
                  (fix_size step fuel s' (offset + n) (suc left - n) length))
          → Ends step length s offset
              (suc left)
              (on_outcome o λ s' n. fix_size step fuel s' (offset + n) (suc left - n) length)
      branch (s', stopped n) e rest = ((s', stopped n), refl, stop s s' offset left n e)
      branch (s', moved n) e rest =
          let (some, few) = c s s' offset (suc left) n (omega arith) e in
          let (r, returns, runs) = rest s' n (omega (arith, some)) in
          (r, returns, go_on s s' offset left n r e runs)

  -- Where each step that moves bytes moves one at least and no more than asked for, the four loops
  -- return: the steps follow on one another until all bytes have moved, and the result is the
  -- length, or until a step stops, and the result is that step's.
  pub fix_sizes-Run :
      (step : Step S) (step_ba : S → ℕ → S × Outcome) (s : S) (length : ℕ)
      → Contract step
      → Contract (λ s offset n. step_ba s n)
      → Ends step length s 0 length (read_fix_size step s length)
        × Ends step length s 0 length (write_fix_size step s length)
        × Ends (λ s offset n. step_ba s n) length s 0 length (read_fix_size_ba step_ba s length)
        × Ends (λ s offset n. step_ba s n) length s 0 length (write_fix_size_ba step_ba s length)
  unfolding read_fix_size write_fix_size read_fix_size_ba write_fix_size_ba
  fix_sizes-Run step step_ba s length c c_ba = (
    fix_size-Runs step length length s 0 length c (omega arith),
    fix_size-Runs step length length s 0 length c (omega arith),
    fix_size-Runs (λ s offset n. step_ba s n) length length s 0 length c_ba (omega arith),
    fix_size-Runs (λ s offset n. step_ba s n) length length s 0 length c_ba (omega arith),
  )
