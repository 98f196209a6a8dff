-- ===== src/Timer/Waiting.antt =====
-- How long `get_next_timer` of src/fiber/timer.cpp waits.
use fishjoy.Base.{ℕ, ◌-◌, ◌^◌, ◌≤◌, ◌≡◌, subst, inl, inr, List, [], ◌∷◌, All, arith}
use fishjoy.Timer.{Heap, TimerManager, wait_for, get_next_timer}
use fishjoy.Timer.Order.{Less, Sorted, In}
use fishjoy.Timer.Removal.{Less-next}
use fishjoy.Timer.Valid.{IsValid}

-- The wait `d` for a set of timers: none is due before the first, and the first is due then.
pub data Waits (h : Heap) (now : ℕ) : List ℕ → ℕ → Type 0 where
  forever : Waits h now [] (2 ^ 64 - 1)
  until :
      (t : ℕ) (ts : List ℕ) {d : ℕ}
      → d ≡ (h t).next - now
      → ((b : ℕ) → In b (t ∷ ts) → d ≤ (h b).next - now)
      → Waits h now (t ∷ ts) d

wait_for-Waits :
    (h : Heap) (now : ℕ) (ts : List ℕ) → Sorted h ts → Waits h now ts (wait_for h now ts)
unfolding wait_for
wait_for-Waits h now [] s = forever
wait_for-Waits h now (t ∷ ts) s = until t ts exact (λ b i. elim i [
  | inl e ↦ subst (λ (k : ℕ). wait_for h now (t ∷ ts) ≤ (h k).next - now) e (omega (arith, exact))
  | inr there ↦ omega (arith, exact, Less-next h t b (less_of_In (Less h t) b ts s.0 there))
])
  where
    exact : wait_for h now (t ∷ ts) ≡ (h t).next - now
    exact = ground arith

    less_of_In : (P : ℕ → Type 0) (b : ℕ) (us : List ℕ) → All P us → In b us → P b
    less_of_In P b [] l i = absurd i
    less_of_In P b (u ∷ us) l (inl e) = subst P e l.0
    less_of_In P b (u ∷ us) l (inr i) = less_of_In P b us l.1 i

-- In a valid manager the wait of `get_next_timer` is the greatest number for an empty set, and
-- else the time to the first timer, which no timer of the set comes before.
pub get_next_timer-Waits :
    (m : TimerManager) (now : ℕ) → IsValid m → Waits m.heap now m.timers (get_next_timer m now).1
unfolding get_next_timer
get_next_timer-Waits m now v = wait_for-Waits m.heap now m.timers v.ordered
