-- ===== src/Scheduler/Picking.antt =====
-- The walk over the queue in `run` of src/fiber/scheduler.cpp.
use fishjoy.Base.{
  ℕ, ◌+◌, ◌≡◌, refl, Bool, true, false, ◌&&◌, ◌||◌, not, ◌⊎◌, inl, inr, Option, none, some, List,
  [], ◌∷◌, All, ok, arith,
}
use fishjoy.Scheduler.{FiberState, Task, Pick, skip, pick, elsewhere, is_nothing, is_busy, is_empty}

abbrev pub Real : Task → Type 0
Real t = is_nothing t.job ≡ false

-- What the worker may take: a task for it, or for no thread, whose fiber is not running.
abbrev pub eligible : (ℕ → FiberState) → ℕ → Task → Bool
eligible fibers id t = not (elsewhere t.thread id) && not (is_busy fibers t.job)

-- The walk passes over the tasks of `before`, none of which the worker may take, and stops at the
-- first that it may. Another thread is told if a task for another thread was passed over, or if a
-- task is left behind the one taken.
pub data Picks (fibers : ℕ → FiberState) (id : ℕ)
    : List Task → Option Task → List Task → Bool → Type 0 where
  none_left : Picks fibers id [] none [] false
  takes :
      (t : Task) (ts : List Task)
      → eligible fibers id t ≡ true
      → Picks fibers id (t ∷ ts) (some t) ts (not (is_empty ts))
  passes :
      (t : Task) (ts rest : List Task) (o : Option Task) (tell : Bool)
      → eligible fibers id t ≡ false
      → Picks fibers id ts o rest tell
      → Picks fibers id (t ∷ ts) o (t ∷ rest) (elsewhere t.thread id || tell)

eligible_cases :
    (a b : Bool)
    → ((a ≡ true) × ((not a && not b) ≡ false))
      ⊎ ((a ≡ false) × (b ≡ true) × ((not a && not b) ≡ false))
      ⊎ ((a ≡ false) × (b ≡ false) × ((not a && not b) ≡ true))
eligible_cases true b = inl (refl, refl)
eligible_cases false true = inr (inl (refl, refl, refl))
eligible_cases false false = inr (inr (refl, refl, refl))

-- Where no task in the queue is empty, the walk over it ends without a failed assertion: it passes
-- over tasks that the worker may not take, and takes the first that it may. The others stay in
-- their order. Another thread is told exactly where a task for another thread was passed over or a
-- task is left behind the one taken.
pub pick-Picks :
    (fibers : ℕ → FiberState) (id : ℕ) (ts : List Task)
    → All Real ts
    → (p : Pick) × (pick fibers id ts ≡ ok p) × Picks fibers id ts p.task p.rest p.tickle_me
unfolding pick
pick-Picks fibers id [] real =
    (record { task = none; rest = []; tickle_me = false }, refl, none_left)
pick-Picks fibers id (t ∷ ts) real =
    let (p, e, q) = pick-Picks fibers id ts real.1 in
    elim (eligible_cases (elsewhere t.thread id) (is_busy fibers t.job)) [
      | inl (away, no_) ↦ (
        skip t (elsewhere t.thread id) p,
        rw (away, e),
        passes t ts p.rest p.task p.tickle_me no_ q,
      )
      | inr (inl (here, busy, no_)) ↦ (
        skip t (elsewhere t.thread id) p,
        rw (here, real.0, busy, e),
        passes t ts p.rest p.task p.tickle_me no_ q,
      )
      | inr (inr (here, free, yes_)) ↦ (
        record { task = some t; rest = ts; tickle_me = not (is_empty ts) },
        rw (here, real.0, free),
        takes t ts yes_,
      )
    ]

-- A measure of tasks is kept by the walk.
abbrev pub sum : (Task → ℕ) → List Task → ℕ
sum w [] = 0
sum w (t ∷ ts) = w t + sum w ts

abbrev pub weight : (Task → ℕ) → Option Task → ℕ
weight w none = 0
weight w (some t) = w t

pub Picks-sum :
    (w : Task → ℕ) {fibers : ℕ → FiberState} {id : ℕ} {ts rest : List Task} {o : Option Task}
    {tell : Bool}
    → Picks fibers id ts o rest tell
    → sum w ts ≡ weight w o + sum w rest
Picks-sum w none_left = refl
Picks-sum w (takes t ts e) = refl
Picks-sum w (passes t ts rest o tell e q) = omega (arith, Picks-sum w q)

pub Picks-Real :
    {fibers : ℕ → FiberState} {id : ℕ} {ts rest : List Task} {o : Option Task} {tell : Bool}
    → Picks fibers id ts o rest tell
    → All Real ts
    → All Real rest
Picks-Real none_left real = tt
Picks-Real (takes t ts e) real = real.1
Picks-Real (passes t ts rest o tell e q) real = (real.0, Picks-Real q real.1)
