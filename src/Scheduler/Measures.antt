-- ===== src/Scheduler/Measures.antt =====
-- Measures of the workers, by the places where they stand.
use fishjoy.Base.{
  ℕ, zero, suc, ◌+◌, ◌≤◌, ◌≡◌, Bool, some, List, [], ◌∷◌, ◌++◌, get_elem?, set, if◌then◌else◌,
  arith, ◌==◌,
}
use fishjoy.Scheduler.{
  Job, nothing, fiber, callback, Task, Stage, looking, idling, exited, taken, passed, inside,
  leaving, yielding, parted, Worker,
}
use fishjoy.Scheduler.Picking.{sum}

abbrev pub total : (Stage → ℕ) → List Worker → ℕ
total f [] = 0
total f (w ∷ ws) = f w.stage + total f ws

abbrev pub busy : Stage → ℕ
busy (taken t) = 1
busy (passed t) = 1
busy (inside t) = 1
busy (leaving t e) = 1
busy (yielding t e) = 1
busy (parted t e) = 1
busy looking = 0
busy idling = 0
busy exited = 0

abbrev pub resting : Stage → ℕ
resting idling = 1
resting (taken t) = 0
resting (passed t) = 0
resting (inside t) = 0
resting (leaving t e) = 0
resting (yielding t e) = 0
resting (parted t e) = 0
resting looking = 0
resting exited = 0

abbrev pub carried : (Task → ℕ) → Stage → ℕ
carried w (taken t) = w t
carried w (passed t) = w t
carried w (inside t) = w t
carried w (leaving t e) = w t
carried w (yielding t e) = w t
carried w (parted t e) = w t
carried w looking = 0
carried w idling = 0
carried w exited = 0

abbrev pub of_fiber : ℕ → Job → ℕ
of_fiber f nothing = 0
of_fiber f (fiber g) = if g == f then 1 else 0
of_fiber f (callback c) = 0

-- Whether the worker is in the fiber, from the write of RUNNING to that of READY.
abbrev pub in_fiber : ℕ → Stage → ℕ
in_fiber f (inside t) = of_fiber f t.job
in_fiber f (leaving t e) = of_fiber f t.job
in_fiber f (yielding t e) = of_fiber f t.job
in_fiber f (parted t e) = 0
in_fiber f (taken t) = 0
in_fiber f (passed t) = 0
in_fiber f looking = 0
in_fiber f idling = 0
in_fiber f exited = 0

abbrev pub bit : Bool → ℕ
bit b = if b then 1 else 0

pub total-set :
    (f : Stage → ℕ) (ws : List Worker) (i : ℕ) (x y : Worker)
    → get_elem? ws i ≡ some x
    → total f (set ws i y) + f x.stage ≡ total f ws + f y.stage
total-set f [] i x y e = cc
total-set f (z ∷ ws) zero x y e = omega (arith, same e)
  where
    same : some z ≡ some x → f z.stage ≡ f x.stage
    same e = cc
total-set f (z ∷ ws) (suc i) x y e = omega (arith, total-set f ws i x y e)

pub total-ge :
    (f : Stage → ℕ) (ws : List Worker) (i : ℕ) (x : Worker)
    → get_elem? ws i ≡ some x
    → f x.stage ≤ total f ws
total-ge f [] i x e = cc
total-ge f (z ∷ ws) zero x e = omega (arith, same e)
  where
    same : some z ≡ some x → f z.stage ≡ f x.stage
    same e = cc
total-ge f (z ∷ ws) (suc i) x e = omega (arith, total-ge f ws i x e)

pub sum-append : (w : Task → ℕ) (xs ys : List Task) → sum w (xs ++ ys) ≡ sum w xs + sum w ys
sum-append w [] ys = omega arith
sum-append w (x ∷ xs) ys = omega (arith, sum-append w xs ys)
