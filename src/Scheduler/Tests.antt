-- ===== src/Scheduler/Tests.antt =====
-- Runs of the scheduler's model, and the theorems at concrete schedulers.
use fishjoy.Base.{
  ℕ, ◌≡◌, refl, ◌==◌, if◌then◌else◌, true, false, none, some, Bool, ◌>>=◌, List, [], ◌∷◌, get_elem?,
  Result, ok, err, assertion, arith,
}
use fishjoy.Scheduler.{
  FiberState, ready, running, Job, fiber, callback, Task, looking, taken, exited, Worker, Pick,
  pick, Scheduler, submit, stop_all, work, Act, acts,
}
use fishjoy.Scheduler.Picking.{Picks, pick-Picks}
use fishjoy.Scheduler.Measures.{total, in_fiber}
use fishjoy.Scheduler.Counting.{Counts, acts-Counts}
use fishjoy.Scheduler.Draining.{Ready, rounds, rounds-Drained, onto, IsPlan, double-resume}

-- Fiber 2 runs, the others are READY.
abbrev states : ℕ → FiberState
states f = if f == 2 then running else ready

abbrev for_any : Job → Task
for_any j = record { job = j; thread = none }

abbrev for_7 : Task
for_7 = record { job = callback 1; thread = some 7 }

abbrev queue : List Task
queue = for_7 ∷ for_any (fiber 2) ∷ for_any (fiber 3) ∷ for_any (callback 4) ∷ []

pick-Picks_example :
    (p : Pick) × (pick states 5 queue ≡ ok p) × Picks states 5 queue p.task p.rest p.tickle_me
pick-Picks_example = pick-Picks states 5 queue (refl, (refl, (refl, (refl, tt))))

abbrev all_ready : ℕ → FiberState
all_ready f = ready

abbrev worker : ℕ → Worker
worker n = record { id = n; idle_fiber = ready; stage = looking }

abbrev fresh_start : Scheduler
fresh_start = record {
  tasks = [];
  active = 0;
  idle = 0;
  is_stopping = false;
  fibers = all_ready;
  workers = worker 5 ∷ worker 7 ∷ [];
  tickles = 0;
  done = [];
  submitted = [];
}

-- A worker runs the callback, the other the fiber, which ends, and both look again.
abbrev history : List Act
history =
    submit for_7
    ∷ submit (for_any (fiber 3))
    ∷ work 0 false
    ∷ work 1 false
    ∷ work 0 false
    ∷ work 1 false
    ∷ work 0 false
    ∷ work 1 false
    ∷ work 0 true
    ∷ work 1 true
    ∷ work 0 false
    ∷ work 0 false
    ∷ stop_all 2 false true
    ∷ work 0 false
    ∷ []

abbrev one_each : Task → ℕ
one_each t = 1

start-Counts : Counts one_each fresh_start
start-Counts = record {
  active_ones = refl;
  idle_ones = refl;
  kept = refl;
  entered = λ f. omega arith;
  real = tt;
}

abbrev outcome : Result Scheduler → Scheduler
outcome (ok s) = s
outcome (err reason) = fresh_start

abbrev later : Scheduler
unfolding acts
later = outcome (acts fresh_start history)

acts-Counts_example : Counts one_each later
unfolding acts
acts-Counts_example = acts-Counts one_each fresh_start history later start-Counts refl

abbrev stopped : Scheduler
stopped = record fresh_start {
  tasks = for_any (fiber 3) ∷ for_any (callback 4) ∷ for_any (fiber 3) ∷ [];
  is_stopping = true;
}

stopped-Ready : Ready 1 (worker 7) stopped
stopped-Ready = record {
  told = refl;
  no_others = refl;
  here = refl;
  looks = refl;
  alive = refl;
  fit = ((refl, refl), ((refl, refl), ((refl, refl), tt)));
}

-- Fiber 3 yields first, and ends as it comes again.
abbrev plan : List (Task × Bool)
plan = (for_any (fiber 3), false) ∷ (for_any (callback 4), true) ∷ (for_any (fiber 3), true) ∷ []

plan-IsPlan : IsPlan plan
plan-IsPlan = (λ e. cc, (λ e. (refl, tt), (λ e. tt, tt)))

rounds-Drained_example :
    (s' : Scheduler) × (acts stopped (rounds 1 plan) ≡ ok s')
    × (s'.done ≡ onto stopped.tasks stopped.done)
    × (s'.tasks ≡ [])
    × (w' : Worker) × (get_elem? s'.workers 1 ≡ some w')
    × (w'.stage ≡ exited)
rounds-Drained_example = rounds-Drained 1 (worker 7) stopped plan stopped-Ready refl plan-IsPlan

-- Two workers took a fiber that was queued twice before either of them resumed it.
abbrev with_3 : ℕ → Worker
with_3 n = record { id = n; idle_fiber = ready; stage = taken (for_any (fiber 3)) }

abbrev both : Scheduler
both = record fresh_start { active = 2; workers = with_3 5 ∷ with_3 7 ∷ [] }

double-resume_example : acts both (work 0 false ∷ work 0 false ∷ work 1 false ∷ []) ≡ err assertion
double-resume_example =
    double-resume both 0 1 3 (with_3 5) (with_3 7) none none refl refl refl refl refl refl

-- Such a state is reached from an empty queue.
abbrev taken_twice : List Act
taken_twice =
    submit (for_any (fiber 3)) ∷ submit (for_any (fiber 3)) ∷ work 0 false ∷ work 1 false ∷ []

both_reached :
    (acts fresh_start taken_twice >>= λ s. acts s (work 0 false ∷ work 0 false ∷ work 1 false ∷ []))
    ≡ err assertion
unfolding acts
both_reached = refl

-- Both pass the assertion before either of them writes RUNNING, and both are in the fiber; as the one
-- has yielded, the assertion of yield fails in the other.
both_inside :
    (acts fresh_start taken_twice >>= λ s.
    acts s (work 0 false ∷ work 1 false ∷ work 0 false ∷ work 1 false ∷ []) >>= λ s.
    ok (total (in_fiber 3) s.workers))
    ≡ ok 2
unfolding acts
both_inside = refl

yield_fails :
    (acts fresh_start taken_twice >>= λ s.
    acts s (work 0 false ∷ work 1 false ∷ work 0 false ∷ work 1 false ∷ []) >>= λ s.
    acts s (work 0 false ∷ work 0 false ∷ work 0 false ∷ work 1 false ∷ work 1 false ∷ []))
    ≡ err assertion
unfolding acts
yield_fails = refl

-- A callback that yields while nothing else keeps its fiber: the destructor's assertion fails.
dropped :
    acts fresh_start (
      submit (for_any (callback 4))
      ∷ work 0 false
      ∷ work 0 false
      ∷ work 0 false
      ∷ work 0 false
      ∷ work 0 false
      ∷ work 0 false
      ∷ work 0 false
      ∷ [])
    ≡ err assertion
unfolding acts
dropped = refl
