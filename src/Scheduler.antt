-- ===== src/Scheduler.antt =====
-- The scheduler of src/fiber/scheduler.cpp and include/fishjoy/fiber/scheduler.hpp: several threads
-- that run one loop over one queue of tasks.
-- A thread is a worker that stands at one of the places between which the others may act: what the
-- code does under its lock is one step; outside of it the test of a fiber's state and each write of it
-- are steps of their own. Fibers, callbacks and thread numbers are numbers. The fiber that run makes for
-- a callback is its worker's own, and has no number before it is scheduled. `done` and `submitted` are no fields of the class: they
-- list the tasks that were finished and those that were scheduled, the latest first.
pub mod Picking
pub mod Measures
pub mod Counting
pub mod Stepping
pub mod Turns
pub mod Draining
mod Tests
use fishjoy.Base.{
  ℕ, zero, suc, ◌+◌, Bool, true, false, not, ◌&&◌, ◌||◌, Option, none, some, List, [], ◌∷◌, ◌++◌,
  length, get_elem?, set, ◌==◌, if◌then◌else◌, decrement, Result, ok, err, assertion, ◌>>=◌,
}

-- Fiber::State.
pub data FiberState : Type 0 where
  ready running term : FiberState

abbrev pub is_running : FiberState → Bool
is_running running = true
is_running ready = false
is_running term = false

abbrev pub is_term : FiberState → Bool
is_term term = true
is_term ready = false
is_term running = false

pub data Job : Type 0 where
  nothing : Job
  fiber : ℕ → Job
  callback : ℕ → Job

pub record Task : Type 0 where
  pub job : Job
  pub thread : Option ℕ

-- Where a worker stands: before the lock, before the resume of its idle fiber, behind its loop; with a
-- task that it has taken, behind the assertion of resume, in the fiber, at the start of yield, before
-- yield's write of READY, and behind resume. The Boolean tells whether the fiber has run to its end.
pub data Stage : Type 0 where
  looking idling exited : Stage
  taken : Task → Stage
  passed : Task → Stage
  inside : Task → Stage
  leaving : Task → Bool → Stage
  yielding : Task → Bool → Stage
  parted : Task → Bool → Stage

pub record Worker : Type 0 where
  pub id : ℕ
  pub idle_fiber : FiberState
  pub stage : Stage

pub record Scheduler : Type 0 where
  pub tasks : List Task
  pub active : ℕ
  pub idle : ℕ
  pub is_stopping : Bool
  pub fibers : ℕ → FiberState
  pub workers : List Worker
  pub tickles : ℕ
  pub done : List Task
  pub submitted : List Task

abbrev pub is_nothing : Job → Bool
is_nothing nothing = true
is_nothing (fiber f) = false
is_nothing (callback c) = false

abbrev pub is_empty : List Task → Bool
is_empty [] = true
is_empty (t ∷ ts) = false

abbrev pub tickle_if : Bool → ℕ → ℕ
tickle_if b n = if b then suc n else n

-- `schedule` with `scheduleNoLock`. The caller is told of an empty queue also where nothing is added.
unfoldable pub schedule : Scheduler → Task → Scheduler
schedule s t =
    let s' = record s { tickles = tickle_if (is_empty s.tasks) s.tickles } in
    if is_nothing t.job
    then s'
    else record s' { tasks = s.tasks ++ (t ∷ []); submitted = t ∷ s.submitted }

unfoldable pub stopping : Scheduler → Bool
stopping s = s.is_stopping && is_empty s.tasks && s.active == 0

-- The first part of `stop`, up to the resume of the root fiber and the joins. `thread_count` leaves
-- out the caller's thread, and `root` tells whether there is a root fiber. `right` tells whether the
-- thread that calls is the one that the assertions ask for.
abbrev pub tickle_all : ℕ → Bool → ℕ → ℕ
tickle_all thread_count root n = thread_count + tickle_if root n

unfoldable pub stop : Scheduler → ℕ → Bool → Bool → Result Scheduler
unfolding stopping
stop s thread_count root right =
    if stopping s
    then ok s
    else if right
    then ok (record s { is_stopping = true; tickles = tickle_all thread_count root s.tickles })
    else err assertion

-- Whether the task is for another thread than `id`.
abbrev pub elsewhere : Option ℕ → ℕ → Bool
elsewhere none id = false
elsewhere (some t) id = not (t == id)

abbrev pub is_busy : (ℕ → FiberState) → Job → Bool
is_busy fibers nothing = false
is_busy fibers (fiber f) = is_running (fibers f)
is_busy fibers (callback c) = false

pub record Pick : Type 0 where
  pub task : Option Task
  pub rest : List Task
  pub tickle_me : Bool

-- Task `t` is passed over.
abbrev pub skip : Task → Bool → Pick → Pick
skip t other p = record { task = p.task; rest = t ∷ p.rest; tickle_me = other || p.tickle_me }

-- The walk over the queue: the task that the worker takes, the tasks that stay, and whether another
-- thread is told. A task without a fiber and a callback is never in the queue: its assertion.
unfoldable pub pick : (ℕ → FiberState) → ℕ → List Task → Result Pick
pick fibers id [] = ok (record { task = none; rest = []; tickle_me = false })
pick fibers id (t ∷ ts) =
    let later = pick fibers id ts >>= λ p. ok (skip t (elsewhere t.thread id) p) in
    if elsewhere t.thread id
    then later
    else if is_nothing t.job
    then err assertion
    else if is_busy fibers t.job
    then later
    else ok (record { task = some t; rest = ts; tickle_me = not (is_empty ts) })

abbrev pub update : (ℕ → FiberState) → ℕ → FiberState → ℕ → FiberState
update fibers f st g = if f == g then st else fibers g

abbrev pub at_stage : Worker → Stage → Worker
at_stage w st = record w { stage = st }

-- What the worker does with the outcome of its walk.
abbrev pub dispatch : Scheduler → ℕ → Worker → Option Task → Scheduler
dispatch s i w (some t) = record s {
  active = suc s.active;
  workers = set s.workers i (at_stage w (taken t));
}
dispatch s i w none =
    if is_term w.idle_fiber
    then record s { workers = set s.workers i (at_stage w exited) }
    else record s { idle = suc s.idle; workers = set s.workers i (at_stage w idling) }

unfoldable pub look : Scheduler → ℕ → Worker → Result Scheduler
unfolding pick
look s i w = do
  p ← pick s.fibers w.id s.tasks
  ok (dispatch (record s { tasks = p.rest; tickles = tickle_if p.tickle_me s.tickles }) i w p.task)

-- The assertion of Fiber::resume.
abbrev pub may_resume : (ℕ → FiberState) → Job → Bool
may_resume fibers nothing = true
may_resume fibers (callback c) = true
may_resume fibers (fiber f) = not (is_term (fibers f)) && not (is_running (fibers f))

unfoldable pub enter : Scheduler → ℕ → Worker → Task → Result Scheduler
enter s i w t =
    if may_resume s.fibers t.job
    then ok (record s { workers = set s.workers i (at_stage w (passed t)) })
    else err assertion

-- A write of the state of the fiber, if the job is one.
abbrev pub write_state : (ℕ → FiberState) → Job → FiberState → ℕ → FiberState
write_state fibers nothing st = fibers
write_state fibers (callback c) st = fibers
write_state fibers (fiber f) st = update fibers f st

-- Fiber::resume from its write of RUNNING up to the switch.
unfoldable pub switch_in : Scheduler → ℕ → Worker → Task → Scheduler
switch_in s i w t = record s {
  fibers = write_state s.fibers t.job running;
  workers = set s.workers i (at_stage w (inside t));
}

-- The fiber calls yield, or MainFunc does with TERM written before.
unfoldable pub call_yield : Scheduler → ℕ → Worker → Task → Bool → Scheduler
call_yield s i w t ended = record s {
  fibers = if ended then write_state s.fibers t.job term else s.fibers;
  workers = set s.workers i (at_stage w (leaving t ended));
}

abbrev pub may_yield : (ℕ → FiberState) → Job → Bool
may_yield fibers nothing = true
may_yield fibers (callback c) = true
may_yield fibers (fiber f) = is_running (fibers f) || is_term (fibers f)

-- Whether the fiber of a job is at its end.
abbrev pub has_ended : (ℕ → FiberState) → Job → Bool → Bool
has_ended fibers nothing ended = true
has_ended fibers (callback c) ended = ended
has_ended fibers (fiber f) ended = is_term (fibers f)

-- Fiber::yield up to the test for TERM.
unfoldable pub yield_test : Scheduler → ℕ → Worker → Task → Bool → Result Scheduler
yield_test s i w t ended =
    if may_yield s.fibers t.job
    then ok (record s {
      workers = set s.workers i (
          at_stage w (if has_ended s.fibers t.job ended then parted t ended else yielding t ended));
    })
    else err assertion

-- The write of READY, and the switch.
unfoldable pub switch_out : Scheduler → ℕ → Worker → Task → Bool → Scheduler
switch_out s i w t ended = record s {
  fibers = write_state s.fibers t.job ready;
  workers = set s.workers i (at_stage w (parted t ended));
}

-- Behind the resume: the worker is no more active and drops its pointer to the fiber. Where no other is
-- kept the destructor asserts that the fiber has ended.
unfoldable pub let_go : Scheduler → ℕ → Worker → Task → Bool → Bool → Result Scheduler
let_go s i w t ended kept =
    if has_ended s.fibers t.job ended || kept
    then ok (record s {
      active = decrement s.active;
      workers = set s.workers i (at_stage w looking);
      done = t ∷ s.done;
    })
    else err assertion

-- The idle fiber tests `stopping`, and ends or yields.
unfoldable pub rest_a_while : Scheduler → ℕ → Worker → Scheduler
unfolding stopping
rest_a_while s i w = record s {
  idle = decrement s.idle;
  workers =
      set s.workers i
        (record { id = w.id; idle_fiber = if stopping s then term else ready; stage = looking });
}

-- The next step of the worker in the loop of `run`. `choice` is what the program decides: of a fiber,
-- whether it ends; of a pointer that is dropped, whether another one is kept.
unfoldable pub advance : Scheduler → ℕ → Bool → Worker → Stage → Result Scheduler
unfolding look enter switch_in call_yield yield_test switch_out let_go rest_a_while
advance s i choice w looking = look s i w
advance s i choice w (taken t) = enter s i w t
advance s i choice w (passed t) = ok (switch_in s i w t)
advance s i choice w (inside t) = ok (call_yield s i w t choice)
advance s i choice w (leaving t ended) = yield_test s i w t ended
advance s i choice w (yielding t ended) = ok (switch_out s i w t ended)
advance s i choice w (parted t ended) = let_go s i w t ended choice
advance s i choice w idling = ok (rest_a_while s i w)
advance s i choice w exited = ok s

pub data Act : Type 0 where
  submit : Task → Act
  stop_all : ℕ → Bool → Bool → Act
  work : ℕ → Bool → Act

abbrev pub work_on : Scheduler → ℕ → Bool → Option Worker → Result Scheduler
work_on s i choice none = ok s
work_on s i choice (some w) = advance s i choice w w.stage

unfoldable pub act : Scheduler → Act → Result Scheduler
unfolding schedule stop advance
act s (submit t) = ok (schedule s t)
act s (stop_all n root right) = stop s n root right
act s (work i choice) = work_on s i choice (get_elem? s.workers i)

unfoldable pub acts : Scheduler → List Act → Result Scheduler
unfolding act
acts s [] = ok s
acts s (a ∷ as') = act s a >>= λ s'. acts s' as'
