-- ===== src/ThreadPool.antt =====
-- The pool of threads of include/fishjoy/thread/threadpool.hpp. A thread is before its
-- loop's test (waiting), in the wait of the condition variable (blocked), runs a task, or has left; what
-- it does under the lock is one step, and so is `start`, the starts of its threads included. Tasks are numbers. The counters are unsigned of
-- 32 bits, of which only the way below 0 is written out. The one second that submitTask waits for room
-- is over when its step is taken.
pub mod Bounds
mod Tests
use fishjoy.Base.{
  ℕ, zero, suc, ◌+◌, ◌-◌, ◌^◌, Bool, true, false, not, ◌&&◌, Option, none, some, List, [], ◌∷◌,
  ◌++◌, length, get_elem?, set, ltb, if◌then◌else◌, Result, ok, err, null_pointer,
}

pub data Stage : Type 0 where
  waiting blocked gone : Stage
  working : ℕ → Stage

pub record Worker : Type 0 where
  pub id : ℕ
  pub stage : Stage

-- `workers` holds threads_, whose entries are those that are not gone. `next_id` is the static counter.
pub record ThreadPool : Type 0 where
  pub workers : List Worker
  pub next_id : ℕ
  pub init_thread_size : ℕ
  pub cur_thread_size : ℕ
  pub thread_size_threshold : ℕ
  pub idle_thread_size : ℕ
  pub tasks : List ℕ
  pub task_size : ℕ
  pub task_max_threshold : ℕ
  pub is_cached : Bool
  pub is_running : Bool

-- The constructor; the static counter is where it is.
abbrev pub new_pool : ℕ → ThreadPool
new_pool next_id = record {
  workers = [];
  next_id = next_id;
  init_thread_size = 0;
  cur_thread_size = 0;
  thread_size_threshold = 10;
  idle_thread_size = 0;
  tasks = [];
  task_size = 0;
  task_max_threshold = 2 ^ 31 - 1;
  is_cached = false;
  is_running = false;
}

abbrev pub set_mode : ThreadPool → Bool → ThreadPool
set_mode p cached = if p.is_running then p else record p { is_cached = cached }

abbrev pub set_task_que_max_threshold : ThreadPool → ℕ → ThreadPool
set_task_que_max_threshold p threshold =
    if p.is_running then p else record p { task_max_threshold = threshold }

abbrev pub set_thread_size_threshold : ThreadPool → ℕ → ThreadPool
set_thread_size_threshold p threshold =
    if p.is_running
    then p
    else if p.is_cached
    then record p { thread_size_threshold = threshold }
    else p

abbrev pub set_init_thread_size : ThreadPool → ℕ → ThreadPool
set_init_thread_size p size = if p.is_running then p else record p { init_thread_size = size }

-- `n` new threads with the ids from `id` on.
abbrev pub fresh_workers : ℕ → ℕ → List Worker
fresh_workers id zero = []
fresh_workers id (suc n) = record { id = id; stage = waiting } ∷ fresh_workers (suc id) n

-- start. It looks the new threads up by the numbers from 0, whatever their ids are.
unfoldable pub start : ThreadPool → ℕ → Result ThreadPool
start p n =
    if ltb 0 p.next_id && ltb 0 n
    then err null_pointer
    else ok (record p {
      is_running = true;
      init_thread_size = n;
      cur_thread_size = n;
      workers = fresh_workers p.next_id n;
      next_id = p.next_id + n;
      idle_thread_size = p.idle_thread_size + n;
    })

-- The part of submitTask that may make a thread.
unfoldable pub grow : ThreadPool → ThreadPool
grow p =
    if p.is_cached
      && ltb p.idle_thread_size p.task_size
      && ltb p.cur_thread_size p.thread_size_threshold
    then record p {
      workers = p.workers ++ (record { id = p.next_id; stage = waiting } ∷ []);
      next_id = suc p.next_id;
      cur_thread_size = suc p.cur_thread_size;
      idle_thread_size = suc p.idle_thread_size;
    }
    else p

unfoldable pub submit_task : ThreadPool → ℕ → ThreadPool
unfolding grow
submit_task p task =
    if ltb (length p.tasks) p.task_max_threshold
    then grow (record p { tasks = p.tasks ++ (task ∷ []); task_size = suc p.task_size })
    else p

abbrev pub less_one : ℕ → ℕ
less_one zero = 2 ^ 32 - 1
less_one (suc n) = n

abbrev pub at_stage : Worker → Stage → Worker
at_stage w stage = record w { stage = stage }

-- What a thread does that tests the loop under the lock: it leaves a pool that was stopped, takes a
-- task, or waits.
unfoldable pub await : ThreadPool → ℕ → Worker → List ℕ → ThreadPool
await p i w tasks =
    if not p.is_running
    then record p { workers = set p.workers i (at_stage w gone) }
    else next tasks
  where
    next : List ℕ → ThreadPool
    next (t ∷ ts) = record p {
      idle_thread_size = less_one p.idle_thread_size;
      tasks = ts;
      task_size = less_one p.task_size;
      workers = set p.workers i (at_stage w (working t));
    }
    next [] = record p { workers = set p.workers i (at_stage w blocked) }

-- The wait is over. `timed_out` tells that its second has run out and that the thread had nothing to do
-- for a minute: in the cached mode it then goes, where the pool has more threads than at the start,
-- without a look at the queue or at the state of the pool.
unfoldable pub wake : ThreadPool → ℕ → Worker → Bool → ThreadPool
unfolding await
wake p i w timed_out =
    if p.is_cached && timed_out && ltb p.init_thread_size p.cur_thread_size
    then record p {
      workers = set p.workers i (at_stage w gone);
      cur_thread_size = less_one p.cur_thread_size;
      idle_thread_size = less_one p.idle_thread_size;
    }
    else await p i w p.tasks

-- threadFunc, step by step.
unfoldable pub thread_func : ThreadPool → ℕ → Worker → Bool → Stage → ThreadPool
unfolding await wake
thread_func p i w timed_out waiting = await p i w p.tasks
thread_func p i w timed_out blocked = wake p i w timed_out
thread_func p i w timed_out (working t) = record p {
  idle_thread_size = suc p.idle_thread_size;
  workers = set p.workers i (at_stage w waiting);
}
thread_func p i w timed_out gone = p

pub data Act : Type 0 where
  submit : ℕ → Act
  turn : ℕ → Bool → Act
  halt : Act

abbrev pub turn_of : ThreadPool → ℕ → Bool → Option Worker → ThreadPool
turn_of p i timed_out none = p
turn_of p i timed_out (some w) = thread_func p i w timed_out w.stage

-- `halt` is the first line of the destructor.
unfoldable pub act : ThreadPool → Act → ThreadPool
unfolding submit_task thread_func
act p (submit task) = submit_task p task
act p (turn i timed_out) = turn_of p i timed_out (get_elem? p.workers i)
act p halt = record p { is_running = false }

unfoldable pub acts : ThreadPool → List Act → ThreadPool
unfolding act
acts p [] = p
acts p (a ∷ rest) = acts (act p a) rest
