-- ===== src/ThreadPool/Bounds.antt =====
-- The bounds and the counters of the pool.
use fishjoy.Base.{
  ℕ, zero, suc, ◌+◌, ◌≤◌, ◌<◌, ◌≡◌, ◌≢◌, refl, sym, ap, Bool, true, false, not, ◌&&◌, Option, none,
  some, List, [], ◌∷◌, ◌++◌, length, length-append, get_elem?, set, max, ltb, ltb→lt, ok, if_cases,
  arith,
}
use fishjoy.ThreadPool.{
  Stage, waiting, blocked, gone, working, Worker, ThreadPool, fresh_workers, start, grow,
  submit_task, less_one, at_stage, await, wake, thread_func, Act, submit, turn, halt, turn_of, act,
  acts, new_pool, set_mode, set_task_que_max_threshold, set_thread_size_threshold,
}

abbrev pub count : (Stage → ℕ) → List Worker → ℕ
count f [] = 0
count f (w ∷ ws) = f w.stage + count f ws

abbrev pub one_waiting : Stage → ℕ
one_waiting waiting = 1
one_waiting blocked = 1
one_waiting gone = 0
one_waiting (working t) = 0

abbrev pub one_alive : Stage → ℕ
one_alive waiting = 1
one_alive blocked = 1
one_alive gone = 0
one_alive (working t) = 1

-- The queue and the number of threads are within their bounds, and while the pool runs the counters
-- count the threads that wait and those that have not left.
pub record Counts (p : ThreadPool) : Type 0 where
  pub sized : p.task_size ≡ length p.tasks
  pub in_room : length p.tasks ≤ p.task_max_threshold
  pub enough : p.init_thread_size ≤ p.cur_thread_size
  pub not_too_many : p.cur_thread_size ≤ max p.init_thread_size p.thread_size_threshold
  pub idle_ones : p.is_running ≡ true → p.idle_thread_size ≡ count one_waiting p.workers
  pub all_ones : p.is_running ≡ true → p.cur_thread_size ≡ count one_alive p.workers

count-append : (f : Stage → ℕ) (xs ys : List Worker) → count f (xs ++ ys) ≡ count f xs + count f ys
count-append f [] ys = omega arith
count-append f (x ∷ xs) ys = omega (arith, count-append f xs ys)

count-set :
    (f : Stage → ℕ) (ws : List Worker) (i : ℕ) (x y : Worker)
    → get_elem? ws i ≡ some x
    → count f (set ws i y) + f x.stage ≡ count f ws + f y.stage
count-set f [] i x y e = cc
count-set f (z ∷ ws) zero x y e = omega (arith, same e)
  where
    same : some z ≡ some x → f z.stage ≡ f x.stage
    same e = cc
count-set f (z ∷ ws) (suc i) x y e = omega (arith, count-set f ws i x y e)

count-fresh_workers : (f : Stage → ℕ) (id n : ℕ) → f waiting ≡ 1 → count f (fresh_workers id n) ≡ n
count-fresh_workers f id zero e = refl
count-fresh_workers f id (suc n) e = omega (arith, e, count-fresh_workers f (suc id) n e)

less_one_pos : (n : ℕ) → 0 < n → suc (less_one n) ≡ n
less_one_pos zero h = absurd (omega arith)
less_one_pos (suc n) h = refl

-- A pool that was set up and then started.
abbrev running : Bool → ℕ → ℕ → ℕ → ThreadPool
running cached threads tasks n = record (new_pool 0) {
  is_cached = cached;
  thread_size_threshold = threads;
  task_max_threshold = tasks;
  is_running = true;
  init_thread_size = n;
  cur_thread_size = n;
  workers = fresh_workers 0 n;
  next_id = 0 + n;
  idle_thread_size = 0 + n;
}

started : (cached : Bool) (threads tasks n : ℕ) → Counts (running cached threads tasks n)
started cached threads tasks n = record {
  sized = refl;
  in_room = omega arith;
  enough = omega arith;
  not_too_many = omega arith;
  idle_ones = λ _. omega (arith, count-fresh_workers one_waiting 0 n refl);
  all_ones = λ _. sym (count-fresh_workers one_alive 0 n refl);
}

-- A pool that was set up before it starts has the right counters, if no pool was made before.
pub start-Counts :
    (cached : Bool) (threads tasks n : ℕ)
    → (p : ThreadPool) × (start
          (set_thread_size_threshold
            (set_task_que_max_threshold (set_mode (new_pool 0) cached) tasks)
            threads)
          n
        ≡ ok p)
      × Counts p
unfolding start
start-Counts true threads tasks n =
    (running true threads tasks n, refl, started true threads tasks n)
start-Counts false threads tasks n = (running false 10 tasks n, refl, started false 10 tasks n)

grow-Counts : (p : ThreadPool) → Counts p → Counts (grow p)
unfolding grow
grow-Counts p c =
    if_cases Counts
      (p.is_cached
        && ltb p.idle_thread_size p.task_size
        && ltb p.cur_thread_size p.thread_size_threshold)
      _ _
      (λ h. record {
        sized = c.sized;
        in_room = c.in_room;
        enough = omega (arith, c.enough);
        not_too_many = room (p.is_cached && ltb p.idle_thread_size p.task_size) h;
        idle_ones = λ r. omega (
          arith,
          c.idle_ones r,
          count-append one_waiting p.workers (record { id = p.next_id; stage = waiting } ∷ []),
        );
        all_ones = λ r. omega (
          arith,
          c.all_ones r,
          count-append one_alive p.workers (record { id = p.next_id; stage = waiting } ∷ []),
        );
      })
      (λ _. c)
  where
    room :
        (b : Bool)
        → (b && ltb p.cur_thread_size p.thread_size_threshold) ≡ true
        → suc p.cur_thread_size ≤ max p.init_thread_size p.thread_size_threshold
    room true h = omega (arith, ltb→lt p.cur_thread_size p.thread_size_threshold h)
    room false h = cc

submit_task-Counts : (p : ThreadPool) (task : ℕ) → Counts p → Counts (submit_task p task)
unfolding submit_task
submit_task-Counts p task c =
    if_cases Counts (ltb (length p.tasks) p.task_max_threshold) _ _
      (λ h. grow-Counts _ (record {
        sized = omega (arith, c.sized, length-append p.tasks (task ∷ []));
        in_room = omega (
          arith,
          ltb→lt (length p.tasks) p.task_max_threshold h,
          length-append p.tasks (task ∷ []),
        );
        enough = c.enough;
        not_too_many = c.not_too_many;
        idle_ones = c.idle_ones;
        all_ones = c.all_ones;
      }))
      (λ _. c)

module _ (p : ThreadPool) (i : ℕ) (w : Worker) (at : get_elem? p.workers i ≡ some w)
    (c : Counts p) where
  stays_running : (b : Bool) → not b ≡ false → b ≡ true
  stays_running true e = refl
  stays_running false e = cc

  -- The worker waits, at the test or in the condition variable.
  abbrev Waits : Type 0
  Waits = (one_waiting w.stage ≡ 1) × (one_alive w.stage ≡ 1)

  taken-Counts :
      (t : ℕ) (ts : List ℕ)
      → Waits
      → p.tasks ≡ t ∷ ts
      → p.is_running ≡ true
      → Counts (record p {
        idle_thread_size = less_one p.idle_thread_size;
        tasks = ts;
        task_size = less_one p.task_size;
        workers = set p.workers i (at_stage w (working t));
      })
  taken-Counts t ts st q r =
      let idle = count-set one_waiting p.workers i w (at_stage w (working t)) at in
      let size = ap (length {A = ℕ}) q in
      record {
        sized =
            omega (arith, c.sized, size, less_one_pos p.task_size (omega (arith, c.sized, size)));
        in_room = omega (arith, c.in_room, size);
        enough = c.enough;
        not_too_many = c.not_too_many;
        idle_ones = λ _. omega (
          arith,
          c.idle_ones r,
          idle,
          st.0,
          less_one_pos p.idle_thread_size (omega (arith, c.idle_ones r, idle, st.0)),
        );
        all_ones = λ _. omega (
          arith,
          c.all_ones r,
          count-set one_alive p.workers i w (at_stage w (working t)) at,
          st.1,
        );
      }

  gone-Counts :
      Waits
      → ltb p.init_thread_size p.cur_thread_size ≡ true
      → Counts (record p {
        workers = set p.workers i (at_stage w gone);
        cur_thread_size = less_one p.cur_thread_size;
        idle_thread_size = less_one p.idle_thread_size;
      })
  gone-Counts st h =
      let idle = count-set one_waiting p.workers i w (at_stage w gone) at in
      let more = ltb→lt p.init_thread_size p.cur_thread_size h in
      let cur = less_one_pos p.cur_thread_size (omega (arith, more)) in
      record {
        sized = c.sized;
        in_room = c.in_room;
        enough = omega (arith, more, cur);
        not_too_many = omega (arith, c.not_too_many, cur);
        idle_ones = λ r. omega (
          arith,
          c.idle_ones r,
          idle,
          st.0,
          less_one_pos p.idle_thread_size (omega (arith, c.idle_ones r, idle, st.0)),
        );
        all_ones = λ r. omega (
          arith,
          c.all_ones r,
          cur,
          count-set one_alive p.workers i w (at_stage w gone) at,
          st.1,
        );
      }

  left-Counts :
      not p.is_running ≡ true → Counts (record p { workers = set p.workers i (at_stage w gone) })
  left-Counts h = record {
    sized = c.sized;
    in_room = c.in_room;
    enough = c.enough;
    not_too_many = c.not_too_many;
    idle_ones = λ r. absurd (stopped p.is_running h r);
    all_ones = λ r. absurd (stopped p.is_running h r);
  }
    where
      stopped : (b : Bool) → not b ≡ true → b ≢ true
      stopped true h r = cc
      stopped false h r = cc

  blocked-Counts : Waits → Counts (record p { workers = set p.workers i (at_stage w blocked) })
  blocked-Counts st = record {
    sized = c.sized;
    in_room = c.in_room;
    enough = c.enough;
    not_too_many = c.not_too_many;
    idle_ones = λ r.
        omega
          (arith, c.idle_ones r, count-set one_waiting p.workers i w (at_stage w blocked) at, st.0);
    all_ones = λ r.
        omega
          (arith, c.all_ones r, count-set one_alive p.workers i w (at_stage w blocked) at, st.1);
  }

  await-Counts : (ts : List ℕ) → Waits → p.tasks ≡ ts → Counts (await p i w ts)
  unfolding await
  await-Counts (t ∷ ts) st q =
      if_cases Counts (not p.is_running) _ _ left-Counts
        (λ r. taken-Counts t ts st q (stays_running p.is_running r))
  await-Counts [] st q = if_cases Counts (not p.is_running) _ _ left-Counts (λ _. blocked-Counts st)

  wake-Counts : (timed_out : Bool) → Waits → Counts (wake p i w timed_out)
  unfolding wake
  wake-Counts timed_out st =
      if_cases Counts (p.is_cached && timed_out && ltb p.init_thread_size p.cur_thread_size) _ _
        (λ h. gone-Counts st (last (p.is_cached && timed_out) _ h))
        (λ _. await-Counts p.tasks st refl)
    where
      last : (a b : Bool) → (a && b) ≡ true → b ≡ true
      last true b h = h
      last false b h = cc

  thread_func-Counts :
      (timed_out : Bool) (st : Stage) → w.stage ≡ st → Counts (thread_func p i w timed_out st)
  unfolding thread_func
  thread_func-Counts timed_out gone st = c
  thread_func-Counts timed_out (working t) st = record {
    sized = c.sized;
    in_room = c.in_room;
    enough = c.enough;
    not_too_many = c.not_too_many;
    idle_ones = λ r. omega (
      arith,
      c.idle_ones r,
      count-set one_waiting p.workers i w (at_stage w waiting) at,
      ap one_waiting st,
    );
    all_ones = λ r. omega (
      arith,
      c.all_ones r,
      count-set one_alive p.workers i w (at_stage w waiting) at,
      ap one_alive st,
    );
  }
  thread_func-Counts timed_out waiting st =
      await-Counts p.tasks (ap one_waiting st, ap one_alive st) refl
  thread_func-Counts timed_out blocked st =
      wake-Counts timed_out (ap one_waiting st, ap one_alive st)

turn_of-Counts :
    (p : ThreadPool) (i : ℕ) (timed_out : Bool) (o : Option Worker)
    → get_elem? p.workers i ≡ o
    → Counts p
    → Counts (turn_of p i timed_out o)
turn_of-Counts p i timed_out none at c = c
turn_of-Counts p i timed_out (some w) at c = thread_func-Counts p i w at c timed_out w.stage refl

act-Counts : (p : ThreadPool) (a : Act) → Counts p → Counts (act p a)
unfolding act
act-Counts p (submit task) c = submit_task-Counts p task c
act-Counts p (turn i timed_out) c = turn_of-Counts p i timed_out (get_elem? p.workers i) refl c
act-Counts p halt c = record {
  sized = c.sized;
  in_room = c.in_room;
  enough = c.enough;
  not_too_many = c.not_too_many;
  idle_ones = λ r. cc;
  all_ones = λ r. cc;
}

-- Through every sequence of submitted tasks, turns of threads and stops a pool with the right
-- counters keeps them: the queue holds no more tasks than it may, and its size is counted; the
-- number of threads is at least the first one, and at most that or the threshold, whichever is
-- greater; and while the pool runs the counters give the threads that wait and those that have not
-- left.
pub pool-Counts : (p : ThreadPool) (as' : List Act) → Counts p → Counts (acts p as')
unfolding acts
pool-Counts p [] c = c
pool-Counts p (a ∷ rest) c = pool-Counts (act p a) rest (act-Counts p a c)
