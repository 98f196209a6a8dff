-- ===== src/Scheduler/Counting.antt =====
-- What the counters of the scheduler count, and where the tasks are.
use fishjoy.Base.{
  ℕ, suc, ◌+◌, ◌≤◌, ◌≡◌, refl, sym, ap, ◌∙◌, subst, Bool, true, false, ◌||◌, inl, inr, Option, none,
  some, List, [], ◌∷◌, All, append-All, get_elem?, set, if◌then◌else◌, if_cases, if_elim, decrement,
  decrement_pos, Result, ok, Bool-cases, >>=-eq-ok, ok-injective, arith, ◌==◌, ==_iff,
}
use fishjoy.Scheduler.{
  FiberState, running, ready, term, is_running, is_term, Job, nothing, fiber, callback, Task, Stage,
  looking, idling, exited, taken, passed, inside, leaving, yielding, parted, may_resume, may_yield,
  write_state, has_ended, switch_in, call_yield, yield_test, switch_out, let_go, Worker, Scheduler,
  schedule, stopping, stop, tickle_if, is_nothing, pick, Pick, at_stage, dispatch, look, enter,
  rest_a_while, advance, Act, submit, stop_all, work, act, acts, work_on,
}
use fishjoy.Scheduler.Picking.{Real, pick-Picks, sum, weight, Picks, Picks-sum, Picks-Real}
use fishjoy.Scheduler.Measures.{
  total, busy, resting, carried, of_fiber, in_fiber, bit, total-set, total-ge, sum-append,
}

-- The counters count the workers with a task and the workers in their idle fiber. Each task that was
-- scheduled is in the queue, or with a worker, or done, as often as it was scheduled (`w` may be any
-- measure of tasks). A fiber that is RUNNING has a worker in it. No task in the queue is empty.
pub record Counts (w : Task → ℕ) (s : Scheduler) : Type 0 where
  pub active_ones : s.active ≡ total busy s.workers
  pub idle_ones : s.idle ≡ total resting s.workers
  pub kept : sum w s.submitted ≡ sum w s.tasks + total (carried w) s.workers + sum w s.done
  pub entered : (f : ℕ) → bit (is_running (s.fibers f)) ≤ total (in_fiber f) s.workers
  pub real : All Real s.tasks

schedule-Counts : (w : Task → ℕ) (s : Scheduler) (t : Task) → Counts w s → Counts w (schedule s t)
unfolding schedule
schedule-Counts w s t c =
    if_cases (Counts w) (is_nothing t.job) _ _
      (λ _. record {
        active_ones = c.active_ones;
        idle_ones = c.idle_ones;
        kept = c.kept;
        entered = c.entered;
        real = c.real;
      })
      (λ e. record {
        active_ones = c.active_ones;
        idle_ones = c.idle_ones;
        kept = omega (arith, c.kept, sum-append w s.tasks (t ∷ []));
        entered = c.entered;
        real = append-All Real s.tasks (t ∷ []) c.real (e, tt);
      })

stop-Counts :
    (w : Task → ℕ) (s s' : Scheduler) (n : ℕ) (root right : Bool)
    → Counts w s
    → stop s n root right ≡ ok s'
    → Counts w s'
unfolding stop
stop-Counts w s s' n root right c e =
    if_elim (λ r. r ≡ ok s') (stopping s) _ _ e (λ _ e₁. subst (Counts w) (ok-injective e₁) c)
      (λ _ e₁.
        if_elim (λ r. r ≡ ok s') right _ _ e₁
          (λ _ e₂. subst (Counts w) (ok-injective e₂) (record {
            active_ones = c.active_ones;
            idle_ones = c.idle_ones;
            kept = c.kept;
            entered = c.entered;
            real = c.real;
          }))
          (λ _ e₂. cc))

module _ (w : Task → ℕ) (s : Scheduler) (i : ℕ) (x : Worker) (at : get_elem? s.workers i ≡ some x)
    (c : Counts w s) where
  -- A worker moves from stage to stage, and the counters with it.
  moved-Counts :
      (y : Worker) (tasks done : List Task) (active idle tickles : ℕ) (fibers : ℕ → FiberState)
      → active + busy x.stage ≡ s.active + busy y.stage
      → idle + resting x.stage ≡ s.idle + resting y.stage
      → sum w tasks + carried w y.stage + sum w done
        ≡ sum w s.tasks + carried w x.stage + sum w s.done
      → ((f l l' : ℕ)
          → l' + in_fiber f x.stage ≡ l + in_fiber f y.stage
          → bit (is_running (s.fibers f)) ≤ l
          → bit (is_running (fibers f)) ≤ l')
      → All Real tasks
      → Counts w (record s {
        tasks = tasks;
        active = active;
        idle = idle;
        fibers = fibers;
        workers = set s.workers i y;
        tickles = tickles;
        done = done;
      })
  moved-Counts y tasks done active idle tickles fibers ha hi hk hf real = record {
    active_ones = omega (arith, ha, c.active_ones, total-set busy s.workers i x y at);
    idle_ones = omega (arith, hi, c.idle_ones, total-set resting s.workers i x y at);
    kept = omega (arith, hk, c.kept, total-set (carried w) s.workers i x y at);
    entered = λ f.
        hf f (total (in_fiber f) s.workers) (total (in_fiber f) (set s.workers i y))
          (total-set (in_fiber f) s.workers i x y at) (c.entered f);
    real = real;
  }

  looked-Counts :
      (p : Pick)
      → x.stage ≡ looking
      → Picks s.fibers x.id s.tasks p.task p.rest p.tickle_me
      → Counts w (
          dispatch
            (record s { tasks = p.rest; tickles = tickle_if p.tickle_me s.tickles })
            i
            x
            p.task)
  looked-Counts p st q = go p.task refl
    where
      no_task : (o : Option Task) → p.task ≡ o → sum w s.tasks ≡ weight w o + sum w p.rest
      no_task o e = subst (λ o. sum w s.tasks ≡ weight w o + sum w p.rest) e (Picks-sum w q)

      go :
          (o : Option Task)
          → p.task ≡ o
          → Counts w (
              dispatch
                (record s { tasks = p.rest; tickles = tickle_if p.tickle_me s.tickles })
                i
                x
                o)
      go (some t) e =
          moved-Counts (at_stage x (taken t)) p.rest s.done (suc s.active) s.idle
            (tickle_if p.tickle_me s.tickles) s.fibers (omega (arith, ap busy st))
            (omega (arith, ap resting st)) (omega (arith, ap (carried w) st, no_task (some t) e))
            (λ f l l' a b. omega (arith, ap (in_fiber f) st, a, b)) (Picks-Real q c.real)
      go none e =
          if_cases (Counts w) (is_term x.idle_fiber) _ _
            (λ _.
              moved-Counts (at_stage x exited) p.rest s.done s.active s.idle
                (tickle_if p.tickle_me s.tickles) s.fibers (omega (arith, ap busy st))
                (omega (arith, ap resting st)) (omega (arith, ap (carried w) st, no_task none e))
                (λ f l l' a b. omega (arith, ap (in_fiber f) st, a, b)) (Picks-Real q c.real))
            (λ _.
              moved-Counts (at_stage x idling) p.rest s.done s.active (suc s.idle)
                (tickle_if p.tickle_me s.tickles) s.fibers (omega (arith, ap busy st))
                (omega (arith, ap resting st)) (omega (arith, ap (carried w) st, no_task none e))
                (λ f l l' a b. omega (arith, ap (in_fiber f) st, a, b)) (Picks-Real q c.real))

  abbrev Keeps : Result Scheduler → Type 0
  Keeps r = (s' : Scheduler) → r ≡ ok s' → Counts w s'

  kept_ok : (s₁ : Scheduler) → Counts w s₁ → Keeps (ok s₁)
  kept_ok s₁ h s' e = subst (Counts w) (ok-injective e) h

  look-Counts : x.stage ≡ looking → Keeps (look s i x)
  unfolding look
  look-Counts st s' e =
      let (p, picked, q) = pick-Picks s.fibers x.id s.tasks c.real in
      let (p', picked', e') = >>=-eq-ok (pick s.fibers x.id s.tasks) _ e in
      subst (Counts w)
        (ap
            (λ p.
              dispatch (record s { tasks = p.rest; tickles = tickle_if p.tickle_me s.tickles }) i x
                p.task)
            (ok-injective (sym picked ∙ picked'))
          ∙ ok-injective e')
        (looked-Counts p st q)

  -- Steps that leave the queue, the counters and the tasks that are done.
  stepped-Counts :
      (y : Worker) (fibers : ℕ → FiberState)
      → busy x.stage ≡ busy y.stage
      → resting x.stage ≡ resting y.stage
      → carried w x.stage ≡ carried w y.stage
      → ((f l l' : ℕ)
          → l' + in_fiber f x.stage ≡ l + in_fiber f y.stage
          → bit (is_running (s.fibers f)) ≤ l
          → bit (is_running (fibers f)) ≤ l')
      → Counts w (record s { fibers = fibers; workers = set s.workers i y })
  stepped-Counts y fibers hb hr hc hf =
      moved-Counts y s.tasks s.done s.active s.idle s.tickles fibers (omega (arith, hb))
        (omega (arith, hr)) (omega (arith, hc)) hf c.real

  enter-Counts : (t : Task) → x.stage ≡ taken t → Keeps (enter s i x t)
  unfolding enter
  enter-Counts t st s' e =
      if_elim (λ r. r ≡ ok s') (may_resume s.fibers t.job) _ _ e
        (λ _ e'. subst (Counts w) (ok-injective e') (
          stepped-Counts (at_stage x (passed t)) s.fibers (ap busy st) (ap resting st)
            (ap (carried w) st) (λ f l l' a b. omega (arith, ap (in_fiber f) st, a, b))))
        (λ _ e'. cc)

  switched_in :
      (j : Job) (f l l' : ℕ)
      → l' ≡ l + of_fiber f j
      → bit (is_running (s.fibers f)) ≤ l
      → bit (is_running (write_state s.fibers j running f)) ≤ l'
  switched_in nothing f l l' a b = omega (arith, a, b)
  switched_in (callback k) f l l' a b = omega (arith, a, b)
  switched_in (fiber g) f l l' a b = ground (arith, a, b)

  switch_in-Counts : (t : Task) → x.stage ≡ passed t → Counts w (switch_in s i x t)
  unfolding switch_in
  switch_in-Counts t st =
      stepped-Counts (at_stage x (inside t)) (write_state s.fibers t.job running) (ap busy st)
        (ap resting st) (ap (carried w) st)
        (λ f l l' a b. switched_in t.job f l l' (omega (arith, ap (in_fiber f) st, a)) b)

  -- A state that is not RUNNING is written by the worker that leaves the fiber, or stays in it.
  written_off :
      (j : Job) (st : FiberState) (f l l' : ℕ)
      → is_running st ≡ false
      → l' + of_fiber f j ≡ l
      → bit (is_running (s.fibers f)) ≤ l
      → bit (is_running (write_state s.fibers j st f)) ≤ l'
  written_off nothing st f l l' off a b = omega (arith, a, b)
  written_off (callback k) st f l l' off a b = omega (arith, a, b)
  written_off (fiber g) st f l l' off a b = ground (arith, off, a, b)

  still_off :
      (j : Job) (st : FiberState) (f l : ℕ)
      → is_running st ≡ false
      → bit (is_running (s.fibers f)) ≤ l
      → bit (is_running (write_state s.fibers j st f)) ≤ l
  still_off nothing st f l off b = b
  still_off (callback k) st f l off b = b
  still_off (fiber g) st f l off b = ground (arith, off, b)

  call_yield-Counts : (t : Task) (e : Bool) → x.stage ≡ inside t → Counts w (call_yield s i x t e)
  unfolding call_yield
  call_yield-Counts t true st =
      stepped-Counts (at_stage x (leaving t true)) (write_state s.fibers t.job term) (ap busy st)
        (ap resting st) (ap (carried w) st)
        (λ f l l' a b. still_off t.job term f l' refl (omega (arith, ap (in_fiber f) st, a, b)))
  call_yield-Counts t false st =
      stepped-Counts (at_stage x (leaving t false)) s.fibers (ap busy st) (ap resting st)
        (ap (carried w) st) (λ f l l' a b. omega (arith, ap (in_fiber f) st, a, b))

  at_end :
      (j : Job) (e : Bool) (f l l' : ℕ)
      → has_ended s.fibers j e ≡ true
      → l' + of_fiber f j ≡ l
      → bit (is_running (s.fibers f)) ≤ l
      → bit (is_running (s.fibers f)) ≤ l'
  at_end nothing e f l l' h a b = omega (arith, a, b)
  at_end (callback k) e f l l' h a b = omega (arith, a, b)
  at_end (fiber g) e f l l' h a b = elim (Bool-cases (g == f)) [
    | inl q ↦ off (s.fibers f) (subst (λ (k : ℕ). is_term (s.fibers k) ≡ true) ((==_iff g f).0 q) h)
    | inr q ↦ ground (arith, q, a, b)
  ]
    where
      off : (st : FiberState) → is_term st ≡ true → bit (is_running st) ≤ l'
      off term h = omega arith
      off ready h = cc
      off running h = cc

  yield_test-Counts : (t : Task) (e : Bool) → x.stage ≡ leaving t e → Keeps (yield_test s i x t e)
  unfolding yield_test
  yield_test-Counts t e st s' q =
      if_elim (λ r. r ≡ ok s') (may_yield s.fibers t.job) _ _ q
        (λ _ q'. subst (Counts w) (ok-injective q') (go (has_ended s.fibers t.job e) refl))
        (λ _ q'. cc)
    where
      go :
          (b : Bool)
          → has_ended s.fibers t.job e ≡ b
          → Counts w (record s {
            workers = set s.workers i (at_stage x (if b then parted t e else yielding t e));
          })
      go true h =
          stepped-Counts (at_stage x (parted t e)) s.fibers (ap busy st) (ap resting st)
            (ap (carried w) st)
            (λ f l l' a b. at_end t.job e f l l' h (omega (arith, ap (in_fiber f) st, a)) b)
      go false h =
          stepped-Counts (at_stage x (yielding t e)) s.fibers (ap busy st) (ap resting st)
            (ap (carried w) st) (λ f l l' a b. omega (arith, ap (in_fiber f) st, a, b))

  switch_out-Counts :
      (t : Task) (e : Bool) → x.stage ≡ yielding t e → Counts w (switch_out s i x t e)
  unfolding switch_out
  switch_out-Counts t e st =
      stepped-Counts (at_stage x (parted t e)) (write_state s.fibers t.job ready) (ap busy st)
        (ap resting st) (ap (carried w) st)
        (λ f l l' a b. written_off t.job ready f l l' refl (omega (arith, ap (in_fiber f) st, a)) b)

  let_go-Counts : (t : Task) (e kept : Bool) → x.stage ≡ parted t e → Keeps (let_go s i x t e kept)
  unfolding let_go
  let_go-Counts t e kept st s' q =
      if_elim (λ r. r ≡ ok s') (has_ended s.fibers t.job e || kept) _ _ q
        (λ _ q'. subst (Counts w) (ok-injective q') (
          moved-Counts (at_stage x looking) s.tasks (t ∷ s.done) (decrement s.active) s.idle
            s.tickles s.fibers
            (omega (
              arith,
              ap busy st,
              decrement_pos s.active
                  (omega (arith, ap busy st, c.active_ones, total-ge busy s.workers i x at)),
            ))
            (omega (arith, ap resting st)) (omega (arith, ap (carried w) st))
            (λ f l l' a b. omega (arith, ap (in_fiber f) st, a, b)) c.real))
        (λ _ q'. cc)

  rest-Counts : x.stage ≡ idling → Counts w (rest_a_while s i x)
  unfolding rest_a_while
  rest-Counts st =
      moved-Counts _ s.tasks s.done s.active (decrement s.idle) s.tickles s.fibers
        (omega (arith, ap busy st))
        (omega (
          arith,
          ap resting st,
          decrement_pos s.idle
              (omega (arith, ap resting st, c.idle_ones, total-ge resting s.workers i x at)),
        ))
        (omega (arith, ap (carried w) st)) (λ f l l' a b. omega (arith, ap (in_fiber f) st, a, b))
        c.real

  advance-Counts : (choice : Bool) (st : Stage) → x.stage ≡ st → Keeps (advance s i choice x st)
  unfolding advance
  advance-Counts choice looking e = look-Counts e
  advance-Counts choice (taken t) e = enter-Counts t e
  advance-Counts choice (passed t) e = kept_ok _ (switch_in-Counts t e)
  advance-Counts choice (inside t) e = kept_ok _ (call_yield-Counts t choice e)
  advance-Counts choice (leaving t b) e = yield_test-Counts t b e
  advance-Counts choice (yielding t b) e = kept_ok _ (switch_out-Counts t b e)
  advance-Counts choice (parted t b) e = let_go-Counts t b choice e
  advance-Counts choice idling e = kept_ok _ (rest-Counts e)
  advance-Counts choice exited e = kept_ok _ c

work_on-Counts :
    (w : Task → ℕ) (s : Scheduler) (i : ℕ) (choice : Bool) (o : Option Worker) (s' : Scheduler)
    → get_elem? s.workers i ≡ o
    → Counts w s
    → work_on s i choice o ≡ ok s'
    → Counts w s'
work_on-Counts w s i choice none s' at c e = subst (Counts w) (ok-injective e) c
work_on-Counts w s i choice (some x) s' at c e =
    advance-Counts w s i x at c choice x.stage refl s' e

act-Counts :
    (w : Task → ℕ) (s : Scheduler) (a : Act) (s' : Scheduler)
    → Counts w s
    → act s a ≡ ok s'
    → Counts w s'
unfolding act
act-Counts w s (submit t) s' c e = subst (Counts w) (ok-injective e) (schedule-Counts w s t c)
act-Counts w s (stop_all n root right) s' c e = stop-Counts w s s' n root right c e
act-Counts w s (work i choice) s' c e =
    work_on-Counts w s i choice (get_elem? s.workers i) s' refl c e

-- From a state where the counters are right, every sequence of steps of the workers, of tasks
-- scheduled and of stops, that passes its assertions, leads to such a state: `active` counts the
-- workers with a task, `idle` those in their idle fiber, each task that was scheduled is in the
-- queue, with a worker or done (by any measure of tasks), a fiber that is RUNNING has a worker in
-- it, and no task in the queue is empty.
pub acts-Counts :
    (w : Task → ℕ) (s : Scheduler) (as' : List Act) (s' : Scheduler)
    → Counts w s
    → acts s as' ≡ ok s'
    → Counts w s'
unfolding acts
acts-Counts w s [] s' c e = subst (Counts w) (ok-injective e) c
acts-Counts w s (a ∷ as') s' c e =
    let (s₁, e₁, e₂) = >>=-eq-ok (act s a) _ e in
    acts-Counts w s₁ as' s' (act-Counts w s a s₁ c e₁) e₂
