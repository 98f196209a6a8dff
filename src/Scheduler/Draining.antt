-- ===== src/Scheduler/Draining.antt =====
-- What becomes of the queue of a stopped scheduler, and of a fiber that is queued twice.
use fishjoy.Base.{
  ℕ, suc, ◌≡◌, refl, ap, ◌∙◌, subst, Bool, true, false, ◌&&◌, not, Option, some, List, [], ◌∷◌, All,
  get_elem?, set, if◌then◌else◌, ok, err, assertion, ◌>>=◌, sym, arith, ◌==◌,
}
use fishjoy.Scheduler.{
  FiberState, running, ready, term, is_term, fiber, Task, looking, idling, exited, taken, passed,
  inside, may_resume, switch_in, Worker, Scheduler, stopping, tickle_if, is_empty, pick, Pick,
  update, at_stage, dispatch, look, enter, rest_a_while, advance, Act, work, acts,
}
use fishjoy.Scheduler.Stepping.{
  is_fresh, Runnable, get_elem-set, may_resume-fresh, act-work, act-look, act-enter, act-refused,
  act-switch_in, acts-ok, get_elem-set_other,
}
use fishjoy.Scheduler.Turns.{Apart, out, after_turn, still_Runnable, out-Over}

-- The scheduler is stopped and its other workers have nothing at hand; worker `i` is about to look
-- at a queue of tasks that it may all run.
pub record Ready (i : ℕ) (w : Worker) (s : Scheduler) : Type 0 where
  pub told : s.is_stopping ≡ true
  pub no_others : s.active ≡ 0
  pub here : get_elem? s.workers i ≡ some w
  pub looks : w.stage ≡ looking
  pub alive : is_term w.idle_fiber ≡ false
  pub fit : All (Runnable s.fibers w.id) s.tasks

-- The tasks of a plan, which says of each whether its fiber ends.
abbrev pub tasks_of : List (Task × Bool) → List Task
tasks_of [] = []
tasks_of ((t, e) ∷ plan) = t ∷ tasks_of plan

-- A fiber that ends is not queued again behind.
abbrev pub IsPlan : List (Task × Bool) → Type 0
IsPlan [] = Unit
IsPlan ((t, e) ∷ plan) = (e ≡ true → Apart t.job (tasks_of plan)) × IsPlan plan

-- As many steps as the tasks need, and the three that end the loop.
abbrev pub rounds : ℕ → List (Task × Bool) → List Act
rounds i [] = work i false ∷ work i false ∷ work i false ∷ []
rounds i ((t, e) ∷ plan) = work i false ∷ work i false ∷ work i false ∷ out i e (rounds i plan)

-- The steps of one task.
one_round :
    (i : ℕ) (w : Worker) (s : Scheduler) (t : Task) (e : Bool) (ts : List Task) (rest : List Act)
    → Ready i w s
    → s.tasks ≡ t ∷ ts
    → (e ≡ true → Apart t.job ts)
    → (s' : Scheduler) × (acts s (work i false ∷ work i false ∷ work i false ∷ out i e rest)
        ≡ acts s' rest)
      × Ready i (at_stage w looking) s'
      × (s'.tasks ≡ ts)
      × (s'.done ≡ t ∷ s.done)
unfolding switch_in
one_round i w s t e ts rest r q apart =
    let fits = subst (All (Runnable s.fibers w.id)) q r.fit in
    let w₁ = at_stage w (taken t) in
    let s₁ =
      dispatch (record s { tasks = ts; tickles = tickle_if (not (is_empty ts)) s.tickles }) i w
        (some t) in
    let at₁ = get_elem-set s.workers i w w₁ r.here in
    let w₂ = at_stage w (passed t) in
    let s₂ = record s₁ { workers = set s₁.workers i w₂ } in
    let at₂ = get_elem-set s₁.workers i w₁ w₂ at₁ in
    let w₃ = at_stage w (inside t) in
    let s₃ = switch_in s₂ i w₂ t in
    let at₃ = get_elem-set s₂.workers i w₂ w₃ at₂ in
    let (s', runs, o) = out-Over i w₃ s₃ t s.fibers e rest at₃ refl refl fits.0.1 in
    (
      s',
      acts-ok s s₁ (work i false) (work i false ∷ work i false ∷ out i e rest)
            (act-look s i w r.here t ts r.looks q fits.0)
          ∙ acts-ok s₁ s₂ (work i false) (work i false ∷ out i e rest)
              (act-enter s₁ i w₁ at₁ t refl (may_resume-fresh s.fibers t.job fits.0.1))
          ∙ acts-ok s₂ s₃ (work i false) (out i e rest) (act-switch_in s₂ i w₂ at₂ t refl)
          ∙ runs,
      record {
        told = o.told ∙ r.told;
        no_others = o.active ∙ r.no_others;
        here = o.here;
        looks = refl;
        alive = r.alive;
        fit =
            subst (λ (h : ℕ → FiberState). All (Runnable h w.id) s'.tasks) (sym o.fibers)
              (subst (All (Runnable (after_turn s.fibers t.job e) w.id)) (sym o.tasks)
                (still_Runnable s.fibers w.id t.job e ts apart fits.1));
      },
      o.tasks,
      o.done,
    )

look-empty :
    (s : Scheduler) (i : ℕ) (w : Worker)
    → s.tasks ≡ []
    → is_term w.idle_fiber ≡ false
    → look s i w
      ≡ ok (record s {
        tasks = [];
        idle = suc s.idle;
        workers = set s.workers i (at_stage w idling);
      })
unfolding look pick
look-empty s i w q alive =
    ap
      (λ p. p >>= λ (p : Pick). ok (
        dispatch (record s { tasks = p.rest; tickles = tickle_if p.tickle_me s.tickles }) i w
          p.task))
      (ap (pick s.fibers w.id) q)
    ∙ ap
        (λ (b : Bool). ok (
          if b
          then record s { tasks = []; workers = set s.workers i (at_stage w exited) }
          else record s {
            tasks = [];
            idle = suc s.idle;
            workers = set s.workers i (at_stage w idling);
          }))
        alive

all_done : (b : Bool) (active : ℕ) → b ≡ true → active ≡ 0 → (b && true && active == 0) ≡ true
all_done b active e z = rw (e, z) refl

-- The queue is empty: the worker goes to rest, finds the scheduler stopping, and leaves its loop.
last_round :
    (i : ℕ) (w : Worker) (s : Scheduler)
    → Ready i w s
    → s.tasks ≡ []
    → (s' : Scheduler) × (acts s (rounds i []) ≡ ok s')
      × (s'.done ≡ s.done)
      × (s'.tasks ≡ [])
      × (w' : Worker) × (get_elem? s'.workers i ≡ some w')
      × (w'.stage ≡ exited)
unfolding advance look acts rest_a_while stopping pick
last_round i w s r q =
    let idle_w = at_stage w idling in
    let end_w : Worker = record { id = w.id; idle_fiber = term; stage = looking } in
    let s₁ = record s { tasks = []; idle = suc s.idle; workers = set s.workers i idle_w } in
    let s₂ = record s₁ { idle = s.idle; workers = set s₁.workers i end_w } in
    let s₃ = record s₂ { workers = set s₂.workers i (at_stage end_w exited) } in
    let at₁ = get_elem-set s.workers i w idle_w r.here in
    let at₂ = get_elem-set s₁.workers i idle_w end_w at₁ in
    (
      s₃,
      acts-ok s s₁ (work i false) (work i false ∷ work i false ∷ [])
            (act-work s i w r.here looking false r.looks ∙ look-empty s i w q r.alive)
          ∙ acts-ok s₁ s₂ (work i false) (work i false ∷ []) (
              act-work s₁ i idle_w at₁ idling false refl
              ∙ ap
                  (λ (b : Bool). ok (record s₁ {
                    idle = s.idle;
                    workers = set s₁.workers i (record {
                      id = w.id;
                      idle_fiber = if b then term else ready;
                      stage = looking;
                    });
                  }))
                  (all_done s.is_stopping s.active r.told r.no_others))
          ∙ acts-ok s₂ s₃ (work i false) [] (act-work s₂ i end_w at₂ looking false refl),
      refl,
      refl,
      at_stage end_w exited,
      get_elem-set s₂.workers i end_w (at_stage end_w exited) at₂,
      refl,
    )

-- The tasks of the first list on the second, one by one.
abbrev pub onto : List Task → List Task → List Task
onto [] done = done
onto (t ∷ ts) done = onto ts (t ∷ done)

-- Where a scheduler is told to stop, no worker has a task, and a worker that looks at the queue
-- may run all tasks in it, at most seven steps of this worker for each task and three more run all
-- of them in their order, the fibers and callbacks ending or yielding as a plan says: no assertion
-- fails, the queue is empty, and the worker is behind its loop. In the plan a fiber that ends is
-- not queued again behind, and the pointer to one that yields is not the last.
pub rounds-Drained :
    (i : ℕ) (w : Worker) (s : Scheduler) (plan : List (Task × Bool))
    → Ready i w s
    → s.tasks ≡ tasks_of plan
    → IsPlan plan
    → (s' : Scheduler) × (acts s (rounds i plan) ≡ ok s')
      × (s'.done ≡ onto s.tasks s.done)
      × (s'.tasks ≡ [])
      × (w' : Worker) × (get_elem? s'.workers i ≡ some w')
      × (w'.stage ≡ exited)
rounds-Drained i w s plan r q p =
    let (s', e, d, q', w', here, st) = go plan w s r q p in
    (s', e, d ∙ ap (λ ts. onto ts s.done) (sym q), q', w', here, st)
  where
    go :
        (plan : List (Task × Bool)) (w : Worker) (s : Scheduler)
        → Ready i w s
        → s.tasks ≡ tasks_of plan
        → IsPlan plan
        → (s' : Scheduler) × (acts s (rounds i plan) ≡ ok s')
          × (s'.done ≡ onto (tasks_of plan) s.done)
          × (s'.tasks ≡ [])
          × (w' : Worker) × (get_elem? s'.workers i ≡ some w')
          × (w'.stage ≡ exited)
    go [] w s r q p = last_round i w s r q
    go ((t, e) ∷ plan) w s r q (apart, p) =
        let (s₁, runs, r₁, q₁, d₁) =
          one_round i w s t e (tasks_of plan) (rounds i plan) r q apart in
        let (s', e', d, q', w', here, st) = go plan (at_stage w looking) s₁ r₁ q₁ p in
        (s', runs ∙ e', d ∙ ap (onto (tasks_of plan)) d₁, q', w', here, st)

refused : (fibers : ℕ → FiberState) (f : ℕ) → may_resume (update fibers f running) (fiber f) ≡ false
refused fibers f = ground arith

-- Where two workers have both taken a fiber that neither runs nor has ended, and the one resumes
-- it before the other tests its state, the assertion in the resume of the other fails.
pub double-resume :
    (s : Scheduler) (i j f : ℕ) (x y : Worker) (th uh : Option ℕ)
    → get_elem? s.workers i ≡ some x
    → get_elem? s.workers j ≡ some y
    → (i == j) ≡ false
    → x.stage ≡ taken (record { job = fiber f; thread = th })
    → y.stage ≡ taken (record { job = fiber f; thread = uh })
    → is_fresh s.fibers (fiber f) ≡ true
    → acts s (work i false ∷ work i false ∷ work j false ∷ []) ≡ err assertion
unfolding acts advance enter switch_in
double-resume s i j f x y th uh ati atj ne sx sy fresh =
    let t : Task = record { job = fiber f; thread = th } in
    let u : Task = record { job = fiber f; thread = uh } in
    let x₁ = at_stage x (passed t) in
    let s₁ = record s { workers = set s.workers i x₁ } in
    let s₂ = switch_in s₁ i x₁ t in
    let atj₁ = get_elem-set_other s.workers i j y x₁ ne atj in
    acts-ok s s₁ (work i false) (work i false ∷ work j false ∷ [])
      (act-enter s i x ati t sx (may_resume-fresh s.fibers (fiber f) fresh))
    ∙ acts-ok s₁ s₂ (work i false) (work j false ∷ [])
        (act-switch_in s₁ i x₁ (get_elem-set s.workers i x x₁ ati) t refl)
    ∙ ap (λ r. r >>= λ s'. acts s' [])
        (act-refused s₂ j y (get_elem-set_other s₁.workers i j y _ ne atj₁) u sy
          (refused s.fibers f))
