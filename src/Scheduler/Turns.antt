-- ===== src/Scheduler/Turns.antt =====
-- The turn of a task, from inside its fiber to the loop of `run`.
use fishjoy.Base.{
  ℕ, ◌≡◌, refl, ap, ◌∙◌, subst, Bool, true, false, some, List, [], ◌∷◌, All, get_elem?, set,
  decrement, sym, ◌||◌, arith, ◌==◌,
}
use fishjoy.Scheduler.{
  FiberState, running, ready, term, Job, nothing, fiber, callback, Task, looking, inside, leaving,
  yielding, parted, may_yield, write_state, has_ended, call_yield, switch_out, Worker, Scheduler,
  at_stage, Act, work, acts,
}
use fishjoy.Scheduler.Stepping.{
  is_fresh, Runnable, get_elem-set, act-call_yield, act-yield_test, act-switch_out, act-let_go,
  acts-ok,
}

abbrev pub same_fiber : Job → Job → Bool
same_fiber nothing k = false
same_fiber (callback c) k = false
same_fiber (fiber f) nothing = false
same_fiber (fiber f) (callback c) = false
same_fiber (fiber f) (fiber g) = f == g

abbrev pub Apart : Job → List Task → Type 0
Apart j ts = All (λ t. same_fiber j t.job ≡ false) ts

-- The steps of worker `i` from a fiber that it is in to its loop. The pointer to a fiber that yields is
-- not the last one.
abbrev pub out : ℕ → Bool → List Act → List Act
out i true rest = work i true ∷ work i false ∷ work i false ∷ rest
out i false rest = work i false ∷ work i false ∷ work i false ∷ work i true ∷ rest

-- The states behind the turn of a job.
abbrev pub after_turn : (ℕ → FiberState) → Job → Bool → ℕ → FiberState
after_turn fibers j true = write_state (write_state fibers j running) j term
after_turn fibers j false = write_state (write_state fibers j running) j ready

-- What is READY stays so, but for a fiber that ends.
stays_fresh :
    (fibers : ℕ → FiberState) (j : Job) (e : Bool) (k : Job)
    → (e ≡ true → same_fiber j k ≡ false)
    → is_fresh fibers k ≡ true
    → is_fresh (after_turn fibers j e) k ≡ true
stays_fresh fibers j e nothing apart h = cc
stays_fresh fibers j e (callback c) apart h = refl
stays_fresh fibers nothing true (fiber g) apart h = h
stays_fresh fibers nothing false (fiber g) apart h = h
stays_fresh fibers (callback c) true (fiber g) apart h = h
stays_fresh fibers (callback c) false (fiber g) apart h = h
stays_fresh fibers (fiber f) true (fiber g) apart h = rw (apart refl) h
stays_fresh fibers (fiber f) false (fiber g) apart h = ground (arith, h)

pub still_Runnable :
    (fibers : ℕ → FiberState) (id : ℕ) (j : Job) (e : Bool) (ts : List Task)
    → (e ≡ true → Apart j ts)
    → All (Runnable fibers id) ts
    → All (Runnable (after_turn fibers j e) id) ts
still_Runnable fibers id j e [] apart all = tt
still_Runnable fibers id j e (t ∷ ts) apart ((here, fresh), all) = (
  (here, stays_fresh fibers j e t.job (λ q. (apart q).0) fresh),
  still_Runnable fibers id j e ts (λ q. (apart q).1) all,
)

ended_now :
    (fibers : ℕ → FiberState) (j : Job)
    → (may_yield (write_state fibers j term) j ≡ true)
      × (has_ended (write_state fibers j term) j true ≡ true)
ended_now fibers nothing = (refl, refl)
ended_now fibers (callback c) = (refl, refl)
ended_now fibers (fiber f) = (ground arith, ground arith)

running_now :
    (fibers : ℕ → FiberState) (j : Job)
    → is_fresh fibers j ≡ true
    → (may_yield (write_state fibers j running) j ≡ true)
      × (has_ended (write_state fibers j running) j false ≡ false)
running_now fibers nothing h = cc
running_now fibers (callback c) h = (refl, refl)
running_now fibers (fiber f) h = (ground arith, ground arith)

or_true : (b : Bool) → (b || true) ≡ true
or_true true = refl
or_true false = refl

-- The turn of a task is over: its worker looks for another one.
pub record Over (i : ℕ) (w : Worker) (s : Scheduler) (t : Task) (fs : ℕ → FiberState)
    (s' : Scheduler) : Type 0 where
  pub told : s'.is_stopping ≡ s.is_stopping
  pub active : s'.active ≡ decrement s.active
  pub tasks : s'.tasks ≡ s.tasks
  pub done : s'.done ≡ t ∷ s.done
  pub fibers : s'.fibers ≡ fs
  pub here : get_elem? s'.workers i ≡ some (at_stage w looking)

-- The steps from inside a fiber to the loop.
pub out-Over :
    (i : ℕ) (w : Worker) (s : Scheduler) (t : Task) (fibers : ℕ → FiberState) (e : Bool)
    (rest : List Act)
    → get_elem? s.workers i ≡ some w
    → w.stage ≡ inside t
    → s.fibers ≡ write_state fibers t.job running
    → is_fresh fibers t.job ≡ true
    → (s' : Scheduler) × (acts s (out i e rest) ≡ acts s' rest)
      × Over i w s t (after_turn fibers t.job e) s'
unfolding call_yield switch_out
out-Over i w s t fibers true rest at st fs fresh =
    let (may, has) = ended_now s.fibers t.job in
    let w₁ = at_stage w (leaving t true) in
    let s₁ = call_yield s i w t true in
    let at₁ = get_elem-set s.workers i w w₁ at in
    let w₂ = at_stage w (parted t true) in
    let s₂ = record s₁ { workers = set s₁.workers i w₂ } in
    let at₂ = get_elem-set s₁.workers i w₁ w₂ at₁ in
    let s₃ = record s₂ {
      active = decrement s.active;
      workers = set s₂.workers i (at_stage w looking);
      done = t ∷ s.done;
    } in
    (
      s₃,
      acts-ok s s₁ (work i true) (work i false ∷ work i false ∷ rest)
            (act-call_yield s i w at t true st)
          ∙ acts-ok s₁ s₂ (work i false) (work i false ∷ rest)
              (act-yield_test s₁ i w₁ at₁ t true true refl may has)
          ∙ acts-ok s₂ s₃ (work i false) rest
              (act-let_go s₂ i w₂ at₂ t true false refl (ap (λ (b : Bool). b || false) has)),
      record {
        told = refl;
        active = refl;
        tasks = refl;
        done = refl;
        fibers = ap (λ (h : ℕ → FiberState). write_state h t.job term) fs;
        here = get_elem-set s₂.workers i w₂ (at_stage w looking) at₂;
      },
    )
out-Over i w s t fibers false rest at st fs fresh =
    let (may, has) = running_now fibers t.job fresh in
    let w₁ = at_stage w (leaving t false) in
    let s₁ = call_yield s i w t false in
    let at₁ = get_elem-set s.workers i w w₁ at in
    let w₂ = at_stage w (yielding t false) in
    let s₂ = record s₁ { workers = set s₁.workers i w₂ } in
    let at₂ = get_elem-set s₁.workers i w₁ w₂ at₁ in
    let w₃ = at_stage w (parted t false) in
    let s₃ = switch_out s₂ i w₂ t false in
    let at₃ = get_elem-set s₂.workers i w₂ w₃ at₂ in
    let s₄ = record s₃ {
      active = decrement s.active;
      workers = set s₃.workers i (at_stage w looking);
      done = t ∷ s.done;
    } in
    (
      s₄,
      acts-ok s s₁ (work i false) (work i false ∷ work i false ∷ work i true ∷ rest)
            (act-call_yield s i w at t false st)
          ∙ acts-ok s₁ s₂ (work i false) (work i false ∷ work i true ∷ rest) (
              act-yield_test s₁ i w₁ at₁ t false false refl
                (subst (λ (h : ℕ → FiberState). may_yield h t.job ≡ true) (sym fs) may)
                (subst (λ (h : ℕ → FiberState). has_ended h t.job false ≡ false) (sym fs) has))
          ∙ acts-ok s₂ s₃ (work i false) (work i true ∷ rest)
              (act-switch_out s₂ i w₂ at₂ t false refl)
          ∙ acts-ok s₃ s₄ (work i true) rest (act-let_go s₃ i w₃ at₃ t false true refl (or_true _)),
      record {
        told = refl;
        active = refl;
        tasks = refl;
        done = refl;
        fibers = ap (λ (h : ℕ → FiberState). write_state h t.job ready) fs;
        here = get_elem-set s₃.workers i w₃ (at_stage w looking) at₃;
      },
    )
