-- ===== src/Scheduler/Stepping.antt =====
-- What a worker may run, and the single steps of a worker that stands at a known place.
use fishjoy.Base.{
  ℕ, zero, suc, ◌≡◌, refl, ap, ◌∙◌, Bool, true, false, ◌&&◌, not, some, List, [], ◌∷◌, get_elem?,
  set, if◌then◌else◌, ok, err, assertion, ◌>>=◌, decrement, ◌||◌, arith, ◌==◌,
}
use fishjoy.Scheduler.{
  FiberState, is_running, is_term, Job, nothing, fiber, callback, Task, Stage, looking, taken,
  passed, inside, leaving, yielding, parted, may_resume, may_yield, has_ended, switch_in,
  call_yield, yield_test, switch_out, let_go, Worker, Scheduler, tickle_if, is_nothing, is_empty,
  is_busy, elsewhere, pick, Pick, at_stage, dispatch, look, enter, advance, Act, work, act, acts,
  work_on,
}

-- What a worker may run at once: a callback, or a fiber that is READY, for it or for no thread.
abbrev pub is_fresh : (ℕ → FiberState) → Job → Bool
is_fresh fibers nothing = false
is_fresh fibers (callback c) = true
is_fresh fibers (fiber f) = not (is_running (fibers f)) && not (is_term (fibers f))

abbrev pub Runnable : (ℕ → FiberState) → ℕ → Task → Type 0
Runnable fibers id t = (elsewhere t.thread id ≡ false) × (is_fresh fibers t.job ≡ true)

pub get_elem-set :
    (ws : List Worker) (i : ℕ) (x y : Worker)
    → get_elem? ws i ≡ some x
    → get_elem? (set ws i y) i ≡ some y
get_elem-set [] i x y e = cc
get_elem-set (w ∷ ws) zero x y e = refl
get_elem-set (w ∷ ws) (suc i) x y e = get_elem-set ws i x y e

fresh_job :
    (fibers : ℕ → FiberState) (j : Job)
    → is_fresh fibers j ≡ true
    → (is_nothing j ≡ false) × (is_busy fibers j ≡ false)
fresh_job fibers nothing e = cc
fresh_job fibers (callback c) e = (refl, refl)
fresh_job fibers (fiber f) e = (refl, ground arith)

pub pick-Runnable :
    (fibers : ℕ → FiberState) (id : ℕ) (t : Task) (ts : List Task)
    → Runnable fibers id t
    → pick fibers id (t ∷ ts)
      ≡ ok (record { task = some t; rest = ts; tickle_me = not (is_empty ts) })
unfolding pick
pick-Runnable fibers id t ts (here, fresh) =
    let (real, free) = fresh_job fibers t.job fresh in rw (here, real, free) refl

pub may_resume-fresh :
    (fibers : ℕ → FiberState) (j : Job) → is_fresh fibers j ≡ true → may_resume fibers j ≡ true
may_resume-fresh fibers nothing e = cc
may_resume-fresh fibers (callback c) e = refl
may_resume-fresh fibers (fiber f) e = ground arith

module _ (s : Scheduler) (i : ℕ) (w : Worker) (at : get_elem? s.workers i ≡ some w) where
  -- The step of a worker that stands at a known place.
  pub act-work : (st : Stage) (b : Bool) → w.stage ≡ st → act s (work i b) ≡ advance s i b w st
  unfolding act
  act-work st b e = ap (work_on s i b) at ∙ ap (advance s i b w) e

  pub act-look :
      (t : Task) (ts : List Task)
      → w.stage ≡ looking
      → s.tasks ≡ t ∷ ts
      → Runnable s.fibers w.id t
      → act s (work i false)
        ≡ ok (
            dispatch
              (record s { tasks = ts; tickles = tickle_if (not (is_empty ts)) s.tickles })
              i
              w
              (some t))
  unfolding advance look
  act-look t ts e q r =
      act-work looking false e
      ∙ ap
          (λ p. p >>= λ (p : Pick). ok (
            dispatch (record s { tasks = p.rest; tickles = tickle_if p.tickle_me s.tickles }) i w
              p.task))
          (ap (pick s.fibers w.id) q ∙ pick-Runnable s.fibers w.id t ts r)

  pub act-enter :
      (t : Task)
      → w.stage ≡ taken t
      → may_resume s.fibers t.job ≡ true
      → act s (work i false) ≡ ok (record s { workers = set s.workers i (at_stage w (passed t)) })
  unfolding advance enter
  act-enter t e r = act-work (taken t) false e ∙ rw r refl

  pub act-refused :
      (t : Task)
      → w.stage ≡ taken t
      → may_resume s.fibers t.job ≡ false
      → act s (work i false) ≡ err assertion
  unfolding advance enter
  act-refused t e r = act-work (taken t) false e ∙ rw r refl

  pub act-switch_in :
      (t : Task) → w.stage ≡ passed t → act s (work i false) ≡ ok (switch_in s i w t)
  unfolding advance
  act-switch_in t e = act-work (passed t) false e

  pub act-call_yield :
      (t : Task) (b : Bool) → w.stage ≡ inside t → act s (work i b) ≡ ok (call_yield s i w t b)
  unfolding advance
  act-call_yield t b e = act-work (inside t) b e

  pub act-yield_test :
      (t : Task) (b ended : Bool)
      → w.stage ≡ leaving t b
      → may_yield s.fibers t.job ≡ true
      → has_ended s.fibers t.job b ≡ ended
      → act s (work i false)
        ≡ ok (record s {
          workers = set s.workers i (at_stage w (if ended then parted t b else yielding t b));
        })
  unfolding advance yield_test
  act-yield_test t b ended e m h = act-work (leaving t b) false e ∙ rw (m, h) refl

  pub act-switch_out :
      (t : Task) (b : Bool)
      → w.stage ≡ yielding t b
      → act s (work i false) ≡ ok (switch_out s i w t b)
  unfolding advance
  act-switch_out t b e = act-work (yielding t b) false e

  pub act-let_go :
      (t : Task) (b kept : Bool)
      → w.stage ≡ parted t b
      → (has_ended s.fibers t.job b || kept) ≡ true
      → act s (work i kept)
        ≡ ok (record s {
          active = decrement s.active;
          workers = set s.workers i (at_stage w looking);
          done = t ∷ s.done;
        })
  unfolding advance let_go
  act-let_go t b kept e h = act-work (parted t b) kept e ∙ rw h refl

pub acts-ok :
    (s s' : Scheduler) (a : Act) (as' : List Act) → act s a ≡ ok s' → acts s (a ∷ as') ≡ acts s' as'
unfolding acts
acts-ok s s' a as' e = ap (λ r. r >>= λ s'. acts s' as') e

pub get_elem-set_other :
    (ws : List Worker) (i j : ℕ) (x y : Worker)
    → (i == j) ≡ false
    → get_elem? ws j ≡ some x
    → get_elem? (set ws i y) j ≡ some x
get_elem-set_other [] i j x y ne e = e
get_elem-set_other (w ∷ ws) zero zero x y ne e = cc
get_elem-set_other (w ∷ ws) zero (suc j) x y ne e = e
get_elem-set_other (w ∷ ws) (suc i) zero x y ne e = e
get_elem-set_other (w ∷ ws) (suc i) (suc j) x y ne e =
    get_elem-set_other ws i j x y (ground arith) e
