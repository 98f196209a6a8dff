-- ===== src/Fiber/Alternation.antt =====
-- The alternation of a thread and its fibers, as the code's comments prescribe it: the thread's own
-- flow resumes fibers, and a fiber yields to it or ends.
use fishjoy.Base.{
  ℕ, ◌<◌, ◌≡◌, ◌≢◌, refl, sym, ap, ◌∙◌, Bool, true, false, not, ◌&&◌, ◌⊎◌, Option, none, some, ◌==◌,
  if_cases, ok, ok-injective, arith,
}
use mathlib.Core.Path.{fun_ext, ap₂}
use fishjoy.Scheduler.{FiberState, ready, running, term, is_running, is_term}
use fishjoy.Fiber.{
  Flow, own, on_stack, saved, Fiber, Thread, put, deref, found_fiber, check, new_fiber, destroy,
  reset, flow_of, swap, partner, resume, yield, finish,
}

-- A fiber with a stack goes on where it stopped, and is RUNNING only while its flow runs. Only `m`
-- has no stack.
pub record Sound (m : ℕ) (l : Flow) (g : ℕ) (b : Fiber) : Type 0 where
  pub stackless : b.has_stack ≡ false → g ≡ m
  pub goes_on : b.has_stack ≡ true → flow_of g b.context ≡ on_stack g
  pub runs : b.has_stack ≡ true → is_running b.state ≡ true → l ≡ on_stack g

-- The fiber that `this` names is the one whose flow runs.
abbrev pub Control : ℕ → Thread → Flow → Type 0
Control m t own = t.this ≡ some m
Control m t (on_stack f) =
    (t.this ≡ some f)
    × (b : Fiber) × (t.fibers f ≡ some b)
    × (b.has_stack ≡ true)
    × (is_running b.state ≡ true)

-- Fiber `m` stands for the thread and for its scheduler, and its context is the thread's own flow.
pub record IsValid (m : ℕ) (t : Thread) : Type 0 where
  pub main_is : t.main ≡ some m
  pub scheduler_is : t.scheduler ≡ some m
  pub thread_fiber :
      (a : Fiber) × (t.fibers m ≡ some a)
      × (a.has_stack ≡ false)
      × (is_running a.state ≡ true)
      × (a.context ≡ saved own)
  pub made : (g : ℕ) (b : Fiber) → t.fibers g ≡ some b → g < t.ids
  pub sound : (g : ℕ) (b : Fiber) → t.fibers g ≡ some b → Sound m t.flow g b
  pub control : Control m t t.flow

-- What the thread does with its fibers. `m` lives as long as the thread.
pub data Step (m : ℕ) : Thread → Thread → Type 0 where
  creates : (t : Thread) (c : ℕ) (s : Bool) → Step m t (new_fiber t c s)
  resets : (t t' : Thread) (f c : ℕ) → reset t f c ≡ ok t' → Step m t t'
  destroys : (t t' : Thread) (f : ℕ) → f ≢ m → destroy t f ≡ ok t' → Step m t t'
  resumes : (t t' : Thread) (f : ℕ) → t.flow ≡ own → resume t f ≡ ok t' → Step m t t'
  yields : (t t' : Thread) (f : ℕ) → t.flow ≡ on_stack f → yield t f ≡ ok t' → Step m t t'
  finishes : (t t' : Thread) (f : ℕ) → t.flow ≡ on_stack f → finish t f ≡ ok t' → Step m t t'

pub data Steps (m : ℕ) : Thread → Thread → Type 0 where
  stays : (t : Thread) → Steps m t t
  goes : (t t₁ t₂ : Thread) → Step m t t₁ → Steps m t₁ t₂ → Steps m t t₂

pub put_same : (fibers : ℕ → Option Fiber) (f : ℕ) (o : Option Fiber) → put fibers f o f ≡ o
put_same fibers f o = ground arith

pub put_other :
    (fibers : ℕ → Option Fiber) (f g : ℕ) (o : Option Fiber) → f ≢ g → put fibers f o g ≡ fibers g
put_other fibers f g o ne = ground arith

-- A fiber of a changed map is the one put there, or an old one.
pub put_cases :
    (fibers : ℕ → Option Fiber) (f g : ℕ) (o : Option Fiber) (b : Fiber)
    → put fibers f o g ≡ some b
    → ((f ≡ g) × (o ≡ some b)) ⊎ ((f ≢ g) × (fibers g ≡ some b))
put_cases fibers f g o b e = ground arith

pub own-on_stack : (f : ℕ) → own ≢ on_stack f
own-on_stack f e = cc

pub on_stack-injective : (f g : ℕ) → on_stack f ≡ on_stack g → f ≡ g
on_stack-injective f g e = cc

pub some_fiber : (a b : Fiber) → some a ≡ some b → a ≡ b
some_fiber a b e = cc

-- A pointer that is read is to a fiber.
pub deref-ok : (t : Thread) (f : ℕ) (b : Fiber) → deref t (some f) ≡ ok b → t.fibers f ≡ some b
deref-ok t f b e = go (t.fibers f) e
  where
    go : (o : Option Fiber) → found_fiber o ≡ ok b → o ≡ some b
    go none e = cc
    go (some a) e = ap some (ok-injective e)

pub check-ok : (c : Bool) (u : Unit) → check c ≡ ok u → c ≡ true
check-ok true u e = refl
check-ok false u e = cc

partner-main :
    (m : ℕ) (t : Thread) (b : Fiber) → t.main ≡ some m → t.scheduler ≡ some m → partner t b ≡ some m
partner-main m t b e s =
    if_cases (λ (o : Option ℕ). o ≡ some m) b.in_scheduler _ _ (λ _. s) (λ _. e)

-- The two switches, where fiber `f` and the thread's fiber `m` are two.
module _ (m f : ℕ) (t : Thread) (a b : Fiber) (ne : f ≢ m) (at_m : t.fibers m ≡ some a)
    (at_f : t.fibers f ≡ some b) where
  swap_there :
      swap t (some m) (some f)
      ≡ ok (record t {
        fibers = put t.fibers m (some (record a { context = saved t.flow }));
        flow = flow_of f b.context;
      })
  unfolding swap
  swap_there =
      rw
        (
          at_m,
          put_other t.fibers m f (some (record a { context = saved t.flow })) (λ e. ne (sym e)),
          at_f,
        )
        refl

  swap_back :
      swap t (some f) (some m)
      ≡ ok (record t {
        fibers = put t.fibers f (some (record b { context = saved t.flow }));
        flow = flow_of m a.context;
      })
  unfolding swap
  swap_back =
      rw (at_f, put_other t.fibers f m (some (record b { context = saved t.flow })) ne, at_m) refl

put-put :
    (fibers : ℕ → Option Fiber) (f : ℕ) (o p : Option Fiber)
    → put (put fibers f o) f p ≡ put fibers f p
put-put fibers f o p = fun_ext (λ g. ground arith)

can_resume :
    (st : FiberState)
    → is_term st ≡ false
    → is_running st ≡ false
    → check (not (is_term st) && not (is_running st)) ≡ ok tt
can_resume st a b = rw (a, b) refl

-- The thread after a switch from `m` to `f`, and after one back.
abbrev pub entered : ℕ → ℕ → Thread → Fiber → Fiber → Thread
entered m f t a b = record t {
  this = some f;
  fibers =
      put (put t.fibers f (some (record b { state = running }))) m
        (some (record a { context = saved t.flow }));
  flow = flow_of f b.context;
}

abbrev pub left_in : ℕ → ℕ → Thread → Fiber → Fiber → Thread
left_in m f t a b' = record t {
  this = some m;
  fibers = put t.fibers f (some b');
  flow = flow_of m a.context;
}

pub same_id : (f : ℕ) → (f == f) ≡ true
same_id f = ground arith

pub not_ended : (st : FiberState) → is_running st ≡ true → is_term st ≡ false
not_ended running e = refl
not_ended ready e = cc
not_ended term e = cc

module _ (m f : ℕ) (t : Thread) (a b : Fiber) (ne : f ≢ m) (at_m : t.fibers m ≡ some a)
    (at_f : t.fibers f ≡ some b) (main : t.main ≡ some m) (scheduler : t.scheduler ≡ some m) where
  pub resume-eq :
      is_term b.state ≡ false → is_running b.state ≡ false → resume t f ≡ ok (entered m f t a b)
  unfolding resume
  resume-eq st sr =
      rw (at_f, can_resume b.state st sr, partner-main m t b main scheduler)
        (swap_there m f
          (record t {
            this = some f;
            fibers = put t.fibers f (some (record b { state = running }));
          })
          a (record b { state = running }) ne
          (put_other t.fibers f m (some (record b { state = running })) ne ∙ at_m)
          (put_same t.fibers f (some (record b { state = running }))))

  leaves :
      (b₁ : Fiber) (q : Option ℕ)
      → q ≡ some m
      → swap (record t { this = t.main; fibers = put t.fibers f (some b₁) }) (some f) q
        ≡ ok (left_in m f t a (record b₁ { context = saved t.flow }))
  leaves b₁ q e =
      ap (swap (record t { this = t.main; fibers = put t.fibers f (some b₁) }) (some f)) e
      ∙ swap_back m f (record t { this = t.main; fibers = put t.fibers f (some b₁) }) a b₁ ne
          (put_other t.fibers f m (some b₁) ne ∙ at_m) (put_same t.fibers f (some b₁))
      ∙ ap₂
          (λ (o : Option ℕ) (fs : ℕ → Option Fiber).
            ok (record t { this = o; fibers = fs; flow = flow_of m a.context }))
          main (put-put t.fibers f (some b₁) (some (record b₁ { context = saved t.flow })))

  pub yield-eq :
      is_running b.state ≡ true
      → yield t f ≡ ok (left_in m f t a (record b { state = ready; context = saved t.flow }))
  unfolding yield
  yield-eq sr =
      rw (at_f, sr, not_ended b.state sr)
        (leaves (record b { state = ready }) (partner t b) (partner-main m t b main scheduler))

  pub finish-eq :
      finish t f
      ≡ ok (left_in m f t a (record b { callback = none; state = term; context = saved t.flow }))
  unfolding finish yield
  finish-eq =
      let b' = record b { callback = none; state = term } in
      rw (at_f, same_id f)
        (ap
            (λ (fs : ℕ → Option Fiber).
              swap (record t { this = t.main; fibers = fs }) (some f) (partner t b))
            (put-put t.fibers f (some b') (some b'))
          ∙ leaves b' (partner t b) (partner-main m t b main scheduler))
