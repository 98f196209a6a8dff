-- ===== src/Fiber/Valid.antt =====
-- A thread and its fibers stay well-formed, whatever the steps are and in whatever order they come.
use fishjoy.Base.{
  ℕ, suc, ◌≤◌, ◌<◌, ◌≡◌, ◌≢◌, refl, sym, ap, ◌∙◌, subst, Bool, true, false, not, ◌&&◌, inl, inr,
  Option, none, some, decrement, if◌then◌else◌, Bool-cases, Result, ok, >>=-eq-ok, ok-injective,
  arith,
}
use fishjoy.Scheduler.{FiberState, ready, running, term, is_running, is_term}
use fishjoy.Fiber.{
  Flow, own, on_stack, saved, Fiber, Thread, put, deref, check, new_fiber, destroy, reset, flow_of,
  resume, yield, finish, is_none, points_at,
}
use fishjoy.Fiber.Alternation.{
  Sound, Control, IsValid, Step, creates, resets, destroys, resumes, yields, finishes, Steps, stays,
  goes, put_same, put_other, put_cases, own-on_stack, on_stack-injective, some_fiber, deref-ok,
  check-ok, entered, left_in, resume-eq, yield-eq, finish-eq,
}

-- Fibers that differ have different ids.
pub has_stack-ne :
    (m f : ℕ) (t : Thread) (a b : Fiber)
    → t.fibers m ≡ some a
    → a.has_stack ≡ false
    → t.fibers f ≡ some b
    → b.has_stack ≡ true
    → f ≢ m
has_stack-ne m f t a b at_m sa at_f sb e =
    let same =
      ap (λ (x : Fiber). x.has_stack) (some_fiber a b (sym at_m ∙ ap t.fibers (sym e) ∙ at_f)) in
    cc

pub running-ne :
    (m f : ℕ) (t : Thread) (a b : Fiber)
    → t.fibers m ≡ some a
    → is_running a.state ≡ true
    → t.fibers f ≡ some b
    → is_running b.state ≡ false
    → f ≢ m
running-ne m f t a b at_m sa at_f sb e =
    let same =
      ap (λ (x : Fiber). is_running x.state)
        (some_fiber a b (sym at_m ∙ ap t.fibers (sym e) ∙ at_f)) in
    cc

pub false≢true : false ≢ true
false≢true e = cc

thread-Sound : (m : ℕ) (l : Flow) (a : Fiber) → a.has_stack ≡ false → Sound m l m a
thread-Sound m l a s = record {
  stackless = λ _. refl;
  goes_on = λ h. absurd (false≢true (sym s ∙ h));
  runs = λ h _. absurd (false≢true (sym s ∙ h));
}

pub true-has_stack : (m f : ℕ) (l : Flow) (b : Fiber) → Sound m l f b → f ≢ m → b.has_stack ≡ true
true-has_stack m f l b so ne = elim (Bool-cases b.has_stack) [
  | inl h ↦ h
  | inr h ↦ absurd (ne (so.stackless h))
]

entered-IsValid :
    (m f : ℕ) (t : Thread) (a b : Fiber)
    → IsValid m t
    → t.flow ≡ own
    → t.fibers m ≡ some a
    → a.has_stack ≡ false
    → is_running a.state ≡ true
    → t.fibers f ≡ some b
    → f ≢ m
    → IsValid m (entered m f t a b)
entered-IsValid m f t a b v l at_m sa ra at_f ne = record {
  main_is = v.main_is;
  scheduler_is = v.scheduler_is;
  thread_fiber = (
    record a { context = saved t.flow },
    put_same inner m (some (record a { context = saved t.flow })),
    sa,
    ra,
    ap saved l,
  );
  made = λ g x e. elim (put_cases inner m g (some (record a { context = saved t.flow })) x e) [
    | inl (same, _) ↦ subst (λ (k : ℕ). k < t.ids) same (v.made m a at_m)
    | inr (_, h) ↦ elim (put_cases t.fibers f g (some (record b { state = running })) x h) [
      | inl (same, _) ↦ subst (λ (k : ℕ). k < t.ids) same (v.made f b at_f)
      | inr (_, h') ↦ v.made g x h'
    ]
  ];
  sound = λ g x e. elim (put_cases inner m g (some (record a { context = saved t.flow })) x e) [
    | inl (same, q) ↦
        subst (λ (k : ℕ). Sound m flow k x) same
          (subst (Sound m flow m) (some_fiber (record a { context = saved t.flow }) x q)
            (thread-Sound m flow (record a { context = saved t.flow }) sa))
    | inr (_, h) ↦ elim (put_cases t.fibers f g (some (record b { state = running })) x h) [
      | inl (same, q) ↦
          subst (λ (k : ℕ). Sound m flow k x) same
            (subst (Sound m flow f) (some_fiber (record b { state = running }) x q) runs_now)
      | inr (_, h') ↦ idle_now g x (v.sound g x h')
    ]
  ];
  control = subst (Control m (entered m f t a b)) (sym (at_start.goes_on stack)) (
    refl,
    record b { state = running },
    put_other inner m f (some (record a { context = saved t.flow })) (λ e. ne (sym e))
        ∙ put_same t.fibers f (some (record b { state = running })),
    stack,
    refl,
  );
}
  where
    inner : ℕ → Option Fiber
    inner = put t.fibers f (some (record b { state = running }))

    flow : Flow
    flow = flow_of f b.context

    at_start : Sound m t.flow f b
    at_start = v.sound f b at_f

    stack : b.has_stack ≡ true
    stack = true-has_stack m f t.flow b at_start ne

    runs_now : Sound m flow f (record b { state = running })
    runs_now = record {
      stackless = at_start.stackless;
      goes_on = at_start.goes_on;
      runs = λ h _. at_start.goes_on h;
    }

    idle_now : (g : ℕ) (x : Fiber) → Sound m t.flow g x → Sound m flow g x
    idle_now g x so = record {
      stackless = so.stackless;
      goes_on = so.goes_on;
      runs = λ h r. absurd (own-on_stack g (sym l ∙ so.runs h r));
    }

left_in-IsValid :
    (m f : ℕ) (t : Thread) (a b b' : Fiber)
    → IsValid m t
    → t.flow ≡ on_stack f
    → t.fibers m ≡ some a
    → a.has_stack ≡ false
    → is_running a.state ≡ true
    → a.context ≡ saved own
    → t.fibers f ≡ some b
    → f ≢ m
    → b'.has_stack ≡ true
    → is_running b'.state ≡ false
    → flow_of f b'.context ≡ on_stack f
    → IsValid m (left_in m f t a b')
left_in-IsValid m f t a b b' v l at_m sa ra ca at_f ne stack off next = record {
  main_is = v.main_is;
  scheduler_is = v.scheduler_is;
  thread_fiber = (a, put_other t.fibers f m (some b') ne ∙ at_m, sa, ra, ca);
  made = λ g x e. elim (put_cases t.fibers f g (some b') x e) [
    | inl (same, _) ↦ subst (λ (k : ℕ). k < t.ids) same (v.made f b at_f)
    | inr (_, h) ↦ v.made g x h
  ];
  sound = λ g x e. elim (put_cases t.fibers f g (some b') x e) [
    | inl (same, q) ↦
        subst (λ (k : ℕ). Sound m (flow_of m a.context) k x) same
          (subst (Sound m (flow_of m a.context) f) (some_fiber b' x q) idle_now)
    | inr (other, h) ↦ others g x other (v.sound g x h)
  ];
  control = subst (Control m (left_in m f t a b')) (sym (ap (flow_of m) ca)) refl;
}
  where
    idle_now : Sound m (flow_of m a.context) f b'
    idle_now = record {
      stackless = λ h. absurd (false≢true (sym h ∙ stack));
      goes_on = λ _. next;
      runs = λ _ r. absurd (false≢true (sym off ∙ r));
    }

    others : (g : ℕ) (x : Fiber) → f ≢ g → Sound m t.flow g x → Sound m (flow_of m a.context) g x
    others g x other so = record {
      stackless = so.stackless;
      goes_on = so.goes_on;
      runs = λ h r. absurd (other (on_stack-injective f g (sym l ∙ so.runs h r)));
    }

-- A fiber that is not running is made, made anew or destroyed.
changed-IsValid :
    (m f n ids : ℕ) (t : Thread) (o : Option Fiber)
    → IsValid m t
    → f ≢ m
    → ((b : Fiber) → t.fibers f ≡ some b → is_running b.state ≡ false)
    → ((b : Fiber) → o ≡ some b → Sound m t.flow f b)
    → f < ids
    → t.ids ≤ ids
    → IsValid m (record t { fibers = put t.fibers f o; ids = ids; count = n })
changed-IsValid m f n ids t o v ne off sound lt le = record {
  main_is = v.main_is;
  scheduler_is = v.scheduler_is;
  thread_fiber =
      let (a, at_m, sa, ra, ca) = v.thread_fiber in
      (a, put_other t.fibers f m o ne ∙ at_m, sa, ra, ca);
  made = λ g x e. elim (put_cases t.fibers f g o x e) [
    | inl (same, _) ↦ subst (λ (k : ℕ). k < ids) same lt
    | inr (_, h) ↦ omega (arith, v.made g x h)
  ];
  sound = λ g x e. elim (put_cases t.fibers f g o x e) [
    | inl (same, q) ↦ subst (λ (k : ℕ). Sound m t.flow k x) same (sound x q)
    | inr (_, h) ↦ v.sound g x h
  ];
  control = same_control t.flow v.control;
}
  where
    same_control :
        (l : Flow)
        → Control m t l
        → Control m (record t { fibers = put t.fibers f o; ids = ids; count = n }) l
    same_control own c = c
    same_control (on_stack g) (this, b, at, stack, r) = (
      this,
      b,
      put_other t.fibers f g o (λ e. false≢true (sym (off b (ap t.fibers e ∙ at)) ∙ r)) ∙ at,
      stack,
      r,
    )

not-false : (x : Bool) → not x ≡ true → x ≡ false
not-false true e = cc
not-false false e = refl

term-still : (st : FiberState) → is_term st ≡ true → is_running st ≡ false
term-still term e = refl
term-still ready e = cc
term-still running e = cc

resume-IsValid :
    (m f : ℕ) (t t' : Thread) → IsValid m t → t.flow ≡ own → resume t f ≡ ok t' → IsValid m t'
unfolding resume
resume-IsValid m f t t' v l e =
    let (b, d, e₁) = >>=-eq-ok (deref t (some f)) _ e in
    let (u, c, _) = >>=-eq-ok (check (not (is_term b.state) && not (is_running b.state))) _ e₁ in
    let (a, at_m, sa, ra, ca) = v.thread_fiber in
    let at_f = deref-ok t f b d in
    let (nt, nr) = both b.state (check-ok _ u c) in
    let ne = running-ne m f t a b at_m ra at_f nr in
    subst (IsValid m)
      (ok-injective (sym (resume-eq m f t a b ne at_m at_f v.main_is v.scheduler_is nt nr) ∙ e))
      (entered-IsValid m f t a b v l at_m sa ra at_f ne)
  where
    both :
        (st : FiberState)
        → (not (is_term st) && not (is_running st)) ≡ true
        → (is_term st ≡ false) × (is_running st ≡ false)
    both ready e = (refl, refl)
    both running e = cc
    both term e = cc

-- Where a fiber's flow runs, that fiber is RUNNING.
pub running_fiber :
    (m f : ℕ) (t : Thread)
    → IsValid m t
    → t.flow ≡ on_stack f
    → (t.this ≡ some f)
      × (b : Fiber) × (t.fibers f ≡ some b)
      × (b.has_stack ≡ true)
      × (is_running b.state ≡ true)
running_fiber m f t v l = subst (Control m t) l v.control

module _ (m f : ℕ) (t : Thread) (v : IsValid m t) (l : t.flow ≡ on_stack f) where
  -- The fiber that runs hands over to the thread, with `b'` for itself.
  handed_over :
      (a b b' : Fiber) (r : Result Thread) (t' : Thread)
      → ((f ≢ m) → r ≡ ok (left_in m f t a b'))
      → t.fibers m ≡ some a
      → a.has_stack ≡ false
      → is_running a.state ≡ true
      → a.context ≡ saved own
      → t.fibers f ≡ some b
      → b.has_stack ≡ true
      → b'.has_stack ≡ true
      → is_running b'.state ≡ false
      → flow_of f b'.context ≡ on_stack f
      → r ≡ ok t'
      → IsValid m t'
  handed_over a b b' r t' runs at_m sa ra ca at_f sb stack off next e =
      let ne = has_stack-ne m f t a b at_m sa at_f sb in
      subst (IsValid m) (ok-injective (sym (runs ne) ∙ e))
        (left_in-IsValid m f t a b b' v l at_m sa ra ca at_f ne stack off next)

  yield-IsValid : (t' : Thread) → yield t f ≡ ok t' → IsValid m t'
  yield-IsValid t' e =
      let (this, b, at_f, stack, r) = running_fiber m f t v l in
      let (a, at_m, sa, ra, ca) = v.thread_fiber in
      handed_over a b (record b { state = ready; context = saved t.flow }) (yield t f) t'
        (λ ne. yield-eq m f t a b ne at_m at_f v.main_is v.scheduler_is r) at_m sa ra ca at_f stack
        stack refl l e

  finish-IsValid : (t' : Thread) → finish t f ≡ ok t' → IsValid m t'
  finish-IsValid t' e =
      let (this, b, at_f, stack, r) = running_fiber m f t v l in
      let (a, at_m, sa, ra, ca) = v.thread_fiber in
      handed_over a b (record b { callback = none; state = term; context = saved t.flow })
        (finish t f) t' (λ ne. finish-eq m f t a b ne at_m at_f v.main_is v.scheduler_is) at_m sa ra
        ca at_f stack stack refl l e

new_fiber-IsValid : (m c : ℕ) (s : Bool) (t : Thread) → IsValid m t → IsValid m (new_fiber t c s)
unfolding new_fiber
new_fiber-IsValid m c s t v =
    let (a, at_m, sa, ra, ca) = v.thread_fiber in
    changed-IsValid m t.ids (suc t.count) (suc t.ids) t _ v
      (λ e. absurd (omega (arith, e, v.made m a at_m)))
      (λ b at. absurd (omega (arith, v.made t.ids b at)))
      (λ b e.
        subst (Sound m t.flow t.ids) (some_fiber _ b e)
          (record { stackless = λ h. cc; goes_on = λ _. refl; runs = λ _ h. cc }))
      (omega arith) (omega arith)

reset-IsValid : (m f c : ℕ) (t t' : Thread) → IsValid m t → reset t f c ≡ ok t' → IsValid m t'
unfolding reset
reset-IsValid m f c t t' v e =
    let (b, d, e₁) = >>=-eq-ok (deref t (some f)) _ e in
    let (u, k, e₂) = >>=-eq-ok (check (b.has_stack && is_term b.state)) _ e₁ in
    let (a, at_m, sa, ra, ca) = v.thread_fiber in
    let at_f = deref-ok t f b d in
    let (stack, ended) = both b.has_stack (is_term b.state) (check-ok _ u k) in
    let off = term-still b.state ended in
    subst (IsValid m) (ok-injective e₂) (
      changed-IsValid m f t.count t.ids t _ v (running-ne m f t a b at_m ra at_f off)
        (λ x at.
          subst (λ (y : Fiber). is_running y.state ≡ false) (some_fiber b x (sym at_f ∙ at)) off)
        (λ x q. subst (Sound m t.flow f) (some_fiber _ x q) (record {
          stackless = λ h. absurd (false≢true (sym h ∙ stack));
          goes_on = λ _. refl;
          runs = λ _ h. cc;
        }))
        (v.made f b at_f) (omega arith))
  where
    both : (x y : Bool) → (x && y) ≡ true → (x ≡ true) × (y ≡ true)
    both true true e = (refl, refl)
    both true false e = cc
    both false y e = cc

destroy-IsValid :
    (m f : ℕ) (t t' : Thread) → IsValid m t → f ≢ m → destroy t f ≡ ok t' → IsValid m t'
unfolding destroy
destroy-IsValid m f t t' v ne e =
    let (b, d, e₁) = >>=-eq-ok (deref t (some f)) _ e in
    let (u, k, e₂) =
      >>=-eq-ok
        (check (if b.has_stack then is_term b.state else is_none b.callback && is_running b.state))
        _ e₁ in
    let at_f = deref-ok t f b d in
    let stack = true-has_stack m f t.flow b (v.sound f b at_f) ne in
    let off = term-still b.state (ended b.has_stack _ (is_term b.state) stack (check-ok _ u k)) in
    subst (IsValid m) (this_stays b.has_stack stack ∙ ok-injective e₂) (
      changed-IsValid m f (decrement t.count) t.ids t none v ne
        (λ x at.
          subst (λ (y : Fiber). is_running y.state ≡ false) (some_fiber b x (sym at_f ∙ at)) off)
        (λ x q. cc) (v.made f b at_f) (omega arith))
  where
    ended : (s p q : Bool) → s ≡ true → (if s then q else p) ≡ true → q ≡ true
    ended s p q h e = ground arith

    this_stays :
        (s : Bool)
        → s ≡ true
        → (record t { fibers = put t.fibers f none; ids = t.ids; count = decrement t.count })
          ≡ (record t {
            fibers = put t.fibers f none;
            this = if not s && points_at t.this f then none else t.this;
            count = decrement t.count;
          })
    this_stays s h = rw h refl

step-IsValid : (m : ℕ) (t t' : Thread) → IsValid m t → Step m t t' → IsValid m t'
step-IsValid m _ _ v (creates t c s) = new_fiber-IsValid m c s t v
step-IsValid m _ _ v (resets t t' f c e) = reset-IsValid m f c t t' v e
step-IsValid m _ _ v (destroys t t' f ne e) = destroy-IsValid m f t t' v ne e
step-IsValid m _ _ v (resumes t t' f l e) = resume-IsValid m f t t' v l e
step-IsValid m _ _ v (yields t t' f l e) = yield-IsValid m f t v l t' e
step-IsValid m _ _ v (finishes t t' f l e) = finish-IsValid m f t v l t' e

-- In a thread whose main fiber is also its scheduler's, all steps keep the thread valid, in any
-- order, if only the thread's own flow resumes fibers and only the fiber whose flow runs yields or
-- ends: t_fiber names the fiber whose flow runs, a fiber with a stack is RUNNING exactly while its
-- flow runs, the main fiber is RUNNING all the time, the context of each fiber with a stack goes
-- on with that fiber, and that of the main fiber with the thread.
pub Steps-IsValid : (m : ℕ) (t t' : Thread) → IsValid m t → Steps m t t' → IsValid m t'
Steps-IsValid m _ _ v (stays t) = v
Steps-IsValid m _ _ v (goes t t₁ t₂ s ss) = Steps-IsValid m t₁ t₂ (step-IsValid m t t₁ v s) ss
