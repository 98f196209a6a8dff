-- ===== src/Timer/Firing.antt =====
-- What `list_expired_cb` of src/fiber/timer.cpp fires.
use fishjoy.Base.{
  ℕ, ◌*◌, ◌≤◌, ◌<◌, Bool, true, false, ◌&&◌, not, ◌≡◌, refl, sym, ap, ◌∙◌, subst, ◌≢◌, inl, inr,
  Option, none, List, [], ◌∷◌, ◌++◌, map, All, ltb, arith, if_cases,
}
use fishjoy.Timer.{
  Timer, Heap, TimerManager, update, renewed, fire, split_expired, detect_clock_rollover, choose,
  expire, list_expired_cb,
}
use fishjoy.Timer.Order.{Less, Sorted, Out, In, All-map, Sorted-frame}
use fishjoy.Timer.Removal.{Less-next, split_expired-Split}
use fishjoy.Timer.Expiry.{
  update_self, update_ne, In-or-Out, Distinct, Sorted-parts, Fired, fire-Fired,
}
use fishjoy.Timer.Valid.{IsValid}

abbrev pub rollover : TimerManager → ℕ → Bool
rollover m now = (detect_clock_rollover m now).1

-- The expired timers `gone` are a first part of the set: those due by `now`, or all of them if the
-- clock has rolled over. They fire, and the others stay.
pub record Expired (m : TimerManager) (now : ℕ) (r : TimerManager × List (Option ℕ)) : Type 0 where
  pub gone : List ℕ
  pub left : List ℕ
  pub whole : gone ++ left ≡ m.timers
  pub due : rollover m now ≡ false → All (λ t. (m.heap t).next ≤ now) gone
  pub later : rollover m now ≡ false → All (λ t. now < (m.heap t).next) left
  pub all : rollover m now ≡ true → left ≡ []
  pub fired : Fired now gone m.heap left (r.0.heap, r.0.timers, r.1)

-- The set is split where the comparator, which sees the probe at `p`, and the loop behind it say.
record Chosen (m : TimerManager) (now : ℕ) (roll : Bool) (ts : List ℕ) (parts : List ℕ × List ℕ)
    : Type 0 where
  whole : parts.0 ++ parts.1 ≡ ts
  due : roll ≡ false → All (λ t. (m.heap t).next ≤ now) parts.0
  later : roll ≡ false → All (λ t. now < (m.heap t).next) parts.1
  all : roll ≡ true → parts.1 ≡ []

In-right : (b : ℕ) (xs ys : List ℕ) → Out b xs → In b (xs ++ ys) → In b ys
In-right b [] ys o i = i
In-right b (x ∷ xs) ys o (inl e) = absurd (o.0 e)
In-right b (x ∷ xs) ys o (inr i) = In-right b xs ys o.1 i

append_nil : (ts : List ℕ) → ts ++ [] ≡ ts
append_nil [] = refl
append_nil (t ∷ ts) = ap (◌∷◌ t) (append_nil ts)

and_right : (c : Bool) (now k : ℕ) → (not c && ltb now k) ≡ true → now < k
and_right c now k h = ground arith

and_left : (c d : Bool) → (not c && d) ≡ true → c ≡ true → ⊥
and_left c d h e = ground arith

module _ (m : TimerManager) (now p : ℕ) where
  abbrev probed : Heap
  probed = update m.heap p (record { recurring = false; ms = 0; next = now; cb = none })

  times :
      (P : ℕ → Type 0) (ts : List ℕ)
      → Out p ts
      → All (λ t. P (probed t).next) ts
      → All (λ t. P (m.heap t).next) ts
  times P [] o l = tt
  times P (t ∷ ts) o l = (
    subst P (ap (λ (x : Timer). x.next) (update_ne m.heap p t _ (λ e. o.0 (sym e)))) l.0,
    times P ts o.1 l.1,
  )

  Out-parts : (xs ys : List ℕ) → Out p (xs ++ ys) → Out p xs × Out p ys
  Out-parts [] ys o = (tt, o)
  Out-parts (x ∷ xs) ys o = let (l, r) = Out-parts xs ys o.1 in ((o.0, l), r)

  choose-Chosen :
      (roll : Bool) (ts : List ℕ)
      → Sorted m.heap ts
      → Out p ts
      → Chosen m now roll ts (choose roll probed now p ts)
  unfolding choose
  choose-Chosen true ts s out = record {
    whole = append_nil ts;
    due = λ e. cc;
    later = λ e. cc;
    all = λ _. refl;
  }
  choose-Chosen false ts s out =
      let parts = split_expired probed now p ts in
      let r =
        split_expired-Split probed now p ts (ap (λ (x : Timer). x.next) (update_self m.heap p _))
          (Sorted-frame m.heap p _ ts out s) in
      let (o₁, o₂) = Out-parts parts.0 parts.1 (subst (Out p) (sym r.whole) out) in
      record {
        whole = r.whole;
        due = λ _. times (λ (x : ℕ). x ≤ now) parts.0 o₁ r.due;
        later = λ _. times (λ (x : ℕ). now < x) parts.1 o₂ r.later;
        all = λ e. cc;
      }

  none_due :
      (t : ℕ) (ts : List ℕ)
      → Sorted m.heap (t ∷ ts)
      → now < (m.heap t).next
      → All (λ u. now < (m.heap u).next) (t ∷ ts)
  none_due t ts s h = (h, All-map ts (λ u l. later_still u l) s.0)
    where
      later_still : (u : ℕ) → Less m.heap t u → now < (m.heap u).next
      later_still u l = omega (arith, Less-next m.heap t u l)

  -- No timer is due, and none fires.
  quiet :
      (ts : List ℕ)
      → ts ≡ m.timers
      → Sorted m.heap ts
      → (rollover m now ≡ false → All (λ t. now < (m.heap t).next) ts)
      → (rollover m now ≡ true → ts ≡ [])
      → (time : ℕ) → Expired m now (record m { previous_time = time }, [])
  quiet ts e s later all time = record {
    gone = [];
    left = ts;
    whole = e;
    due = λ _. tt;
    later = later;
    all = all;
    fired =
        subst (λ us. Fired now [] m.heap ts (m.heap, us, [])) e
          (unfold fire in fire-Fired now [] m.heap ts tt tt s);
  }

  expire-Expired :
      (ts : List ℕ)
      → ts ≡ m.timers
      → Sorted m.heap ts
      → Out p ts
      → Expired m now (expire m now p ts)
  unfolding expire
  expire-Expired [] e s out = quiet [] e tt (λ _. tt) (λ _. refl) m.previous_time
  expire-Expired (t ∷ ts) e s out =
      if_cases (λ (r : TimerManager × List (Option ℕ)). Expired m now r)
        (not (rollover m now) && ltb now (m.heap t).next) _ _ (λ early. quiet_front early)
        (λ _. record {
          gone = parts.0;
          left = parts.1;
          whole = c.whole ∙ e;
          due = c.due;
          later = c.later;
          all = c.all;
          fired = fire-Fired now parts.0 m.heap parts.1 distinct apart sorted;
        })
    where
      parts : List ℕ × List ℕ
      parts = choose (rollover m now) probed now p (t ∷ ts)

      c : Chosen m now (rollover m now) (t ∷ ts) parts
      c = choose-Chosen (rollover m now) (t ∷ ts) s out

      split : Distinct parts.0 × All (λ a. Out a parts.1) parts.0 × Sorted m.heap parts.1
      split = Sorted-parts m.heap parts.0 parts.1 (subst (Sorted m.heap) (sym c.whole) s)

      distinct : Distinct parts.0
      distinct = split.0

      apart : All (λ a. Out a parts.1) parts.0
      apart = split.1

      sorted : Sorted m.heap parts.1
      sorted = split.2

      quiet_front :
          (not (rollover m now) && ltb now (m.heap t).next) ≡ true
          → Expired m now (record m { previous_time = now }, [])
      quiet_front early =
          quiet (t ∷ ts) e s
            (λ _. none_due t ts s (and_right (rollover m now) now (m.heap t).next early))
            (λ roll. absurd (and_left (rollover m now) (ltb now (m.heap t).next) early roll)) now

-- In a valid manager, where the object for `now` is no timer of the set, `list_expired_cb` takes
-- out a front part of the set: the timers due at `now` without a rollover of the clock, and the
-- whole set with one. Their callbacks are the result, in that order; the recurring ones are set
-- again, the others lose their callback, and the rest stays.
pub list_expired_cb-Expired :
    (m : TimerManager) (now p : ℕ)
    → IsValid m
    → Out p m.timers
    → Expired m now (list_expired_cb m now p)
unfolding list_expired_cb
list_expired_cb-Expired m now p v out = expire-Expired m now p m.timers refl v.ordered out

-- `list_expired_cb` keeps the manager valid, where the object for `now` is no timer of the set.
pub list_expired_cb-IsValid :
    (m : TimerManager) (now p : ℕ)
    → IsValid m
    → Out p m.timers
    → IsValid (list_expired_cb m now p).0
list_expired_cb-IsValid m now p v out = record {
  ordered = f.ordered;
  armed = λ b live. elim (In-or-Out b x.gone) [
    | inl i ↦ f.again b i (recurs b (λ e. live (ap (λ (t : Timer). t.cb) (f.changed b i) ∙ e)))
    | inr o ↦ f.kept b (
        In-right b x.gone x.left o (
          subst (In b) (sym x.whole)
            (v.armed b (λ e. live (ap (λ (t : Timer). t.cb) (f.others b o) ∙ e)))))
  ];
}
  where
    x : Expired m now (list_expired_cb m now p)
    x = list_expired_cb-Expired m now p v out

    f : Fired now x.gone m.heap x.left (
      (list_expired_cb m now p).0.heap,
      (list_expired_cb m now p).0.timers,
      (list_expired_cb m now p).1,
    )
    f = x.fired

    recurs : (b : ℕ) → (renewed now (m.heap b)).cb ≢ none → (m.heap b).recurring ≡ true
    recurs b live = unfold renewed in ground arith

-- In a valid manager, where the object for `now` is no timer of the set, and where the clock was
-- last read in its first hour, any step back of the clock, however short, makes every timer of the
-- set fire.
pub rollover_early :
    (m : TimerManager) (now p : ℕ)
    → IsValid m
    → Out p m.timers
    → m.previous_time < 60 * 60 * 1000
    → now < m.previous_time
    → (list_expired_cb m now p).1 ≡ map (λ t. (m.heap t).cb) m.timers
rollover_early m now p v out early back =
    x.fired.calls
    ∙ ap (map (λ t. (m.heap t).cb))
        (sym (append_nil x.gone) ∙ ap (◌++◌ x.gone) (sym (x.all rolled)) ∙ x.whole)
  where
    x : Expired m now (list_expired_cb m now p)
    x = list_expired_cb-Expired m now p v out

    rolled : rollover m now ≡ true
    rolled = unfold detect_clock_rollover in ground arith
