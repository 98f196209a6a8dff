-- ===== src/Timer/Valid.antt =====
-- The invariant of the timer manager of src/fiber/timer.cpp, and the operations on one timer.
use fishjoy.Base.{
  ℕ, ◌+◌, ◌%◌, ◌^◌, Bool, ◌&&◌, not, ◌≡◌, refl, sym, ap, ◌∙◌, subst, ◌≢◌, inl, inr, Option, none,
  List, [], ◌∷◌, ◌==◌, Option-cases, if_cases, ℕ_discrete, ok,
}
use fishjoy.Timer.{
  Timer, Heap, TimerManager, update, comparator, insert, find, erase, add_to_set, add_timer, cancel,
  is_some, refresh, reset,
}
use fishjoy.Timer.Order.{
  Less, Sorted, Out, In, All-map, Sorted-frame, insert-Sorted, insert-In_self, insert-In, find-In,
}
use fishjoy.Timer.Removal.{erase-Sorted, erase-In}
use fishjoy.Timer.Expiry.{update_self, update_ne}

-- The set is in order, and holds every timer that still has a callback.
pub record IsValid (m : TimerManager) : Type 0 where
  pub ordered : Sorted m.heap m.timers
  pub armed : (a : ℕ) → (m.heap a).cb ≢ none → In a m.timers

-- The order reads the times only.
Sorted-times :
    (h h' : Heap) (ts : List ℕ) → ((b : ℕ) → (h' b).next ≡ (h b).next) → Sorted h ts → Sorted h' ts
Sorted-times h h' [] e s = tt
Sorted-times h h' (t ∷ ts) e s =
    (All-map ts (λ u l. less_times t u l) s.0, Sorted-times h h' ts e s.1)
  where
    less_times : (t u : ℕ) → Less h t u → Less h' t u
    less_times t u l = unfold comparator in rw (e t, e u) l

update_next :
    (h : Heap) (a : ℕ) (x : Timer)
    → x.next ≡ (h a).next
    → (b : ℕ) → (update h a x b).next ≡ (h b).next
update_next h a x e b = elim (ℕ_discrete a b) [
  | yes p ↦
      subst (λ (k : ℕ). (update h a x k).next ≡ (h k).next) p
        (ap (λ (t : Timer). t.next) (update_self h a x) ∙ e)
  | no n ↦ ap (λ (t : Timer). t.next) (update_ne h a b x n)
]

-- A timer whose time has changed goes back into the set, which it was taken from.
abbrev replaced : TimerManager → ℕ → Timer → List ℕ → TimerManager
replaced m a x ts = record m { heap = update m.heap a x; timers = insert (update m.heap a x) a ts }

module _ (m : TimerManager) (a : ℕ) (x : Timer) (ts : List ℕ) (s : Sorted m.heap ts)
    (out : Out a ts) where
  replaced-IsValid :
      ((b : ℕ) → b ≢ a → (m.heap b).cb ≢ none → In b ts) → IsValid (replaced m a x ts)
  replaced-IsValid armed = record {
    ordered = insert-Sorted (update m.heap a x) a ts (Sorted-frame m.heap a x ts out s);
    armed = λ b live. elim (ℕ_discrete a b) [
      | yes e ↦
          subst (λ (k : ℕ). In k (insert (update m.heap a x) a ts)) e
            (insert-In_self (update m.heap a x) a ts)
      | no n ↦ insert-In (update m.heap a x) a b ts (
          armed b (λ e. n (sym e))
            (λ e. live (ap (λ (t : Timer). t.cb) (update_ne m.heap a b x n) ∙ e)))
    ];
  }

-- `tickled` is no part of the invariant.
add_to_set-IsValid :
    (m : TimerManager) (a : ℕ)
    → IsValid (record m { timers = insert m.heap a m.timers })
    → IsValid (add_to_set m a).0
unfolding add_to_set
add_to_set-IsValid m a v = record { ordered = v.ordered; armed = v.armed }

-- In a valid manager `add_timer`, at an address where no timer of the set is, leaves a valid
-- manager whose set holds the new timer.
pub add_timer-IsValid :
    (m : TimerManager) (now a ms : ℕ) (cb : Option ℕ) (recurring : Bool)
    → IsValid m
    → Out a m.timers
    → IsValid (add_timer m now a ms cb recurring).0
      × In a (add_timer m now a ms cb recurring).0.timers
unfolding add_timer
add_timer-IsValid m now a ms cb recurring v out = (
  add_to_set-IsValid (record m { heap = update m.heap a x }) a
      (replaced-IsValid m a x m.timers v.ordered out (λ b _ live. v.armed b live)),
  unfold add_to_set in insert-In_self (update m.heap a x) a m.timers,
)
  where
    x : Timer
    x = record { recurring = recurring; ms = ms; next = (now + ms) % 2 ^ 64; cb = cb }

-- A timer of the set is taken out, changed, and put back.
moved-IsValid :
    (m : TimerManager) (a : ℕ) (x : Timer)
    → IsValid m
    → IsValid (replaced m a x (erase m.heap a m.timers))
moved-IsValid m a x v =
    let (s, out) = erase-Sorted m.heap a m.timers v.ordered in
    replaced-IsValid m a x (erase m.heap a m.timers) s out
      (λ b n live. erase-In m.heap a b m.timers n (v.armed b live))

-- `refresh` keeps the manager valid.
pub refresh-IsValid : (m : TimerManager) (now a : ℕ) → IsValid m → IsValid (refresh m now a).0
unfolding refresh
refresh-IsValid m now a v =
    if_cases (λ (r : TimerManager × Bool). IsValid r.0) (not (is_some (m.heap a).cb)) _ _ (λ _. v)
      (λ _.
        if_cases (λ (r : TimerManager × Bool). IsValid r.0) (not (find m.heap a m.timers)) _ _
          (λ _. v) (λ _. moved-IsValid m a _ v))

-- `reset` keeps the manager valid, with every new period and every start.
pub reset-IsValid :
    (m : TimerManager) (now a ms : ℕ) (from_now : Bool)
    → IsValid m
    → IsValid (reset m now a ms from_now).0
unfolding reset
reset-IsValid m now a ms from_now v =
    if_cases (λ (r : TimerManager × Bool × Bool). IsValid r.0) (ms == (m.heap a).ms && not from_now)
      _ _ (λ _. v)
      (λ _.
        if_cases (λ (r : TimerManager × Bool × Bool). IsValid r.0) (not (is_some (m.heap a).cb)) _ _
          (λ _. v)
          (λ _.
            if_cases (λ (r : TimerManager × Bool × Bool). IsValid r.0)
              (not (find m.heap a m.timers)) _ _ (λ _. v)
              (λ _. add_to_set-IsValid _ a (moved-IsValid m a _ v))))

-- What `cancel` leaves behind: the timer has no callback, and if it had one it is out of the set,
-- where all the others stay.
pub record Cancelled (m : TimerManager) (a : ℕ) (m' : TimerManager) : Type 0 where
  pub valid : IsValid m'
  pub disarmed : (m'.heap a).cb ≡ none
  pub gone : (m.heap a).cb ≢ none → Out a m'.timers
  pub others : (b : ℕ) → b ≢ a → In b m.timers → In b m'.timers
  pub same : (b : ℕ) → b ≢ a → m'.heap b ≡ m.heap b

-- In a valid manager `cancel` never erases the end of the set, and returns true exactly for a
-- timer that has a callback. It leaves a valid manager behind: the timer has no callback, if it
-- had one it is out of the set, and the other timers are the same and stay in the set.
pub cancel-Cancelled :
    (m : TimerManager) (a : ℕ)
    → IsValid m
    → (m' : TimerManager) × (cancel m a ≡ ok (m', is_some (m.heap a).cb)) × Cancelled m a m'
unfolding cancel is_some
cancel-Cancelled m a v = elim (Option-cases (m.heap a).cb) [
  | inl e ↦ (
    m,
    rw (ap is_some e),
    record {
      valid = v;
      disarmed = e;
      gone = λ live. absurd (live e);
      others = λ b n i. i;
      same = λ b n. refl;
    },
  )
  | inr (c, e) ↦ (
    record m { heap = h; timers = erase h a m.timers },
    rw (ap is_some e, find-In h a m.timers (v.armed a (λ n. cc (sym n ∙ e)))),
    record {
      valid = record {
        ordered = (erase-Sorted h a m.timers sorted).0;
        armed = λ b live. elim (ℕ_discrete a b) [
          | yes p ↦ absurd (live (subst (λ (k : ℕ). (h k).cb ≡ none) p off))
          | no n ↦
              erase-In h a b m.timers (λ p. n (sym p))
                (v.armed b
                  (λ dead. live (ap (λ (t : Timer). t.cb) (update_ne m.heap a b x n) ∙ dead)))
        ];
      };
      disarmed = off;
      gone = λ _. (erase-Sorted h a m.timers sorted).1;
      others = λ b n i. erase-In h a b m.timers n i;
      same = λ b n. update_ne m.heap a b x (λ p. n (sym p));
    },
  )
]
  where
    x : Timer
    x = record (m.heap a) { cb = none }

    h : Heap
    h = update m.heap a x

    sorted : Sorted h m.timers
    sorted = Sorted-times m.heap h m.timers (update_next m.heap a x refl) v.ordered

    off : (h a).cb ≡ none
    off = ap (λ (t : Timer). t.cb) (update_self m.heap a x)
