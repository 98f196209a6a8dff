-- ===== src/Timer/Histories.antt =====
-- The operations of a timer manager, one after the other.
use fishjoy.Base.{ℕ, ◌≡◌, sym, ap, ◌∙◌, subst, Bool, Option, ok, ok-injective}
use fishjoy.Timer.{
  TimerManager, is_some, add_timer, cancel, refresh, reset, get_next_timer, list_expired_cb,
}
use fishjoy.Timer.Order.{Out}
use fishjoy.Timer.Valid.{
  IsValid, add_timer-IsValid, refresh-IsValid, reset-IsValid, cancel-Cancelled,
}
use fishjoy.Timer.Firing.{list_expired_cb-IsValid}

-- A new timer, and the object that a call of list_expired_cb makes for itself, have addresses of
-- their own.
pub data Step : TimerManager → TimerManager → Type 0 where
  adds :
      (m : TimerManager) (now a ms : ℕ) (cb : Option ℕ) (recurring : Bool)
      → Out a m.timers
      → Step m (add_timer m now a ms cb recurring).0
  cancels : (m m' : TimerManager) (a : ℕ) (done : Bool) → cancel m a ≡ ok (m', done) → Step m m'
  refreshes : (m : TimerManager) (now a : ℕ) → Step m (refresh m now a).0
  resets :
      (m : TimerManager) (now a ms : ℕ) (from_now : Bool) → Step m (reset m now a ms from_now).0
  asks : (m : TimerManager) (now : ℕ) → Step m (get_next_timer m now).0
  expires : (m : TimerManager) (now p : ℕ) → Out p m.timers → Step m (list_expired_cb m now p).0

pub data History : TimerManager → TimerManager → Type 0 where
  stays : (m : TimerManager) → History m m
  goes : (m m₁ m₂ : TimerManager) → Step m m₁ → History m₁ m₂ → History m m₂

step-IsValid : (m m' : TimerManager) → IsValid m → Step m m' → IsValid m'
step-IsValid _ _ v (adds m now a ms cb recurring out) =
    (add_timer-IsValid m now a ms cb recurring v out).0
step-IsValid _ _ v (cancels m m' a done e) =
    let (m'', e', c) = cancel-Cancelled m a v in
    subst IsValid (ap (λ (r : TimerManager × Bool). r.0) (ok-injective (sym e' ∙ e))) c.valid
step-IsValid _ _ v (refreshes m now a) = refresh-IsValid m now a v
step-IsValid _ _ v (resets m now a ms from_now) = reset-IsValid m now a ms from_now v
step-IsValid _ _ v (asks m now) =
    unfold get_next_timer in record { ordered = v.ordered; armed = v.armed }
step-IsValid _ _ v (expires m now p out) = list_expired_cb-IsValid m now p v out

-- A valid manager stays valid through every sequence of its operations (addTimer, cancel, refresh,
-- reset, getNextTimer, listExpiredCb), if new timers and the object that listExpiredCb makes have
-- addresses that no timer of the set has.
pub History-IsValid : (m m' : TimerManager) → IsValid m → History m m' → IsValid m'
History-IsValid _ _ v (stays m) = v
History-IsValid _ _ v (goes m m₁ m₂ s ss) = History-IsValid m₁ m₂ (step-IsValid m m₁ v s) ss

-- In every history of a valid manager a cancel returns: it never erases the end of the set.
pub cancel-History :
    (m m' : TimerManager) (a : ℕ)
    → IsValid m
    → History m m'
    → (m'' : TimerManager) × (cancel m' a ≡ ok (m'', is_some (m'.heap a).cb))
cancel-History m m' a v ss =
    let (m'', e, c) = cancel-Cancelled m' a (History-IsValid m m' v ss) in (m'', e)
