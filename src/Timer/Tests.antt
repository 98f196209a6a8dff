-- ===== src/Timer/Tests.antt =====
-- The theorems on the timers at a concrete manager: the timer 1 recurs and is due at 10, the timer 2
-- fires once at 20, and the timer 3 once at 20.
use fishjoy.Base.{
  ℕ, ◌≡◌, ◌≢◌, refl, true, false, [], ◌∷◌, none, some, ok, arith, if◌then◌else◌, ◌==◌,
}
use fishjoy.Timer.{
  Heap, TimerManager, comparator, cancel, refresh, is_some, list_expired_cb, get_next_timer,
}
use fishjoy.Timer.Order.{In, Out}
use fishjoy.Timer.Valid.{IsValid, Cancelled, cancel-Cancelled}
use fishjoy.Timer.Firing.{Expired, list_expired_cb-Expired}
use fishjoy.Timer.Histories.{History, goes, stays, refreshes, expires, History-IsValid}
use fishjoy.Timer.Waiting.{Waits, get_next_timer-Waits}

abbrev three_heap : Heap
three_heap a =
    if a == 1
    then record { recurring = true; ms = 10; next = 10; cb = some 7 }
    else if a == 2
    then record { recurring = false; ms = 20; next = 20; cb = some 8 }
    else if a == 3
    then record { recurring = false; ms = 15; next = 20; cb = some 9 }
    else record { recurring = false; ms = 0; next = 0; cb = none }

abbrev three : TimerManager
three = record { heap = three_heap; timers = 1 ∷ 2 ∷ 3 ∷ []; tickled = false; previous_time = 5 }

three-armed : (a : ℕ) → (three_heap a).cb ≢ none → In a (1 ∷ 2 ∷ 3 ∷ [])
three-armed a live = ground arith

three-IsValid : IsValid three
unfolding comparator
three-IsValid = record {
  ordered = ((refl, (refl, tt)), ((refl, tt), (tt, tt)));
  armed = three-armed;
}

four-Out : Out 4 (1 ∷ 2 ∷ 3 ∷ [])
four-Out = omega arith

list_expired_cb-Expired_example : Expired three 20 (list_expired_cb three 20 4)
list_expired_cb-Expired_example = list_expired_cb-Expired three 20 4 three-IsValid four-Out

-- The timer 2 is set again, and what is due at 20 expires.
abbrev refreshed : TimerManager
refreshed = (refresh three 6 2).0

abbrev expired : TimerManager
expired = (list_expired_cb refreshed 20 4).0

three-History : History three expired
unfolding refresh comparator
three-History =
    goes three refreshed expired (refreshes three 6 2)
      (goes refreshed expired expired (expires refreshed 20 4 (omega arith)) (stays expired))

History-IsValid_example : IsValid expired
History-IsValid_example = History-IsValid three expired three-IsValid three-History

cancel-Cancelled_example :
    (m' : TimerManager) × (cancel three 2 ≡ ok (m', is_some (some 8))) × Cancelled three 2 m'
cancel-Cancelled_example = cancel-Cancelled three 2 three-IsValid

get_next_timer-Waits_example : Waits three_heap 6 (1 ∷ 2 ∷ 3 ∷ []) (get_next_timer three 6).1
get_next_timer-Waits_example = get_next_timer-Waits three 6 three-IsValid
