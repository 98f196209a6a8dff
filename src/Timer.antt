-- ===== src/Timer.antt =====
-- src/fiber/timer.cpp: timers and their manager.
-- A timer is an object with an address, and the manager's set holds addresses: `heap` gives the
-- object at an address, and `timers` lists the set in the order of the comparator, which reads the
-- objects. A callback is a number, and none is the empty std::function. The clock (GetElapsedMS) is
-- the argument `now`. The manager's lock makes each operation one step; only `list_expired_cb` lets
-- it go once, between its test for an empty set and the rest, and tests again.
pub mod Order
pub mod Removal
pub mod Expiry
pub mod Valid
pub mod Firing
pub mod Waiting
pub mod Histories
mod Tests
use fishjoy.Base.{
  ℕ, ◌+◌, ◌-◌, ◌%◌, ◌^◌, ◌*◌, Bool, true, false, ◌&&◌, not, Option, none, some, List, [], ◌∷◌, ◌++◌,
  ltb, leb, ◌==◌, if◌then◌else◌, Result, ok, err, null_pointer, ◌>>=◌, sub64,
}

pub record Timer : Type 0 where
  pub recurring : Bool
  pub ms : ℕ
  pub next : ℕ
  pub cb : Option ℕ

abbrev pub Heap : Type 0
Heap = ℕ → Timer

abbrev pub update : Heap → ℕ → Timer → Heap
update h a t b = if a == b then t else h b

pub record TimerManager : Type 0 where
  pub heap : Heap
  pub timers : List ℕ
  pub tickled : Bool
  pub previous_time : ℕ

-- Timer::Comparator, on pointers that may be null.
unfoldable pub comparator : Heap → Option ℕ → Option ℕ → Bool
comparator h none none = false
comparator h none (some b) = true
comparator h (some a) none = false
comparator h (some a) (some b) =
    if ltb (h a).next (h b).next then true else if ltb (h b).next (h a).next then false else ltb a b

-- The set holds no null pointer.
abbrev pub less : Heap → ℕ → ℕ → Bool
less h a b = comparator h (some a) (some b)

-- std::set::insert, find and erase.
pub insert : Heap → ℕ → List ℕ → List ℕ
insert h a [] = a ∷ []
insert h a (t ∷ ts) =
    if less h a t then a ∷ t ∷ ts else if less h t a then t ∷ insert h a ts else t ∷ ts

pub find : Heap → ℕ → List ℕ → Bool
find h a [] = false
find h a (t ∷ ts) = if not (less h a t) && not (less h t a) then true else find h a ts

pub erase : Heap → ℕ → List ℕ → List ℕ
erase h a [] = []
erase h a (t ∷ ts) = if not (less h a t) && not (less h t a) then ts else t ∷ erase h a ts

pub is_front : ℕ → List ℕ → Bool
is_front a [] = false
is_front a (t ∷ ts) = a == t

-- The protected addTimer. The Boolean tells whether onTimerInsertedAtFront is called.
pub add_to_set : TimerManager → ℕ → TimerManager × Bool
unfolding insert is_front
add_to_set m a =
    let ts = insert m.heap a m.timers in
    let at_front = is_front a ts && not m.tickled in
    (record m { timers = ts; tickled = if at_front then true else m.tickled }, at_front)

-- The public addTimer, which makes a timer at the address `a`.
pub add_timer : TimerManager → ℕ → ℕ → ℕ → Option ℕ → Bool → TimerManager × Bool
unfolding add_to_set
add_timer m now a ms cb recurring =
    let t : Timer = record {
      recurring = recurring;
      ms = ms;
      next = (now + ms) % 2 ^ 64;
      cb = cb;
    } in
    add_to_set (record m { heap = update m.heap a t }) a

pub is_some : Option ℕ → Bool
is_some none = false
is_some (some c) = true

-- `erase(it)` on the end of the set has no defined outcome: it is the error `null_pointer`.
pub cancel : TimerManager → ℕ → Result (TimerManager × Bool)
unfolding find erase is_some
cancel m a =
    let h = update m.heap a (record (m.heap a) { cb = none }) in
    if is_some (m.heap a).cb
    then (if find h a m.timers
        then ok (record m { heap = h; timers = erase h a m.timers }, true)
        else err null_pointer)
    else ok (m, false)

pub refresh : TimerManager → ℕ → ℕ → TimerManager × Bool
unfolding find erase insert is_some
refresh m now a =
    let h = update m.heap a (record (m.heap a) { next = (now + (m.heap a).ms) % 2 ^ 64 }) in
    if not (is_some (m.heap a).cb)
    then (m, false)
    else if not (find m.heap a m.timers)
    then (m, false)
    else (record m { heap = h; timers = insert h a (erase m.heap a m.timers) }, true)

-- The second Boolean tells whether onTimerInsertedAtFront is called.
pub reset : TimerManager → ℕ → ℕ → ℕ → Bool → TimerManager × Bool × Bool
unfolding find erase add_to_set is_some
reset m now a ms from_now =
    let t = m.heap a in
    let start = if from_now then now else sub64 t.next t.ms in
    let h = update m.heap a (record t { ms = ms; next = (start + ms) % 2 ^ 64 }) in
    if ms == t.ms && not from_now
    then (m, true, false)
    else if not (is_some t.cb)
    then (m, false, false)
    else if not (find m.heap a m.timers)
    then (m, false, false)
    else (let (m', front) =
          add_to_set (record m { heap = h; timers = erase m.heap a m.timers }) a in
        (m', true, front))

wait_for : Heap → ℕ → List ℕ → ℕ
wait_for h now [] = 2 ^ 64 - 1
wait_for h now (t ∷ ts) = if leb (h t).next now then 0 else (h t).next - now

pub get_next_timer : TimerManager → ℕ → TimerManager × ℕ
unfolding wait_for
get_next_timer m now = (record m { tickled = false }, wait_for m.heap now m.timers)

-- `m_previousTime - 60 * 60 * 1000` wraps.
pub detect_clock_rollover : TimerManager → ℕ → TimerManager × Bool
detect_clock_rollover m now = (
  record m { previous_time = now },
  ltb now m.previous_time && ltb now (sub64 m.previous_time (60 * 60 * 1000)),
)

-- The set up to `lower_bound(now_timer)`, and on while the time is exactly `now`: the timers before
-- that place, and those from it on. `p` is the address of `now_timer`.
pub split_exact : Heap → ℕ → List ℕ → List ℕ × List ℕ
split_exact h now [] = ([], [])
split_exact h now (t ∷ ts) =
    let rest = split_exact h now ts in
    if (h t).next == now then (t ∷ rest.0, rest.1) else ([], t ∷ ts)

pub split_expired : Heap → ℕ → ℕ → List ℕ → List ℕ × List ℕ
unfolding split_exact
split_expired h now p [] = ([], [])
split_expired h now p (t ∷ ts) =
    let rest = split_expired h now p ts in
    if less h t p then (t ∷ rest.0, rest.1) else split_exact h now (t ∷ ts)

-- What becomes of an expired timer: it is set again, or it loses its callback.
pub renewed : ℕ → Timer → Timer
renewed now t =
    if t.recurring then record t { next = (now + t.ms) % 2 ^ 64 } else record t { cb = none }

-- The loop over the expired timers.
pub fire : ℕ → List ℕ → Heap → List ℕ → Heap × List ℕ × List (Option ℕ)
fire now [] h ts = (h, ts, [])
fire now (a ∷ expired) h ts =
    let h' = update h a (renewed now (h a)) in
    let rest = fire now expired h' (if (h a).recurring then insert h' a ts else ts) in
    (rest.0, rest.1, (h a).cb ∷ rest.2)

-- The timers that are taken out: all of them after a rollover of the clock.
choose : Bool → Heap → ℕ → ℕ → List ℕ → List ℕ × List ℕ
unfolding split_expired
choose rollover h now p ts = if rollover then (ts, []) else split_expired h now p ts

expire : TimerManager → ℕ → ℕ → List ℕ → TimerManager × List (Option ℕ)
unfolding detect_clock_rollover fire
expire m now p [] = (m, [])
expire m now p (t ∷ ts) =
    let (m', rollover) = detect_clock_rollover m now in
    let h = update m.heap p (record { recurring = false; ms = 0; next = now; cb = none }) in
    let parts = choose rollover h now p (t ∷ ts) in
    let fired = fire now parts.0 m.heap parts.1 in
    if not rollover && ltb now (m.heap t).next
    then (m', [])
    else (record m' { heap = fired.0; timers = fired.1 }, fired.2)

-- `p` is the address of `now_timer`, an object that lives for this call only. The callbacks of the
-- result are what the caller schedules.
pub list_expired_cb : TimerManager → ℕ → ℕ → TimerManager × List (Option ℕ)
unfolding expire
list_expired_cb m now p = expire m now p m.timers

pub has_timer : TimerManager → Bool
has_timer m = elim m.timers [ [] ↦ false | _ ↦ true ]
