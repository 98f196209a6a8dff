-- ===== src/IoManager.antt =====
-- The I/O events of src/fiber/iomanager.cpp and include/fishjoy/fiber/iomanager.hpp.
-- The kernel's `epoll_ctl` is the argument `ctl`, which tells whether a call succeeds. `interest` is
-- what the last successful call asked for on each descriptor. A scheduler, a fiber and a callback
-- are numbers, null is `none`. Descriptors are not negative. `queue` collects what is handed to
-- `schedule`, the latest first. A failed FISHJOY_ASSERT ends the program: it is an error here, also
-- where a release build would go on to throw std::invalid_argument.
pub mod Operations
pub mod Events
pub mod Valid
pub mod Deleting
pub mod Adding
pub mod Firing
mod Tests
use fishjoy.Base.{
  ℕ, zero, suc, ◌+◌, ◌-◌, ◌/◌, ◌^◌, Bool, true, false, ◌&&◌, ◌||◌, not, Option, none, some, List,
  [], ◌∷◌, ◌++◌, length, get_elem?, set, take, ltb, ◌==◌, if◌then◌else◌, Result, ok, err,
  null_pointer, assertion, ◌>>=◌,
}

-- A value of the enum, or a union of its values: READ (EPOLLIN) or not, WRITE (EPOLLOUT) or not.
pub data Event : Type 0 where
  mask : Bool → Bool → Event

abbrev pub none_event : Event
none_event = mask false false

abbrev pub read_event : Event
read_event = mask true false

abbrev pub write_event : Event
write_event = mask false true

-- `a & b`, `a | b` and `a & ~b`, and whether a value is not 0.
abbrev pub both : Event → Event → Event
both (mask r w) (mask r' w') = mask (r && r') (w && w')

abbrev pub either : Event → Event → Event
either (mask r w) (mask r' w') = mask (r || r') (w || w')

abbrev pub without : Event → Event → Event
without (mask r w) (mask r' w') = mask (r && not r') (w && not w')

abbrev pub any : Event → Bool
any (mask r w) = r || w

pub record EventContext : Type 0 where
  pub scheduler : Option ℕ
  pub fiber : Option ℕ
  pub cb : Option ℕ

abbrev pub empty_context : EventContext
empty_context = record { scheduler = none; fiber = none; cb = none }

pub record FdContext : Type 0 where
  pub read : EventContext
  pub write : EventContext
  pub fd : ℕ
  pub events : Event

-- The member that getEventContext returns a reference to.
pub data Slot : Type 0 where
  read_slot write_slot : Slot

unfoldable pub get_event_context : Event → Result Slot
get_event_context (mask true false) = ok read_slot
get_event_context (mask false true) = ok write_slot
get_event_context (mask false false) = err assertion
get_event_context (mask true true) = err assertion

abbrev pub slot_of : FdContext → Slot → EventContext
slot_of c read_slot = c.read
slot_of c write_slot = c.write

abbrev pub put_slot : FdContext → Slot → EventContext → FdContext
put_slot c read_slot x = record c { read = x }
put_slot c write_slot x = record c { write = x }

abbrev pub is_set : Option ℕ → Bool
is_set none = false
is_set (some x) = true

pub data Task : Type 0 where
  call : Option ℕ → Task
  resume : Option ℕ → Task

abbrev pub task_of : EventContext → Option ℕ × Task
task_of x = (x.scheduler, (if is_set x.cb then call x.cb else resume x.fiber))

-- `event = (Event)(event & ~event)` clears the parameter, and the context is looked up by what is
-- left of it.
unfoldable pub trigger_event : FdContext → Event → Result (FdContext × (Option ℕ × Task))
unfolding get_event_context
trigger_event c event = if not (any (both event event)) then err assertion else (do
  let event' = without event event
  slot ← get_event_context event'
  ok (put_slot c slot empty_context, task_of (slot_of c slot)))

pub data Op : Type 0 where
  ctl_add ctl_mod ctl_del : Op

pub record IoManager : Type 0 where
  pub contexts : List FdContext
  pub pending : ℕ
  pub interest : ℕ → Event
  pub queue : List (Option ℕ × Task)

abbrev pub fresh_context : ℕ → FdContext
fresh_context i = record {
  read = empty_context;
  write = empty_context;
  fd = i;
  events = none_event;
}

abbrev pub fresh_from : ℕ → ℕ → List FdContext
fresh_from i zero = []
fresh_from i (suc n) = fresh_context i ∷ fresh_from (suc i) n

unfoldable pub context_resize : List FdContext → ℕ → List FdContext
context_resize cs n = take n cs ++ fresh_from (length cs) (n - length cs)

-- The constructor's `contextResize(32)`.
unfoldable pub create : IoManager
unfolding context_resize
create = record {
  contexts = context_resize [] 32;
  pending = 0;
  interest = λ fd. none_event;
  queue = [];
}

abbrev pub note : (ℕ → Event) → ℕ → Event → ℕ → Event
note interest fd events i = if fd == i then events else interest i

abbrev pub is_empty : EventContext → Bool
is_empty x = not (is_set x.scheduler) && not (is_set x.fiber) && not (is_set x.cb)

abbrev pub waiting_context : Option ℕ → ℕ → Option ℕ → EventContext
waiting_context scheduler fiber cb = record {
  scheduler = scheduler;
  fiber = (if is_set cb then none else some fiber);
  cb = cb;
}

-- The descriptor's context, or what happens where the vector has none.
abbrev pub found {ℓ} : {A : Type ℓ} → Option FdContext → A → (FdContext → A) → A
found none x k = x
found (some c) x k = k c

abbrev pub context_at : List FdContext → ℕ → Result FdContext
context_at cs fd = found (get_elem? cs fd) (err null_pointer) ok

-- The vector is made half as long again as the descriptor's number, where it is too short.
abbrev pub make_room : IoManager → ℕ → IoManager
make_room m fd =
    if ltb fd (length m.contexts)
    then m
    else record m { contexts = context_resize m.contexts (fd + fd / 2) }
