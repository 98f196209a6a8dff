-- ===== src/IoManager/Events.antt =====
-- The sets of events and the slots of a descriptor's context.
use fishjoy.Base.{
  ℕ, suc, ◌+◌, ◌≡◌, refl, Bool, true, false, ◌||◌, err, ok, assertion, if◌then◌else◌, arith,
}
use fishjoy.IoManager.{
  Event, mask, both, either, without, any, EventContext, FdContext, Slot, read_slot, write_slot,
  get_event_context, slot_of, put_slot, read_event, write_event, trigger_event, empty_context,
  is_empty, none_event,
}

-- READ and WRITE, by their slots.
abbrev pub event_of : Slot → Event
event_of read_slot = read_event
event_of write_slot = write_event

abbrev pub bit : Slot → Event → Bool
bit read_slot (mask r w) = r
bit write_slot (mask r w) = w

abbrev pub amount : Event → ℕ
amount (mask r w) = (if r then 1 else 0) + (if w then 1 else 0)

pub get-event_of : (s : Slot) → get_event_context (event_of s) ≡ ok s
unfolding get_event_context
get-event_of read_slot = refl
get-event_of write_slot = refl

pub any-both : (s : Slot) (e : Event) → any (both e (event_of s)) ≡ bit s e
any-both read_slot (mask r w) = ground arith
any-both write_slot (mask r w) = ground arith

pub bit-either_self : (s : Slot) (e : Event) → bit s (either e (event_of s)) ≡ true
bit-either_self read_slot (mask r w) = ground arith
bit-either_self write_slot (mask r w) = ground arith

pub bit-without_self : (s : Slot) (e : Event) → bit s (without e (event_of s)) ≡ false
bit-without_self read_slot (mask r w) = ground arith
bit-without_self write_slot (mask r w) = ground arith

pub amount-either :
    (s : Slot) (e : Event) → bit s e ≡ false → amount (either e (event_of s)) ≡ suc (amount e)
amount-either read_slot (mask r w) h = ground arith
amount-either write_slot (mask r w) h = ground arith

pub amount-without :
    (s : Slot) (e : Event) → bit s e ≡ true → suc (amount (without e (event_of s))) ≡ amount e
amount-without read_slot (mask r w) h = ground arith
amount-without write_slot (mask r w) h = ground arith

pub no_amount : (e : Event) → amount e ≡ 0 → e ≡ none_event
no_amount (mask true w) h = ground arith
no_amount (mask false true) h = ground arith
no_amount (mask false false) h = refl

-- `trigger_event` fails an assertion for every context and every event, since it clears its
-- parameter in place of the registered events.
pub trigger_event_fails : (c : FdContext) (e : Event) → trigger_event c e ≡ err assertion
unfolding trigger_event get_event_context
trigger_event_fails c (mask true true) = refl
trigger_event_fails c (mask true false) = refl
trigger_event_fails c (mask false true) = refl
trigger_event_fails c (mask false false) = refl

-- What a slot holds: nothing where its event is not registered, and else a callback or a fiber.
abbrev pub Waiting : EventContext → Type 0
Waiting x = (is_empty x ≡ false)

abbrev pub Fits : Bool → EventContext → Type 0
Fits true x = Waiting x
Fits false x = x ≡ empty_context

abbrev pub Ready : FdContext → Type 0
Ready c = Fits (bit read_slot c.events) c.read × Fits (bit write_slot c.events) c.write

pub slot-Fits : (c : FdContext) (s : Slot) → Ready c → Fits (bit s c.events) (slot_of c s)
slot-Fits c read_slot r = r.0
slot-Fits c write_slot r = r.1

module _ (c : FdContext) where
  -- A context with an event more, whose slot waits.
  pub put-Ready :
      (s : Slot) (x : EventContext)
      → Waiting x
      → Ready c
      → Ready (put_slot (record c { events = either c.events (event_of s) }) s x)
  put-Ready s x h = at c.events s
    where
      at :
          (e : Event) (s : Slot)
          → Ready (record c { events = e })
          → Ready (put_slot (record c { events = either e (event_of s) }) s x)
      at (mask true true) read_slot q = (h, q.1)
      at (mask true false) read_slot q = (h, q.1)
      at (mask false true) read_slot q = (h, q.1)
      at (mask false false) read_slot q = (h, q.1)
      at (mask true true) write_slot q = (q.0, h)
      at (mask true false) write_slot q = (q.0, h)
      at (mask false true) write_slot q = (q.0, h)
      at (mask false false) write_slot q = (q.0, h)

  -- A context with an event less, whose slot is empty.
  pub clear-Ready :
      (s : Slot)
      → Ready c
      → Ready (put_slot (record c { events = without c.events (event_of s) }) s empty_context)
  clear-Ready s = at c.events s
    where
      at :
          (e : Event) (s : Slot)
          → Ready (record c { events = e })
          → Ready (put_slot (record c { events = without e (event_of s) }) s empty_context)
      at (mask true true) read_slot q = (refl, q.1)
      at (mask true false) read_slot q = (refl, q.1)
      at (mask false true) read_slot q = (refl, q.1)
      at (mask false false) read_slot q = (refl, q.1)
      at (mask true true) write_slot q = (q.0, refl)
      at (mask true false) write_slot q = (q.0, refl)
      at (mask false true) write_slot q = (q.0, refl)
      at (mask false false) write_slot q = (q.0, refl)

pub both-any : (a b : Event) → any (both a b) ≡ true → (any a ≡ true) × (any b ≡ true)
both-any (mask r w) (mask r' w') h = ground arith

pub any_bits :
    (a : Event) → any a ≡ true → (any (both a read_event) || any (both a write_event)) ≡ true
any_bits (mask r w) h = ground arith
