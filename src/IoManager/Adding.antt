-- ===== src/IoManager/Adding.antt =====
-- What `add_event` does.
use fishjoy.Base.{
  ℕ, suc, ◌<◌, ◌≤◌, ◌≡◌, refl, sym, ap, ◌∙◌, subst, Bool, true, false, not, ◌&&◌, ◌||◌, ◌⊎◌, inl,
  inr, Option, none, some, length, length-set, get_elem?, if◌then◌else◌, ◌==◌, if_cases, arith,
  Result, ok, err, assertion, null_pointer, ◌>>=◌, List, set,
}
use fishjoy.IoManager.{
  Event, both, either, any, FdContext, EventContext, Slot, slot_of, put_slot, empty_context,
  waiting_context, is_set, is_empty, IoManager, note, Op, ctl_add, ctl_mod, make_room, context_at,
  found,
}
use fishjoy.IoManager.Operations.{add_at, add_event}
use fishjoy.IoManager.Events.{
  event_of, bit, get-event_of, any-both, amount-either, Ready, Waiting, Fits, slot-Fits, put-Ready,
}
use fishjoy.IoManager.Valid.{
  IsValid, events_at, get-All, events_at-get, replace-IsValid, Roomy, make_room-Roomy,
}
use fishjoy.IoManager.Deleting.{Returns, events-put, not-true, Noted, noted}

-- The new state is valid. With true the event is registered; with false the events are as before,
-- and the kernel refused.
pub record Added (ctl : Op → ℕ → Event → Bool) (m : IoManager) (fd : ℕ) (s : Slot)
    (x : IoManager × Bool) : Type 0 where
  pub valid : IsValid x.0
  pub long : length m.contexts ≤ length x.0.contexts
  pub done : x.1 ≡ true → Noted m fd (either (events_at m.contexts fd) (event_of s)) x.0
  pub undone :
      x.1 ≡ false
      → ((j : ℕ) → events_at x.0.contexts j ≡ events_at m.contexts j)
        × ((op : Op) × (ctl op fd (either (events_at m.contexts fd) (event_of s)) ≡ false))

waits :
    (scheduler : Option ℕ) (fiber : ℕ) (cb : Option ℕ)
    → Waiting (waiting_context scheduler fiber cb)
waits none fiber none = refl
waits none fiber (some f) = refl
waits (some x) fiber none = refl
waits (some x) fiber (some f) = refl

passes :
    (x : EventContext) (set_cb running : Bool)
    → x ≡ empty_context
    → (set_cb ≡ true) ⊎ (running ≡ true)
    → (not (is_empty x) || (not set_cb && not running)) ≡ false
passes x set_cb running e (inl h) = rw (e, h)
passes x true running e (inr h) = rw e
passes x false running e (inr h) = rw (e, h)

opened :
    {A : Type 0} (cs : List FdContext) (fd : ℕ) (c : FdContext) (k : FdContext → Result A)
    → get_elem? cs fd ≡ some c
    → (context_at cs fd >>= k) ≡ k c
opened cs fd c k e = ap (λ o. found o (err null_pointer) ok >>= k) e

module _ (ctl : Op → ℕ → Event → Bool) (scheduler : Option ℕ) (fiber : ℕ) (running : Bool)
    (cb : Option ℕ) where
  module _ (m : IoManager) (fd : ℕ) (s : Slot) (v : IsValid m) (c : FdContext)
      (there : get_elem? m.contexts fd ≡ some c) where
    at : events_at m.contexts fd ≡ c.events
    at = events_at-get m.contexts fd c there

    abbrev added : IoManager
    added = record m {
      contexts = set m.contexts fd (
          put_slot (record c { events = either c.events (event_of s) }) s
            (waiting_context scheduler fiber cb));
      pending = suc m.pending;
      interest = note m.interest fd (either c.events (event_of s));
    }

    added-Added : bit s c.events ≡ false → Added ctl m fd s (added, true)
    added-Added absent = record {
      valid =
          replace-IsValid m fd c _ (suc m.pending) _ v there
            (events-put _ s (waiting_context scheduler fiber cb))
            (put-Ready c s _ (waits scheduler fiber cb) (get-All Ready m.contexts fd v.ready there))
            (omega (arith, amount-either s c.events absent));
      long = omega (
        arith,
        length-set m.contexts fd (
            put_slot (record c { events = either c.events (event_of s) }) s
              (waiting_context scheduler fiber cb)),
      );
      done = λ _.
          noted m fd c _ (λ e. either e (event_of s)) there
            (events-put _ s (waiting_context scheduler fiber cb));
      undone = λ e. cc;
    }

    refused :
        (op : Op) → ctl op fd (either c.events (event_of s)) ≡ false → Added ctl m fd s (m, false)
    refused op h = record {
      valid = v;
      long = omega arith;
      done = λ e. cc;
      undone = λ _. (λ j. refl, (op, ap (λ (e : Event). ctl op fd (either e (event_of s))) at ∙ h));
    }

    empty_slot : bit s c.events ≡ false → slot_of c s ≡ empty_context
    empty_slot absent =
        subst (λ b. Fits b (slot_of c s)) absent
          (slot-Fits c s (get-All Ready m.contexts fd v.ready there))

    add_at-Added :
        bit s c.events ≡ false
        → (is_set cb ≡ true) ⊎ (running ≡ true)
        → Returns (Added ctl m fd s) (add_at ctl scheduler fiber running m fd (event_of s) cb c)
    unfolding add_at
    add_at-Added absent someone =
        if_cases (Returns (Added ctl m fd s)) (any (both c.events (event_of s))) _ _
          (λ present. absurd (clash (sym (any-both s c.events) ∙ present)))
          (λ _.
            if_cases (Returns (Added ctl m fd s))
              (not
                (ctl (if any c.events then ctl_mod else ctl_add) fd (either c.events (event_of s))))
              _ _ (λ h. ((m, false), refl, refused _ (not-true _ h)))
              (λ _. (
                (added, true),
                rw (
                  get-event_of s,
                  passes (slot_of c s) (is_set cb) running (empty_slot absent) someone,
                ),
                added-Added absent,
              )))
      where
        clash : bit s c.events ≡ true → ⊥
        clash e = cc

  add_at_twice :
      (m : IoManager) (fd : ℕ) (s : Slot) (c : FdContext)
      → bit s c.events ≡ true
      → add_at ctl scheduler fiber running m fd (event_of s) cb c ≡ err assertion
  unfolding add_at
  add_at_twice m fd s c present = rw (any-both s c.events, present)

  module _ (m : IoManager) (fd : ℕ) (s : Slot) (v : IsValid m) (two : 1 < length m.contexts) where
    room : Roomy m fd (make_room m fd)
    room = make_room-Roomy m fd two v

    was : events_at m.contexts fd ≡ room.there.0.events
    was = sym (room.same fd) ∙ events_at-get (make_room m fd).contexts fd room.there.0 room.there.1

    grown : (x : IoManager × Bool) → Added ctl (make_room m fd) fd s x → Added ctl m fd s x
    grown x h = record {
      valid = h.valid;
      long = omega (arith, room.long, h.long);
      done = λ e j.
          h.done e j
          ∙ ap
              (λ (y : Event).
                note (events_at (make_room m fd).contexts) fd (either y (event_of s)) j)
              (room.same fd)
          ∙ ap (λ (y : Event). if fd == j then either (events_at m.contexts fd) (event_of s) else y)
              (room.same j);
      undone = λ e.
          let (stay, (op, no_more)) = h.undone e in
          (
            λ j. stay j ∙ room.same j,
            (
              op,
              ap (λ (y : Event). ctl op fd (either y (event_of s))) (sym (room.same fd)) ∙ no_more,
            ),
          );
    }

    -- In a valid manager with room for two descriptors, `add_event` of READ or WRITE, where it is
    -- not registered and where there is a callback or a running fiber, returns and leaves a valid
    -- manager behind. With success the event is added to its descriptor's events and every other
    -- event stays; with failure the events are as before, and the kernel refused.
    pub add_event-Added :
        bit s (events_at m.contexts fd) ≡ false
        → (is_set cb ≡ true) ⊎ (running ≡ true)
        → Returns (Added ctl m fd s) (add_event ctl scheduler fiber running m fd (event_of s) cb)
    unfolding add_event
    add_event-Added absent someone =
        let (c, there) = room.there in
        let (x, returns, h) =
          add_at-Added (make_room m fd) fd s room.valid c there (sym (ap (bit s) was) ∙ absent)
            someone in
        (x, opened (make_room m fd).contexts fd c _ there ∙ returns, grown x h)

    -- In a valid manager with room for two descriptors, `add_event` of READ or WRITE where it is
    -- registered fails the assertion.
    pub add_event_twice :
        bit s (events_at m.contexts fd) ≡ true
        → add_event ctl scheduler fiber running m fd (event_of s) cb ≡ err assertion
    unfolding add_event
    add_event_twice present =
        let (c, there) = room.there in
        opened (make_room m fd).contexts fd c _ there
        ∙ add_at_twice (make_room m fd) fd s c (sym (ap (bit s) was) ∙ present)
