-- ===== src/IoManager/Deleting.antt =====
-- What `del_event` does.
use fishjoy.Base.{
  decrement, decrement_pos, ℕ, zero, suc, ◌+◌, ◌≡◌, refl, sym, ap, ◌∙◌, Bool, true, false, not, ◌⊎◌,
  inl, inr, Option, none, some, get_elem?, if_cases, arith, Result, ok, Option-cases, set, List,
  ◌∷◌, [],
}
use fishjoy.IoManager.{
  Event, both, without, any, none_event, FdContext, EventContext, Slot, read_slot, write_slot,
  put_slot, empty_context, found, IoManager, note, Op,
}
use fishjoy.IoManager.Operations.{del_at, del_event}
use fishjoy.IoManager.Events.{
  event_of, bit, amount, get-event_of, any-both, amount-without, Ready, clear-Ready,
}
use fishjoy.IoManager.Valid.{
  IsValid, events_at, get-All, events_at-set, events_at-get, replace-IsValid, amount-le-total,
}

-- The operation returns, with a result that the predicate holds of.
abbrev pub Returns : (IoManager × Bool → Type 0) → Result (IoManager × Bool) → Type 0
Returns P r = (x : IoManager × Bool) × (r ≡ ok x) × P x

pub events-put : (c : FdContext) (s : Slot) (x : EventContext) → (put_slot c s x).events ≡ c.events
events-put c read_slot x = refl
events-put c write_slot x = refl

pub found-some :
    {A : Type 0} {o : Option FdContext} {c : FdContext} (x : A) (k : FdContext → A)
    → o ≡ some c
    → found o x k ≡ k c
found-some x k e = ap (λ o. found o x k) e

pub not-true : (b : Bool) → not b ≡ true → b ≡ false
not-true b h = ground arith

pub not-false : (b : Bool) → not b ≡ false → b ≡ true
not-false b h = ground arith

-- The events of the descriptor become `events`, those of the others stay.
abbrev pub Noted : IoManager → ℕ → Event → IoManager → Type 0
Noted m fd events m' = (j : ℕ) → events_at m'.contexts j ≡ note (events_at m.contexts) fd events j

pub noted :
    (m : IoManager) (fd : ℕ) (c c' : FdContext) (f : Event → Event)
    → get_elem? m.contexts fd ≡ some c
    → c'.events ≡ f c.events
    → (j : ℕ)
    → events_at (set m.contexts fd c') j
      ≡ note (events_at m.contexts) fd (f (events_at m.contexts fd)) j
noted m fd c c' f there e j =
    events_at-set m.contexts fd c c' j there
    ∙ ap (λ (x : Event). note (events_at m.contexts) fd x j)
        (e ∙ ap f (sym (events_at-get m.contexts fd c there)))

-- `del_event`: the new state is valid. With true the event was registered and is no more; with false
-- nothing has changed, and the event was not registered or the kernel refused.
pub record Deleted (ctl : Op → ℕ → Event → Bool) (m : IoManager) (fd : ℕ) (s : Slot)
    (x : IoManager × Bool) : Type 0 where
  pub valid : IsValid x.0
  pub done :
      x.1 ≡ true
      → (bit s (events_at m.contexts fd) ≡ true)
        × Noted m fd (without (events_at m.contexts fd) (event_of s)) x.0
        × (x.0.queue ≡ m.queue)
  pub undone :
      x.1 ≡ false
      → (x.0 ≡ m)
        × ((bit s (events_at m.contexts fd) ≡ false)
            ⊎ ((op : Op) × (ctl op fd (without (events_at m.contexts fd) (event_of s)) ≡ false)))

module _ (ctl : Op → ℕ → Event → Bool) (m : IoManager) (fd : ℕ) (s : Slot) (v : IsValid m) where
  module _ (c : FdContext) (there : get_elem? m.contexts fd ≡ some c) where
    at : events_at m.contexts fd ≡ c.events
    at = events_at-get m.contexts fd c there

    ready : Ready c
    ready = get-All Ready m.contexts fd v.ready there

    not_registered : bit s c.events ≡ false → Deleted ctl m fd s (m, false)
    not_registered absent = record {
      valid = v;
      done = λ e. cc;
      undone = λ _. (refl, inl (ap (bit s) at ∙ absent));
    }

    refused :
        (op : Op)
        → ctl op fd (without c.events (event_of s)) ≡ false
        → Deleted ctl m fd s (m, false)
    refused op h = record {
      valid = v;
      done = λ e. cc;
      undone = λ _. (refl, inr (op, ap (λ (e : Event). ctl op fd (without e (event_of s))) at ∙ h));
    }

    counted_down :
        bit s c.events ≡ true
        → decrement m.pending + amount c.events ≡ m.pending + amount (without c.events (event_of s))
    counted_down present = omega (
      arith,
      decrement_pos m.pending (
          omega (
            arith,
            v.counted,
            amount-le-total m.contexts fd c there,
            amount-without s c.events present,
          )),
      amount-without s c.events present,
    )

    deleted :
        bit s c.events ≡ true
        → Deleted ctl m fd s (
          record m {
            contexts =
                set m.contexts fd
                  (put_slot (record c { events = without c.events (event_of s) }) s empty_context);
            pending = decrement m.pending;
            interest = note m.interest fd (without c.events (event_of s));
          },
          true,
        )
    deleted present = record {
      valid =
          replace-IsValid m fd c _ (decrement m.pending) _ v there (events-put _ s empty_context)
            (clear-Ready c s ready) (counted_down present);
      done = λ _. (
        ap (bit s) at ∙ present,
        noted m fd c _ (λ e. without e (event_of s)) there (events-put _ s empty_context),
        refl,
      );
      undone = λ e. cc;
    }

    del_at-Deleted : Returns (Deleted ctl m fd s) (del_at ctl m fd (event_of s) c)
    unfolding del_at
    del_at-Deleted =
        if_cases (Returns (Deleted ctl m fd s)) (not (any (both c.events (event_of s)))) _ _
          (λ absent.
            ((m, false), refl, not_registered (sym (any-both s c.events) ∙ not-true _ absent)))
          (λ present.
            if_cases (Returns (Deleted ctl m fd s)) (not (ctl _ fd (without c.events (event_of s))))
              _ _ (λ h. ((m, false), refl, refused _ (not-true _ h)))
              (λ _. (
                _,
                rw (get-event_of s),
                deleted (sym (any-both s c.events) ∙ not-false _ present),
              )))

  -- In a valid manager `del_event` of READ or WRITE always returns, and leaves a valid manager
  -- behind. With true the event was registered, is taken off its descriptor, every other event
  -- stays, and nothing is scheduled; with false nothing has changed, and the event was not
  -- registered or the kernel refused.
  pub del_event-Deleted : Returns (Deleted ctl m fd s) (del_event ctl m fd (event_of s))
  unfolding del_event
  del_event-Deleted = elim (Option-cases (get_elem? m.contexts fd)) [
    | inl e ↦
        ((m, false), ap (λ o. found o (ok (m, false)) (del_at ctl m fd (event_of s))) e, absent e)
    | inr (c, e) ↦ let (x, returns, h) = del_at-Deleted c e in (x, found-some _ _ e ∙ returns, h)
  ]
    where
      beyond : (cs : List FdContext) (i : ℕ) → get_elem? cs i ≡ none → events_at cs i ≡ none_event
      beyond [] i e = refl
      beyond (c ∷ cs) zero e = cc
      beyond (c ∷ cs) (suc i) e = beyond cs i e

      no_bit : (s : Slot) → bit s none_event ≡ false
      no_bit read_slot = refl
      no_bit write_slot = refl

      absent : get_elem? m.contexts fd ≡ none → Deleted ctl m fd s (m, false)
      absent e = record {
        valid = v;
        done = λ e. cc;
        undone = λ _. (refl, inl (ap (bit s) (beyond m.contexts fd e) ∙ no_bit s));
      }
