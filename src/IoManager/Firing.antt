-- ===== src/IoManager/Firing.antt =====
-- What cancelling and handling an event comes to, and when the manager may stop.
use fishjoy.Base.{
  ℕ, ◌≡◌, refl, ◌∙◌, Bool, true, false, ◌||◌, some, get_elem?, arith, Result, err, assertion, ◌>>=◌,
}
use fishjoy.IoManager.{
  Event, both, without, any, none_event, read_event, write_event, FdContext, IoManager, Op, ctl_del,
}
use fishjoy.IoManager.Operations.{
  cancel_event, cancel_at, cancel_all, cancel_all_at, handle_event, trigger, trigger_if, stopping,
}
use fishjoy.IoManager.Events.{trigger_event_fails, both-any, any_bits}
use fishjoy.IoManager.Deleting.{found-some}
use fishjoy.IoManager.Valid.{IsValid, events_at, no_total}

module _ (ctl : Op → ℕ → Event → Bool) where
  trigger_fails :
      (m : IoManager) (fd : ℕ) (e : Event) (c : FdContext) → trigger ctl m fd e c ≡ err assertion
  unfolding trigger
  trigger_fails m fd e c = rw (trigger_event_fails c e)

  -- Of two triggers one is called for, and fails. The first changes nothing if it is not.
  two_triggers :
      {A : Type 0} (r w : Bool) (w' : FdContext → Bool) (m : IoManager) (fd : ℕ) (c : FdContext)
      (k : IoManager × FdContext → Result A)
      → (r || w) ≡ true
      → w' c ≡ w
      → (trigger_if ctl r m fd read_event c >>= λ x.
          trigger_if ctl (w' x.1) x.0 fd write_event x.1 >>= k)
        ≡ err assertion
  two_triggers true w w' m fd c k h e = rw (trigger_fails m fd read_event c)
  two_triggers false true w' m fd c k h e = rw (e, trigger_fails m fd write_event c)
  two_triggers false false w' m fd c k h e = cc

  module _ (m : IoManager) (fd : ℕ) (e : Event) (c : FdContext)
      (grants : (op : Op) (events : Event) → ctl op fd events ≡ true)
      (registered : any (both c.events e) ≡ true) where
    cancels : cancel_at ctl m fd e c ≡ err assertion
    unfolding cancel_at
    cancels = rw (registered, grants _ (without c.events e), trigger_fails _ fd e c)

    some_event : any c.events ≡ true
    some_event = (both-any c.events e registered).0

    cancels_all : cancel_all_at ctl m fd c ≡ err assertion
    unfolding cancel_all_at
    cancels_all =
        rw (some_event, grants ctl_del none_event)
          (two_triggers (any (both c.events read_event)) (any (both c.events write_event))
            (λ c. any (both c.events write_event)) _ fd c _ (any_bits c.events some_event) refl)

    handles : handle_event ctl m fd false e c ≡ err assertion
    unfolding handle_event
    handles =
        rw (registered, grants _ (without c.events e))
          (two_triggers (any (both e read_event)) (any (both e write_event))
            (λ _. any (both e write_event)) _ fd c _ (any_bits e (both-any c.events e registered).1)
            refl)

  -- Where the kernel grants every request and some of the events asked for are registered on a
  -- descriptor, `cancel_event`, `cancel_all` and the handling of the events when they occur all
  -- fail an assertion: no registered event is ever delivered.
  pub cancel_fails :
      (m : IoManager) (fd : ℕ) (e : Event) (c : FdContext)
      → ((op : Op) (events : Event) → ctl op fd events ≡ true)
      → get_elem? m.contexts fd ≡ some c
      → any (both c.events e) ≡ true
      → (cancel_event ctl m fd e ≡ err assertion)
        × (cancel_all ctl m fd ≡ err assertion)
        × (handle_event ctl m fd false e c ≡ err assertion)
  unfolding cancel_event cancel_all
  cancel_fails m fd e c grants there registered = (
    found-some _ _ there ∙ cancels m fd e c grants registered,
    found-some _ _ there ∙ cancels_all m fd e c grants registered,
    handles m fd e c grants registered,
  )

-- A valid manager that may stop has no event registered on any descriptor, and asks the kernel for
-- none.
pub stopping-idle :
    (m : IoManager) (timeout : ℕ) (scheduler_stopping : Bool) (fd : ℕ)
    → IsValid m
    → stopping m timeout scheduler_stopping ≡ true
    → (events_at m.contexts fd ≡ none_event) × (m.interest fd ≡ none_event)
unfolding stopping
stopping-idle m timeout scheduler_stopping fd v h = (none_left, v.same_interest fd ∙ none_left)
  where
    nothing : m.pending ≡ 0
    nothing = ground arith

    none_left : events_at m.contexts fd ≡ none_event
    none_left = no_total m.contexts fd (omega (arith, v.counted, nothing))
