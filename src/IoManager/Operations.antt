-- ===== src/IoManager/Operations.antt =====
-- The operations of the I/O manager in src/fiber/iomanager.cpp. Those whose name ends in `_at` go on
-- from the descriptor's context.
use fishjoy.Base.{
  decrement, ℕ, suc, ◌-◌, ◌^◌, Bool, true, false, ◌&&◌, ◌||◌, not, Option, ◌∷◌, get_elem?, set,
  ◌==◌, if◌then◌else◌, Result, ok, err, assertion, ◌>>=◌,
}
use fishjoy.IoManager.{
  Event, both, either, without, any, none_event, read_event, write_event, FdContext,
  get_event_context, slot_of, put_slot, empty_context, is_set, is_empty, waiting_context,
  trigger_event, Op, ctl_add, ctl_mod, ctl_del, IoManager, note, found, context_at, make_room,
}

module _ (ctl : Op → ℕ → Event → Bool) where
  -- `addEvent` from the descriptor's context on. `scheduler` and `fiber` are those of the caller,
  -- and `running` tells whether the fiber's state is RUNNING. The Boolean of the result is true for
  -- the code's 0, and false for its -1.
  unfoldable pub add_at :
      Option ℕ → ℕ → Bool → IoManager → ℕ → Event → Option ℕ → FdContext → Result (IoManager × Bool)
  unfolding get_event_context
  add_at scheduler fiber running m fd event cb c =
      let events = either c.events event in
      if any (both c.events event)
      then err assertion
      else if not (ctl (if any c.events then ctl_mod else ctl_add) fd events)
      then ok (m, false)
      else (do
        slot ← get_event_context event
        if not (is_empty (slot_of c slot)) || (not (is_set cb) && not running)
            then err assertion
            else ok (
              record m {
                contexts = set m.contexts fd (
                    put_slot (record c { events = events }) slot
                      (waiting_context scheduler fiber cb));
                pending = suc m.pending;
                interest = note m.interest fd events;
              },
              true,
            ))

  unfoldable pub add_event :
      Option ℕ → ℕ → Bool → IoManager → ℕ → Event → Option ℕ → Result (IoManager × Bool)
  unfolding add_at
  add_event scheduler fiber running m fd event cb = do
    c ← context_at (make_room m fd).contexts fd
    add_at scheduler fiber running (make_room m fd) fd event cb c

  unfoldable pub del_at : IoManager → ℕ → Event → FdContext → Result (IoManager × Bool)
  unfolding get_event_context
  del_at m fd event c =
      let events = without c.events event in
      if not (any (both c.events event))
      then ok (m, false)
      else if not (ctl (if any events then ctl_mod else ctl_del) fd events)
      then ok (m, false)
      else (do
        slot ← get_event_context event
        ok (
          record m {
            contexts =
                set m.contexts fd (put_slot (record c { events = events }) slot empty_context);
            pending = decrement m.pending;
            interest = note m.interest fd events;
          },
          true,
        ))

  unfoldable pub del_event : IoManager → ℕ → Event → Result (IoManager × Bool)
  unfolding del_at
  del_event m fd event = found (get_elem? m.contexts fd) (ok (m, false)) (del_at m fd event)

  -- A triggered event, whose task goes to the queue.
  unfoldable pub trigger : IoManager → ℕ → Event → FdContext → Result (IoManager × FdContext)
  unfolding trigger_event
  trigger m fd event c = do
    (c', task) ← trigger_event c event
    ok (
      record m {
        contexts = set m.contexts fd c';
        queue = task ∷ m.queue;
        pending = decrement m.pending;
      },
      c',
    )

  unfoldable pub cancel_at : IoManager → ℕ → Event → FdContext → Result (IoManager × Bool)
  unfolding trigger
  cancel_at m fd event c =
      let events = without c.events event in
      if not (any (both c.events event))
      then ok (m, false)
      else if not (ctl (if any events then ctl_mod else ctl_del) fd events)
      then ok (m, false)
      else (do
        (m', _) ← trigger (record m { interest = note m.interest fd events }) fd event c
        ok (m', true))

  unfoldable pub cancel_event : IoManager → ℕ → Event → Result (IoManager × Bool)
  unfolding cancel_at
  cancel_event m fd event = found (get_elem? m.contexts fd) (ok (m, false)) (cancel_at m fd event)

  -- Both tests read the context's own events, which a trigger is to clear.
  abbrev pub trigger_if : Bool → IoManager → ℕ → Event → FdContext → Result (IoManager × FdContext)
  trigger_if true m fd event c = trigger m fd event c
  trigger_if false m fd event c = ok (m, c)

  unfoldable pub cancel_all_at : IoManager → ℕ → FdContext → Result (IoManager × Bool)
  unfolding trigger
  cancel_all_at m fd c =
      if not (any c.events)
      then ok (m, false)
      else if not (ctl ctl_del fd none_event)
      then ok (m, false)
      else (do
        let m₀ = record m { interest = note m.interest fd none_event }
        (m₁, c₁) ← trigger_if (any (both c.events read_event)) m₀ fd read_event c
        (m₂, c₂) ← trigger_if (any (both c₁.events write_event)) m₁ fd write_event c₁
        if any c₂.events then err assertion else ok (m₂, true))

  unfoldable pub cancel_all : IoManager → ℕ → Result (IoManager × Bool)
  unfolding cancel_all_at
  cancel_all m fd = found (get_elem? m.contexts fd) (ok (m, false)) (cancel_all_at m fd)

  -- The body of the loop of `idle` over the events that epoll_wait reports, for one that is not the
  -- tickle pipe's: `broken` is EPOLLERR or EPOLLHUP, `ready` the EPOLLIN and EPOLLOUT among the rest.
  unfoldable pub handle_event : IoManager → ℕ → Bool → Event → FdContext → Result IoManager
  unfolding trigger
  handle_event m fd broken ready c =
      let real = if broken then either ready c.events else ready in
      let left = without c.events real in
      if not (any (both c.events real))
      then ok m
      else if not (ctl (if any left then ctl_mod else ctl_del) fd left)
      then ok m
      else (do
        let m₀ = record m { interest = note m.interest fd left }
        (m₁, c₁) ← trigger_if (any (both real read_event)) m₀ fd read_event c
        (m₂, c₂) ← trigger_if (any (both real write_event)) m₁ fd write_event c₁
        ok m₂)

-- `timeout` is what the timers' getNextTimer returns, and the last argument what
-- Scheduler::stopping does.
unfoldable pub stopping : IoManager → ℕ → Bool → Bool
stopping m timeout scheduler_stopping =
    (timeout == (2 ^ 64 - 1)) && (m.pending == 0) && scheduler_stopping
