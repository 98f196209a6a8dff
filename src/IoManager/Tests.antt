-- ===== src/IoManager/Tests.antt =====
-- Runs of the I/O manager, and each theorem at a concrete state.
use fishjoy.Base.{
  ℕ, zero, suc, ◌≡◌, refl, Bool, true, false, none, some, [], ◌∷◌, inr, ◌>>=◌, arith, ok, err,
  assertion,
}
use fishjoy.IoManager.{
  Event, none_event, read_event, write_event, FdContext, empty_context, fresh_context, read_slot,
  write_slot, IoManager, note, Op, get_event_context,
}
use fishjoy.IoManager.Operations.{
  add_event, del_at, del_event, cancel_event, cancel_all, handle_event,
}
use fishjoy.IoManager.Valid.{IsValid, events_at}
use fishjoy.IoManager.Deleting.{Returns, Deleted, del_event-Deleted}
use fishjoy.IoManager.Adding.{Added, add_event-Added}
use fishjoy.IoManager.Firing.{cancel_fails}

-- A kernel that grants everything.
abbrev granting : Op → ℕ → Event → Bool
granting op fd events = true

abbrev reader : FdContext
reader = record {
  read = record { scheduler = some 1; fiber = none; cb = some 7 };
  write = empty_context;
  fd = 1;
  events = read_event;
}

-- The callback 7 waits for the descriptor 1 to be ready for reading.
abbrev busy : IoManager
busy = record {
  contexts = fresh_context 0 ∷ reader ∷ [];
  pending = 1;
  interest = note (λ fd. none_event) 1 read_event;
  queue = [];
}

busy-IsValid : IsValid busy
busy-IsValid = record {
  ready = ((refl, refl), ((refl, refl), tt));
  counted = refl;
  same_interest = same;
}
  where
    same : (fd : ℕ) → busy.interest fd ≡ events_at busy.contexts fd
    same zero = refl
    same (suc zero) = refl
    same (suc (suc fd)) = ground arith

abbrev idle : IoManager
idle = record {
  contexts = fresh_context 0 ∷ fresh_context 1 ∷ [];
  pending = 0;
  interest = λ fd. none_event;
  queue = [];
}

idle-IsValid : IsValid idle
idle-IsValid = record {
  ready = ((refl, refl), ((refl, refl), tt));
  counted = refl;
  same_interest = same;
}
  where
    same : (fd : ℕ) → none_event ≡ events_at idle.contexts fd
    same zero = refl
    same (suc zero) = refl
    same (suc (suc fd)) = refl

-- A deleted event leaves no count behind.
deletes : (del_event granting busy 1 read_event >>= λ x. ok x.0.pending) ≡ ok 0
unfolding del_event del_at get_event_context
deletes = refl

add_event-Added_example :
    Returns
      (Added granting busy 1 write_slot)
      (add_event granting (some 1) 5 true busy 1 write_event none)
add_event-Added_example =
    add_event-Added granting (some 1) 5 true none busy 1 write_slot busy-IsValid (omega arith) refl
      (inr refl)

del_event-Deleted_example :
    Returns (Deleted granting busy 1 read_slot) (del_event granting busy 1 read_event)
del_event-Deleted_example = del_event-Deleted granting busy 1 read_slot busy-IsValid

cancel_fails_example :
    (cancel_event granting busy 1 read_event ≡ err assertion)
    × (cancel_all granting busy 1 ≡ err assertion)
    × (handle_event granting busy 1 false read_event reader ≡ err assertion)
cancel_fails_example = cancel_fails granting busy 1 read_event reader (λ op events. refl) refl refl
