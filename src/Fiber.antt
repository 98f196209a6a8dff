-- ===== src/Fiber.antt =====
-- The fibers of one thread: src/fiber/fiber.cpp and include/fishjoy/fiber/fiber.hpp.
-- A fiber is named by its id, which no other fiber has. The stack and the registers of a context are
-- the flow of control that it belongs to: the thread's own, or that on the stack of a fiber. A switch
-- saves the flow that runs and goes on with another. `this`, `main` and `scheduler` are t_fiber,
-- t_thread_fiber and t_scheduler_fiber; `ids` and `count` are s_fiber_id and s_fiber_count.
pub mod Alternation
pub mod Valid
pub mod Nesting
mod Tests
use fishjoy.Base.{
  ℕ, zero, suc, ◌+◌, Bool, true, false, not, ◌&&◌, ◌||◌, Option, none, some, ◌==◌, if◌then◌else◌,
  decrement, Result, ok, err, assertion, null_pointer, ◌>>=◌,
}
use fishjoy.Scheduler.{FiberState, ready, running, term, is_running, is_term}

pub data Flow : Type 0 where
  own : Flow
  on_stack : ℕ → Flow

-- A context: made to begin at MainFunc, or saved by a switch or by getcontext.
pub data Context : Type 0 where
  begin : Context
  saved : Flow → Context

pub record Fiber : Type 0 where
  pub state : FiberState
  pub context : Context
  pub has_stack : Bool
  pub callback : Option ℕ
  pub in_scheduler : Bool

pub record Thread : Type 0 where
  pub fibers : ℕ → Option Fiber
  pub this : Option ℕ
  pub main : Option ℕ
  pub scheduler : Option ℕ
  pub flow : Flow
  pub ids : ℕ
  pub count : ℕ

abbrev pub put : (ℕ → Option Fiber) → ℕ → Option Fiber → ℕ → Option Fiber
put fibers f o g = if f == g then o else fibers g

abbrev pub found_fiber : Option Fiber → Result Fiber
found_fiber none = err null_pointer
found_fiber (some b) = ok b

-- The fiber behind a pointer.
abbrev pub deref : Thread → Option ℕ → Result Fiber
deref t none = err null_pointer
deref t (some f) = found_fiber (t.fibers f)

abbrev pub check : Bool → Result {0} Unit
check true = ok tt
check false = err assertion

-- `Fiber::Fiber()`: the fiber that stands for the thread.
unfoldable pub main_fiber : Thread → Thread
main_fiber t = record t {
  fibers = put t.fibers t.ids (
      some (record {
        state = running;
        context = saved t.flow;
        has_stack = false;
        callback = none;
        in_scheduler = false;
      }));
  this = some t.ids;
  ids = suc t.ids;
  count = suc t.count;
}

unfoldable pub get_this : Thread → Thread × ℕ
unfolding main_fiber
get_this t = from_this t.this
  where
    from_this : Option ℕ → Thread × ℕ
    from_this (some f) = (t, f)
    from_this none = (record (main_fiber t) { main = some t.ids }, t.ids)

unfoldable pub get_fiber_id : Thread → ℕ
get_fiber_id t = id_of t.this
  where
    id_of : Option ℕ → ℕ
    id_of none = 0
    id_of (some f) = f

-- The constructor with a callback.
unfoldable pub new_fiber : Thread → ℕ → Bool → Thread
new_fiber t callback in_scheduler = record t {
  fibers = put t.fibers t.ids (
      some (record {
        state = ready;
        context = begin;
        has_stack = true;
        callback = some callback;
        in_scheduler = in_scheduler;
      }));
  ids = suc t.ids;
  count = suc t.count;
}

abbrev pub is_none : Option ℕ → Bool
is_none none = true
is_none (some c) = false

abbrev pub points_at : Option ℕ → ℕ → Bool
points_at none f = false
points_at (some g) f = g == f

-- The destructor.
unfoldable pub destroy : Thread → ℕ → Result Thread
destroy t f = do
  b ← deref t (some f)
  _ ← check (if b.has_stack then is_term b.state else is_none b.callback && is_running b.state)
  ok (record t {
    fibers = put t.fibers f none;
    this = if not b.has_stack && points_at t.this f then none else t.this;
    count = decrement t.count;
  })

unfoldable pub reset : Thread → ℕ → ℕ → Result Thread
reset t f callback = do
  b ← deref t (some f)
  _ ← check (b.has_stack && is_term b.state)
  ok (record t {
    fibers =
        put t.fibers f
          (some (record b { callback = some callback; context = begin; state = ready }));
  })

-- The flow that a context of fiber `f` goes on with.
abbrev pub flow_of : ℕ → Context → Flow
flow_of f begin = on_stack f
flow_of f (saved l) = l

-- swapcontext, which saves the flow that runs in the context of `f` and goes on with that of `g`.
unfoldable pub swap : Thread → Option ℕ → Option ℕ → Result Thread
swap t none g = err null_pointer
swap t (some f) none = err null_pointer
swap t (some f) (some g) = do
  a ← deref t (some f)
  let t' = record t { fibers = put t.fibers f (some (record a { context = saved t.flow })) }
  b ← deref t' (some g)
  ok (record t' { flow = flow_of g b.context })

-- The fiber that a fiber switches with.
abbrev pub partner : Thread → Fiber → Option ℕ
partner t b = if b.in_scheduler then t.scheduler else t.main

unfoldable pub resume : Thread → ℕ → Result Thread
unfolding swap
resume t f = do
  b ← deref t (some f)
  _ ← check (not (is_term b.state) && not (is_running b.state))
  swap (record t { this = some f; fibers = put t.fibers f (some (record b { state = running })) })
      (partner t b) (some f)

unfoldable pub yield : Thread → ℕ → Result Thread
unfolding swap
yield t f = do
  b ← deref t (some f)
  _ ← check (is_running b.state || is_term b.state)
  swap
      (record t {
        this = t.main;
        fibers =
            put t.fibers f (some (record b { state = if is_term b.state then term else ready }));
      })
      (some f) (partner t b)

-- What MainFunc does once the callback has returned.
unfoldable pub finish : Thread → ℕ → Result Thread
unfolding yield
finish t f = do
  b ← deref t (some f)
  yield (record t { fibers = put t.fibers f (some (record b { callback = none; state = term })) }) f
