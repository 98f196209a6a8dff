-- ===== src/Fiber/Tests.antt =====
-- A thread with two fibers, and the theorems at it.
use fishjoy.Base.{
  ℕ, ◌≡◌, ◌≢◌, refl, Bool, true, false, none, some, Result, ok, err, inl, inr, arith,
}
use fishjoy.Scheduler.{ready, running}
use fishjoy.Fiber.{
  own, on_stack, begin, saved, Fiber, Thread, get_this, new_fiber, resume, yield, finish, destroy,
}
use fishjoy.Fiber.Alternation.{
  IsValid, Steps, stays, goes, creates, resumes, finishes, destroys, put_cases, some_fiber,
}
use fishjoy.Fiber.Valid.{Steps-IsValid}
use fishjoy.Fiber.Nesting.{resume-yield, nested_resume-yields}

abbrev nothing_yet : Thread
nothing_yet = record {
  fibers = λ f. none;
  this = none;
  main = none;
  scheduler = none;
  flow = own;
  ids = 0;
  count = 0;
}

abbrev begun : Thread
unfolding get_this
begun = record (get_this nothing_yet).0 { scheduler = some 0 }

begun-IsValid : IsValid 0 begun
unfolding get_this
begun-IsValid = record {
  main_is = refl;
  scheduler_is = refl;
  thread_fiber = (_, refl, refl, refl, refl);
  made = λ g b e. elim (put_cases (λ f. none) 0 g _ b e) [
    | inl (same, q) ↦ omega arith
    | inr (other, h) ↦ cc
  ];
  sound = λ g b e. elim (put_cases (λ f. none) 0 g _ b e) [
    | inl (same, q) ↦ record {
      stackless = λ h. omega arith;
      goes_on = λ h. absurd (stackless_main b q h);
      runs = λ h _. absurd (stackless_main b q h);
    }
    | inr (other, h) ↦ cc
  ];
  control = refl;
}
  where
    stackless_main :
        (b : Fiber)
        → some (record {
          state = running;
          context = saved own;
          has_stack = false;
          callback = none;
          in_scheduler = false;
        })
          ≡ some b
        → b.has_stack ≢ true
    stackless_main b q h = let same = some_fiber _ b q in cc

abbrev two : Thread
two = new_fiber (new_fiber begun 7 true) 8 false

two-Steps : Steps 0 begun two
two-Steps =
    goes begun (new_fiber begun 7 true) two (creates begun 7 true)
      (goes (new_fiber begun 7 true) two two (creates (new_fiber begun 7 true) 8 false) (stays two))

abbrev or_same : Thread → Result Thread → Thread
or_same t (ok t') = t'
or_same t (err e) = t

abbrev in_one : Thread
unfolding new_fiber resume get_this
in_one = or_same two (resume two 1)

abbrev one_ended : Thread
unfolding new_fiber resume finish get_this
one_ended = or_same in_one (finish in_one 1)

abbrev one_gone : Thread
unfolding new_fiber resume finish get_this destroy
one_gone = or_same one_ended (destroy one_ended 1)

one_gone-Steps : Steps 0 begun one_gone
unfolding new_fiber resume finish get_this destroy
one_gone-Steps = goes begun (new_fiber begun 7 true) one_gone (creates begun 7 true) (
    goes (new_fiber begun 7 true) two one_gone (creates (new_fiber begun 7 true) 8 false) (
      goes two in_one one_gone (resumes two in_one 1 refl refl) (
        goes in_one one_ended one_gone (finishes in_one one_ended 1 refl refl) (
          goes one_ended one_gone one_gone (destroys one_ended one_gone 1 (λ e. omega arith) refl)
            (stays one_gone)))))

Steps-IsValid_example : IsValid 0 one_gone
Steps-IsValid_example = Steps-IsValid 0 begun one_gone begun-IsValid one_gone-Steps

abbrev at_ready : ℕ → Bool → Fiber
at_ready c s = record {
  state = ready;
  context = begin;
  has_stack = true;
  callback = some c;
  in_scheduler = s;
}

two-IsValid : IsValid 0 two
two-IsValid = Steps-IsValid 0 begun two begun-IsValid two-Steps

resume-yield_example :
    (t₁ : Thread) × (t₂ : Thread) × (resume two 1 ≡ ok t₁)
    × (t₁.flow ≡ on_stack 1)
    × (t₁.this ≡ some 1)
    × (yield t₁ 1 ≡ ok t₂)
    × (t₂.flow ≡ own)
    × (t₂.this ≡ some 0)
    × (t₂.fibers 1 ≡ some (record (at_ready 7 true) { context = saved (on_stack 1) }))
unfolding new_fiber get_this
resume-yield_example =
    resume-yield 0 1 two (at_ready 7 true) two-IsValid refl refl (λ e. omega arith) refl

in_one-IsValid : IsValid 0 in_one
unfolding new_fiber resume get_this
in_one-IsValid =
    Steps-IsValid 0 two in_one two-IsValid
      (goes two in_one in_one (resumes two in_one 1 refl refl) (stays in_one))

nested_resume-yields_example :
    (t₁ : Thread) × (t₂ : Thread) × (t₃ : Thread) × (resume in_one 2 ≡ ok t₁)
    × (yield t₁ 2 ≡ ok t₂)
    × (t₂.flow ≡ on_stack 1)
    × (t₂.this ≡ some 0)
    × (yield t₂ 1 ≡ ok t₃)
    × (t₃.flow ≡ on_stack 1)
unfolding new_fiber get_this resume
nested_resume-yields_example =
    nested_resume-yields 0 1 2 in_one (at_ready 8 false) in_one-IsValid refl refl (λ e. omega arith)
      refl refl
