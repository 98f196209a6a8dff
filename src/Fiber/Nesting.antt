-- ===== src/Fiber/Nesting.antt =====
-- What a resume and the yields after it come to, in the order the code asks for and nested.
use fishjoy.Base.{ℕ, ◌≡◌, ◌≢◌, refl, sym, ap, ◌∙◌, true, false, inl, inr, some, Bool-cases, ok}
use fishjoy.Scheduler.{ready, running, is_running, is_term}
use fishjoy.Fiber.{Flow, own, on_stack, saved, Fiber, Thread, put, resume, yield}
use fishjoy.Fiber.Alternation.{
  IsValid, put_same, put_other, own-on_stack, entered, left_in, resume-eq, yield-eq,
}
use fishjoy.Fiber.Valid.{true-has_stack, running-ne, has_stack-ne, running_fiber}

-- A fiber that has not ended does not run while the thread's own flow does.
idle_state :
    (m f : ℕ) (t : Thread) (b : Fiber)
    → IsValid m t
    → t.flow ≡ own
    → t.fibers f ≡ some b
    → b.has_stack ≡ true
    → is_running b.state ≡ false
idle_state m f t b v l at_f stack = elim (Bool-cases (is_running b.state)) [
  | inl r ↦ absurd (own-on_stack f (sym l ∙ (v.sound f b at_f).runs stack r))
  | inr off ↦ off
]

-- In a valid thread whose own flow runs, the resume of a fiber that has not ended, and is not the
-- main one, goes on with this fiber, and its yield goes on with the thread again: both return,
-- t_fiber names the one that runs, and the fiber is READY.
pub resume-yield :
    (m f : ℕ) (t : Thread) (b : Fiber)
    → IsValid m t
    → t.flow ≡ own
    → t.fibers f ≡ some b
    → f ≢ m
    → is_term b.state ≡ false
    → (t₁ : Thread) × (t₂ : Thread) × (resume t f ≡ ok t₁)
      × (t₁.flow ≡ on_stack f)
      × (t₁.this ≡ some f)
      × (yield t₁ f ≡ ok t₂)
      × (t₂.flow ≡ own)
      × (t₂.this ≡ some m)
      × (t₂.fibers f ≡ some (record b { state = ready; context = saved (on_stack f) }))
resume-yield m f t b v l at_f ne nt =
    let (a, at_m, sa, ra, ca) = v.thread_fiber in
    let so = v.sound f b at_f in
    let stack = true-has_stack m f t.flow b so ne in
    let nr = idle_state m f t b v l at_f stack in
    let t₁ = entered m f t a b in
    let a' = record a { context = saved t.flow } in
    let b₁ = record b { state = running } in
    let at_m₁ = put_same (put t.fibers f (some b₁)) m (some a') in
    let at_f₁ =
      put_other (put t.fibers f (some b₁)) m f (some a') (λ e. ne (sym e))
      ∙ put_same t.fibers f (some b₁) in
    let b₂ = record b { state = ready; context = saved t₁.flow } in
    (
      t₁,
      left_in m f t₁ a' b₂,
      resume-eq m f t a b ne at_m at_f v.main_is v.scheduler_is nt nr,
      so.goes_on stack,
      refl,
      yield-eq m f t₁ a' b₁ ne at_m₁ at_f₁ v.main_is v.scheduler_is refl,
      l,
      refl,
      put_same t₁.fibers f (some b₂)
          ∙ ap (λ (x : Flow). some (record b { state = ready; context = saved x }))
              (so.goes_on stack),
    )

-- In a valid thread where a fiber's flow runs, that fiber may resume another one that is READY.
-- The other's yield comes back to it, with t_fiber on the main fiber; but its own yield then goes
-- on with itself, and not with the thread.
pub nested_resume-yields :
    (m f g : ℕ) (t : Thread) (c : Fiber)
    → IsValid m t
    → t.flow ≡ on_stack f
    → t.fibers g ≡ some c
    → g ≢ m
    → is_term c.state ≡ false
    → is_running c.state ≡ false
    → (t₁ : Thread) × (t₂ : Thread) × (t₃ : Thread) × (resume t g ≡ ok t₁)
      × (yield t₁ g ≡ ok t₂)
      × (t₂.flow ≡ on_stack f)
      × (t₂.this ≡ some m)
      × (yield t₂ f ≡ ok t₃)
      × (t₃.flow ≡ on_stack f)
nested_resume-yields m f g t c v l at_g ne nt nr =
    let (a, at_m, sa, ra, ca) = v.thread_fiber in
    let (this, b, at_f, stack, r) = running_fiber m f t v l in
    let nf = has_stack-ne m f t a b at_m sa at_f stack in
    let ng = running-ne f g t b c at_f r at_g nr in
    let t₁ = entered m g t a c in
    let a' = record a { context = saved t.flow } in
    let c₁ = record c { state = running } in
    let at_m₁ = put_same (put t.fibers g (some c₁)) m (some a') in
    let at_g₁ =
      put_other (put t.fibers g (some c₁)) m g (some a') (λ e. ne (sym e))
      ∙ put_same t.fibers g (some c₁) in
    let at_f₁ =
      put_other (put t.fibers g (some c₁)) m f (some a') (λ e. nf (sym e))
      ∙ put_other t.fibers g f (some c₁) ng
      ∙ at_f in
    let c₂ = record c { state = ready; context = saved t₁.flow } in
    let t₂ = left_in m g t₁ a' c₂ in
    let at_m₂ = put_other t₁.fibers g m (some c₂) ne ∙ at_m₁ in
    let at_f₂ = put_other t₁.fibers g f (some c₂) ng ∙ at_f₁ in
    (
      t₁,
      t₂,
      left_in m f t₂ a' (record b { state = ready; context = saved t₂.flow }),
      resume-eq m g t a c ne at_m at_g v.main_is v.scheduler_is nt nr,
      yield-eq m g t₁ a' c₁ ne at_m₁ at_g₁ v.main_is v.scheduler_is refl,
      l,
      refl,
      yield-eq m f t₂ a' b nf at_m₂ at_f₂ v.main_is v.scheduler_is r,
      l,
    )
