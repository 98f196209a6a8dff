-- ===== src/Timer/Removal.antt =====
-- Erasure from the ordered set, and its split at a time.
use fishjoy.Base.{
  ℕ, ◌≤◌, ◌<◌, true, false, ◌&&◌, not, ◌≡◌, refl, sym, ap, ◌∙◌, subst, ◌≢◌, inl, inr, some, List,
  [], ◌∷◌, ◌++◌, All, ◌==◌, arith, Bool-cases,
}
use fishjoy.Timer.{Heap, comparator, less, erase, split_exact, split_expired}
use fishjoy.Timer.Order.{comparator_total, some_eq, Less, Sorted, Out, In, All-map, Sorted-Out}

Less-ne : (h : Heap) (t a : ℕ) → Less h t a → t ≢ a
unfolding comparator
Less-ne h t a l = ground arith

erase-All : (P : ℕ → Type 0) (h : Heap) (a : ℕ) (ts : List ℕ) → All P ts → All P (erase h a ts)
unfolding erase
erase-All P h a [] l = tt
erase-All P h a (t ∷ ts) l = elim (Bool-cases (not (less h a t) && not (less h t a))) [
  | inl same ↦ rw same l.1
  | inr other ↦ rw other (l.0, erase-All P h a ts l.1)
]

-- The test of the set for equality is true of the address itself only.
same_address : (h : Heap) (a t : ℕ) → (not (less h a t) && not (less h t a)) ≡ true → t ≡ a
same_address h a t e = some_eq (comparator_total h (some t) (some a) (ground arith) (ground arith))

other_address : (h : Heap) (a t : ℕ) → (not (less h a t) && not (less h t a)) ≡ false → t ≢ a
unfolding comparator
other_address h a t e = ground arith

-- The erased timer is gone, and the others stay in their order.
pub erase-Sorted :
    (h : Heap) (a : ℕ) (ts : List ℕ) → Sorted h ts → Sorted h (erase h a ts) × Out a (erase h a ts)
unfolding erase
erase-Sorted h a [] s = (tt, tt)
erase-Sorted h a (t ∷ ts) s = elim (Bool-cases (not (less h a t) && not (less h t a))) [
  | inl same ↦
      rw same (s.1, subst (λ (k : ℕ). Out k ts) (same_address h a t same) (Sorted-Out h t ts s.0))
  | inr other ↦
      let (s', o) = erase-Sorted h a ts s.1 in
      rw other ((erase-All (Less h t) h a ts s.0, s'), (other_address h a t other, o))
]

pub erase-In : (h : Heap) (a b : ℕ) (ts : List ℕ) → b ≢ a → In b ts → In b (erase h a ts)
unfolding erase
erase-In h a b [] n i = i
erase-In h a b (t ∷ ts) n i = elim (Bool-cases (not (less h a t) && not (less h t a))) [
  | inl same ↦
      rw same (elim i [ inl e ↦ absurd (n (sym e ∙ same_address h a t same)) | inr there ↦ there ])
  | inr other ↦ rw other (elim i [ inl e ↦ inl e | inr there ↦ inr (erase-In h a b ts n there) ])
]

pub In-erase : (h : Heap) (a b : ℕ) (ts : List ℕ) → In b (erase h a ts) → In b ts
unfolding erase
In-erase h a b [] i = i
In-erase h a b (t ∷ ts) i = elim (Bool-cases (not (less h a t) && not (less h t a))) [
  | inl same ↦ inr (rw same at i)
  | inr other ↦ elim (rw other at i) [ inl e ↦ inl e | inr there ↦ inr (In-erase h a b ts there) ]
]

pub Less-next : (h : Heap) (t u : ℕ) → Less h t u → (h t).next ≤ (h u).next
unfolding comparator
Less-next h t u l = ground arith

-- The two parts of a split: the timers due by `now`, and the later ones.
pub record Split (h : Heap) (now : ℕ) (ts : List ℕ) (parts : List ℕ × List ℕ) : Type 0 where
  pub whole : parts.0 ++ parts.1 ≡ ts
  pub due : All (λ t. (h t).next ≤ now) parts.0
  pub later : All (λ t. now < (h t).next) parts.1

split_exact-Split :
    (h : Heap) (now : ℕ) (ts : List ℕ)
    → Sorted h ts
    → All (λ t. now ≤ (h t).next) ts
    → Split h now ts (split_exact h now ts)
unfolding split_exact
split_exact-Split h now [] s l = record { whole = refl; due = tt; later = tt }
split_exact-Split h now (t ∷ ts) s l = elim (Bool-cases ((h t).next == now)) [
  | inl exact ↦
      let r = split_exact-Split h now ts s.1 l.1 in
      rw exact (record { whole = ap (◌∷◌ t) r.whole; due = (ground arith, r.due); later = r.later })
  | inr off ↦
      let past : now < (h t).next = ground arith in
      rw off (record {
        whole = refl;
        due = tt;
        later = (past, All-map ts (λ u b. later_still u b past) s.0);
      })
]
  where
    later_still : (u : ℕ) → Less h t u → now < (h t).next → now < (h u).next
    later_still u b past = omega (arith, Less-next h t u b)

-- `p` is the address of the probe, whose time is `now`.
pub split_expired-Split :
    (h : Heap) (now p : ℕ) (ts : List ℕ)
    → (h p).next ≡ now
    → Sorted h ts
    → Split h now ts (split_expired h now p ts)
unfolding split_expired
split_expired-Split h now p [] e s = record { whole = refl; due = tt; later = tt }
split_expired-Split h now p (t ∷ ts) e s = elim (Bool-cases (less h t p)) [
  | inl before ↦
      let r = split_expired-Split h now p ts e s.1 in
      rw before (record {
        whole = ap (◌∷◌ t) r.whole;
        due = (omega (arith, e, Less-next h t p before), r.due);
        later = r.later;
      })
  | inr behind ↦ rw behind (
      split_exact-Split h now (t ∷ ts) s
        (not_before behind, All-map ts (λ u b. after u b behind) s.0))
]
  where
    not_before : less h t p ≡ false → now ≤ (h t).next
    not_before b = unfold comparator in ground arith

    after : (u : ℕ) → Less h t u → less h t p ≡ false → now ≤ (h u).next
    after u b c = omega (arith, Less-next h t u b, not_before c)
