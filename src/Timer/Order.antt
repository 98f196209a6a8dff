-- ===== src/Timer/Order.antt =====
-- The order of the timers, and the set operations on a list in that order.
use fishjoy.Base.{
  ℕ, true, false, ◌≡◌, refl, sym, ◌≢◌, ◌⊎◌, inl, inr, Option, none, some, List, [], ◌∷◌, All, arith,
  Bool-cases,
}
use fishjoy.Timer.{Timer, Heap, update, comparator, less, insert, find}

-- Null comes first, then the order of time, then that of the addresses.
pub comparator_irrefl : (h : Heap) (a : Option ℕ) → comparator h a a ≡ false
unfolding comparator
comparator_irrefl h none = refl
comparator_irrefl h (some a) = ground arith

pub comparator_trans :
    (h : Heap) (a b c : Option ℕ)
    → comparator h a b ≡ true
    → comparator h b c ≡ true
    → comparator h a c ≡ true
unfolding comparator
comparator_trans h none none c p q = cc
comparator_trans h none (some b) none p q = cc
comparator_trans h none (some b) (some c) p q = refl
comparator_trans h (some a) none c p q = cc
comparator_trans h (some a) (some b) none p q = cc
comparator_trans h (some a) (some b) (some c) p q = ground arith

-- Only equal pointers are equivalent, so that the set finds an object by its own address.
pub comparator_total :
    (h : Heap) (a b : Option ℕ) → comparator h a b ≡ false → comparator h b a ≡ false → a ≡ b
unfolding comparator
comparator_total h none none p q = refl
comparator_total h none (some b) p q = cc
comparator_total h (some a) none p q = cc
comparator_total h (some a) (some b) p q = ground arith

abbrev pub Less : Heap → ℕ → ℕ → Type 0
Less h a b = less h a b ≡ true

-- The comparator of timers is irreflexive and transitive, and two pointers of which neither comes
-- first are equal, null included.
pub comparator_strict :
    (h : Heap) (a b c : Option ℕ)
    → (comparator h a a ≡ false)
      × (comparator h a b ≡ true → comparator h b c ≡ true → comparator h a c ≡ true)
      × (comparator h a b ≡ false → comparator h b a ≡ false → a ≡ b)
comparator_strict h a b c =
    (comparator_irrefl h a, comparator_trans h a b c, comparator_total h a b)

pub some_eq : {a b : ℕ} → some a ≡ some b → a ≡ b
some_eq e = cc

-- In the order of the comparator, with no timer twice.
abbrev pub Sorted : Heap → List ℕ → Type 0
Sorted h [] = Unit {0}
Sorted h (t ∷ ts) = All (Less h t) ts × Sorted h ts

-- The timer is not in the list.
abbrev pub Out : ℕ → List ℕ → Type 0
Out a ts = All (λ t. t ≢ a) ts

pub All-map {ℓ} :
    {A : Type 0} {P Q : A → Type ℓ} (xs : List A) → ((x : A) → P x → Q x) → All P xs → All Q xs
All-map [] f h = tt
All-map (x ∷ xs) f h = (f x h.0, All-map xs f h.1)

pub Sorted-Out : (h : Heap) (t : ℕ) (ts : List ℕ) → All (Less h t) ts → Out t ts
unfolding comparator
Sorted-Out h t [] a = tt
Sorted-Out h t (u ∷ ts) a = (ground (arith, a.0), Sorted-Out h t ts a.1)

-- An object outside the set may change.
Less-frame :
    (h : Heap) (a : ℕ) (x : Timer) (t u : ℕ) → t ≢ a → u ≢ a → Less h t u → Less (update h a x) t u
unfolding comparator
Less-frame h a x t u p q l = ground arith

pub Sorted-frame :
    (h : Heap) (a : ℕ) (x : Timer) (ts : List ℕ) → Out a ts → Sorted h ts → Sorted (update h a x) ts
Sorted-frame h a x [] o s = tt
Sorted-frame h a x (t ∷ ts) o s = (below ts o.0 o.1 s.0, Sorted-frame h a x ts o.1 s.1)
  where
    below : (us : List ℕ) → t ≢ a → Out a us → All (Less h t) us → All (Less (update h a x) t) us
    below [] n o l = tt
    below (u ∷ us) n o l = (Less-frame h a x t u n o.0 l.0, below us n o.1 l.1)

pub insert-All :
    (P : ℕ → Type 0) (h : Heap) (a : ℕ) (ts : List ℕ) → P a → All P ts → All P (insert h a ts)
unfolding insert
insert-All P h a [] p l = (p, tt)
insert-All P h a (t ∷ ts) p l = elim (Bool-cases (less h a t)) [
  | inl first ↦ rw first (p, l)
  | inr e ↦ rw e (elim (Bool-cases (less h t a)) [
    | inl later ↦ rw later (l.0, insert-All P h a ts p l.1)
    | inr same ↦ rw same l
  ])
]

pub insert-Sorted : (h : Heap) (a : ℕ) (ts : List ℕ) → Sorted h ts → Sorted h (insert h a ts)
unfolding insert
insert-Sorted h a [] s = (tt, tt)
insert-Sorted h a (t ∷ ts) s = elim (Bool-cases (less h a t)) [
  | inl first ↦
      rw first
        ((first, All-map ts (λ u l. comparator_trans h (some a) (some t) (some u) first l) s.0), s)
  | inr e ↦ rw e (elim (Bool-cases (less h t a)) [
    | inl later ↦ rw later (insert-All (Less h t) h a ts later s.0, insert-Sorted h a ts s.1)
    | inr same ↦ rw same s
  ])
]

abbrev pub In : ℕ → List ℕ → Type 0
In a [] = ⊥
In a (t ∷ ts) = (t ≡ a) ⊎ In a ts

pub insert-In_self : (h : Heap) (a : ℕ) (ts : List ℕ) → In a (insert h a ts)
unfolding insert
insert-In_self h a [] = inl refl
insert-In_self h a (t ∷ ts) = elim (Bool-cases (less h a t)) [
  | inl first ↦ rw first (inl refl)
  | inr e ↦ rw e (elim (Bool-cases (less h t a)) [
    | inl later ↦ rw later (inr (insert-In_self h a ts))
    | inr same ↦ rw same (inl (some_eq (comparator_total h (some t) (some a) same e)))
  ])
]

pub insert-In : (h : Heap) (a b : ℕ) (ts : List ℕ) → In b ts → In b (insert h a ts)
unfolding insert
insert-In h a b (t ∷ ts) i = elim (Bool-cases (less h a t)) [
  | inl first ↦ rw first (inr i)
  | inr e ↦ rw e (elim (Bool-cases (less h t a)) [
    | inl later ↦
        rw later (elim i [ inl here ↦ inl here | inr there ↦ inr (insert-In h a b ts there) ])
    | inr same ↦ rw same i
  ])
]
insert-In h a b [] i = elim i [ ]

-- What the set holds after an insertion was inserted or was there.
pub In-insert : (h : Heap) (a b : ℕ) (ts : List ℕ) → In b (insert h a ts) → (b ≡ a) ⊎ In b ts
unfolding insert
In-insert h a b [] i = elim i [ inl e ↦ inl (sym e) | inr no_more ↦ absurd no_more ]
In-insert h a b (t ∷ ts) i = elim (Bool-cases (less h a t)) [
  | inl first ↦ elim (rw first at i) [ inl e ↦ inl (sym e) | inr old ↦ inr old ]
  | inr e ↦ elim (Bool-cases (less h t a)) [
    | inl later ↦ elim (rw (e, later) at i) [
      | inl here ↦ inr (inl here)
      | inr there ↦ elim (In-insert h a b ts there) [ inl eq ↦ inl eq | inr old ↦ inr (inr old) ]
    ]
    | inr same ↦ inr (rw (e, same) at i)
  ]
]

pub find-In : (h : Heap) (a : ℕ) (ts : List ℕ) → In a ts → find h a ts ≡ true
unfolding find
find-In h a [] i = elim i [ ]
find-In h a (t ∷ ts) (inl e) = rw (e, comparator_irrefl h (some a)) refl
find-In h a (t ∷ ts) (inr i) = ground (arith, find-In h a ts i)
