-- ===== src/Address/Comparison.antt =====
-- The comparisons of addresses.
use fishjoy.Base.{
  ℕ, zero, suc, ◌≡◌, refl, ap, ap₂, ◌∙◌, Bool, true, false, ◌&&◌, ◌↔◌, List, [], ◌∷◌, length, min,
  ltb, ◌==◌, ==_iff, if◌then◌else◌, arith,
}
use fishjoy.Address.{Order, below, equal, above, memcmp, by_order, is_equal, less, same_address}

-- A shorter text that agrees with the other as far as it goes.
flip : Order → Order
flip below = above
flip above = below
flip equal = equal

memcmp-flip : (n : ℕ) (xs ys : List ℕ) → memcmp n ys xs ≡ flip (memcmp n xs ys)
unfolding flip
memcmp-flip zero xs ys = refl
memcmp-flip (suc n) [] [] = refl
memcmp-flip (suc n) [] (y ∷ ys) = refl
memcmp-flip (suc n) (x ∷ xs) [] = refl
memcmp-flip (suc n) (x ∷ xs) (y ∷ ys) =
    step x y (memcmp n xs ys) (memcmp n ys xs) (memcmp-flip n xs ys)
  where
    step :
        (x y : ℕ) (r s : Order)
        → s ≡ flip r
        → (if ltb y x then below else if ltb x y then above else s)
          ≡ flip (if ltb x y then below else if ltb y x then above else r)
    step x y r s e = ground arith

-- Over all bytes of two texts of one length memcmp finds every difference.
memcmp-equal :
    (xs ys : List ℕ) → length xs ≡ length ys → is_equal (memcmp (length xs) xs ys) ≡ true → xs ≡ ys
memcmp-equal [] [] l e = refl
memcmp-equal [] (y ∷ ys) l e = absurd (omega (arith, l))
memcmp-equal (x ∷ xs) [] l e = absurd (omega (arith, l))
memcmp-equal (x ∷ xs) (y ∷ ys) l e =
    let (h, hs) = step x y (memcmp (length xs) xs ys) e in
    ap₂ (◌∷◌) h (memcmp-equal xs ys (omega (arith, l)) hs)
  where
    step :
        (x y : ℕ) (r : Order)
        → is_equal (if ltb x y then below else if ltb y x then above else r) ≡ true
        → (x ≡ y) × (is_equal r ≡ true)
    step x y r e = (ground arith, ground arith)

memcmp_refl : (xs : List ℕ) → is_equal (memcmp (length xs) xs xs) ≡ true
memcmp_refl [] = refl
memcmp_refl (x ∷ xs) = ground (arith, memcmp_refl xs)

-- Two addresses are equal for the code exactly where their bytes are.
pub same_address_iff : (xs ys : List ℕ) → (same_address xs ys ≡ true) ↔ (xs ≡ ys)
unfolding same_address
same_address_iff xs ys = (there, λ e. rw (← e) (ground (arith, memcmp_refl xs)))
  where
    parts : (a b : Bool) → (a && b) ≡ true → (a ≡ true) × (b ≡ true)
    parts true b h = (refl, h)
    parts false b h = cc

    there : (length xs == length ys && is_equal (memcmp (length xs) xs ys)) ≡ true → xs ≡ ys
    there h =
        let (l, e) = parts (length xs == length ys) (is_equal (memcmp (length xs) xs ys)) h in
        memcmp-equal xs ys ((==_iff (length xs) (length ys)).0 l) e

-- Exactly one of the three.
abbrev pub exactly_one : Bool → Bool → Bool → Bool
exactly_one true false false = true
exactly_one false true false = true
exactly_one false false true = true
exactly_one true true b = false
exactly_one true false true = false
exactly_one false true true = false
exactly_one false false false = false

one_of :
    (m n : ℕ) (r s : Order)
    → ((m == n) ≡ true → is_equal s ≡ is_equal r)
    → exactly_one (by_order r (ltb m n)) ((m == n) && is_equal s) (by_order (flip r) (ltb n m))
      ≡ true
unfolding flip
one_of m n below s h = ground (arith, h)
one_of m n above s h = ground (arith, h)
one_of m n equal s h = ground (arith, h)

min_comm : (m n : ℕ) → min m n ≡ min n m
min_comm m n = omega arith

-- Of two addresses exactly one holds: the first is less, they are equal, or the second is less.
pub less-exactly_one :
    (xs ys : List ℕ) → exactly_one (less xs ys) (same_address xs ys) (less ys xs) ≡ true
unfolding less same_address
less-exactly_one xs ys =
    let r = memcmp (min (length xs) (length ys)) xs ys in
    ap
      (λ s.
        exactly_one (by_order r (ltb (length xs) (length ys)))
          ((length xs == length ys) && is_equal (memcmp (length xs) xs ys))
          (by_order s (ltb (length ys) (length xs))))
      (ap (λ (k : ℕ). memcmp k ys xs) (min_comm (length ys) (length xs))
        ∙ memcmp-flip (min (length xs) (length ys)) xs ys)
    ∙ one_of (length xs) (length ys) r (memcmp (length xs) xs ys) (λ e.
      ap (λ (k : ℕ). is_equal (memcmp k xs ys))
        (same_min (length xs) (length ys) ((==_iff (length xs) (length ys)).0 e)))
  where
    same_min : (m n : ℕ) → m ≡ n → m ≡ min m n
    same_min m n e = omega arith
