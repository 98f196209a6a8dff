-- ===== src/Base/Lists.antt =====
-- Lists measured and indexed by native numbers, under the library's names, and the two block
-- operations that `memcpy` comes down to: `slice` reads a block and `overwrite` writes one.
use Prim.Native.Nat.{ℕ, zero, suc, ◌+◌, ◌-◌, ◌≤◌, min}
use mathlib.Core.Path.{◌≡◌, refl, ap, ap₂, sym, subst, ◌∙◌}
use mathlib.Core.Logic.{◌⊎◌}
use mathlib.Core.List.{List, [], ◌∷◌, ◌++◌, reverse, reverse-cons}
use mathlib.Core.Option.{Option, none, some}
use native.Mathlib.Omega.{arith}

module _ {ℓ} {A : Type ℓ} where
  abbrev pub length : List A → ℕ
  length [] = 0
  length (x ∷ xs) = suc (length xs)

  abbrev pub get_elem? : List A → ℕ → Option A
  get_elem? [] i = none
  get_elem? (x ∷ xs) zero = some x
  get_elem? (x ∷ xs) (suc i) = get_elem? xs i

  -- A write out of bounds changes nothing.
  abbrev pub set : List A → ℕ → A → List A
  set [] i v = []
  set (x ∷ xs) zero v = v ∷ xs
  set (x ∷ xs) (suc i) v = x ∷ set xs i v

  abbrev pub take : ℕ → List A → List A
  take zero xs = []
  take (suc n) [] = []
  take (suc n) (x ∷ xs) = x ∷ take n xs

  abbrev pub drop : ℕ → List A → List A
  drop zero xs = xs
  drop (suc n) [] = []
  drop (suc n) (x ∷ xs) = drop n xs

  abbrev pub replicate : ℕ → A → List A
  replicate zero a = []
  replicate (suc n) a = a ∷ replicate n a

  -- `n` items from place `i` on.
  abbrev pub slice : ℕ → ℕ → List A → List A
  slice i n xs = take n (drop i xs)

  -- `ys` laid over the front of `xs`; what falls beyond the end of `xs` is lost.
  abbrev pub lay : List A → List A → List A
  lay [] xs = xs
  lay (y ∷ ys) [] = []
  lay (y ∷ ys) (x ∷ xs) = y ∷ lay ys xs

  -- `ys` written over `xs` from place `i` on.
  abbrev pub overwrite : List A → ℕ → List A → List A
  overwrite xs zero ys = lay ys xs
  overwrite [] (suc i) ys = []
  overwrite (x ∷ xs) (suc i) ys = x ∷ overwrite xs i ys

suc_add : (i k : ℕ) → suc i + k ≡ suc (i + k)
suc_add i k = omega arith

module _ {ℓ} {A : Type ℓ} where
  drop-nil : (n : ℕ) → drop {A = A} n [] ≡ []
  drop-nil zero = refl
  drop-nil (suc n) = refl

  pub take-nil : (n : ℕ) → take {A = A} n [] ≡ []
  take-nil zero = refl
  take-nil (suc n) = refl

  pub length-append : (xs ys : List A) → length (xs ++ ys) ≡ length xs + length ys
  length-append [] ys = omega arith
  length-append (x ∷ xs) ys = omega (arith, length-append xs ys)

  pub length-set : (xs : List A) (i : ℕ) (v : A) → length (set xs i v) ≡ length xs
  length-set [] i v = refl
  length-set (x ∷ xs) zero v = refl
  length-set (x ∷ xs) (suc i) v = ap suc (length-set xs i v)

  pub take-append-drop : (n : ℕ) (xs : List A) → take n xs ++ drop n xs ≡ xs
  take-append-drop zero xs = refl
  take-append-drop (suc n) [] = refl
  take-append-drop (suc n) (x ∷ xs) = rw (take-append-drop n xs)

  pub length-take : (n : ℕ) (xs : List A) → length (take n xs) ≡ min n (length xs)
  length-take zero xs = omega arith
  length-take (suc n) [] = omega arith
  length-take (suc n) (x ∷ xs) = omega (arith, length-take n xs)

  pub length-drop : (n : ℕ) (xs : List A) → length (drop n xs) ≡ length xs - n
  length-drop zero xs = omega arith
  length-drop (suc n) [] = omega arith
  length-drop (suc n) (x ∷ xs) = omega (arith, length-drop n xs)

  pub length-replicate : (n : ℕ) (a : A) → length (replicate n a) ≡ n
  length-replicate zero a = refl
  length-replicate (suc n) a = ap suc (length-replicate n a)

  length-lay : (ys xs : List A) → length (lay ys xs) ≡ length xs
  length-lay [] xs = refl
  length-lay (y ∷ ys) [] = refl
  length-lay (y ∷ ys) (x ∷ xs) = ap suc (length-lay ys xs)

  pub length-overwrite :
      (xs : List A) (i : ℕ) (ys : List A) → length (overwrite xs i ys) ≡ length xs
  length-overwrite xs zero ys = length-lay ys xs
  length-overwrite [] (suc i) ys = refl
  length-overwrite (x ∷ xs) (suc i) ys = ap suc (length-overwrite xs i ys)

  lay-append : (ys zs xs : List A) → lay (ys ++ zs) xs ≡ overwrite (lay ys xs) (length ys) zs
  lay-append [] zs xs = refl
  lay-append (y ∷ ys) zs [] = refl
  lay-append (y ∷ ys) zs (x ∷ xs) = ap (◌∷◌ y) (lay-append ys zs xs)

  -- Two adjoining blocks written one after the other are one block.
  pub overwrite-append :
      (xs : List A) (i : ℕ) (ys zs : List A)
      → overwrite xs i (ys ++ zs) ≡ overwrite (overwrite xs i ys) (i + length ys) zs
  overwrite-append xs zero ys zs =
      lay-append ys zs xs ∙ ap (λ (k : ℕ). overwrite (lay ys xs) k zs) (omega arith)
  overwrite-append [] (suc i) ys zs =
      ap (λ (k : ℕ). overwrite {A = A} [] k zs) (sym (suc_add i (length ys)))
  overwrite-append (x ∷ xs) (suc i) ys zs =
      ap (◌∷◌ x) (overwrite-append xs i ys zs)
      ∙ ap (λ (k : ℕ). overwrite (x ∷ overwrite xs i ys) k zs) (sym (suc_add i (length ys)))

  -- A block is read back from where it was written, if it fits.
  lay_prefix : (ys xs : List A) → length ys ≤ length xs → take (length ys) (lay ys xs) ≡ ys
  lay_prefix [] xs h = refl
  lay_prefix (y ∷ ys) [] h = absurd (omega arith)
  lay_prefix (y ∷ ys) (x ∷ xs) h = ap (◌∷◌ y) (lay_prefix ys xs (omega arith))

  pub slice-overwrite_self :
      (xs : List A) (i : ℕ) (ys : List A)
      → i + length ys ≤ length xs
      → slice i (length ys) (overwrite xs i ys) ≡ ys
  slice-overwrite_self xs zero ys h = lay_prefix ys xs (omega arith)
  slice-overwrite_self [] (suc i) ys h = absurd (omega arith)
  slice-overwrite_self (x ∷ xs) (suc i) ys h = slice-overwrite_self xs i ys (omega arith)

  drop-lay : (n : ℕ) (ys xs : List A) → length ys ≤ n → drop n (lay ys xs) ≡ drop n xs
  drop-lay n [] xs h = refl
  drop-lay zero (y ∷ ys) xs h = absurd (omega arith)
  drop-lay (suc n) (y ∷ ys) [] h = refl
  drop-lay (suc n) (y ∷ ys) (x ∷ xs) h = drop-lay n ys xs (omega arith)

  -- A write leaves what stands before it and behind it.
  pub take-overwrite : (xs : List A) (i : ℕ) (ys : List A) → take i (overwrite xs i ys) ≡ take i xs
  take-overwrite xs zero ys = refl
  take-overwrite [] (suc i) ys = refl
  take-overwrite (x ∷ xs) (suc i) ys = ap (◌∷◌ x) (take-overwrite xs i ys)

  pub drop-overwrite :
      (n : ℕ) (xs : List A) (i : ℕ) (ys : List A)
      → i + length ys ≤ n
      → drop n (overwrite xs i ys) ≡ drop n xs
  drop-overwrite n xs zero ys h = drop-lay n ys xs (omega arith)
  drop-overwrite n [] (suc i) ys h = refl
  drop-overwrite zero (x ∷ xs) (suc i) ys h = absurd (omega arith)
  drop-overwrite (suc n) (x ∷ xs) (suc i) ys h = drop-overwrite n xs i ys (omega arith)

  pub take-append_left : (n : ℕ) (xs zs : List A) → n ≤ length xs → take n (xs ++ zs) ≡ take n xs
  take-append_left zero xs zs h = refl
  take-append_left (suc n) [] zs h = absurd (omega arith)
  take-append_left (suc n) (x ∷ xs) zs h = ap (◌∷◌ x) (take-append_left n xs zs (omega arith))

  pub take-append_self : (xs zs : List A) → take (length xs) (xs ++ zs) ≡ xs
  take-append_self [] zs = refl
  take-append_self (x ∷ xs) zs = ap (◌∷◌ x) (take-append_self xs zs)

  pub drop-append_self : (xs zs : List A) → drop (length xs) (xs ++ zs) ≡ zs
  drop-append_self [] zs = refl
  drop-append_self (x ∷ xs) zs = drop-append_self xs zs

  pub drop-drop : (m n : ℕ) (xs : List A) → drop m (drop n xs) ≡ drop (n + m) xs
  drop-drop m zero xs = ap (λ (k : ℕ). drop k xs) (omega arith)
  drop-drop m (suc n) [] = drop-nil m ∙ sym (drop-nil (suc n + m))
  drop-drop m (suc n) (x ∷ xs) =
      drop-drop m n xs ∙ ap (λ (k : ℕ). drop k (x ∷ xs)) (sym (suc_add n m))

  lay_splice :
      (xs ys : List A) (s m : ℕ)
      → s ≤ length xs
      → length ys ≤ length xs
      → s ≤ m
      → length ys ≤ m
      → (m ≤ s) ⊎ (m ≤ length ys)
      → take m (lay ys xs) ≡ ys ++ drop (length ys) (take s xs)
  lay_splice xs [] s m hs hy sm ym e = ap (λ (k : ℕ). take k xs) (omega arith)
  lay_splice [] (y ∷ ys) s m hs hy sm ym e = absurd (omega arith)
  lay_splice (x ∷ xs) (y ∷ ys) s zero hs hy sm ym e = absurd (omega arith)
  lay_splice (x ∷ xs) (y ∷ ys) zero (suc m) hs hy sm ym e = ap (◌∷◌ y) (
      lay_splice xs ys zero m (omega arith) (omega arith) (omega arith) (omega arith) (omega arith)
      ∙ ap (◌++◌ ys) (drop-nil (length ys)))
  lay_splice (x ∷ xs) (y ∷ ys) (suc s) (suc m) hs hy sm ym e =
      ap (◌∷◌ y)
        (lay_splice xs ys s m (omega arith) (omega arith) (omega arith) (omega arith) (omega arith))

  -- The first `m` places after a write that ends at `m` or before.
  pub overwrite_splice :
      (xs : List A) (p : ℕ) (ys : List A) (s m : ℕ)
      → p ≤ s
      → s ≤ length xs
      → p + length ys ≤ length xs
      → s ≤ m
      → p + length ys ≤ m
      → (m ≤ s) ⊎ (m ≤ p + length ys)
      → take m (overwrite xs p ys) ≡ take p (take s xs) ++ ys ++ drop (p + length ys) (take s xs)
  overwrite_splice xs zero ys s m ps hs hy sm ym e =
      lay_splice xs ys s m hs (omega arith) sm (omega arith) (omega arith)
      ∙ ap (λ (k : ℕ). ys ++ drop k (take s xs)) (omega arith)
  overwrite_splice [] (suc p) ys s m ps hs hy sm ym e = absurd (omega arith)
  overwrite_splice (x ∷ xs) (suc p) ys zero m ps hs hy sm ym e = absurd (omega arith)
  overwrite_splice (x ∷ xs) (suc p) ys (suc s) zero ps hs hy sm ym e = absurd (omega arith)
  overwrite_splice (x ∷ xs) (suc p) ys (suc s) (suc m) ps hs hy sm ym e =
      ap (◌∷◌ x) (
        overwrite_splice xs p ys s m (omega arith) (omega arith) (omega arith) (omega arith)
          (omega arith) (omega arith))
      ∙ ap (λ (k : ℕ). x ∷ (take p (take s xs) ++ ys ++ drop k (take (suc s) (x ∷ xs))))
          (sym (suc_add p (length ys)))

  pub take-add : (k m : ℕ) (xs : List A) → take k xs ++ take m (drop k xs) ≡ take (k + m) xs
  take-add zero m xs = ap (λ (j : ℕ). take j xs) (omega arith)
  take-add (suc k) m [] = take-nil m ∙ sym (take-nil (suc k + m))
  take-add (suc k) m (x ∷ xs) =
      ap (◌∷◌ x) (take-add k m xs) ∙ ap (λ (j : ℕ). take j (x ∷ xs)) (sym (suc_add k m))

  -- Two adjoining blocks are one.
  pub slice-add :
      (i k m n : ℕ) (xs : List A) → n ≡ k + m → slice i k xs ++ slice (i + k) m xs ≡ slice i n xs
  slice-add i k m n xs e =
      ap (λ ys. slice i k xs ++ take m ys) (sym (drop-drop k i xs))
      ∙ take-add k m (drop i xs)
      ∙ ap (λ (j : ℕ). slice i j xs) (sym e)

  pub slice-take : (i n s : ℕ) (xs : List A) → i + n ≤ s → slice i n (take s xs) ≡ slice i n xs
  slice-take zero zero s xs h = refl
  slice-take zero (suc n) zero xs h = absurd (omega arith)
  slice-take zero (suc n) (suc s) [] h = refl
  slice-take zero (suc n) (suc s) (x ∷ xs) h = ap (◌∷◌ x) (slice-take zero n s xs (omega arith))
  slice-take (suc i) n zero xs h = absurd (omega arith)
  slice-take (suc i) n (suc s) [] h = refl
  slice-take (suc i) n (suc s) (x ∷ xs) h = slice-take i n s xs (omega arith)

  -- A run `xs` found behind the place `p` is what a cut at its end leaves there.
  pub drop-take_run :
      (p : ℕ) (cs xs zs rest : List A)
      → p ≤ length cs
      → drop p cs ≡ xs ++ rest
      → drop p (take (p + length xs) cs ++ zs) ≡ xs ++ zs
  drop-take_run zero cs xs zs rest h e =
      ap₂ (λ (k : ℕ) c. take k c ++ zs) (omega arith) e
      ∙ ap (λ ys. ys ++ zs) (take-append_self xs rest)
  drop-take_run (suc p) [] xs zs rest h e = absurd (omega arith)
  drop-take_run (suc p) (c ∷ cs) xs zs rest h e =
      ap (λ (k : ℕ). drop (suc p) (take k (c ∷ cs) ++ zs)) (suc_add p (length xs))
      ∙ drop-take_run p cs xs zs rest (omega arith) e

module _ {ℓ} {A : Type ℓ} where
  abbrev pub All {κ} : (A → Type κ) → List A → Type κ
  All P [] = Unit {κ}
  All P (x ∷ xs) = P x × All P xs

  pub append-All {κ} : (P : A → Type κ) (xs ys : List A) → All P xs → All P ys → All P (xs ++ ys)
  append-All P [] ys h k = k
  append-All P (x ∷ xs) ys h k = (h.0, append-All P xs ys h.1 k)

  pub reverse-All {κ} : (P : A → Type κ) (xs : List A) → All P xs → All P (reverse xs)
  reverse-All P [] h = tt
  reverse-All P (x ∷ xs) h =
      subst (All P) (sym (reverse-cons x xs))
        (append-All P (reverse xs) (x ∷ []) (reverse-All P xs h.1) (h.0, tt))

  pub length-reverse : (xs : List A) → length (reverse xs) ≡ length xs
  length-reverse [] = refl
  length-reverse (x ∷ xs) =
      omega (
        arith,
        ap length (reverse-cons x xs),
        length-append (reverse xs) (x ∷ []),
        length-reverse xs,
      )
