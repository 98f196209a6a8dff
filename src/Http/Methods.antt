-- ===== src/Http/Methods.antt =====
-- The names of the methods and the reasons of the status codes, in src/http/http.cpp.
use fishjoy.Base.{
  ℕ, zero, suc, ◌<◌, ◌≡◌, refl, ap, ◌∙◌, subst, Bool, true, false, ◌&&◌, Option, none, some, List,
  [], ◌∷◌, length, get_elem?, All, ◌==◌, if◌then◌else◌, arith,
}
use fishjoy.Http.{codes}
use fishjoy.Http.Maps.{Text}

-- strcmp of two strings, against 0.
abbrev pub equal : Text → Text → Bool
equal [] [] = true
equal [] (y ∷ ys) = false
equal (x ∷ xs) [] = false
equal (x ∷ xs) (y ∷ ys) = (x == y) && equal xs ys

-- strncmp with the length of the first, against 0.
abbrev pub starts : Text → Text → Bool
starts [] ys = true
starts (x ∷ xs) [] = false
starts (x ∷ xs) (y ∷ ys) = (x == y) && starts xs ys

-- The number of the first name that passes, or the number behind the last.
unfoldable pub first_match : (Text → Bool) → List Text → ℕ
first_match test [] = 0
first_match test (x ∷ xs) = if test x then 0 else suc (first_match test xs)

module _ (names : List Text) where
  -- INVALID_METHOD is the number behind the last.
  unfoldable pub string_to_http_method : Text → ℕ
  unfolding first_match
  string_to_http_method m = first_match (λ name. equal name m) names

  unfoldable pub chars_to_http_method : Text → ℕ
  unfolding first_match
  chars_to_http_method m = first_match (λ name. starts name m) names

  abbrev pub or_unknown : Option Text → Text
  or_unknown none = codes "<unknown>"
  or_unknown (some name) = name

  unfoldable pub http_method_to_string : ℕ → Text
  http_method_to_string m = or_unknown (get_elem? names m)

-- The switch over the status codes.
unfoldable pub http_status_to_string : List (ℕ × Text) → ℕ → Text
http_status_to_string [] s = codes "<unknown>"
http_status_to_string ((code, msg) ∷ rest) s =
    let others = http_status_to_string rest s in if s == code then msg else others

abbrev pub Distinct : List Text → Type 0
Distinct [] = Unit
Distinct (x ∷ xs) = All (λ y. equal x y ≡ false) xs × Distinct xs

equal_refl : (x : Text) → equal x x ≡ true
equal_refl [] = refl
equal_refl (c ∷ cs) = rw (equal_refl cs) (ground arith)

All-get {ℓ} :
    (P : Text → Type ℓ) (xs : List Text) (i : ℕ) (x : Text)
    → All P xs
    → get_elem? xs i ≡ some x
    → P x
All-get P [] i x h e = cc
All-get P (y ∷ ys) zero x (h, hs) e = subst P (same y x e) h
  where
    same : (y x : Text) → some y ≡ some x → y ≡ x
    same y x e = cc
All-get P (y ∷ ys) (suc i) x (h, hs) e = All-get P ys i x hs e

first_match-equal :
    (names : List Text) (i : ℕ) (x : Text)
    → Distinct names
    → get_elem? names i ≡ some x
    → first_match (λ name. equal name x) names ≡ i
unfolding first_match
first_match-equal [] i x d e = cc
first_match-equal (y ∷ ys) zero x (d, ds) e = rw (← same y x e, equal_refl y) refl
  where
    same : (y x : Text) → some y ≡ some x → y ≡ x
    same y x e = cc
first_match-equal (y ∷ ys) (suc i) x (d, ds) e =
    rw (All-get (λ z. equal y z ≡ false) ys i x d e) (ap suc (first_match-equal ys i x ds e))

get_elem?-below :
    (names : List Text) (i : ℕ) → i < length names → (x : Text) × (get_elem? names i ≡ some x)
get_elem?-below [] i lt = absurd (omega arith)
get_elem?-below (y ∷ ys) zero lt = (y, refl)
get_elem?-below (y ∷ ys) (suc i) lt = get_elem?-below ys i (omega arith)

-- If the names of the methods differ, each method comes back from its name.
pub string_to_http_method-http_method_to_string :
    (names : List Text) (i : ℕ)
    → Distinct names
    → i < length names
    → string_to_http_method names (http_method_to_string names i) ≡ i
unfolding string_to_http_method http_method_to_string
string_to_http_method-http_method_to_string names i d lt =
    let (x, e) = get_elem?-below names i lt in
    ap (λ (o : Option Text). first_match (λ name. equal name (or_unknown names o)) names) e
    ∙ first_match-equal names i x d e
