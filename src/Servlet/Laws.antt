-- ===== src/Servlet/Laws.antt =====
-- Which servlet a uri gets in src/http/servlet.cpp.
use fishjoy.Base.{
  ℕ, ◌≡◌, refl, sym, ap, ◌∙◌, subst, Bool, true, false, none, some, [], ◌∷◌, ◌++◌, All, ◌==◌,
  ==_iff, ne_of_test, if◌then◌else◌, Bool-cases, inl, inr, ◌⊎◌, Option-cases, ap₂,
}
use fishjoy.Servlet.{
  Creator, hold, Servlet, get, Dispatch, erase_first, find, first_match, add_servlet,
  add_glob_servlet, del_servlet, del_glob_servlet, get_servlet, get_glob_servlet,
  get_matched_servlet, got, matched, shared,
}
use fishjoy.Servlet.Tables.{
  Table, Out, IsValid, Distinct, find-Out, erase-Distinct, find-assign, find-erase, find-last_self,
  find-last,
}

-- The servlet that a uri gets.
pub data Serves (fnmatch : ℕ → ℕ → Bool) (d : Dispatch) (uri : ℕ) : Servlet → Type 0 where
  exact : (c : Creator) → find d.datas uri ≡ some c → Serves fnmatch d uri (get c)
  by_glob :
      (before after : Table) (pattern' : ℕ) (c : Creator)
      → find d.datas uri ≡ none
      → d.globs ≡ before ++ ((pattern', c) ∷ after)
      → All (λ x. fnmatch x.0 uri ≡ false) before
      → fnmatch pattern' uri ≡ true
      → Serves fnmatch d uri (get c)
  by_default :
      find d.datas uri ≡ none
      → All (λ x. fnmatch x.0 uri ≡ false) d.globs
      → Serves fnmatch d uri d.default

first_match-Serves :
    (fnmatch : ℕ → ℕ → Bool) (xs : Table) (uri : ℕ)
    → ((first_match fnmatch xs uri ≡ none) × All (λ x. fnmatch x.0 uri ≡ false) xs)
      ⊎ ((before : Table) × (after : Table) × (x : ℕ × Creator) × (first_match fnmatch xs uri
            ≡ some x.1)
          × (xs ≡ before ++ (x ∷ after))
          × All (λ x. fnmatch x.0 uri ≡ false) before
          × (fnmatch x.0 uri ≡ true))
unfolding first_match
first_match-Serves fnmatch [] uri = inl (refl, tt)
first_match-Serves fnmatch (x ∷ xs) uri = elim (Bool-cases (fnmatch x.0 uri)) [
  | inl e ↦ inr ([], xs, x, rw e, refl, tt, e)
  | inr e ↦ elim (first_match-Serves fnmatch xs uri) [
    | inl (h, all) ↦ inl (rw e h, (e, all))
    | inr (before, after, y, h, whole, all, hit) ↦
        inr (x ∷ before, after, y, rw e h, ap (◌∷◌ x) whole, (e, all), hit)
  ]
]

-- `get_matched_servlet` returns the servlet of the uri's own entry if there is one, else that of
-- the first pattern in the list which matches the uri, else the default.
pub get_matched_servlet-Serves :
    (fnmatch : ℕ → ℕ → Bool) (d : Dispatch) (uri : ℕ)
    → Serves fnmatch d uri (get_matched_servlet fnmatch d uri)
unfolding get_matched_servlet
get_matched_servlet-Serves fnmatch d uri = elim (Option-cases (find d.datas uri)) [
  | inr (c, e) ↦
      subst (Serves fnmatch d uri)
        (sym (ap (λ o. matched fnmatch o (first_match fnmatch d.globs uri) d.default) e))
        (exact c e)
  | inl e ↦ elim (first_match-Serves fnmatch d.globs uri) [
    | inl (h, all) ↦
        subst (Serves fnmatch d uri) (sym (ap₂ (λ o g. matched fnmatch o g d.default) e h))
          (by_default e all)
    | inr (before, after, x, h, whole, all, hit) ↦
        subst (Serves fnmatch d uri) (sym (ap₂ (λ o g. matched fnmatch o g d.default) e h))
          (by_glob before after x.0 x.1 e whole all hit)
  ]
]

-- After `add_servlet` the uri has the new servlet, and every other uri the one it had.
pub add_servlet-get :
    (d : Dispatch) (uri u servlet : ℕ)
    → get_servlet (add_servlet d uri servlet) u
      ≡ (if uri == u then some (shared servlet) else get_servlet d u)
unfolding add_servlet get_servlet get
add_servlet-get d uri u servlet =
    ap got (find-assign d.datas uri u (hold servlet)) ∙ got_if (uri == u)
  where
    got_if :
        (b : Bool)
        → got (if b then some (hold servlet) else find d.datas u)
          ≡ (if b then some (shared servlet) else got (find d.datas u))
    got_if true = refl
    got_if false = refl

-- Where no pattern has two entries, after `add_glob_servlet` the pattern has the new servlet, and
-- every other pattern the one it had.
pub add_glob-get_glob :
    (d : Dispatch) (uri u servlet : ℕ)
    → IsValid d
    → get_glob_servlet (add_glob_servlet d uri servlet) u
      ≡ (if uri == u then some (shared servlet) else get_glob_servlet d u)
unfolding add_glob_servlet get_glob_servlet get
add_glob-get_glob d uri u servlet v = elim (Bool-cases (uri == u)) [
  | inl e ↦ rw e (
      subst
        (λ (k : ℕ).
          got (find (erase_first d.globs uri ++ ((uri, hold servlet) ∷ [])) k)
          ≡ some (shared servlet))
        ((==_iff uri u).0 e)
        (ap got (
          find-last_self (erase_first d.globs uri) uri (hold servlet)
            (erase-Distinct d.globs uri v.globs_once).1)))
  | inr e ↦ rw e (
      ap got (
        find-last (erase_first d.globs uri) uri u (hold servlet) (ne_of_test uri u e)
        ∙ find-erase d.globs uri u (ne_of_test uri u e)))
]

-- Where no uri has two entries in one table, after `del_servlet` and `del_glob_servlet` the uri
-- has no entry in the table, and every other uri the one it had.
pub del-get :
    (d : Dispatch) (uri u : ℕ)
    → IsValid d
    → (get_servlet (del_servlet d uri) u ≡ (if uri == u then none else get_servlet d u))
      × (get_glob_servlet (del_glob_servlet d uri) u
          ≡ (if uri == u then none else get_glob_servlet d u))
unfolding del_servlet del_glob_servlet get_servlet get_glob_servlet
del-get d uri u v = (erased d.datas v.datas_once, erased d.globs v.globs_once)
  where
    erased :
        (xs : Table)
        → Distinct xs
        → got (find (erase_first xs uri) u) ≡ (if uri == u then none else got (find xs u))
    erased xs once = elim (Bool-cases (uri == u)) [
      | inl e ↦ rw e (
          ap got (
            find-Out (erase_first xs uri) u (
              subst (λ (k : ℕ). Out k (erase_first xs uri)) ((==_iff uri u).0 e)
                (erase-Distinct xs uri once).1)))
      | inr e ↦ rw e (ap got (find-erase xs uri u (ne_of_test uri u e)))
    ]
