-- ===== src/Servlet/Tables.antt =====
-- The tables of src/http/servlet.cpp, in which no uri has two entries.
use fishjoy.Base.{
  ℕ, ◌≡◌, ◌≢◌, refl, sym, ap, subst, Option, none, some, List, [], ◌∷◌, ◌++◌, All, ◌==◌, ==_iff,
  ne_of_test, if◌then◌else◌, Bool-cases, if_cases, inl, inr, append-All, arith,
}
use fishjoy.Servlet.{
  Creator, hold, Dispatch, assign, erase_first, find, add_servlet, add_servlet_creator,
  add_glob_servlet, add_glob_servlet_creator, del_servlet, del_glob_servlet,
}

abbrev pub Table : Type 0
Table = List (ℕ × Creator)

-- The uri has no entry.
abbrev pub Out : ℕ → Table → Type 0
Out uri xs = All (λ x. x.0 ≢ uri) xs

abbrev pub Distinct : Table → Type 0
Distinct [] = Unit {0}
Distinct (x ∷ xs) = Out x.0 xs × Distinct xs

pub record IsValid (d : Dispatch) : Type 0 where
  pub datas_once : Distinct d.datas
  pub globs_once : Distinct d.globs

pub find-Out : (xs : Table) (uri : ℕ) → Out uri xs → find xs uri ≡ none
unfolding find
find-Out [] uri o = refl
find-Out (x ∷ xs) uri o = elim (Bool-cases (x.0 == uri)) [
  | inl e ↦ absurd (o.0 ((==_iff x.0 uri).0 e))
  | inr e ↦ rw e (find-Out xs uri o.1)
]

assign-Out : (xs : Table) (u uri : ℕ) (c : Creator) → u ≢ uri → Out uri xs → Out uri (assign xs u c)
unfolding assign
assign-Out [] u uri c n o = (n, tt)
assign-Out (x ∷ xs) u uri c n o =
    if_cases (Out uri) (x.0 == u) _ _ (λ _. (n, o.1)) (λ _. (o.0, assign-Out xs u uri c n o.1))

assign-Distinct : (xs : Table) (uri : ℕ) (c : Creator) → Distinct xs → Distinct (assign xs uri c)
unfolding assign
assign-Distinct [] uri c d = (tt, tt)
assign-Distinct (x ∷ xs) uri c d =
    if_cases Distinct (x.0 == uri) _ _
      (λ e. (subst (λ (k : ℕ). Out k xs) ((==_iff x.0 uri).0 e) d.0, d.1))
      (λ e. (
        assign-Out xs uri x.0 c (λ p. ne_of_test x.0 uri e (sym p)) d.0,
        assign-Distinct xs uri c d.1,
      ))

erase-Out : (xs : Table) (u uri : ℕ) → Out uri xs → Out uri (erase_first xs u)
unfolding erase_first
erase-Out [] u uri o = tt
erase-Out (x ∷ xs) u uri o =
    if_cases (Out uri) (x.0 == u) _ _ (λ _. o.1) (λ _. (o.0, erase-Out xs u uri o.1))

pub erase-Distinct :
    (xs : Table) (uri : ℕ)
    → Distinct xs
    → Distinct (erase_first xs uri) × Out uri (erase_first xs uri)
unfolding erase_first
erase-Distinct [] uri d = (tt, tt)
erase-Distinct (x ∷ xs) uri d =
    if_cases (λ ys. Distinct ys × Out uri ys) (x.0 == uri) _ _
      (λ e. (d.1, subst (λ (k : ℕ). Out k xs) ((==_iff x.0 uri).0 e) d.0))
      (λ e.
        let (once, gone) = erase-Distinct xs uri d.1 in
        ((erase-Out xs uri x.0 d.0, once), (ne_of_test x.0 uri e, gone)))

last-Distinct :
    (xs : Table) (uri : ℕ) (c : Creator)
    → Distinct xs
    → Out uri xs
    → Distinct (xs ++ ((uri, c) ∷ []))
last-Distinct [] uri c d o = (tt, tt)
last-Distinct (x ∷ xs) uri c d o = (
  append-All (λ (y : ℕ × Creator). y.0 ≢ x.0) xs ((uri, c) ∷ []) d.0 ((λ e. o.0 (sym e)), tt),
  last-Distinct xs uri c d.1 o.1,
)

-- Each operation that changes the tables leaves no uri with two entries in one table, if there was
-- none before.
pub tables-IsValid :
    (d : Dispatch) (uri servlet : ℕ) (c : Creator)
    → IsValid d
    → IsValid (add_servlet d uri servlet)
      × IsValid (add_servlet_creator d uri c)
      × IsValid (add_glob_servlet d uri servlet)
      × IsValid (add_glob_servlet_creator d uri c)
      × IsValid (del_servlet d uri)
      × IsValid (del_glob_servlet d uri)
unfolding add_servlet add_servlet_creator add_glob_servlet add_glob_servlet_creator del_servlet
    del_glob_servlet
tables-IsValid d uri servlet c v = (
  with_datas _ (assign-Distinct d.datas uri (hold servlet) v.datas_once),
  with_datas _ (assign-Distinct d.datas uri c v.datas_once),
  with_globs _ (last-Distinct _ uri (hold servlet) erased.0 erased.1),
  with_globs _ (last-Distinct _ uri c erased.0 erased.1),
  with_datas _ (erase-Distinct d.datas uri v.datas_once).0,
  with_globs _ erased.0,
)
  where
    erased : Distinct (erase_first d.globs uri) × Out uri (erase_first d.globs uri)
    erased = erase-Distinct d.globs uri v.globs_once

    with_datas : (xs : Table) → Distinct xs → IsValid (record d { datas = xs })
    with_datas xs once = record { datas_once = once; globs_once = v.globs_once }

    with_globs : (xs : Table) → Distinct xs → IsValid (record d { globs = xs })
    with_globs xs once = record { datas_once = v.datas_once; globs_once = once }

pub find-assign :
    (xs : Table) (uri u : ℕ) (c : Creator)
    → find (assign xs uri c) u ≡ (if uri == u then some c else find xs u)
unfolding find assign
find-assign [] uri u c = refl
find-assign (x ∷ xs) uri u c = ground (arith, find-assign xs uri u c)

pub find-erase : (xs : Table) (uri u : ℕ) → uri ≢ u → find (erase_first xs uri) u ≡ find xs u
unfolding find erase_first
find-erase [] uri u n = refl
find-erase (x ∷ xs) uri u n = ground (arith, find-erase xs uri u n)

pub find-last_self :
    (xs : Table) (uri : ℕ) (c : Creator) → Out uri xs → find (xs ++ ((uri, c) ∷ [])) uri ≡ some c
unfolding find
find-last_self [] uri c o = rw ((==_iff uri uri).1 refl)
find-last_self (x ∷ xs) uri c o = ground (arith, o.0, find-last_self xs uri c o.1)

pub find-last :
    (xs : Table) (uri u : ℕ) (c : Creator) → uri ≢ u → find (xs ++ ((uri, c) ∷ [])) u ≡ find xs u
unfolding find
find-last [] uri u c n = ground (arith, n)
find-last (x ∷ xs) uri u c n =
    ap (λ (o : Option Creator). if x.0 == u then some x.1 else o) (find-last xs uri u c n)
