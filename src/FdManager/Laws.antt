-- ===== src/FdManager/Laws.antt =====
-- What the manager hands out for a descriptor.
use fishjoy.Base.{
  ℕ, zero, suc, ◌+◌, ◌-◌, ◌/◌, ◌≤◌, ◌<◌, ◌≡◌, ◌≢◌, refl, sym, ap, ◌∙◌, Bool, true, false, not, ◌||◌,
  Option, none, some, List, [], ◌∷◌, ◌++◌, length, get_elem?, set, take, replicate, leb, ◌==◌,
  ==_iff, if◌then◌else◌, if_cases, arith, Bool-cases, inl, inr, length-append, length-take,
  length-replicate, take-nil, leb→le, ne_of_test, subst, ◌⊎◌,
}
use fishjoy.FdManager.{FdManager, resize, pointer, is_null, install, get_at, get, del, new_ctx}

abbrev pub held : List (Option ℕ) → ℕ → Option ℕ
held ps fd = pointer (get_elem? ps fd)

held-set_self :
    (ps : List (Option ℕ)) (i : ℕ) (p : Option ℕ) → i < length ps → held (set ps i p) i ≡ p
held-set_self [] i p h = absurd (omega arith)
held-set_self (x ∷ ps) zero p h = refl
held-set_self (x ∷ ps) (suc i) p h = held-set_self ps i p (omega arith)

held-set : (ps : List (Option ℕ)) (i j : ℕ) (p : Option ℕ) → i ≢ j → held (set ps i p) j ≡ held ps j
held-set [] i j p n = refl
held-set (x ∷ ps) zero zero p n = absurd (n refl)
held-set (x ∷ ps) zero (suc j) p n = refl
held-set (x ∷ ps) (suc i) zero p n = refl
held-set (x ∷ ps) (suc i) (suc j) p n = held-set ps i j p (λ e. n (ap suc e))

held-nulls : (n j : ℕ) → held (replicate n none) j ≡ none
held-nulls zero j = refl
held-nulls (suc n) zero = refl
held-nulls (suc n) (suc j) = held-nulls n j

held-resize : (ps : List (Option ℕ)) (n j : ℕ) → length ps ≤ n → held (resize ps n) j ≡ held ps j
held-resize [] n j h =
    ap (λ qs. held (qs ++ replicate (n - 0) none) j) (take-nil n) ∙ held-nulls (n - 0) j
held-resize (p ∷ ps) zero j h = absurd (omega arith)
held-resize (p ∷ ps) (suc n) zero h = refl
held-resize (p ∷ ps) (suc n) (suc j) h =
    ap (λ (k : ℕ). held (take n ps ++ replicate k none) j) (omega arith)
    ∙ held-resize ps n j (omega arith)

length-resize : (ps : List (Option ℕ)) (n : ℕ) → length ps ≤ n → length (resize ps n) ≡ n
length-resize ps n h = omega (
  arith,
  length-append (take n ps) (replicate (n - length ps) none),
  length-take n ps,
  length-replicate {A = Option ℕ} (n - length ps) none,
)

-- What `get` hands out: the pointer that the vector holds after it, and every other descriptor keeps
-- its own. A pointer that was there stays.
pub record Got (fstat : ℕ → Option Bool) (m : FdManager) (fd : ℕ) (auto_create : Bool) (p : ℕ)
    (r : FdManager × Option ℕ) : Type 0 where
  pub handed : held r.0.datas fd ≡ r.1
  pub others : (j : ℕ) → fd ≢ j → held r.0.datas j ≡ held m.datas j
  pub kept : (q : ℕ) → held m.datas fd ≡ some q → (r.1 ≡ some q) × (r.0 ≡ m)
  pub made :
      held m.datas fd ≡ none → auto_create ≡ true → (r.1 ≡ some p) × (r.0.heap p ≡ new_ctx fstat fd)
  pub refused : held m.datas fd ≡ none → auto_create ≡ false → (r.1 ≡ none) × (r.0 ≡ m)

-- The vector, made longer where the descriptor is out of its range.
room : FdManager → ℕ → List (Option ℕ)
room m fd = if leb (length m.datas) fd then resize m.datas (fd + fd / 2) else m.datas

held-room :
    (m : FdManager) (fd : ℕ)
    → 1 < length m.datas
    → (fd < length (room m fd)) × ((j : ℕ) → held (room m fd) j ≡ held m.datas j)
unfolding room
held-room m fd two =
    if_cases (λ (ps : List (Option ℕ)). (fd < length ps) × ((j : ℕ) → held ps j ≡ held m.datas j))
      (leb (length m.datas) fd) _ _
      (λ short.
        let le : length m.datas ≤ fd = leb→le (length m.datas) fd short in
        (
          omega (arith, length-resize m.datas (fd + fd / 2) (omega arith)),
          λ j. held-resize m.datas (fd + fd / 2) j (omega arith),
        ))
      (λ long. (ground arith, λ j. refl))

module _ (fstat : ℕ → Option Bool) (m : FdManager) (fd p : ℕ) (two : 1 < length m.datas) where
  install-Got :
      (auto_create : Bool)
      → auto_create ≡ true
      → held m.datas fd ≡ none
      → Got fstat m fd auto_create p (install fstat m fd p, some p)
  unfolding install room
  install-Got auto_create on empty =
      let (inside, same) = held-room m fd two in
      record {
        handed = held-set_self (room m fd) fd (some p) inside;
        others = λ j n. held-set (room m fd) fd j (some p) n ∙ same j;
        kept = λ q e. absurd (clash q (sym empty ∙ e));
        made = λ _ _. (refl, rw ((==_iff p p).1 refl));
        refused = λ _ off. absurd (both auto_create on off);
      }
    where
      clash : (q : ℕ) → none ≡ some q → ⊥
      clash q e = cc

      both : (b : Bool) → b ≡ true → b ≡ false → ⊥
      both b t f = cc

  stay-Got :
      (auto_create : Bool) (found : Option ℕ)
      → held m.datas fd ≡ found
      → ((not (is_null found) || not auto_create) ≡ true)
      → Got fstat m fd auto_create p (m, found)
  stay-Got auto_create found e h = record {
    handed = e;
    others = λ j n. refl;
    kept = λ q there. (sym e ∙ there, refl);
    made = λ empty on. absurd (neither found auto_create (sym e ∙ empty) on h);
    refused = λ empty off. (sym e ∙ empty, refl);
  }
    where
      neither :
          (o : Option ℕ) (b : Bool) → o ≡ none → b ≡ true → (not (is_null o) || not b) ≡ true → ⊥
      neither none true o t h = cc
      neither none false o t h = cc
      neither (some q) b o t h = cc

  get_at-Got :
      (auto_create : Bool) (found : Option ℕ)
      → held m.datas fd ≡ found
      → Got fstat m fd auto_create p (get_at fstat m fd auto_create p found)
  unfolding get_at
  get_at-Got auto_create found e =
      if_cases (Got fstat m fd auto_create p) (not (is_null found) || not auto_create) _ _
        (stay-Got auto_create found e)
        (λ h.
          let (empty, on) = absent found auto_create h in install-Got auto_create on (e ∙ empty))
    where
      absent :
          (o : Option ℕ) (b : Bool) → (not (is_null o) || not b) ≡ false → (o ≡ none) × (b ≡ true)
      absent none true h = (refl, refl)
      absent none false h = cc
      absent (some q) b h = cc

  -- Where the vector has room for two descriptors, `get` hands out the pointer that the vector
  -- then holds for the descriptor: the one that was there, or a new object if there was none and
  -- one is to be made, or null. Every other descriptor keeps its pointer.
  pub get-Got :
      (auto_create : Bool) → Got fstat m fd auto_create p (get fstat m (some fd) auto_create p)
  unfolding get
  get-Got auto_create = get_at-Got auto_create (held m.datas fd) refl

-- After `del` the descriptor has no pointer and every other descriptor has its own; no object
-- changes.
pub del-held :
    (m : FdManager) (fd j : ℕ)
    → (held (del m fd).datas j ≡ (if fd == j then none else held m.datas j))
      × ((del m fd).heap j ≡ m.heap j)
unfolding del
del-held m fd j =
    if_cases
      (λ (r : FdManager).
        (held r.datas j ≡ (if fd == j then none else held m.datas j)) × (r.heap j ≡ m.heap j))
      (leb (length m.datas) fd) _ _ (λ far. (beyond far, refl))
      (λ near. (inside (Bool-cases (fd == j)), refl))
  where
    nothing : (ps : List (Option ℕ)) (i : ℕ) → length ps ≤ i → held ps i ≡ none
    nothing [] i h = refl
    nothing (x ∷ ps) zero h = absurd (omega arith)
    nothing (x ∷ ps) (suc i) h = nothing ps i (omega arith)

    beyond :
        leb (length m.datas) fd ≡ true → held m.datas j ≡ (if fd == j then none else held m.datas j)
    beyond far = elim (Bool-cases (fd == j)) [
      | inl e ↦ rw e (
          subst (λ (i : ℕ). held m.datas i ≡ none) ((==_iff fd j).0 e)
            (nothing m.datas fd (leb→le (length m.datas) fd far)))
      | inr e ↦ rw e
    ]

    cleared : (ps : List (Option ℕ)) (i : ℕ) → held (set ps i none) i ≡ none
    cleared [] i = refl
    cleared (x ∷ ps) zero = refl
    cleared (x ∷ ps) (suc i) = cleared ps i

    inside :
        ((fd == j) ≡ true) ⊎ ((fd == j) ≡ false)
        → held (set m.datas fd none) j ≡ (if fd == j then none else held m.datas j)
    inside (inl e) = rw e (
        subst (λ (i : ℕ). held (set m.datas fd none) i ≡ none) ((==_iff fd j).0 e)
          (cleared m.datas fd))
    inside (inr e) = rw e (held-set m.datas fd j none (ne_of_test fd j e))
