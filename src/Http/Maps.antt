-- ===== src/Http/Maps.antt =====
-- The maps of include/fishjoy/http/http.hpp, from texts to texts, which ignore the case of letters.
-- std::map is kept as the list of its entries in the order of their keys, as an iteration meets them.
use fishjoy.Base.{
  ℕ, ◌≡◌, refl, ap, ◌∙◌, Bool, true, false, not, ◌&&◌, ◌||◌, inl, inr, Option, none, some, List, [],
  ◌∷◌, if◌then◌else◌, if_cases, Bool-cases, arith,
}

abbrev pub Text : Type 0
Text = List ℕ

abbrev pub Map : Type 0
Map = List (Text × Text)

-- The result of strcasecmp: below, at or above 0.
pub data Sign : Type 0 where
  negative null positive : Sign

abbrev pub is_negative : Sign → Bool
is_negative negative = true
is_negative null = false
is_negative positive = false

abbrev pub is_null : Sign → Bool
is_null null = true
is_null negative = false
is_null positive = false

module _ (strcasecmp : Text → Text → Sign) where
  -- CaseInsensitiveLess.
  abbrev pub less : Text → Text → Bool
  less a b = is_negative (strcasecmp a b)

  -- Keys that a map takes for one.
  abbrev pub same : Text → Text → Bool
  same a b = not (less a b) && not (less b a)

  -- strcasecmp orders texts, up to the case of letters.
  pub record IsOrder : Type 0 where
    pub irreflexive : (a : Text) → less a a ≡ false
    pub asymmetric : (a b : Text) → less a b ≡ true → less b a ≡ false
    pub splits : (a b c : Text) → less a c ≡ true → (less a b || less b c) ≡ true

  unfoldable pub find : Map → Text → Option Text
  find [] k = none
  find ((j, v) ∷ m) k = if same j k then some v else find m k

  -- `m[k] = v`. The key that is there stays.
  unfoldable pub assign : Map → Text → Text → Map
  assign [] k v = (k, v) ∷ []
  assign ((j, w) ∷ m) k v =
      let rest = assign m k v in
      if less k j then (k, v) ∷ (j, w) ∷ m else if less j k then (j, w) ∷ rest else (j, v) ∷ m

  -- `m.insert`, which leaves an entry that is there.
  unfoldable pub insert : Map → Text → Text → Map
  insert [] k v = (k, v) ∷ []
  insert ((j, w) ∷ m) k v =
      let rest = insert m k v in
      if less k j then (k, v) ∷ (j, w) ∷ m else if less j k then (j, w) ∷ rest else (j, w) ∷ m

  abbrev pub insert_all : Map → List (Text × Text) → Map
  insert_all m [] = m
  insert_all m ((k, v) ∷ ps) = insert_all (insert m k v) ps

  unfoldable pub erase : Map → Text → Map
  erase [] k = []
  erase ((j, w) ∷ m) k = let rest = erase m k in if same j k then rest else (j, w) ∷ rest

  -- What an entry that may be there holds, or else `v`.
  abbrev pub or_else : Option Text → Text → Text
  or_else none v = v
  or_else (some w) v = w

  module _ (order : IsOrder) where
    same_refl : (a : Text) → same a a ≡ true
    same_refl a = rw (order.irreflexive a) refl

    -- Keys that are taken for one are below and above the same keys.
    same-below : (a b c : Text) → same a b ≡ true → less a c ≡ less b c
    same-below a b c e = ground (arith, order.splits a b c, order.splits b a c)

    same-above : (a b c : Text) → same a b ≡ true → less c a ≡ less c b
    same-above a b c e = ground (arith, order.splits c b a, order.splits c a b)

    same_trans : (a b c : Text) → same a b ≡ true → same a c ≡ same b c
    same_trans a b c e = rw (same-below a b c e, same-above a b c e) refl

    pub find-assign :
        (m : Map) (k j v : Text) → find (assign m k v) j ≡ (if same k j then some v else find m j)
    unfolding find assign
    find-assign [] k j v = refl
    find-assign ((i, w) ∷ m) k j v = ground (
      arith,
      same_trans i k j,
      order.splits i j k,
      order.splits k j i,
      order.splits i k j,
      order.splits k i j,
      find-assign m k j v,
    )

    gone_here :
        (c d : Bool) (x y : Option Text)
        → d ≡ c
        → (if c then none else x) ≡ (if c then none else if d then y else x)
    gone_here true d x y e = refl
    gone_here false d x y e = rw e refl

    gone_later :
        (c d : Bool) (x y : Option Text)
        → (c ≡ true → d ≡ false)
        → (if d then y else if c then none else x) ≡ (if c then none else if d then y else x)
    gone_later true d x y e = rw (e refl) refl
    gone_later false d x y e = refl

    others_differ : (i k j : Text) → same i k ≡ false → same k j ≡ true → same i j ≡ false
    others_differ i k j ne e = ground (arith, same_trans k j i)

    pub find-erase :
        (m : Map) (k j : Text) → find (erase m k) j ≡ (if same k j then none else find m j)
    unfolding find erase
    find-erase [] k j = ground arith
    find-erase ((i, w) ∷ m) k j = elim (Bool-cases (same i k)) [
      | inl e ↦ rw e (
          find-erase m k j
          ∙ gone_here (same k j) (same i j) (find m j) (some w) (same_trans i k j e))
      | inr ne ↦ rw ne (
          ap (λ (x : Option Text). if same i j then some w else x) (find-erase m k j)
          ∙ gone_later (same k j) (same i j) (find m j) (some w) (others_differ i k j ne))
    ]

    -- Every key of the map is behind `k`.
    abbrev pub Above : Text → Map → Type 0
    Above k [] = Unit
    Above k ((j, w) ∷ m) = (less k j ≡ true) × Above k m

    abbrev pub Ordered : Map → Type 0
    Ordered [] = Unit
    Ordered ((j, w) ∷ m) = Above j m × Ordered m

    Above-find : (k : Text) (m : Map) → Above k m → find m k ≡ none
    unfolding find
    Above-find k [] h = refl
    Above-find k ((j, w) ∷ m) (h, hs) = ground (arith, Above-find k m hs)

    Above-less : (k j : Text) (m : Map) → less k j ≡ true → Above j m → Above k m
    Above-less k j [] h a = tt
    Above-less k j ((i, w) ∷ m) h (a, as') =
        (ground (arith, order.splits j k i, order.asymmetric k j), Above-less k j m h as')

    -- What was there stays, and nothing else changes.
    pub find-insert :
        (m : Map) (k j v : Text)
        → Ordered m
        → find (insert m k v) j ≡ (if same k j then some (or_else (find m k) v) else find m j)
    unfolding find insert
    find-insert [] k j v h = refl
    find-insert ((i, w) ∷ m) k j v (a, h) = elim (Bool-cases (less k i)) [
      | inl e ↦ rw (e, order.asymmetric k i e, Above-find k m (Above-less k i m e a)) refl
      | inr e ↦ ground (
        arith,
        same_trans i k j,
        same_trans k j i,
        order.splits i j k,
        order.splits k j i,
        find-insert m k j v h,
      )
    ]

    Above-insert :
        (i : Text) (m : Map) (k v : Text) → less i k ≡ true → Above i m → Above i (insert m k v)
    unfolding insert
    Above-insert i [] k v e a = (e, tt)
    Above-insert i ((j, w) ∷ m) k v e (a, as') =
        if_cases (Above i) (less k j) _ _ (λ _. (e, (a, as')))
          (λ _.
            if_cases (Above i) (less j k) _ _ (λ _. (a, Above-insert i m k v e as'))
              (λ _. (a, as')))

    pub insert-Ordered : (m : Map) (k v : Text) → Ordered m → Ordered (insert m k v)
    unfolding insert
    insert-Ordered [] k v h = (tt, tt)
    insert-Ordered ((j, w) ∷ m) k v (a, h) =
        if_cases Ordered (less k j) _ _ (λ e. ((e, Above-less k j m e a), (a, h)))
          (λ _.
            if_cases Ordered (less j k) _ _
              (λ e. (Above-insert j m k v e a, insert-Ordered m k v h)) (λ _. (a, h)))

    Above-assign :
        (i : Text) (m : Map) (k v : Text) → less i k ≡ true → Above i m → Above i (assign m k v)
    unfolding assign
    Above-assign i [] k v e a = (e, tt)
    Above-assign i ((j, w) ∷ m) k v e (a, as') =
        if_cases (Above i) (less k j) _ _ (λ _. (e, (a, as')))
          (λ _.
            if_cases (Above i) (less j k) _ _ (λ _. (a, Above-assign i m k v e as'))
              (λ _. (a, as')))

    pub assign-Ordered : (m : Map) (k v : Text) → Ordered m → Ordered (assign m k v)
    unfolding assign
    assign-Ordered [] k v h = (tt, tt)
    assign-Ordered ((j, w) ∷ m) k v (a, h) =
        if_cases Ordered (less k j) _ _ (λ e. ((e, Above-less k j m e a), (a, h)))
          (λ _.
            if_cases Ordered (less j k) _ _
              (λ e. (Above-assign j m k v e a, assign-Ordered m k v h)) (λ _. (a, h)))

    pub insert_all-Ordered :
        (ps : List (Text × Text)) (m : Map) → Ordered m → Ordered (insert_all m ps)
    insert_all-Ordered [] m h = h
    insert_all-Ordered ((k, v) ∷ ps) m h =
        insert_all-Ordered ps (insert m k v) (insert-Ordered m k v h)

    -- Keys that are taken for one find the same.
    find-same : (m : Map) (k j : Text) → same k j ≡ true → find m k ≡ find m j
    unfolding find
    find-same [] k j e = refl
    find-same ((i, w) ∷ m) k j e =
        rw (same-above k j i e, same-below k j i e)
          (ap (λ (o : Option Text). if same i j then some w else o) (find-same m k j e))

    -- An insertion leaves what is found.
    pub insert-keeps :
        (m : Map) (k j v w : Text) → Ordered m → find m j ≡ some w → find (insert m k v) j ≡ some w
    insert-keeps m k j v w h e =
        find-insert m k j v h
        ∙ if_cases (λ (o : Option Text). o ≡ some w) (same k j) _ _
            (λ s. ap (λ (o : Option Text). some (or_else o v)) (find-same m k j s ∙ e)) (λ _. e)

    abbrev pub choose : Option Text → Option Text → Option Text
    choose none o = o
    choose (some v) o = some v

    -- Of several entries with one key the first counts, and what was there before.
    pub find-insert_all :
        (ps : List (Text × Text)) (m : Map) (k : Text)
        → Ordered m
        → find (insert_all m ps) k ≡ choose (find m k) (find ps k)
    unfolding find
    find-insert_all [] m k h = if_none (find m k)
      where
        if_none : (o : Option Text) → o ≡ choose o none
        if_none none = refl
        if_none (some v) = refl
    find-insert_all ((j, v) ∷ ps) m k h =
        find-insert_all ps (insert m j v) k (insert-Ordered m j v h)
        ∙ ap (λ (o : Option Text). choose o (find ps k)) (find-insert m j k v h)
        ∙ elim (Bool-cases (same j k)) [
          | inl e ↦ rw (e, find-same m j k e) (if_there (find m k))
          | inr e ↦ rw e refl
        ]
      where
        if_there : (o : Option Text) → choose (some (or_else o v)) (find ps k) ≡ choose o (some v)
        if_there none = refl
        if_there (some w) = refl
