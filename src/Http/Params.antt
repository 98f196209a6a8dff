-- ===== src/Http/Params.antt =====
-- The parameters of a request: what the look-ups find, and what they leave behind.
use fishjoy.Base.{
  ℕ, zero, suc, ◌<◌, ◌≡◌, refl, ap, ◌∙◌, Bool, true, false, not, Option, none, some, List, [], ◌∷◌,
  ◌++◌, length, All, if◌then◌else◌, if_cases, Bool-cases, inl, inr,
}
use fishjoy.Url.{hexdigit}
use fishjoy.Http.Maps.{
  Text, Map, Sign, same, find, assign, insert, insert_all, or_else, IsOrder, Ordered, find-assign,
  assign-Ordered, insert-Ordered, insert-keeps, insert_all-Ordered, choose, find-insert_all,
}
use fishjoy.Http.{
  codes, Request, Pair, next_pair, after_pair, parse_from, parse_param, get_header, set_param,
  init_query_param, init_body_param, has_param, get_param,
}
use fishjoy.Http.Pairs.{form, IsPair, parse_param-form}

module _ (isxdigit : ℕ → Bool) (strcasecmp : Text → Text → Sign) where
  -- What holds of a map and of what an insertion makes of it.
  abbrev Kept {ℓ} : (Map → Type ℓ) → Type ℓ
  Kept P = (m : Map) (k v : Text) → P m → P (insert strcasecmp m k v)

  after_pair-Kept {ℓ} :
      (P : Map → Type ℓ) (trims : Text → Text) (next : Text → Map → Map) (m : Map) (o : Option Pair)
      → Kept P
      → ((rest : Text) (m : Map) → P m → P (next rest m))
      → P m
      → P (after_pair isxdigit strcasecmp trims next m o)
  after_pair-Kept P trims next m none kept later h = h
  after_pair-Kept P trims next m (some p) kept later h = ends p.rest
    where
      q : Option Text → Pair
      q o = record { key = p.key; value = p.value; rest = o }

      ends : (o : Option Text) → P (after_pair isxdigit strcasecmp trims next m (some (q o)))
      ends none = kept m _ _ h
      ends (some rest) = later rest _ (kept m _ _ h)

  parse_from-Kept {ℓ} :
      (P : Map → Type ℓ) (trims : Text → Text) (flag fuel : ℕ) (str : Text) (m : Map)
      → Kept P
      → P m
      → P (parse_from isxdigit strcasecmp trims flag fuel str m)
  unfolding parse_from
  parse_from-Kept P trims flag zero str m kept h = h
  parse_from-Kept P trims flag (suc fuel) str m kept h =
      after_pair-Kept P trims (parse_from isxdigit strcasecmp trims flag fuel) m
        (next_pair flag str) kept (λ rest m' h'. parse_from-Kept P trims flag fuel rest m' kept h')
        h

  parse_param-Kept {ℓ} :
      (P : Map → Type ℓ) (trims : Text → Text) (flag : ℕ) (str : Text) (m : Map)
      → Kept P
      → P m
      → P (parse_param isxdigit strcasecmp trims flag str m)
  unfolding parse_param
  parse_param-Kept P trims flag str m = parse_from-Kept P trims flag (suc (length str)) str m

  query-Kept {ℓ} :
      (P : Map → Type ℓ) (r : Request)
      → Kept P
      → P r.params
      → P (init_query_param isxdigit strcasecmp r).params
  unfolding init_query_param
  query-Kept P r kept h =
      if_cases (λ (r : Request). P r.params) r.query_parsed _ _ (λ _. h)
        (λ _. parse_param-Kept P (λ s. s) b'&' r.query r.params kept h)

  module _ (strcasestr : Text → Text → Bool) where
    body-Kept {ℓ} :
        (P : Map → Type ℓ) (r : Request)
        → Kept P
        → P r.params
        → P (init_body_param isxdigit strcasecmp strcasestr r).params
    unfolding init_body_param
    body-Kept P r kept h =
        if_cases (λ (r : Request). P r.params) r.body_parsed _ _ (λ _. h)
          (λ _.
            if_cases (λ (r : Request). P r.params) (not (strcasestr _ _)) _ _ (λ _. h)
              (λ _. parse_param-Kept P (λ s. s) b'&' r.body r.params kept h))

    query_parsed-query :
        (r : Request) → (init_query_param isxdigit strcasecmp r).query_parsed ≡ true
    unfolding init_query_param
    query_parsed-query r =
        if_cases (λ (r : Request). r.query_parsed ≡ true) r.query_parsed _ _ (λ e. e) (λ _. refl)

    query_parsed-body :
        (r : Request)
        → r.query_parsed ≡ true
        → (init_body_param isxdigit strcasecmp strcasestr r).query_parsed ≡ true
    unfolding init_body_param
    query_parsed-body r e =
        if_cases (λ (r : Request). r.query_parsed ≡ true) r.body_parsed _ _ (λ _. e)
          (λ _.
            if_cases (λ (r : Request). r.query_parsed ≡ true) (not (strcasestr _ _)) _ _ (λ _. e)
              (λ _. e))

    body_parsed-body :
        (r : Request) → (init_body_param isxdigit strcasecmp strcasestr r).body_parsed ≡ true
    unfolding init_body_param
    body_parsed-body r =
        if_cases (λ (r : Request). r.body_parsed ≡ true) r.body_parsed _ _ (λ e. e)
          (λ _.
            if_cases (λ (r : Request). r.body_parsed ≡ true) (not (strcasestr _ _)) _ _ (λ _. refl)
              (λ _. refl))

    query-idle : (r : Request) → r.query_parsed ≡ true → init_query_param isxdigit strcasecmp r ≡ r
    unfolding init_query_param
    query-idle r e =
        ap
          (λ (b : Bool). if b then r else record r {
            params = parse_param isxdigit strcasecmp (λ s. s) b'&' r.query r.params;
            query_parsed = true;
          })
          e

    body-idle :
        (r : Request) → r.body_parsed ≡ true → init_body_param isxdigit strcasecmp strcasestr r ≡ r
    unfolding init_body_param
    body-idle r e = if_cases (λ (x : Request). x ≡ r) r.body_parsed _ _ (λ _. refl) (λ fresh. cc)

    -- After a look-up of a parameter further look-ups leave the request as it is, and find what
    -- they would have found at first.
    pub has_param-again :
        (r : Request) (k j : Text)
        → has_param isxdigit strcasecmp strcasestr
            (has_param isxdigit strcasecmp strcasestr r k).0
            j
          ≡ (
            (has_param isxdigit strcasecmp strcasestr r k).0,
            (has_param isxdigit strcasecmp strcasestr r j).1,
          )
    unfolding has_param
    has_param-again r k j =
        let r' =
          init_body_param isxdigit strcasecmp strcasestr (init_query_param isxdigit strcasecmp r) in
        ap (λ (x : Request). (x, find strcasecmp x.params j))
          (ap (init_body_param isxdigit strcasecmp strcasestr) (
              query-idle r'
                (query_parsed-body (init_query_param isxdigit strcasecmp r) (query_parsed-query r)))
            ∙ body-idle r' (body_parsed-body (init_query_param isxdigit strcasecmp r)))

    module _ (order : IsOrder strcasecmp) where
      -- With an order of the keys and an ordered map, the value that was set for a key is what a
      -- look-up of the same key finds, whatever the query and the body have for it.
      pub get_param-set_param :
          (r : Request) (k j v def : Text)
          → Ordered strcasecmp order r.params
          → same strcasecmp k j ≡ true
          → (get_param isxdigit strcasecmp strcasestr (set_param isxdigit strcasecmp r k v) j def).1
            ≡ v
      unfolding get_param has_param set_param
      get_param-set_param r k j v def h e =
          let r' = record r { params = assign strcasecmp r.params k v } in
          ap (λ (o : Option Text). or_else strcasecmp o def)
            (body-Kept Has (init_query_param isxdigit strcasecmp r') kept (
              query-Kept Has r' kept (
                assign-Ordered strcasecmp order r.params k v h,
                find-assign strcasecmp order r.params k j v ∙ rw e refl,
              ))).1
        where
          Has : Map → Type 0
          Has m = Ordered strcasecmp order m × (find strcasecmp m j ≡ some v)

          kept : Kept Has
          kept m i w (o, f) =
              (insert-Ordered strcasecmp order m i w o, insert-keeps strcasecmp order m i j w v o f)

      module _ (accepts : (d : ℕ) → d < 16 → isxdigit (hexdigit d) ≡ true) where
        query-form :
            (r : Request) (ps : List (Text × Text))
            → All IsPair ps
            → r.query ≡ form ps
            → r.query_parsed ≡ false
            → init_query_param isxdigit strcasecmp r
              ≡ record r { params = insert_all strcasecmp r.params ps; query_parsed = true }
        unfolding init_query_param
        query-form r ps hp e fresh =
            ap
              (λ (b : Bool). if b then r else record r {
                params = parse_param isxdigit strcasecmp (λ s. s) b'&' r.query r.params;
                query_parsed = true;
              })
              fresh
            ∙ ap (λ (m : Map). record r { params = m; query_parsed = true })
                (ap (λ (str : Text). parse_param isxdigit strcasecmp (λ s. s) b'&' str r.params) e
                  ∙ parse_param-form isxdigit accepts strcasecmp ps r.params hp)

        body-form :
            (r : Request) (qs : List (Text × Text))
            → All IsPair qs
            → r.body ≡ form qs
            → r.body_parsed ≡ false
            → strcasestr
                (get_header isxdigit strcasecmp r (codes "content-type") [])
                (codes "application/x-www-form-urlencoded")
              ≡ true
            → (init_body_param isxdigit strcasecmp strcasestr r).params
              ≡ insert_all strcasecmp r.params qs
        unfolding init_body_param
        body-form r qs hq e fresh ct =
            rw (fresh, ct)
              (ap (λ (str : Text). parse_param isxdigit strcasecmp (λ s. s) b'&' str r.params) e
                ∙ parse_param-form isxdigit accepts strcasecmp qs r.params hq)

        chosen :
            (ps qs : List (Text × Text)) (k : Text)
            → choose strcasecmp order (find strcasecmp ps k) (find strcasecmp qs k)
              ≡ find strcasecmp (ps ++ qs) k
        unfolding find
        chosen [] qs k = refl
        chosen ((j, v) ∷ ps) qs k = elim (Bool-cases (same strcasecmp j k)) [
          | inl e ↦ rw e refl
          | inr e ↦ rw e (chosen ps qs k)
        ]

        -- Where the query and the body of a request, whose content type is that of a form, are
        -- forms with no `=` in a key, and nothing was looked up before, a look-up finds the first
        -- entry for the key, up to the case of letters, in the pairs of the query and then of the
        -- body.
        pub has_param-forms :
            (r : Request) (ps qs : List (Text × Text)) (k : Text)
            → All IsPair ps
            → All IsPair qs
            → r.query ≡ form ps
            → r.body ≡ form qs
            → r.params ≡ []
            → r.query_parsed ≡ false
            → r.body_parsed ≡ false
            → strcasestr
                (get_header isxdigit strcasecmp r (codes "content-type") [])
                (codes "application/x-www-form-urlencoded")
              ≡ true
            → (has_param isxdigit strcasecmp strcasestr r k).1 ≡ find strcasecmp (ps ++ qs) k
        unfolding has_param get_header
        has_param-forms r ps qs k hp hq eq eb none_yet fq fb ct =
            let r₁ = record r { params = insert_all strcasecmp r.params ps; query_parsed = true } in
            ap
              (λ (r' : Request).
                find strcasecmp (init_body_param isxdigit strcasecmp strcasestr r').params k)
              (query-form r ps hp eq fq)
            ∙ ap (λ (m : Map). find strcasecmp m k)
                (body-form r₁ qs hq eb fb ct
                  ∙ ap (λ (m : Map). insert_all strcasecmp (insert_all strcasecmp m ps) qs)
                      none_yet)
            ∙ find-insert_all strcasecmp order qs (insert_all strcasecmp [] ps) k
                (insert_all-Ordered strcasecmp order ps [] tt)
            ∙ ap (λ (o : Option Text). choose strcasecmp order o (find strcasecmp qs k))
                (find-insert_all strcasecmp order ps [] k tt)
            ∙ unfold find in chosen ps qs k
