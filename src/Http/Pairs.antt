-- ===== src/Http/Pairs.antt =====
-- PARSE_PARAM, behind a client that writes a form with UrlEncode.
use fishjoy.Base.{
  ℕ, zero, suc, ◌/◌, ◌%◌, ◌≤◌, ◌<◌, ◌≡◌, refl, sym, ap, ap₂, ◌∙◌, subst, Bool, true, false, not,
  Option, none, some, List, [], ◌∷◌, ◌++◌, append_assoc, length, length-append, All, append-All,
  ◌==◌, ◌&&◌, if_cases, arith,
}
use fishjoy.Endian.{IsByte}
use fishjoy.Url.{url_encode, unreserved, encoded, hexdigit}
use fishjoy.Url.RoundTrip.{letter, letters, url_encode-letters, url_decode-url_encode}
use fishjoy.Http.Maps.{Text, Map, Sign, insert, insert_all}
use fishjoy.Http.{cut, next_pair, pair_of, value_of, put_pair, after_pair, parse_from, parse_param}

-- `c` does not stand in the text.
abbrev pub Free : ℕ → Text → Type 0
Free c str = All (λ x. (x == c) ≡ false) str

pub cut-behind : (c : ℕ) (xs ys : Text) → Free c xs → cut c (xs ++ (c ∷ ys)) ≡ some (xs, ys)
unfolding cut
cut-behind c [] ys h = ground arith
cut-behind c (x ∷ xs) ys (h, hs) = rw (cut-behind c xs ys hs, h) refl

pub cut-Free : (c : ℕ) (xs : Text) → Free c xs → cut c xs ≡ none
unfolding cut
cut-Free c [] h = refl
cut-Free c (x ∷ xs) (h, hs) = rw (cut-Free c xs hs, h) refl

digit-Free : (d : ℕ) → ((hexdigit d == b'&') ≡ false) × ((hexdigit d == b'=') ≡ false)
unfolding hexdigit
digit-Free d = (ground arith, ground arith)

plain-Free_and : (c : ℕ) → not (unreserved c) ≡ false → (c == b'&') ≡ false
unfolding unreserved
plain-Free_and c h = ground arith

-- A letter that UrlEncode writes is `&` never, and `=` only for itself.
letter-Free_and : (c : ℕ) → Free b'&' (letter true c)
unfolding encoded
letter-Free_and c =
    if_cases (Free b'&') (not (unreserved c)) _ _
      (λ _.
        if_cases (Free b'&') ((c == 32) && true) _ _ (λ _. (refl, tt))
          (λ _. (refl, ((digit-Free (c / 16)).0, ((digit-Free (c % 16)).0, tt)))))
      (λ e. (plain-Free_and c e, tt))

letter-Free_equals : (c : ℕ) → (c == b'=') ≡ false → Free b'=' (letter true c)
unfolding encoded
letter-Free_equals c h =
    if_cases (Free b'=') (not (unreserved c)) _ _
      (λ _.
        if_cases (Free b'=') ((c == 32) && true) _ _ (λ _. (refl, tt))
          (λ _. (refl, ((digit-Free (c / 16)).1, ((digit-Free (c % 16)).1, tt)))))
      (λ _. (h, tt))

letters-Free_and : (str : Text) → Free b'&' (letters true str)
unfolding letters
letters-Free_and [] = tt
letters-Free_and (c ∷ cs) =
    append-All _ (letter true c) (letters true cs) (letter-Free_and c) (letters-Free_and cs)

letters-Free_equals : (str : Text) → Free b'=' str → Free b'=' (letters true str)
unfolding letters
letters-Free_equals [] h = tt
letters-Free_equals (c ∷ cs) (h, hs) =
    append-All _ (letter true c) (letters true cs) (letter-Free_equals c h)
      (letters-Free_equals cs hs)

-- A form as a client writes it.
abbrev pub one_pair : Text × Text → Text
one_pair (k, v) = url_encode k true ++ (b'=' ∷ url_encode v true)

abbrev pub form : List (Text × Text) → Text
form [] = []
form (p ∷ ps) = more p ps (form ps)
  where
    more : Text × Text → List (Text × Text) → Text → Text
    more p [] text = one_pair p
    more p (q ∷ qs) text = one_pair p ++ (b'&' ∷ text)

abbrev pub IsPair : Text × Text → Type 0
IsPair (k, v) = All IsByte k × Free b'=' k × All IsByte v

next_pair-last :
    (k v : Text)
    → Free b'=' k
    → next_pair b'&' (one_pair (k, v))
      ≡ some (record { key = url_encode k true; value = url_encode v true; rest = none })
unfolding next_pair
next_pair-last k v h =
    ap (pair_of b'&') (
      cut-behind b'=' (url_encode k true) (url_encode v true)
        (subst (Free b'=') (sym (url_encode-letters k true)) (letters-Free_equals k h)))
    ∙ ap (λ o. some (value_of (url_encode k true) (url_encode v true) o))
        (cut-Free b'&' (url_encode v true)
          (subst (Free b'&') (sym (url_encode-letters v true)) (letters-Free_and v)))

next_pair-more :
    (k v rest : Text)
    → Free b'=' k
    → next_pair b'&' (one_pair (k, v) ++ (b'&' ∷ rest))
      ≡ some (record { key = url_encode k true; value = url_encode v true; rest = some rest })
unfolding next_pair
next_pair-more k v rest h =
    ap (next_pair b'&') (append_assoc (url_encode k true) (b'=' ∷ url_encode v true) (b'&' ∷ rest))
    ∙ ap (pair_of b'&') (
        cut-behind b'=' (url_encode k true) (url_encode v true ++ (b'&' ∷ rest))
          (subst (Free b'=') (sym (url_encode-letters k true)) (letters-Free_equals k h)))
    ∙ ap (λ o. some (value_of (url_encode k true) (url_encode v true ++ (b'&' ∷ rest)) o))
        (cut-behind b'&' (url_encode v true) rest
          (subst (Free b'&') (sym (url_encode-letters v true)) (letters-Free_and v)))

length-form : (ps : List (Text × Text)) → length ps ≤ length (form ps)
length-form [] = omega arith
length-form ((k, v) ∷ []) =
    omega (arith, length-append (url_encode k true) (b'=' ∷ url_encode v true))
length-form ((k, v) ∷ q ∷ qs) =
    omega (arith, length-form (q ∷ qs), length-append (one_pair (k, v)) (b'&' ∷ form (q ∷ qs)))

module _ (isxdigit : ℕ → Bool) (accepts : (d : ℕ) → d < 16 → isxdigit (hexdigit d) ≡ true)
    (strcasecmp : Text → Text → Sign) where
  put_pair-coded :
      (m : Map) (k v : Text) (o : Option Text)
      → All IsByte k
      → All IsByte v
      → put_pair isxdigit strcasecmp
          (λ s. s)
          m
          (record { key = url_encode k true; value = url_encode v true; rest = o })
        ≡ insert strcasecmp m k v
  put_pair-coded m k v o bk bv =
      ap₂ (insert strcasecmp m) (url_decode-url_encode isxdigit accepts k true bk)
        (url_decode-url_encode isxdigit accepts v true bv)

  parse_from-form :
      (fuel : ℕ) (ps : List (Text × Text)) (m : Map)
      → All IsPair ps
      → length ps ≤ fuel
      → parse_from isxdigit strcasecmp (λ s. s) b'&' fuel (form ps) m ≡ insert_all strcasecmp m ps
  unfolding parse_from
  parse_from-form zero [] m h le = refl
  parse_from-form (suc fuel) [] m h le = unfold next_pair cut in refl
  parse_from-form zero (p ∷ ps) m h le = absurd (omega arith)
  parse_from-form (suc fuel) ((k, v) ∷ []) m ((bk, fk, bv), h) le =
      ap
        (after_pair isxdigit strcasecmp (λ s. s) (parse_from isxdigit strcasecmp (λ s. s) b'&' fuel)
          m)
        (next_pair-last k v fk)
      ∙ put_pair-coded m k v none bk bv
  parse_from-form (suc fuel) ((k, v) ∷ q ∷ qs) m ((bk, fk, bv), h) le =
      ap
        (after_pair isxdigit strcasecmp (λ s. s) (parse_from isxdigit strcasecmp (λ s. s) b'&' fuel)
          m)
        (next_pair-more k v (form (q ∷ qs)) fk)
      ∙ ap (parse_from isxdigit strcasecmp (λ s. s) b'&' fuel (form (q ∷ qs)))
          (put_pair-coded m k v (some (form (q ∷ qs))) bk bv)
      ∙ parse_from-form fuel (q ∷ qs) (insert strcasecmp m k v) h (omega arith)

  -- Where isxdigit accepts the digits that UrlEncode writes, the parser of pairs reads from a
  -- form, in which a client has written pairs of encoded bytes with no `=` in a key, exactly these
  -- pairs, and inserts them in their order.
  pub parse_param-form :
      (ps : List (Text × Text)) (m : Map)
      → All IsPair ps
      → parse_param isxdigit strcasecmp (λ s. s) b'&' (form ps) m ≡ insert_all strcasecmp m ps
  unfolding parse_param
  parse_param-form ps m h =
      parse_from-form (suc (length (form ps))) ps m h (omega (arith, length-form ps))
