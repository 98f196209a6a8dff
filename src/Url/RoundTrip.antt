-- ===== src/Url/RoundTrip.antt =====
-- The encoder against its description, one character at a time, and the decoder behind it.
use fishjoy.Base.{
  ℕ, ◌+◌, ◌*◌, ◌/◌, ◌%◌, ◌<◌, ◌≡◌, refl, sym, ap, ◌∙◌, subst, ==_iff, Bool, true, false, not,
  Option, none, some, List, [], ◌∷◌, ◌++◌, append_assoc, append-nil, All, ◌==◌, if◌then◌else◌,
  Bool-cases, inl, inr, arith,
}
use fishjoy.Url.{
  unreserved, hexdigit, xdigit, started, append_if, encoded, encode_step, encode_from, url_encode,
  is_escape, decode_step, skip_after, decode_from, url_decode,
}
use fishjoy.Endian.{IsByte}

-- What one character becomes.
abbrev pub letter : Bool → ℕ → List ℕ
letter plus c = if not (unreserved c) then encoded plus c else c ∷ []

unfoldable pub letters : Bool → List ℕ → List ℕ
letters plus [] = []
letters plus (c ∷ cs) = letter plus c ++ letters plus cs

started-push :
    (before : List ℕ) (ss : Option (List ℕ)) (c : ℕ)
    → started (before ++ (c ∷ [])) (append_if ss c) ≡ started before ss ++ (c ∷ [])
started-push before none c = refl
started-push before (some out) c = refl

started-step :
    (plus : Bool) (before : List ℕ) (ss : Option (List ℕ)) (c : ℕ)
    → started (before ++ (c ∷ [])) (encode_step plus before ss c)
      ≡ started before ss ++ letter plus c
unfolding encode_step
started-step plus before ss c = elim (Bool-cases (unreserved c)) [
  | inl e ↦ rw e (started-push before ss c)
  | inr e ↦ rw e
]

encode_from-letters :
    (plus : Bool) (before : List ℕ) (ss : Option (List ℕ)) (cs : List ℕ)
    → encode_from plus before ss cs ≡ started before ss ++ letters plus cs
unfolding encode_from letters
encode_from-letters plus before ss [] = sym (append-nil (started before ss))
encode_from-letters plus before ss (c ∷ cs) =
    encode_from-letters plus (before ++ (c ∷ [])) (encode_step plus before ss c) cs
    ∙ ap (λ out. out ++ letters plus cs) (started-step plus before ss c)
    ∙ append_assoc (started before ss) (letter plus c) (letters plus cs)

-- `url_encode`, which copies the string only from the first character on that has to change,
-- returns the characters encoded one by one.
pub url_encode-letters : (str : List ℕ) (plus : Bool) → url_encode str plus ≡ letters plus str
unfolding url_encode
url_encode-letters str plus = encode_from-letters plus [] none str

xdigit-hexdigit : (d : ℕ) → d < 16 → xdigit (hexdigit d) ≡ d
unfolding xdigit hexdigit
xdigit-hexdigit d h = ground arith

plain : (c : ℕ) → unreserved c ≡ true → ((c == 43) ≡ false) × ((c == 37) ≡ false)
unfolding unreserved
plain c h = ground arith

module _ (isxdigit : ℕ → Bool) (accepts : (d : ℕ) → d < 16 → isxdigit (hexdigit d) ≡ true) where
  no_escape : (c : ℕ) (cs : List ℕ) → (c == 37) ≡ false → is_escape isxdigit c cs ≡ false
  no_escape c [] e = refl
  no_escape c (d ∷ []) e = refl
  no_escape c (d ∷ f ∷ cs) e = rw e

  Decodes : Bool → List ℕ → List ℕ → Type 0
  Decodes plus coded cs =
      (before : List ℕ) (ss : Option (List ℕ))
      → decode_from isxdigit plus 0 before ss coded ≡ started before ss ++ cs

  decode_plain :
      (plus : Bool) (c : ℕ) (coded cs : List ℕ)
      → unreserved c ≡ true
      → Decodes plus coded cs
      → Decodes plus (c ∷ coded) (c ∷ cs)
  unfolding Decodes decode_from decode_step skip_after
  decode_plain plus c coded cs h rest before ss =
      let (no_plus, no_percent) = plain c h in
      rw (no_plus, no_escape c coded no_percent)
        (rest (before ++ (c ∷ [])) (append_if ss c)
          ∙ ap (λ out. out ++ cs) (started-push before ss c)
          ∙ append_assoc (started before ss) (c ∷ []) cs)

  decode_space : (coded cs : List ℕ) → Decodes true coded cs → Decodes true (43 ∷ coded) (32 ∷ cs)
  unfolding Decodes decode_from decode_step skip_after
  decode_space coded cs rest before ss =
      rest (before ++ (43 ∷ [])) (some (started before ss ++ (32 ∷ [])))
      ∙ append_assoc (started before ss) (32 ∷ []) cs

  decode_percent :
      (plus : Bool) (c : ℕ) (coded cs : List ℕ)
      → c < 256
      → Decodes plus coded cs
      → Decodes plus (37 ∷ hexdigit (c / 16) ∷ hexdigit (c % 16) ∷ coded) (c ∷ cs)
  unfolding Decodes decode_from decode_step skip_after
  decode_percent plus c coded cs h rest before ss =
      rw
        (
          accepts (c / 16) (omega arith),
          accepts (c % 16) (omega arith),
          xdigit-hexdigit (c / 16) (omega arith),
          xdigit-hexdigit (c % 16) (omega arith),
        )
        (rest (before ++ (37 ∷ []) ++ (hexdigit (c / 16) ∷ []) ++ (hexdigit (c % 16) ∷ []))
            (some (started before ss ++ (((c / 16) * 16 + c % 16) % 256 ∷ [])))
          ∙ append_assoc (started before ss) (((c / 16) * 16 + c % 16) % 256 ∷ []) cs
          ∙ ap (λ (x : ℕ). started before ss ++ (x ∷ cs)) (omega arith))

  decode_encoded :
      (plus : Bool) (c : ℕ) (coded cs : List ℕ)
      → c < 256
      → Decodes plus coded cs
      → Decodes plus (encoded plus c ++ coded) (c ∷ cs)
  unfolding encoded
  decode_encoded true c coded cs h rest = elim (Bool-cases (c == 32)) [
    | inl e ↦ rw e (
        subst (λ (x : ℕ). Decodes true (43 ∷ coded) (x ∷ cs)) (sym ((==_iff c 32).0 e))
          (decode_space coded cs rest))
    | inr e ↦ rw e (decode_percent true c coded cs h rest)
  ]
  decode_encoded false c coded cs h rest = elim (Bool-cases (c == 32)) [
    | inl e ↦ rw e (decode_percent false c coded cs h rest)
    | inr e ↦ rw e (decode_percent false c coded cs h rest)
  ]

  decode-letters : (plus : Bool) (cs : List ℕ) → All IsByte cs → Decodes plus (letters plus cs) cs
  unfolding letters
  decode-letters plus [] b =
      unfold Decodes decode_from in λ before ss. sym (append-nil (started before ss))
  decode-letters plus (c ∷ cs) b = elim (Bool-cases (unreserved c)) [
    | inl e ↦ rw e (decode_plain plus c (letters plus cs) cs e (decode-letters plus cs b.1))
    | inr e ↦ rw e (decode_encoded plus c (letters plus cs) cs b.0 (decode-letters plus cs b.1))
  ]

  -- Where `isxdigit` accepts the sixteen digits that the encoder writes, `url_decode` gives back
  -- every string of bytes from what `url_encode` makes of it, with the same treatment of spaces.
  pub url_decode-url_encode :
      (str : List ℕ) (plus : Bool)
      → All IsByte str
      → url_decode isxdigit (url_encode str plus) plus ≡ str
  unfolding url_decode
  url_decode-url_encode str plus b =
      ap (decode_from isxdigit plus 0 [] none) (url_encode-letters str plus)
      ∙ unfold Decodes in decode-letters plus str b [] none
