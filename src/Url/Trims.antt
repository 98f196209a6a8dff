-- ===== src/Url/Trims.antt =====
-- What the trims leave of a string.
use fishjoy.Base.{
  ℕ, ◌+◌, ◌-◌, ◌≡◌, refl, sym, ap, ap₂, ◌∙◌, subst, Bool, true, false, none, some, List, [], ◌∷◌,
  ◌++◌, length, take, append_assoc, All, arith, take-append_self, drop-append_self, length-append,
}
use fishjoy.Url.{
  find_first_not_of, find_last_not_of, trim, trim_left, trim_right, trim_between, trim_from,
  trim_up_to,
}

module _ (delimit : ℕ → Bool) where
  abbrev pub Delimiters : List ℕ → Type 0
  Delimiters cs = All (λ c. delimit c ≡ true) cs

  last_none : (cs : List ℕ) → Delimiters cs → find_last_not_of delimit cs ≡ none
  unfolding find_last_not_of
  last_none [] d = refl
  last_none (c ∷ cs) d = rw (last_none cs d.1, d.0)

  last-append :
      (cs : List ℕ) (c : ℕ) (ds : List ℕ)
      → delimit c ≡ false
      → Delimiters ds
      → find_last_not_of delimit (cs ++ (c ∷ ds)) ≡ some (length cs)
  unfolding find_last_not_of
  last-append [] c ds h d = rw (last_none ds d, h)
  last-append (x ∷ cs) c ds h d = rw (last-append cs c ds h d)

  first-append :
      (as' : List ℕ) (c : ℕ) (cs : List ℕ)
      → Delimiters as'
      → delimit c ≡ false
      → find_first_not_of delimit (as' ++ (c ∷ cs)) ≡ some (length as')
  unfolding find_first_not_of
  first-append [] c cs d h = rw h
  first-append (x ∷ xs) c cs d h = rw (d.0, first-append xs c cs d.1 h)

  -- `trim_right` of a string whose last character that is no delimiter is `c` drops the delimiters
  -- behind it, and `c` with them.
  pub trim_right-drops :
      (cs : List ℕ) (c : ℕ) (ds : List ℕ)
      → delimit c ≡ false
      → Delimiters ds
      → trim_right delimit (cs ++ (c ∷ ds)) ≡ cs
  unfolding trim_right
  trim_right-drops cs c ds h d =
      ap (trim_up_to (cs ++ (c ∷ ds))) (last-append cs c ds h d) ∙ take-append_self cs (c ∷ ds)

  -- `trim_left` drops the delimiters in front, and keeps the rest of the string.
  pub trim_left-keeps :
      (front : List ℕ) (c : ℕ) (cs : List ℕ)
      → Delimiters front
      → delimit c ≡ false
      → trim_left delimit (front ++ (c ∷ cs)) ≡ c ∷ cs
  unfolding trim_left
  trim_left-keeps front c cs d h =
      ap (trim_from (front ++ (c ∷ cs))) (first-append front c cs d h)
      ∙ drop-append_self front (c ∷ cs)

  -- `trim` drops the delimiters in front and behind of a string that begins and ends with a
  -- character which is none.
  pub trim-core :
      (front core back : List ℕ) (c e : ℕ) (cs ms : List ℕ)
      → Delimiters front
      → Delimiters back
      → core ≡ c ∷ cs
      → core ≡ ms ++ (e ∷ [])
      → delimit c ≡ false
      → delimit e ≡ false
      → trim delimit (front ++ (core ++ back)) ≡ core
  unfolding trim
  trim-core front core back c e cs ms df db starts ends hc he =
      ap₂ (trim_between (front ++ (core ++ back))) first last
      ∙ ap (take (length (front ++ ms) - length front + 1)) (drop-append_self front (core ++ back))
      ∙ ap (λ (n : ℕ). take n (core ++ back))
          (omega (arith, length-append front ms, ap length ends, length-append ms (e ∷ [])))
      ∙ take-append_self core back
    where
      first : find_first_not_of delimit (front ++ (core ++ back)) ≡ some (length front)
      first =
          subst (λ k. find_first_not_of delimit (front ++ (k ++ back)) ≡ some (length front))
            (sym starts) (first-append front c (cs ++ back) df hc)

      last : find_last_not_of delimit (front ++ (core ++ back)) ≡ some (length (front ++ ms))
      last =
          ap (find_last_not_of delimit) (
            ap (λ k. front ++ (k ++ back)) ends
            ∙ ap (◌++◌ front) (append_assoc ms (e ∷ []) back)
            ∙ sym (append_assoc front ms (e ∷ back)))
          ∙ last-append (front ++ ms) e back he db
