-- ===== src/LogFormatter/Patterns.antt =====
-- Patterns that are written from items are read back, but for the escape of `%`.
use fishjoy.Base.{
  ℕ, zero, suc, ◌<◌, ◌≡◌, refl, sym, ap, ◌∙◌, Bool, true, false, not, ◌&&◌, List, [], ◌∷◌, ◌++◌,
  append_assoc, append-nil, length, length-append, ◌==◌, if◌then◌else◌, All, append-All, ◌||◌,
  arith,
}
use fishjoy.Http.Maps.{Text}
use fishjoy.Http.Pairs.{Free}
use fishjoy.LogFormatter.{
  Item, text, spec, Scan, found, scan_format, flush, begins_percent, scan_name, parse,
  parse_pattern, FormatItem, string_item, item_of_class, format_names, has_name, make_item,
  make_items, made, init,
}

-- An item as it is written, its format in braces.
abbrev pub written : Item → Text
written (text s) = s
written (spec str fmt) = b'%' ∷ (str ++ (b'{' ∷ (fmt ++ (b'}' ∷ []))))

abbrev pub pattern_of : List Item → Text
pattern_of [] = []
pattern_of (i ∷ is) = written i ++ pattern_of is

-- The items with the texts that stand side by side in one, behind the text `nstr`.
abbrev pub merged : Text → List Item → List Item
merged nstr [] = flush nstr
merged nstr (text s ∷ is) = merged (nstr ++ s) is
merged nstr (spec str fmt ∷ is) = (flush nstr ++ (spec str fmt ∷ [])) ++ merged [] is

open_brace : (b : Bool) (x y : Scan) → (if not b && false && true then x else y) ≡ y
open_brace true x y = refl
open_brace false x y = refl

module _ (isalpha : ℕ → Bool) where
  abbrev pub IsNameChar : ℕ → Type 0
  IsNameChar c = (isalpha c ≡ true) × ((c == b'{') ≡ false) × ((c == b'%') ≡ false)

  abbrev pub IsPlain : Item → Type 0
  IsPlain (text s) = Free b'%' s
  IsPlain (spec str fmt) = All IsNameChar str × Free b'}' fmt

  scan_format-found :
      (str acc fmt rest : Text)
      → Free b'}' fmt
      → scan_format str acc (fmt ++ (b'}' ∷ rest)) ≡ found str (acc ++ fmt) rest
  scan_format-found str acc [] rest h = ap (λ (f : Text). found str f rest) (sym (append-nil acc))
  scan_format-found str acc (c ∷ cs) rest (h, hs) = rw h (
      scan_format-found str (acc ++ (c ∷ [])) cs rest hs
      ∙ ap (λ (f : Text). found str f rest) (append_assoc acc (c ∷ []) cs))

  scan_name-found :
      (acc str fmt rest : Text)
      → All IsNameChar str
      → Free b'}' fmt
      → scan_name isalpha acc (str ++ (b'{' ∷ (fmt ++ (b'}' ∷ rest)))) ≡ found (acc ++ str) fmt rest
  unfolding scan_name
  scan_name-found acc [] fmt rest h f =
      open_brace (isalpha b'{') _ _
      ∙ scan_format-found acc [] fmt rest f
      ∙ ap (λ (s : Text). found s fmt rest) (sym (append-nil acc))
  scan_name-found acc (c ∷ cs) fmt rest ((a, b, p), h) f =
      rw (a, b)
        (scan_name-found (acc ++ (c ∷ [])) cs fmt rest h f
          ∙ ap (λ (s : Text). found s fmt rest) (append_assoc acc (c ∷ []) cs))

  begins_percent-name :
      (str rest : Text) → All IsNameChar str → begins_percent (str ++ (b'{' ∷ rest)) ≡ false
  begins_percent-name [] rest h = refl
  begins_percent-name (c ∷ cs) rest ((a, b, p), h) = p

  spec-behind :
      (str fmt rest : Text)
      → (str ++ (b'{' ∷ (fmt ++ (b'}' ∷ [])))) ++ rest ≡ str ++ (b'{' ∷ (fmt ++ (b'}' ∷ rest)))
  spec-behind str fmt rest =
      append_assoc str (b'{' ∷ (fmt ++ (b'}' ∷ []))) rest
      ∙ ap (λ (t : Text). str ++ (b'{' ∷ t)) (append_assoc fmt (b'}' ∷ []) rest)

  parse-text :
      (s rest nstr : Text) (r : List Item × Bool) (fuel : ℕ)
      → Free b'%' s
      → ((k : ℕ) → length rest < k → parse isalpha k (nstr ++ s) rest ≡ r)
      → length (s ++ rest) < fuel
      → parse isalpha fuel nstr (s ++ rest) ≡ r
  unfolding parse
  parse-text [] rest nstr r fuel h next b =
      ap (λ (n : Text). parse isalpha fuel n rest) (sym (append-nil nstr)) ∙ next fuel b
  parse-text (c ∷ cs) rest nstr r zero h next b = absurd (omega arith)
  parse-text (c ∷ cs) rest nstr r (suc fuel) (p, h) next b = rw p (
      parse-text cs rest (nstr ++ (c ∷ [])) r fuel h
        (λ k d.
          ap (λ (n : Text). parse isalpha k n rest) (append_assoc nstr (c ∷ []) cs) ∙ next k d)
        (grind arith))

  parse-items :
      (items : List Item) (nstr : Text) (fuel : ℕ)
      → All IsPlain items
      → length (pattern_of items) < fuel
      → parse isalpha fuel nstr (pattern_of items) ≡ (merged nstr items, false)
  unfolding parse
  parse-items [] nstr zero h b = refl
  parse-items [] nstr (suc fuel) h b = refl
  parse-items (text s ∷ is) nstr fuel (p, h) b =
      parse-text s (pattern_of is) nstr _ fuel p (λ k d. parse-items is (nstr ++ s) k h d) b
  parse-items (spec str fmt ∷ is) nstr zero h b = absurd (omega arith)
  parse-items (spec str fmt ∷ is) nstr (suc fuel) ((n, f), h) b =
      let d : length (pattern_of is) < fuel =
        grind (arith, length-append (str ++ (b'{' ∷ (fmt ++ (b'}' ∷ [])))) (pattern_of is)) in
      rw
        (
          spec-behind str fmt (pattern_of is),
          begins_percent-name str (fmt ++ (b'}' ∷ pattern_of is)) n,
          scan_name-found [] str fmt (pattern_of is) n f,
          parse-items is [] fuel h d,
        )
        refl

  -- For items whose texts have no `%`, whose names are letters for `isalpha`, none of them `{` or
  -- `%`, and whose formats have no `}`, the pattern that is written from them, formats in braces,
  -- is read back as these items without an error; texts side by side become one.
  parse_pattern-merged :
      (items : List Item)
      → All IsPlain items
      → parse_pattern isalpha (pattern_of items) ≡ (merged [] items, false)
  unfolding parse_pattern
  parse_pattern-merged items h =
      parse-items items [] (suc (length (pattern_of items))) h (omega arith)

  -- The item of its class for a name, the text for a text.
  abbrev pub item_for : Item → FormatItem
  item_for (text str) = string_item str
  item_for (spec str fmt) = item_of_class str fmt

  abbrev pub items_for : List Item → List FormatItem
  items_for [] = []
  items_for (i ∷ is) = item_for i ∷ items_for is

  abbrev pub IsKnown : Item → Type 0
  IsKnown (text str) = Unit
  IsKnown (spec str fmt) = has_name format_names str ≡ true

  flush-IsKnown : (nstr : Text) → All IsKnown (flush nstr)
  flush-IsKnown [] = tt
  flush-IsKnown (c ∷ cs) = (tt, tt)

  merged-IsKnown :
      (nstr : Text) (items : List Item) → All IsKnown items → All IsKnown (merged nstr items)
  merged-IsKnown nstr [] h = flush-IsKnown nstr
  merged-IsKnown nstr (text s ∷ is) (k, h) = merged-IsKnown (nstr ++ s) is h
  merged-IsKnown nstr (spec str fmt ∷ is) (k, h) =
      append-All IsKnown _ _ (append-All IsKnown (flush nstr) _ (flush-IsKnown nstr) (k, tt))
        (merged-IsKnown [] is h)

  make_items-known :
      (items : List Item) → All IsKnown items → make_items items ≡ (items_for items, false)
  unfolding make_items make_item
  make_items-known [] h = refl
  make_items-known (text s ∷ is) (k, h) = rw (make_items-known is h) refl
  make_items-known (spec str fmt ∷ is) (k, h) = rw (k, make_items-known is h) refl

  -- For items whose texts have no `%`, whose names stand in the table and are letters for
  -- `isalpha`, none of them `{` or `%`, and whose formats have no `}`, init makes from the pattern
  -- that is written from them, formats in braces, the items of their classes with these formats
  -- and the texts, texts side by side as one, and sets no error.
  pub init-pattern_of :
      (items : List Item)
      → All IsPlain items
      → All IsKnown items
      → init isalpha (pattern_of items) ≡ (items_for (merged [] items), false)
  unfolding init
  init-pattern_of items p k =
      ap made (parse_pattern-merged items p)
      ∙ ap (λ (r : List FormatItem × Bool). (r.0, false || r.1))
          (make_items-known (merged [] items) (merged-IsKnown [] items k))

  -- For a `%` before such items of which the first has a name, the text of the `%` comes first,
  -- and the item follows as one: the escape takes nothing from it.
  parse_pattern-escape :
      (str fmt : Text) (items : List Item)
      → All IsPlain (spec str fmt ∷ items)
      → parse_pattern isalpha (b'%' ∷ pattern_of (spec str fmt ∷ items))
        ≡ (text (b'%' ∷ []) ∷ (spec str fmt ∷ merged [] items), false)
  unfolding parse_pattern parse
  parse_pattern-escape str fmt items h =
      parse-items (spec str fmt ∷ items) (b'%' ∷ [])
        (suc (length (pattern_of (spec str fmt ∷ items)))) h (omega arith)
