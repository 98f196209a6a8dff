-- ===== src/LogFormatter.antt =====
-- The patterns of src/log/log.cpp: LogFormatter::init. A pattern is its bytes, and `isalpha` of the C
-- library is an argument. The index into the pattern is the text that is left.
pub mod Patterns
mod Tests
use fishjoy.Base.{
  ℕ, zero, suc, ◌+◌, Bool, true, false, not, ◌&&◌, ◌||◌, Option, none, some, List, [], ◌∷◌, ◌++◌,
  length, ◌==◌, if◌then◌else◌,
}
use fishjoy.Http.Maps.{Text}
use fishjoy.Http.{codes, is_empty}

-- An entry of `vec`: a text as it is, or the name and the format of an item.
pub data Item : Type 0 where
  text : Text → Item
  spec : Text → Text → Item

-- What the scan behind a `%` found: an item and the text that is left, or a format without an end.
pub data Scan : Type 0 where
  found : Text → Text → Text → Scan
  unended : Scan

-- The format behind a `{`, with what was read of it.
abbrev pub scan_format : Text → Text → Text → Scan
scan_format str fmt [] = unended
scan_format str fmt (c ∷ cs) =
    if c == b'}' then found str fmt cs else scan_format str (fmt ++ (c ∷ [])) cs

abbrev pub flush : Text → List Item
flush [] = []
flush (c ∷ cs) = text (c ∷ cs) ∷ []

-- The entries of `vec`, and whether m_error is set by then.
abbrev pub and_before : List Item → List Item × Bool → List Item × Bool
and_before items rest = (items ++ rest.0, rest.1)

abbrev pub fail : List Item × Bool → List Item × Bool
fail rest = (text (codes "<<pattern_error>>") ∷ rest.0, true)

abbrev pub begins_percent : Text → Bool
begins_percent [] = false
begins_percent (c ∷ cs) = c == b'%'

module _ (isalpha : ℕ → Bool) where
  -- The name behind a `%`, with what was read of it.
  unfoldable pub scan_name : Text → Text → Scan
  scan_name str [] = found str [] []
  scan_name str (c ∷ cs) =
      let rest = scan_name (str ++ (c ∷ [])) cs in
      if not (isalpha c) && not (c == b'{') && not (c == b'}')
      then found str [] (c ∷ cs)
      else if c == b'{'
      then scan_format str [] cs
      else rest

  -- An item, or the text as it is behind a `%` whose format has no end.
  abbrev pub after_scan : (Text → Text → List Item × Bool) → Text → Text → Scan → List Item × Bool
  after_scan next nstr rest (found str fmt left) =
      and_before (flush nstr ++ (spec str fmt ∷ [])) (next [] left)
  after_scan next nstr rest unended = fail (next nstr rest)

  -- The loop over the pattern. Each round moves on by one byte at least.
  unfoldable pub parse : ℕ → Text → Text → List Item × Bool
  unfolding scan_name
  parse zero nstr pattern_ = (flush nstr, false)
  parse (suc fuel) nstr [] = (flush nstr, false)
  parse (suc fuel) nstr (c ∷ cs) =
      if not (c == b'%')
      then parse fuel (nstr ++ (c ∷ [])) cs
      else if begins_percent cs
      then parse fuel (nstr ++ (b'%' ∷ [])) cs
      else after_scan (parse fuel) nstr cs (scan_name [] cs)

  unfoldable pub parse_pattern : Text → List Item × Bool
  unfolding parse
  parse_pattern pattern_ = parse (suc (length pattern_)) [] pattern_

-- An entry of m_items: a text, or an item of the class that stands in the table under a name.
pub data FormatItem : Type 0 where
  string_item : Text → FormatItem
  item_of_class : Text → Text → FormatItem

-- The names of s_format_items.
abbrev pub format_names : List Text
format_names =
    codes "m"
    ∷ codes "p"
    ∷ codes "r"
    ∷ codes "c"
    ∷ codes "t"
    ∷ codes "n"
    ∷ codes "d"
    ∷ codes "f"
    ∷ codes "l"
    ∷ codes "T"
    ∷ codes "F"
    ∷ []

unfoldable pub same_text : Text → Text → Bool
same_text [] [] = true
same_text [] (d ∷ ds) = false
same_text (c ∷ cs) [] = false
same_text (c ∷ cs) (d ∷ ds) = let rest = same_text cs ds in c == d && rest

unfoldable pub has_name : List Text → Text → Bool
unfolding same_text
has_name [] str = false
has_name (n ∷ ns) str = let rest = has_name ns str in same_text n str || rest

-- The item for an entry of `vec`, and whether it sets m_error.
unfoldable pub make_item : Item → FormatItem × Bool
unfolding has_name
make_item (text str) = (string_item str, false)
make_item (spec str fmt) =
    if has_name format_names str
    then (item_of_class str fmt, false)
    else (string_item (codes "<<error_format %" ++ (str ++ codes ">>")), true)

unfoldable pub make_items : List Item → List FormatItem × Bool
unfolding make_item
make_items [] = ([], false)
make_items (i ∷ is) =
    let rest = make_items is in ((make_item i).0 ∷ rest.0, (make_item i).1 || rest.1)

abbrev pub made : List Item × Bool → List FormatItem × Bool
made vec = ((make_items vec.0).0, vec.1 || (make_items vec.0).1)

-- m_items and m_error behind init.
unfoldable pub init : (ℕ → Bool) → Text → List FormatItem × Bool
unfolding parse_pattern make_items
init isalpha pattern_ = made (parse_pattern isalpha pattern_)
