-- ===== src/Url.antt =====
-- UrlEncode, UrlDecode and the trims of src/utils/util.cpp. A character is its byte, a number below
-- 256. `isxdigit` of the C library is an argument.
pub mod RoundTrip
pub mod Trims
mod Tests
use fishjoy.Base.{
  ℕ, zero, suc, ◌+◌, ◌-◌, ◌*◌, ◌/◌, ◌%◌, Bool, true, false, not, ◌&&◌, ◌||◌, Option, none, some,
  List, [], ◌∷◌, ◌++◌, ltb, leb, ◌==◌, if◌then◌else◌, length, take, drop, slice,
}

abbrev pub between : ℕ → ℕ → ℕ → Bool
between a b c = leb a c && leb c b

-- The table `uri_chars`, which has a 1 at `-`, `.`, the digits, `=`, the letters, `_` and `~`.
unfoldable pub unreserved : ℕ → Bool
unreserved c =
    (c == 45)
    || (c == 46)
    || between 48 57 c
    || (c == 61)
    || between 65 90 c
    || (c == 95)
    || between 97 122 c
    || (c == 126)

-- The string `hexdigits` at a place below 16.
unfoldable pub hexdigit : ℕ → ℕ
hexdigit d = if ltb d 10 then 48 + d else 55 + d

-- The table `xdigit_chars`.
unfoldable pub xdigit : ℕ → ℕ
xdigit c =
    if between 48 57 c
    then c - 48
    else if between 65 70 c
    then c - 55
    else if between 97 102 c
    then c - 87
    else 0

-- `ss` is null until a character has to change. Then it starts with the characters before.
abbrev pub started : List ℕ → Option (List ℕ) → List ℕ
started before none = before
started before (some out) = out

abbrev pub append_if : Option (List ℕ) → ℕ → Option (List ℕ)
append_if none c = none
append_if (some out) c = some (out ++ (c ∷ []))

unfoldable pub encoded : Bool → ℕ → List ℕ
unfolding hexdigit
encoded space_as_plus c =
    if (c == 32) && space_as_plus then 43 ∷ [] else 37 ∷ hexdigit (c / 16) ∷ hexdigit (c % 16) ∷ []

unfoldable pub encode_step : Bool → List ℕ → Option (List ℕ) → ℕ → Option (List ℕ)
unfolding unreserved encoded
encode_step space_as_plus before ss c =
    if not (unreserved c)
    then some (started before ss ++ encoded space_as_plus c)
    else append_if ss c

unfoldable pub encode_from : Bool → List ℕ → Option (List ℕ) → List ℕ → List ℕ
unfolding encode_step
encode_from space_as_plus before ss [] = started before ss
encode_from space_as_plus before ss (c ∷ cs) =
    encode_from space_as_plus (before ++ (c ∷ [])) (encode_step space_as_plus before ss c) cs

unfoldable pub url_encode : List ℕ → Bool → List ℕ
unfolding encode_from
url_encode str space_as_plus = encode_from space_as_plus [] none str

module _ (isxdigit : ℕ → Bool) where
  -- Whether `c`, with what follows it, is an escape of three characters.
  abbrev pub is_escape : ℕ → List ℕ → Bool
  is_escape c [] = false
  is_escape c (d ∷ []) = false
  is_escape c (d ∷ e ∷ cs) = (c == 37) && isxdigit d && isxdigit e

  -- `<< 4` and `|` on two hexadecimal digits, cut to a char.
  abbrev pub escape_value : List ℕ → ℕ
  escape_value [] = 0
  escape_value (d ∷ []) = 0
  escape_value (d ∷ e ∷ cs) = (xdigit d * 16 + xdigit e) % 256

  unfoldable pub decode_step : Bool → List ℕ → Option (List ℕ) → ℕ → List ℕ → Option (List ℕ)
  unfolding xdigit
  decode_step space_as_plus before ss c cs =
      if (c == 43) && space_as_plus
      then some (started before ss ++ (32 ∷ []))
      else if is_escape c cs
      then some (started before ss ++ (escape_value cs ∷ []))
      else append_if ss c

  -- `skip` characters are passed over, which an escape has used up.
  unfoldable pub skip_after : Bool → ℕ → List ℕ → ℕ
  skip_after space_as_plus c cs =
      if (c == 43) && space_as_plus then 0 else if is_escape c cs then 2 else 0

  unfoldable pub decode_from : Bool → ℕ → List ℕ → Option (List ℕ) → List ℕ → List ℕ
  unfolding decode_step skip_after
  decode_from space_as_plus skip before ss [] = started before ss
  decode_from space_as_plus (suc skip) before ss (c ∷ cs) =
      decode_from space_as_plus skip (before ++ (c ∷ [])) ss cs
  decode_from space_as_plus zero before ss (c ∷ cs) =
      decode_from space_as_plus (skip_after space_as_plus c cs) (before ++ (c ∷ []))
        (decode_step space_as_plus before ss c cs) cs

  unfoldable pub url_decode : List ℕ → Bool → List ℕ
  unfolding decode_from
  url_decode str space_as_plus = decode_from space_as_plus 0 [] none str

abbrev pub trim_between : List ℕ → Option ℕ → Option ℕ → List ℕ
trim_between str none last = []
trim_between str (some begin) none = []
trim_between str (some begin) (some last) = slice begin (last - begin + 1) str

abbrev pub trim_from : List ℕ → Option ℕ → List ℕ
trim_from str none = []
trim_from str (some begin) = drop begin str

-- `substr(0, end)` stops before the character at `end`.
abbrev pub trim_up_to : List ℕ → Option ℕ → List ℕ
trim_up_to str none = []
trim_up_to str (some last) = take last str

-- find_first_not_of and find_last_not_of, where `delimit` tells the characters to pass over.
module _ (delimit : ℕ → Bool) where
  pub find_first_not_of : List ℕ → Option ℕ
  find_first_not_of [] = none
  find_first_not_of (c ∷ cs) =
      let rest = find_first_not_of cs in
      if not (delimit c) then some 0 else elim rest [ none ↦ none | some i ↦ some (suc i) ]

  pub find_last_not_of : List ℕ → Option ℕ
  find_last_not_of [] = none
  find_last_not_of (c ∷ cs) =
      let rest = find_last_not_of cs in
      elim rest [ some i ↦ some (suc i) | none ↦ if not (delimit c) then some 0 else none ]

  unfoldable pub trim : List ℕ → List ℕ
  unfolding find_first_not_of find_last_not_of
  trim str = trim_between str (find_first_not_of str) (find_last_not_of str)

  unfoldable pub trim_left : List ℕ → List ℕ
  unfolding find_first_not_of
  trim_left str = trim_from str (find_first_not_of str)

  unfoldable pub trim_right : List ℕ → List ℕ
  unfolding find_last_not_of
  trim_right str = trim_up_to str (find_last_not_of str)
