-- ===== src/Http/Tests.antt =====
-- The comparison of texts without case, and the theorems at concrete messages.
use fishjoy.Base.{
  ℕ, zero, suc, ◌+◌, ◌<◌, ◌≡◌, refl, ◌/◌, ◌%◌, Bool, true, false, not, ◌&&◌, ◌||◌, some, List, [],
  ◌∷◌, ◌++◌, ltb, ◌==◌, if◌then◌else◌, All, append-All, arith,
}
use fishjoy.Url.{between, hexdigit}
use fishjoy.Endian.{IsByte}
use fishjoy.Http.{
  codes, Request, new_request, Response, new_response, parse_param, has_param, get_param, set_param,
}
use fishjoy.Http.Pairs.{Free, form, IsPair, parse_param-form}
use fishjoy.Http.Params.{has_param-forms, get_param-set_param}
use fishjoy.Http.Methods.{http_status_to_string}
use fishjoy.Http.Dumping.{dump_request, dump_response}
use fishjoy.Http.Framing.{read_message}
use fishjoy.Http.Lines.{listed, lines_of_request, lines_of_response}
use fishjoy.Http.Reading.{
  IsCleanRequest, IsCleanResponse, read_message-dump_request, read_message-dump_response,
}
use fishjoy.Http.Maps.{
  Text, Sign, negative, null, positive, is_negative, less, IsOrder, find, insert_all,
}

abbrev lower : ℕ → ℕ
lower c = if between 65 90 c then c + 32 else c

abbrev compare_text : Text → Text → Sign
compare_text [] [] = null
compare_text [] (y ∷ ys) = negative
compare_text (x ∷ xs) [] = positive
compare_text (x ∷ xs) (y ∷ ys) =
    let rest = compare_text xs ys in
    if ltb (lower x) (lower y) then negative else if ltb (lower y) (lower x) then positive else rest

irreflexive : (a : Text) → less compare_text a a ≡ false
irreflexive [] = refl
irreflexive (x ∷ xs) = ground (arith, irreflexive xs)

asymmetric : (a b : Text) → less compare_text a b ≡ true → less compare_text b a ≡ false
asymmetric [] [] e = refl
asymmetric [] (y ∷ ys) e = refl
asymmetric (x ∷ xs) [] e = cc
asymmetric (x ∷ xs) (y ∷ ys) e =
    step (lower x) (lower y) (compare_text xs ys) (compare_text ys xs) (asymmetric xs ys) e
  where
    step :
        (x y : ℕ) (s t : Sign)
        → (is_negative s ≡ true → is_negative t ≡ false)
        → is_negative (if ltb x y then negative else if ltb y x then positive else s) ≡ true
        → is_negative (if ltb y x then negative else if ltb x y then positive else t) ≡ false
    step x y s t h e = ground arith

splits :
    (a b c : Text)
    → less compare_text a c ≡ true
    → (less compare_text a b || less compare_text b c) ≡ true
splits [] [] c e = e
splits [] (y ∷ ys) c e = refl
splits (x ∷ xs) b [] e = cc
splits (x ∷ xs) [] (z ∷ zs) e = refl
splits (x ∷ xs) (y ∷ ys) (z ∷ zs) e =
    step (lower x) (lower y) (lower z) (compare_text xs zs) (compare_text xs ys)
      (compare_text ys zs) (splits xs ys zs) e
  where
    step :
        (x y z : ℕ) (s t u : Sign)
        → (is_negative s ≡ true → (is_negative t || is_negative u) ≡ true)
        → is_negative (if ltb x z then negative else if ltb z x then positive else s) ≡ true
        → (is_negative (if ltb x y then negative else if ltb y x then positive else t)
            || is_negative (if ltb y z then negative else if ltb z y then positive else u))
          ≡ true
    step x y z s t u h e = ground arith

order : IsOrder compare_text
order = record { irreflexive = irreflexive; asymmetric = asymmetric; splits = splits }

abbrev is_hex : ℕ → Bool
is_hex c = between 48 57 c || between 65 70 c || between 97 102 c

hex_accepts : (d : ℕ) → d < 16 → is_hex (hexdigit d) ≡ true
unfolding hexdigit
hex_accepts d h = ground arith

-- Every body counts as a form here.
abbrev contains : Text → Text → Bool
contains text part = true

abbrev in_query : List (Text × Text)
in_query = (codes "a b", codes "1&2") ∷ (codes "name", codes "x=y") ∷ []

abbrev in_body : List (Text × Text)
in_body = (codes "NAME", codes "late") ∷ (codes "last", codes "3") ∷ []

abbrev posted : Request
posted = record (new_request 17 false) { query = form in_query; body = form in_body }

small : Text → Bool
small [] = true
small (c ∷ cs) = ltb c 256 && small cs

-- Bytes, and characters that are no `=`, are found by a test.
bytes : (str : Text) → small str ≡ true → All IsByte str
unfolding small
bytes [] h = tt
bytes (c ∷ cs) h = (byte c (small cs) h, bytes cs (rest (ltb c 256) (small cs) h))
  where
    byte : (c : ℕ) (b : Bool) → (ltb c 256 && b) ≡ true → c < 256
    byte c b h = ground arith

    rest : (a b : Bool) → (a && b) ≡ true → b ≡ true
    rest true b h = h
    rest false b h = cc

lacks : ℕ → Text → Bool
lacks d [] = true
lacks d (c ∷ cs) = not (c == d) && lacks d cs

free : (d : ℕ) (str : Text) → lacks d str ≡ true → Free d str
unfolding lacks
free d [] h = tt
free d (c ∷ cs) h = (first c (lacks d cs) h, free d cs (rest (not (c == d)) (lacks d cs) h))
  where
    first : (c : ℕ) (b : Bool) → (not (c == d) && b) ≡ true → (c == d) ≡ false
    first c b h = ground arith

    rest : (a b : Bool) → (a && b) ≡ true → b ≡ true
    rest true b h = h
    rest false b h = cc

pair : (k v : Text) → small k ≡ true → lacks b'=' k ≡ true → small v ≡ true → IsPair (k, v)
pair k v a b c = (bytes k a, free b'=' k b, bytes v c)

query-IsPair : All IsPair in_query
unfolding small lacks
query-IsPair = (
  pair (codes "a b") (codes "1&2") refl refl refl,
  (pair (codes "name") (codes "x=y") refl refl refl, tt),
)

body-IsPair : All IsPair in_body
unfolding small lacks
body-IsPair = (
  pair (codes "NAME") (codes "late") refl refl refl,
  (pair (codes "last") (codes "3") refl refl refl, tt),
)

parse_param-form_example :
    parse_param is_hex compare_text (λ s. s) b'&' (form in_query) []
    ≡ insert_all compare_text [] in_query
parse_param-form_example = parse_param-form is_hex hex_accepts compare_text in_query [] query-IsPair

has_param-forms_example :
    (has_param is_hex compare_text contains posted (codes "Name")).1
    ≡ find compare_text (in_query ++ in_body) (codes "Name")
has_param-forms_example =
    has_param-forms is_hex compare_text contains order hex_accepts posted in_query in_body
      (codes "Name") query-IsPair body-IsPair refl refl refl refl refl refl

-- The query comes first, whatever the case.
name_found : find compare_text (in_query ++ in_body) (codes "Name") ≡ some (codes "x=y")
unfolding find
name_found = refl

get_param-set_param_example :
    (get_param is_hex compare_text contains
      (set_param is_hex compare_text posted (codes "name") (codes "set"))
      (codes "NAME")
      []).1
    ≡ codes "set"
get_param-set_param_example =
    get_param-set_param is_hex compare_text contains order posted (codes "name") (codes "NAME")
      (codes "set") [] tt refl

abbrev some_names : List Text
some_names = codes "DELETE" ∷ codes "GET" ∷ codes "HEAD" ∷ codes "POST" ∷ codes "PUT" ∷ []

abbrev digits_from : ℕ → ℕ → Text
digits_from zero n = []
digits_from (suc fuel) n = digits_from fuel (n / 10) ++ ((48 + n % 10) ∷ [])

abbrev four_digits : ℕ → Text
four_digits n = digits_from 4 n

digits-Free : (fuel n : ℕ) → Free 13 (digits_from fuel n)
digits-Free zero n = tt
digits-Free (suc fuel) n =
    append-All _ (digits_from fuel (n / 10)) _ (digits-Free fuel (n / 10)) (ground arith, tt)

names-Free : All (Free 13) some_names
unfolding lacks
names-Free = (
  free 13 (codes "DELETE") refl,
  (
    free 13 (codes "GET") refl,
    (free 13 (codes "HEAD") refl, (free 13 (codes "POST") refl, (free 13 (codes "PUT") refl, tt))),
  ),
)

abbrev asked : Request
asked = record (new_request 17 false) {
  path = codes "/x";
  query = codes "a=1";
  body = codes "late";
  headers = (codes "host", codes "h") ∷ [];
}

asked-IsClean : IsCleanRequest asked
unfolding lacks
asked-IsClean = record {
  path = free 13 (codes "/x") refl;
  query = free 13 (codes "a=1") refl;
  fragment = tt;
  headers = ((free 13 (codes "host") refl, free 13 (codes "h") refl), tt);
}

read_message-dump_request_example :
    read_message (dump_request four_digits some_names [] compare_text asked)
    ≡ some (lines_of_request four_digits some_names [] compare_text asked, asked.body)
read_message-dump_request_example =
    read_message-dump_request four_digits some_names [] compare_text (digits-Free 4) names-Free tt
      asked asked-IsClean

abbrev answered : Response
answered = record (new_response 17 true) {
  body = codes "hi";
  headers = (codes "content-length", codes "7") ∷ [];
  cookies = codes "a=b" ∷ [];
}

answered-IsClean : IsCleanResponse answered
unfolding lacks
answered-IsClean = record {
  reason = tt;
  headers = ((free 13 (codes "content-length") refl, free 13 (codes "7") refl), tt);
  cookies = (free 13 (codes "a=b") refl, tt);
}

read_message-dump_response_example :
    read_message (dump_response four_digits some_names [] compare_text answered)
    ≡ some (lines_of_response four_digits some_names [] compare_text answered, answered.body)
read_message-dump_response_example =
    read_message-dump_response four_digits some_names [] compare_text (digits-Free 4) names-Free tt
      answered answered-IsClean

-- The length that a handler has set goes out beside that of the body.
two_lengths :
    lines_of_response four_digits some_names [] compare_text answered
    ≡ codes "HTTP/0001.0001 0200 <unknown>"
      ∷ codes "content-length: 7"
      ∷ codes "Set-Cookie: a=b"
      ∷ codes "connection: close"
      ∷ codes "content-length: 0002"
      ∷ []
unfolding lines_of_response listed http_status_to_string
two_lengths = refl
