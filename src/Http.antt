-- ===== src/Http.antt =====
-- The messages of src/http/http.cpp and include/fishjoy/http/http.hpp. A text is its bytes. The table
-- of the methods, whose names the map HTTP_METHOD_MAP of the parser's header gives in the order of
-- their numbers, the reasons that belong to the status codes, strcasecmp, strcasestr, isxdigit, the
-- decimal digits of a number and the time's format are arguments. m_parserParamFlag is three Booleans.
pub mod Maps
pub mod Methods
pub mod Pairs
pub mod Params
pub mod Dumping
pub mod Framing
pub mod Lines
pub mod Reading
mod Tests
use Prim.Native.String.{String}
use Prim.Native.Char.{code}
use fishjoy.Base.{
  ℕ, zero, suc, ◌+◌, ◌/◌, ◌%◌, Bool, true, false, not, ◌&&◌, ◌||◌, Option, none, some, List, [],
  ◌∷◌, ◌++◌, ltb, ◌==◌, if◌then◌else◌, length, get_elem?,
}
use fishjoy.Url.{url_decode, trim}
use fishjoy.Http.Maps.{Text, Map, Sign, is_null, less, find, assign, insert, erase, or_else}

-- The bytes of a text that is written out.
abbrev pub codes : String → Text
codes String.[] = []
codes (String.◌∷◌ c s) = code c ∷ codes s

abbrev pub is_empty : Text → Bool
is_empty [] = true
is_empty (c ∷ cs) = false

pub record Request : Type 0 where
  pub method : ℕ
  pub version : ℕ
  pub close : Bool
  pub websocket : Bool
  pub query_parsed : Bool
  pub body_parsed : Bool
  pub cookies_parsed : Bool
  pub path : Text
  pub query : Text
  pub fragment : Text
  pub body : Text
  pub headers : Map
  pub params : Map
  pub cookies : Map

-- The constructor. GET is method 1.
abbrev pub new_request : ℕ → Bool → Request
new_request version close = record {
  method = 1;
  version = version;
  close = close;
  websocket = false;
  query_parsed = false;
  body_parsed = false;
  cookies_parsed = false;
  path = codes "/";
  query = [];
  fragment = [];
  body = [];
  headers = [];
  params = [];
  cookies = [];
}

pub record Response : Type 0 where
  pub status : ℕ
  pub version : ℕ
  pub close : Bool
  pub websocket : Bool
  pub body : Text
  pub reason : Text
  pub headers : Map
  pub cookies : List Text

abbrev pub new_response : ℕ → Bool → Response
new_response version close = record {
  status = 200;
  version = version;
  close = close;
  websocket = false;
  body = [];
  reason = [];
  headers = [];
  cookies = [];
}

abbrev pub create_response : Request → Response
create_response r = new_response r.version r.close

-- The text before the first `c`, and the text behind it.
unfoldable pub cut : ℕ → Text → Option (Text × Text)
cut c [] = none
cut c (x ∷ xs) = longer x (cut c xs) (x == c)
  where
    longer : ℕ → Option (Text × Text) → Bool → Option (Text × Text)
    longer x o true = some ([], xs)
    longer x none false = none
    longer x (some (before, after)) false = some (x ∷ before, after)

-- A pair of PARSE_PARAM: its key, its value, and what follows the separator, if there is one.
pub record Pair : Type 0 where
  pub key : Text
  pub value : Text
  pub rest : Option Text

abbrev pub value_of : Text → Text → Option (Text × Text) → Pair
value_of key text none = record { key = key; value = text; rest = none }
value_of key text (some (value, rest)) = record { key = key; value = value; rest = some rest }

abbrev pub pair_of : ℕ → Option (Text × Text) → Option Pair
pair_of flag none = none
pair_of flag (some (key, text)) = some (value_of key text (cut flag text))

unfoldable pub next_pair : ℕ → Text → Option Pair
unfolding cut
next_pair flag str = pair_of flag (cut b'=' str)

module _ (isxdigit : ℕ → Bool) (strcasecmp : Text → Text → Sign) where
  -- UrlDecode as it is called here, with `+` for a space.
  abbrev pub decode : Text → Text
  decode str = url_decode isxdigit str true

  abbrev pub put_pair : (Text → Text) → Map → Pair → Map
  put_pair trims m p = insert strcasecmp m (decode (trims p.key)) (decode p.value)

  abbrev pub after_pair : (Text → Text) → (Text → Map → Map) → Map → Option Pair → Map
  after_pair trims next m none = m
  after_pair trims next m (some p) = go_on p.rest
    where
      go_on : Option Text → Map
      go_on none = put_pair trims m p
      go_on (some rest) = next rest (put_pair trims m p)

  -- PARSE_PARAM. A round takes a `=` at least.
  unfoldable pub parse_from : (Text → Text) → ℕ → ℕ → Text → Map → Map
  unfolding next_pair
  parse_from trims flag zero str m = m
  parse_from trims flag (suc fuel) str m =
      after_pair trims (parse_from trims flag fuel) m (next_pair flag str)

  unfoldable pub parse_param : (Text → Text) → ℕ → Text → Map → Map
  unfolding parse_from
  parse_param trims flag str m = parse_from trims flag (suc (length str)) str m

  -- The header `key`, or else `def`.
  unfoldable pub get_header : Request → Text → Text → Text
  unfolding find
  get_header r key def = or_else strcasecmp (find strcasecmp r.headers key) def

  unfoldable pub set_header : Request → Text → Text → Request
  unfolding assign
  set_header r key val = record r { headers = assign strcasecmp r.headers key val }

  unfoldable pub set_param : Request → Text → Text → Request
  unfolding assign
  set_param r key val = record r { params = assign strcasecmp r.params key val }

  unfoldable pub set_cookie : Request → Text → Text → Request
  unfolding assign
  set_cookie r key val = record r { cookies = assign strcasecmp r.cookies key val }

  unfoldable pub del_header : Request → Text → Request
  unfolding erase
  del_header r key = record r { headers = erase strcasecmp r.headers key }

  unfoldable pub del_param : Request → Text → Request
  unfolding erase
  del_param r key = record r { params = erase strcasecmp r.params key }

  unfoldable pub del_cookie : Request → Text → Request
  unfolding erase
  del_cookie r key = record r { cookies = erase strcasecmp r.cookies key }

  -- hasHeader, with what it stores at `val`.
  unfoldable pub has_header : Request → Text → Option Text
  unfolding find
  has_header r key = find strcasecmp r.headers key

  unfoldable pub init_query_param : Request → Request
  unfolding parse_param
  init_query_param r =
      if r.query_parsed
      then r
      else record r { params = parse_param (λ s. s) b'&' r.query r.params; query_parsed = true }

  module _ (strcasestr : Text → Text → Bool) where
    unfoldable pub init_body_param : Request → Request
    unfolding parse_param get_header
    init_body_param r =
        if r.body_parsed
        then r
        else if not (
            strcasestr (get_header r (codes "content-type") [])
              (codes "application/x-www-form-urlencoded"))
        then record r { body_parsed = true }
        else record r { params = parse_param (λ s. s) b'&' r.body r.params; body_parsed = true }

    -- The request after the look-up, and what it gave.
    unfoldable pub has_param : Request → Text → Request × Option Text
    unfolding init_query_param init_body_param find
    has_param r key =
        let r' = init_body_param (init_query_param r) in (r', find strcasecmp r'.params key)

    unfoldable pub get_param : Request → Text → Text → Request × Text
    unfolding has_param
    get_param r key def = let (r', found) = has_param r key in (r', or_else strcasecmp found def)

  -- The delimiters of Trim where it is given none.
  abbrev pub is_blank : ℕ → Bool
  is_blank c = (c == b' ') || (c == 9) || (c == 13) || (c == 10)

  unfoldable pub init_cookies : Request → Request
  unfolding parse_param get_header trim
  init_cookies r =
      let cookie = get_header r (codes "cookie") [] in
      if r.cookies_parsed
      then r
      else if is_empty cookie
      then record r { cookies_parsed = true }
      else record r {
        cookies = parse_param (trim is_blank) b';' cookie r.cookies;
        cookies_parsed = true;
      }

  unfoldable pub has_cookie : Request → Text → Request × Option Text
  unfolding init_cookies find
  has_cookie r key = let r' = init_cookies r in (r', find strcasecmp r'.cookies key)

  unfoldable pub get_cookie : Request → Text → Text → Request × Text
  unfolding has_cookie
  get_cookie r key def = let (r', found) = has_cookie r key in (r', or_else strcasecmp found def)

  unfoldable pub init : Request → Request
  unfolding get_header
  init r =
      let conn = get_header r (codes "connection") [] in
      if is_empty conn
      then r
      else record r { close = not (is_null (strcasecmp conn (codes "keep-alive"))) }

  -- checkGetAs and getAs on a map, with `cast` for lexical_cast.
  module _ {ℓ} {T : Type ℓ} (cast : Text → Option T) where
    abbrev pub cast_or : T → Option T → Bool × T
    cast_or def none = (false, def)
    cast_or def (some x) = (true, x)

    abbrev pub cast_found : T → Option Text → Bool × T
    cast_found def none = (false, def)
    cast_found def (some text) = cast_or def (cast text)

    unfoldable pub check_get_as : Map → Text → T → Bool × T
    unfolding find
    check_get_as m key def = cast_found def (find strcasecmp m key)

    unfoldable pub get_as : Map → Text → T → T
    unfolding find
    get_as m key def = from_found (find strcasecmp m key)
      where
        from_cast : Option T → T
        from_cast none = def
        from_cast (some x) = x

        from_found : Option Text → T
        from_found none = def
        from_found (some text) = from_cast (cast text)
