-- ===== src/Http/Lines.antt =====
-- The lines that the head of a message is to have, written without the functions that dump it.
use fishjoy.Base.{
  ℕ, ◌/◌, ◌%◌, ◌≡◌, refl, ap, ap₂, ◌∙◌, Bool, true, false, ◌||◌, List, [], ◌∷◌, ◌++◌, length,
  if◌then◌else◌, arith,
}
use fishjoy.Http.Maps.{Text, Map, Sign, is_null}
use fishjoy.Http.Methods.{http_method_to_string, http_status_to_string}
use fishjoy.Http.{codes, is_empty, Request, Response}
use fishjoy.Http.Dumping.{unless_empty, is_connection, is_length}
use fishjoy.Http.Framing.{
  header_lines, connection_lines, length_lines, cookie_lines, request_lines, response_lines,
}

-- A part of a target behind its mark, where it is there.
abbrev pub part : ℕ → Text → Text
part mark [] = []
part mark (c ∷ cs) = mark ∷ c ∷ cs

-- The line of the connection: none for a websocket.
abbrev pub connection_of : Bool → Bool → List Text
connection_of true close = []
connection_of false true = codes "connection: close" ∷ []
connection_of false false = codes "connection: keep-alive" ∷ []

-- The names of headers that are not listed: the connection of what is no websocket, and the length of
-- a body that is there.
abbrev pub unless_websocket : Bool → List Text
unless_websocket true = []
unless_websocket false = codes "connection" ∷ []

abbrev pub of_body : Text → List Text
of_body [] = []
of_body (c ∷ cs) = codes "content-length" ∷ []

abbrev pub among : (Text → Text → Sign) → List Text → Text → Bool
among strcasecmp [] key = false
among strcasecmp (n ∷ ns) key = is_null (strcasecmp key n) || among strcasecmp ns key

unfoldable pub listed : (Text → Text → Sign) → List Text → Map → List Text
listed strcasecmp names [] = []
listed strcasecmp names ((key, val) ∷ hs) =
    let rest = listed strcasecmp names hs in
    if among strcasecmp names key then rest else (key ++ (b':' ∷ b' ' ∷ val)) ∷ rest

abbrev pub cookies_of : List Text → List Text
cookies_of [] = []
cookies_of (c ∷ cs) = (codes "Set-Cookie: " ++ c) ∷ cookies_of cs

abbrev pub length_of : (ℕ → Text) → Text → List Text
length_of decimal [] = []
length_of decimal (c ∷ cs) = (codes "content-length: " ++ decimal (length (c ∷ cs))) ∷ []

abbrev pub version_of : (ℕ → Text) → ℕ → Text
version_of decimal v = codes "HTTP/" ++ (decimal (v / 16) ++ (b'.' ∷ decimal (v % 16)))

abbrev pub reason_of : List (ℕ × Text) → ℕ → Text → Text
reason_of reasons status [] = http_status_to_string reasons status
reason_of reasons status (c ∷ cs) = c ∷ cs

module _ (decimal : ℕ → Text) (names : List Text) (reasons : List (ℕ × Text))
    (strcasecmp : Text → Text → Sign) where
  unfoldable pub lines_of_request : Request → List Text
  unfolding listed
  lines_of_request r =
      (http_method_to_string names r.method
        ++ (b' '
            ∷ (r.path
                ++ (part b'?' r.query
                    ++ (part b'#' r.fragment ++ (b' ' ∷ version_of decimal r.version))))))
      ∷ (connection_of r.websocket r.close
          ++ (listed strcasecmp (unless_websocket r.websocket ++ of_body r.body) r.headers
              ++ length_of decimal r.body))

  unfoldable pub lines_of_response : Response → List Text
  unfolding listed
  lines_of_response r =
      (version_of decimal r.version
        ++ (b' ' ∷ (decimal r.status ++ (b' ' ∷ reason_of reasons r.status r.reason))))
      ∷ (listed strcasecmp (unless_websocket r.websocket) r.headers
          ++ (cookies_of r.cookies
              ++ (connection_of r.websocket r.close ++ length_of decimal r.body)))

  part-eq :
      (mark : ℕ) (str rest : Text)
      → unless_empty decimal names reasons strcasecmp str (mark ∷ []) ++ (str ++ rest)
        ≡ part mark str ++ rest
  part-eq mark [] rest = refl
  part-eq mark (c ∷ cs) rest = refl

  connection-eq :
      (websocket close : Bool)
      → connection_lines decimal names reasons strcasecmp websocket close
        ≡ connection_of websocket close
  connection-eq true close = refl
  connection-eq false true = refl
  connection-eq false false = refl

  length-eq :
      (body : Text) → length_lines decimal names reasons strcasecmp body ≡ length_of decimal body
  length-eq [] = refl
  length-eq (c ∷ cs) = refl

  reason-eq :
      (status : ℕ) (reason : Text)
      → (if is_empty reason then http_status_to_string reasons status else reason)
        ≡ reason_of reasons status reason
  reason-eq status [] = refl
  reason-eq status (c ∷ cs) = refl

  left_out-eq :
      (websocket : Bool) (body key : Text)
      → (is_connection decimal names reasons strcasecmp websocket key
          || is_length decimal names reasons strcasecmp body key)
        ≡ among strcasecmp (unless_websocket websocket ++ of_body body) key
  left_out-eq true [] key = refl
  left_out-eq true (c ∷ cs) key = ground arith
  left_out-eq false [] key = ground arith
  left_out-eq false (c ∷ cs) key = ground arith

  connection_only-eq :
      (websocket : Bool) (key : Text)
      → is_connection decimal names reasons strcasecmp websocket key
        ≡ among strcasecmp (unless_websocket websocket) key
  connection_only-eq true key = refl
  connection_only-eq false key = ground arith

  headers-eq :
      (left_out : Text → Bool) (left : List Text) (hs : Map)
      → ((key : Text) → left_out key ≡ among strcasecmp left key)
      → header_lines decimal names reasons strcasecmp left_out hs ≡ listed strcasecmp left hs
  unfolding header_lines listed
  headers-eq left_out left [] h = refl
  headers-eq left_out left ((key, val) ∷ hs) h = rw (h key, headers-eq left_out left hs h) refl

  cookies-eq : (cs : List Text) → cookie_lines decimal names reasons strcasecmp cs ≡ cookies_of cs
  unfolding cookie_lines
  cookies-eq [] = refl
  cookies-eq (c ∷ cs) = ap (◌∷◌ (codes "Set-Cookie: " ++ c)) (cookies-eq cs)

  pub request_lines-eq :
      (r : Request) → request_lines decimal names reasons strcasecmp r ≡ lines_of_request r
  unfolding request_lines lines_of_request
  request_lines-eq r =
      ap₂ (◌∷◌)
        (ap (λ (t : Text). http_method_to_string names r.method ++ (b' ' ∷ (r.path ++ t)))
          (part-eq b'?' r.query _
            ∙ ap (λ (t : Text). part b'?' r.query ++ t)
                (part-eq b'#' r.fragment (b' ' ∷ version_of decimal r.version))))
        (ap₂ (◌++◌) (connection-eq r.websocket r.close) (
          ap₂ (◌++◌)
            (headers-eq _ (unless_websocket r.websocket ++ of_body r.body) r.headers
              (left_out-eq r.websocket r.body))
            (length-eq r.body)))

  pub response_lines-eq :
      (r : Response) → response_lines decimal names reasons strcasecmp r ≡ lines_of_response r
  unfolding response_lines lines_of_response
  response_lines-eq r =
      ap₂ (◌∷◌)
        (ap
          (λ (t : Text). version_of decimal r.version ++ (b' ' ∷ (decimal r.status ++ (b' ' ∷ t))))
          (reason-eq r.status r.reason))
        (ap₂ (◌++◌)
          (headers-eq _ (unless_websocket r.websocket) r.headers (connection_only-eq r.websocket))
          (ap₂ (◌++◌) (cookies-eq r.cookies)
            (ap₂ (◌++◌) (connection-eq r.websocket r.close) (length-eq r.body))))
