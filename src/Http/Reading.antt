-- ===== src/Http/Reading.antt =====
-- The messages whose fields have no carriage return in them are read back as they were dumped.
use fishjoy.Base.{
  ℕ, zero, suc, ◌/◌, ◌%◌, ◌≡◌, ◌≢◌, refl, ap, ◌∙◌, Bool, true, false, not, ◌&&◌, some, List, [],
  ◌∷◌, ◌++◌, length, ◌==◌, if◌then◌else◌, if_cases, Bool-cases, inl, inr, All, append-All, arith,
}
use fishjoy.Http.Maps.{Text, Map, Sign}
use fishjoy.Http.Methods.{http_method_to_string, http_status_to_string}
use fishjoy.Http.{codes, is_empty, Request, Response}
use fishjoy.Http.Pairs.{Free}
use fishjoy.Http.Dumping.{
  unless_empty, version_text, request_line, header_text, dump_request, status_line, dump_response,
}
use fishjoy.Http.Lines.{lines_of_request, lines_of_response, request_lines-eq, response_lines-eq}
use fishjoy.Http.Framing.{
  IsLine, read_message, read_message-render, header_lines, connection_lines, length_lines,
  request_lines, cookie_lines, response_lines, dump_request-render, dump_response-render,
}

abbrev pub IsCleanHeader : Text × Text → Type 0
IsCleanHeader h = Free 13 h.0 × Free 13 h.1

pub record IsCleanRequest (r : Request) : Type 0 where
  pub path : Free 13 r.path
  pub query : Free 13 r.query
  pub fragment : Free 13 r.fragment
  pub headers : All IsCleanHeader r.headers

pub record IsCleanResponse (r : Response) : Type 0 where
  pub reason : Free 13 r.reason
  pub headers : All IsCleanHeader r.headers
  pub cookies : All (Free 13) r.cookies

not_empty : (xs ys : Text) (c : ℕ) → is_empty (xs ++ (c ∷ ys)) ≡ false
not_empty [] ys c = refl
not_empty (x ∷ xs) ys c = refl

joined : (xs ys : Text) → Free 13 xs → Free 13 ys → Free 13 (xs ++ ys)
joined xs ys = append-All _ xs ys

either : (c : Bool) (xs ys : Text) → Free 13 xs → Free 13 ys → Free 13 (if c then xs else ys)
either c xs ys f g = if_cases (Free 13) c xs ys (λ _. f) (λ _. g)

is_free : Text → Bool
is_free [] = true
is_free (c ∷ cs) = not (c == 13) && is_free cs

-- A text that is written out has no carriage return.
literal : (xs : Text) → is_free xs ≡ true → Free 13 xs
unfolding is_free
literal [] h = tt
literal (c ∷ cs) h = elim (Bool-cases (c == 13)) [
  | inl e ↦ absurd (stops c cs e h)
  | inr e ↦ (e, literal cs (goes c cs e h))
]
  where
    stops : (c : ℕ) (cs : Text) → (c == 13) ≡ true → (not (c == 13) && is_free cs) ≢ true
    stops c cs e h = ground arith

    goes :
        (c : ℕ) (cs : Text)
        → (c == 13) ≡ false
        → (not (c == 13) && is_free cs) ≡ true
        → is_free cs ≡ true
    goes c cs e h = ground arith

module _ (decimal : ℕ → Text) (names : List Text) (reasons : List (ℕ × Text))
    (strcasecmp : Text → Text → Sign) (digits : (n : ℕ) → Free 13 (decimal n))
    (named : All (Free 13) names) (told : All (λ p. Free 13 p.1) reasons) where
  name-Free :
      (names : List Text) (i : ℕ) → All (Free 13) names → Free 13 (http_method_to_string names i)
  unfolding http_method_to_string
  name-Free [] i h = literal (codes "<unknown>") (unfold is_free in refl)
  name-Free (x ∷ xs) zero (h, hs) = h
  name-Free (x ∷ xs) (suc i) (h, hs) = name-Free xs i hs

  reason-Free :
      (reasons : List (ℕ × Text)) (s : ℕ)
      → All (λ p. Free 13 p.1) reasons
      → Free 13 (http_status_to_string reasons s)
  unfolding http_status_to_string
  reason-Free [] s h = literal (codes "<unknown>") (unfold is_free in refl)
  reason-Free ((c, msg) ∷ rest) s (h, hs) = either (s == c) msg _ h (reason-Free rest s hs)

  marked :
      (str mark : Text)
      → Free 13 mark
      → Free 13 (unless_empty decimal names reasons strcasecmp str mark)
  marked str mark h = either (is_empty str) [] mark tt h

  version-Free : (v : ℕ) → Free 13 (version_text decimal names reasons strcasecmp v)
  version-Free v = joined (codes "HTTP/") _ (literal (codes "HTTP/") (unfold is_free in refl)) (
      joined (decimal (v / 16)) _ (digits (v / 16))
        (joined (codes ".") _ (literal (codes ".") (unfold is_free in refl)) (digits (v % 16))))

  request_line-IsLine :
      (r : Request) → IsCleanRequest r → IsLine (request_line decimal names reasons strcasecmp r)
  request_line-IsLine r c = (
    joined (http_method_to_string names r.method) _ (name-Free names r.method named) (
        joined (codes " ") _ (literal (codes " ") (unfold is_free in refl)) (
          joined r.path _ c.path (
            joined _ _ (marked r.query (codes "?") (literal (codes "?") (unfold is_free in refl))) (
              joined r.query _ c.query (
                joined _ _
                  (marked r.fragment (codes "#") (literal (codes "#") (unfold is_free in refl)))
                  (joined r.fragment _ c.fragment (
                    joined (codes " ") (version_text decimal names reasons strcasecmp r.version)
                      (literal (codes " ") (unfold is_free in refl))
                      (version-Free r.version)))))))),
    not_empty (http_method_to_string names r.method) _ b' ',
  )

  status_line-IsLine :
      (r : Response) → IsCleanResponse r → IsLine (status_line decimal names reasons strcasecmp r)
  status_line-IsLine r c = (
    joined (version_text decimal names reasons strcasecmp r.version)
        (codes " "
          ++ (decimal r.status
              ++ (codes " "
                  ++ (if is_empty r.reason
                      then http_status_to_string reasons r.status
                      else r.reason))))
        (version-Free r.version)
        (joined (codes " ") _ (literal (codes " ") (unfold is_free in refl)) (
          joined (decimal r.status)
            (codes " "
              ++ (if is_empty r.reason then http_status_to_string reasons r.status else r.reason))
            (digits r.status)
            (joined (codes " ")
              (if is_empty r.reason then http_status_to_string reasons r.status else r.reason)
              (literal (codes " ") (unfold is_free in refl))
              (either (is_empty r.reason) (http_status_to_string reasons r.status) r.reason
                (reason-Free reasons r.status told) c.reason)))),
    refl,
  )

  header-IsLine :
      (h : Text × Text) → IsCleanHeader h → IsLine (header_text decimal names reasons strcasecmp h)
  header-IsLine (key, val) (f, g) = (
    joined key _ f (joined (codes ": ") val (literal (codes ": ") (unfold is_free in refl)) g),
    not_empty key _ b':',
  )

  headers-IsLine :
      (left_out : Text → Bool) (hs : Map)
      → All IsCleanHeader hs
      → All IsLine (header_lines decimal names reasons strcasecmp left_out hs)
  unfolding header_lines
  headers-IsLine left_out [] c = tt
  headers-IsLine left_out (h ∷ hs) (c, cs) =
      if_cases (All IsLine) (left_out h.0) _ _ (λ _. headers-IsLine left_out hs cs)
        (λ _. (header-IsLine h c, headers-IsLine left_out hs cs))

  cookies-IsLine :
      (cs : List Text)
      → All (Free 13) cs
      → All IsLine (cookie_lines decimal names reasons strcasecmp cs)
  unfolding cookie_lines
  cookies-IsLine [] h = tt
  cookies-IsLine (c ∷ cs) (h, hs) = (
    (
      joined (codes "Set-Cookie: ") c (literal (codes "Set-Cookie: ") (unfold is_free in refl)) h,
      refl,
    ),
    cookies-IsLine cs hs,
  )

  connection-IsLine :
      (websocket close : Bool)
      → All IsLine (connection_lines decimal names reasons strcasecmp websocket close)
  connection-IsLine true close = tt
  connection-IsLine false close = (
    (
      joined (codes "connection: ") _ (literal (codes "connection: ") (unfold is_free in refl)) (
          either close (codes "close") (codes "keep-alive")
            (literal (codes "close") (unfold is_free in refl))
            (literal (codes "keep-alive") (unfold is_free in refl))),
      refl,
    ),
    tt,
  )

  length-IsLine : (body : Text) → All IsLine (length_lines decimal names reasons strcasecmp body)
  length-IsLine [] = tt
  length-IsLine (c ∷ cs) = (
    (
      joined (codes "content-length: ") _
          (literal (codes "content-length: ") (unfold is_free in refl)) (digits (length (c ∷ cs))),
      refl,
    ),
    tt,
  )

  -- A reader that takes lines up to an empty one gets from a dumped request, in whose fields is no
  -- carriage return, the request line, the line for the connection unless it is a websocket, the
  -- headers but for that of the connection, unless it is a websocket, and that of the length, if
  -- there is a body, then the length of the body, if there is one, and behind them exactly the
  -- body.
  pub read_message-dump_request :
      (r : Request)
      → IsCleanRequest r
      → read_message (dump_request decimal names reasons strcasecmp r)
        ≡ some (lines_of_request decimal names reasons strcasecmp r, r.body)
  unfolding request_lines
  read_message-dump_request r c =
      ap read_message (dump_request-render decimal names reasons strcasecmp r)
      ∙ read_message-render (request_lines decimal names reasons strcasecmp r) r.body (
        request_line-IsLine r c,
        append-All IsLine _ _ (connection-IsLine r.websocket r.close)
            (append-All IsLine _ _ (headers-IsLine _ r.headers c.headers) (length-IsLine r.body)),
      )
      ∙ ap (λ (ls : List Text). some (ls, r.body))
          (request_lines-eq decimal names reasons strcasecmp r)

  -- A reader that takes lines up to an empty one gets from a dumped response, in whose fields is
  -- no carriage return, the status line, the headers but for that of the connection, unless it is
  -- a websocket, the cookies, the line for the connection unless it is a websocket, the length of
  -- the body, if there is one, and behind them exactly the body.
  pub read_message-dump_response :
      (r : Response)
      → IsCleanResponse r
      → read_message (dump_response decimal names reasons strcasecmp r)
        ≡ some (lines_of_response decimal names reasons strcasecmp r, r.body)
  unfolding response_lines
  read_message-dump_response r c =
      ap read_message (dump_response-render decimal names reasons strcasecmp r)
      ∙ read_message-render (response_lines decimal names reasons strcasecmp r) r.body (
        status_line-IsLine r c,
        append-All IsLine _ _ (headers-IsLine _ r.headers c.headers) (
            append-All IsLine _ _ (cookies-IsLine r.cookies c.cookies) (
              append-All IsLine _ _ (connection-IsLine r.websocket r.close)
                (length-IsLine r.body))),
      )
      ∙ ap (λ (ls : List Text). some (ls, r.body))
          (response_lines-eq decimal names reasons strcasecmp r)
