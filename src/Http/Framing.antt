-- ===== src/Http/Framing.antt =====
-- What a reader of lines makes of a dumped message: the lines of its head, and its body.
use fishjoy.Base.{
  ℕ, zero, suc, ◌<◌, ◌≡◌, refl, sym, ap, ◌∙◌, Bool, true, false, ◌||◌, Option, none, some, List, [],
  ◌∷◌, ◌++◌, append_assoc, length, ◌==◌, if◌then◌else◌, Bool-cases, inl, inr, All, length-append,
  arith,
}
use fishjoy.Http.Maps.{Text, Map, Sign}
use fishjoy.Http.{codes, is_empty, Request, Response, cut}
use fishjoy.Http.Pairs.{Free, cut-behind}
use fishjoy.Http.Dumping.{
  crlf, request_line, connection_text, dump_connection, header_text, dump_headers, is_connection,
  is_length, length_text, dump_body, dump_request, status_line, dump_cookies, dump_response,
}

-- A line and what is behind its end, without the line feed.
abbrev pub drop_feed : Text → Option Text
drop_feed [] = none
drop_feed (c ∷ cs) = if c == 10 then some cs else none

abbrev pub line_at : Option (Text × Text) → Option (Text × Text)
line_at none = none
line_at (some (line, rest)) = fed line (drop_feed rest)
  where
    fed : Text → Option Text → Option (Text × Text)
    fed line none = none
    fed line (some after) = some (line, after)

abbrev pub and_lines :
    (Text → Option (List Text × Text)) → Option (Text × Text) → Option (List Text × Text)
and_lines next none = none
and_lines next (some ([], rest)) = some ([], rest)
and_lines next (some (c ∷ cs, rest)) = before (next rest)
  where
    before : Option (List Text × Text) → Option (List Text × Text)
    before none = none
    before (some (lines, body)) = some ((c ∷ cs) ∷ lines, body)

-- The lines up to an empty one, and what is behind it.
unfoldable pub read_lines : ℕ → Text → Option (List Text × Text)
unfolding cut
read_lines zero str = none
read_lines (suc fuel) str = and_lines (read_lines fuel) (line_at (cut 13 str))

unfoldable pub read_message : Text → Option (List Text × Text)
unfolding read_lines
read_message str = read_lines (length str) str

abbrev pub render : List Text → Text → Text
render [] rest = rest
render (l ∷ ls) rest = l ++ (crlf ++ render ls rest)

abbrev pub IsLine : Text → Type 0
IsLine l = Free 13 l × (is_empty l ≡ false)

render-append :
    (xs ys : List Text) (rest : Text) → render (xs ++ ys) rest ≡ render xs (render ys rest)
render-append [] ys rest = refl
render-append (x ∷ xs) ys rest = ap (λ r. x ++ (crlf ++ r)) (render-append xs ys rest)

read_lines-render :
    (fuel : ℕ) (ls : List Text) (body : Text)
    → All IsLine ls
    → length ls < fuel
    → read_lines fuel (render ls (crlf ++ body)) ≡ some (ls, body)
unfolding read_lines
read_lines-render zero ls body h lt = absurd (omega arith)
read_lines-render (suc fuel) [] body h lt = unfold cut in refl
read_lines-render (suc fuel) (([]) ∷ ls) body ((f, e), h) lt = cc
read_lines-render (suc fuel) ((c ∷ cs) ∷ ls) body ((f, e), h) lt =
    ap (λ o. and_lines (read_lines fuel) (line_at o))
      (cut-behind 13 (c ∷ cs) (10 ∷ render ls (crlf ++ body)) f)
    ∙ ap (λ o. and_lines (λ _. o) (some (c ∷ cs, [])))
        (read_lines-render fuel ls body h (omega arith))

length-render : (ls : List Text) (body : Text) → length ls < length (render ls (crlf ++ body))
length-render [] body = omega arith
length-render (l ∷ ls) body =
    omega (arith, length-render ls body, length-append l (crlf ++ render ls (crlf ++ body)))

pub read_message-render :
    (ls : List Text) (body : Text)
    → All IsLine ls
    → read_message (render ls (crlf ++ body)) ≡ some (ls, body)
unfolding read_message
read_message-render ls body h = read_lines-render _ ls body h (length-render ls body)

module _ (decimal : ℕ → Text) (names : List Text) (reasons : List (ℕ × Text))
    (strcasecmp : Text → Text → Sign) where
  -- The lines of the headers that are not left out.
  unfoldable pub header_lines : (Text → Bool) → Map → List Text
  header_lines left_out [] = []
  header_lines left_out (h ∷ hs) =
      let rest = header_lines left_out hs in
      if left_out h.0 then rest else header_text decimal names reasons strcasecmp h ∷ rest

  abbrev pub connection_lines : Bool → Bool → List Text
  connection_lines websocket close =
      if websocket then [] else connection_text decimal names reasons strcasecmp close ∷ []

  abbrev pub length_lines : Text → List Text
  length_lines body =
      if is_empty body then [] else length_text decimal names reasons strcasecmp body ∷ []

  unfoldable pub request_lines : Request → List Text
  unfolding header_lines
  request_lines r =
      request_line decimal names reasons strcasecmp r
      ∷ (connection_lines r.websocket r.close
          ++ (header_lines
                (λ key.
                  is_connection decimal names reasons strcasecmp r.websocket key
                  || is_length decimal names reasons strcasecmp r.body key)
                r.headers
              ++ length_lines r.body))

  render-headers :
      (left_out : Text → Bool) (hs : Map) (rest : Text)
      → dump_headers decimal names reasons strcasecmp left_out hs ++ rest
        ≡ render (header_lines left_out hs) rest
  unfolding dump_headers header_lines
  render-headers left_out [] rest = refl
  render-headers left_out (h ∷ hs) rest = elim (Bool-cases (left_out h.0)) [
    | inl e ↦ rw e (render-headers left_out hs rest)
    | inr e ↦ rw e (
        append_assoc (header_text decimal names reasons strcasecmp h)
          (crlf ++ dump_headers decimal names reasons strcasecmp left_out hs) rest
        ∙ ap (λ r. header_text decimal names reasons strcasecmp h ++ (crlf ++ r))
            (render-headers left_out hs rest))
  ]

  render-connection :
      (websocket close : Bool) (rest : Text)
      → dump_connection decimal names reasons strcasecmp websocket close ++ rest
        ≡ render (connection_lines websocket close) rest
  render-connection true close rest = refl
  render-connection false close rest =
      append_assoc (connection_text decimal names reasons strcasecmp close) crlf rest

  render-body :
      (body : Text)
      → dump_body decimal names reasons strcasecmp body ≡ render (length_lines body) (crlf ++ body)
  render-body [] = refl
  render-body (c ∷ cs) = refl

  pub dump_request-render :
      (r : Request)
      → dump_request decimal names reasons strcasecmp r ≡ render (request_lines r) (crlf ++ r.body)
  unfolding dump_request request_lines
  dump_request-render r =
      let left_out = λ (key : Text).
        is_connection decimal names reasons strcasecmp r.websocket key
        || is_length decimal names reasons strcasecmp r.body key in
      ap (λ t. request_line decimal names reasons strcasecmp r ++ (crlf ++ t))
        (render-connection r.websocket r.close _
          ∙ ap (render (connection_lines r.websocket r.close)) (
              render-headers left_out r.headers _
              ∙ ap (render (header_lines left_out r.headers)) (render-body r.body)
              ∙ sym (
                  render-append (header_lines left_out r.headers) (length_lines r.body)
                    (crlf ++ r.body)))
          ∙ sym (render-append (connection_lines r.websocket r.close) _ (crlf ++ r.body)))

  unfoldable pub cookie_lines : List Text → List Text
  cookie_lines [] = []
  cookie_lines (c ∷ cs) = (codes "Set-Cookie: " ++ c) ∷ cookie_lines cs

  unfoldable pub response_lines : Response → List Text
  unfolding header_lines cookie_lines
  response_lines r =
      status_line decimal names reasons strcasecmp r
      ∷ (header_lines (is_connection decimal names reasons strcasecmp r.websocket) r.headers
          ++ (cookie_lines r.cookies
              ++ (connection_lines r.websocket r.close ++ length_lines r.body)))

  render-cookies :
      (cs : List Text) (rest : Text)
      → dump_cookies decimal names reasons strcasecmp cs ++ rest ≡ render (cookie_lines cs) rest
  unfolding dump_cookies cookie_lines
  render-cookies [] rest = refl
  render-cookies (c ∷ cs) rest =
      append_assoc (codes "Set-Cookie: " ++ c)
        (crlf ++ dump_cookies decimal names reasons strcasecmp cs) rest
      ∙ ap (λ r. (codes "Set-Cookie: " ++ c) ++ (crlf ++ r)) (render-cookies cs rest)

  pub dump_response-render :
      (r : Response)
      → dump_response decimal names reasons strcasecmp r
        ≡ render (response_lines r) (crlf ++ r.body)
  unfolding dump_response response_lines
  dump_response-render r =
      let left_out = is_connection decimal names reasons strcasecmp r.websocket in
      ap (λ t. status_line decimal names reasons strcasecmp r ++ (crlf ++ t))
        (render-headers left_out r.headers _
          ∙ ap (render (header_lines left_out r.headers)) (
              render-cookies r.cookies _
              ∙ ap (render (cookie_lines r.cookies)) (
                  render-connection r.websocket r.close _
                  ∙ ap (render (connection_lines r.websocket r.close)) (render-body r.body)
                  ∙ sym (
                      render-append (connection_lines r.websocket r.close) (length_lines r.body)
                        (crlf ++ r.body)))
              ∙ sym (render-append (cookie_lines r.cookies) _ (crlf ++ r.body)))
          ∙ sym (render-append (header_lines left_out r.headers) _ (crlf ++ r.body)))
