-- ===== src/Http/Dumping.antt =====
-- The dump of requests and responses, and a reader of what it writes.
use fishjoy.Base.{
  ℕ, ◌/◌, ◌%◌, Bool, not, ◌&&◌, ◌||◌, List, [], ◌∷◌, ◌++◌, length, ◌==◌, if◌then◌else◌,
}
use fishjoy.Http.Maps.{Text, Map, Sign, is_null, assign}
use fishjoy.Http.Methods.{http_method_to_string, http_status_to_string}
use fishjoy.Http.{codes, is_empty, Request, Response}

abbrev pub crlf : Text
crlf = 13 ∷ 10 ∷ []

-- The decimal digits of a number, the names of the methods, and the reasons of the status codes.
module _ (decimal : ℕ → Text) (names : List Text) (reasons : List (ℕ × Text))
    (strcasecmp : Text → Text → Sign) where
  abbrev pub unless_empty : Text → Text → Text
  unless_empty str mark = if is_empty str then [] else mark

  abbrev pub version_text : ℕ → Text
  version_text version =
      codes "HTTP/" ++ (decimal (version / 16) ++ (codes "." ++ decimal (version % 16)))

  abbrev pub request_line : Request → Text
  request_line r =
      http_method_to_string names r.method
      ++ (codes " "
          ++ (r.path
              ++ (unless_empty r.query (codes "?")
                  ++ (r.query
                      ++ (unless_empty r.fragment (codes "#")
                          ++ (r.fragment ++ (codes " " ++ version_text r.version)))))))

  abbrev pub connection_text : Bool → Text
  connection_text close =
      codes "connection: " ++ (if close then codes "close" else codes "keep-alive")

  abbrev pub dump_connection : Bool → Bool → Text
  dump_connection websocket close = if websocket then [] else connection_text close ++ crlf

  abbrev pub header_text : Text × Text → Text
  header_text (key, val) = key ++ (codes ": " ++ val)

  -- The headers that are not left out.
  unfoldable pub dump_headers : (Text → Bool) → Map → Text
  dump_headers left_out [] = []
  dump_headers left_out (h ∷ hs) =
      let rest = dump_headers left_out hs in
      if left_out h.0 then rest else header_text h ++ (crlf ++ rest)

  abbrev pub is_connection : Bool → Text → Bool
  is_connection websocket key = not websocket && is_null (strcasecmp key (codes "connection"))

  abbrev pub is_length : Text → Text → Bool
  is_length body key = not (is_empty body) && is_null (strcasecmp key (codes "content-length"))

  abbrev pub length_text : Text → Text
  length_text body = codes "content-length: " ++ decimal (length body)

  abbrev pub dump_body : Text → Text
  dump_body body = if is_empty body then crlf else length_text body ++ (crlf ++ (crlf ++ body))

  unfoldable pub dump_request : Request → Text
  unfolding dump_headers http_method_to_string
  dump_request r =
      request_line r
      ++ (crlf
          ++ (dump_connection r.websocket r.close
              ++ (dump_headers (λ key. is_connection r.websocket key || is_length r.body key)
                    r.headers
                  ++ dump_body r.body)))

  abbrev pub status_line : Response → Text
  status_line r =
      version_text r.version
      ++ (codes " "
          ++ (decimal r.status
              ++ (codes " "
                  ++ (if is_empty r.reason
                      then http_status_to_string reasons r.status
                      else r.reason))))

  unfoldable pub dump_cookies : List Text → Text
  dump_cookies [] = []
  dump_cookies (c ∷ cs) = (codes "Set-Cookie: " ++ c) ++ (crlf ++ dump_cookies cs)

  unfoldable pub dump_response : Response → Text
  unfolding dump_headers dump_cookies http_status_to_string
  dump_response r =
      status_line r
      ++ (crlf
          ++ (dump_headers (is_connection r.websocket) r.headers
              ++ (dump_cookies r.cookies
                  ++ (dump_connection r.websocket r.close ++ dump_body r.body))))

-- setRedirect. FOUND is the status 302.
unfoldable pub set_redirect : (Text → Text → Sign) → Response → Text → Response
unfolding assign
set_redirect strcasecmp r uri = record r {
  status = 302;
  headers = assign strcasecmp r.headers (codes "Location") uri;
}

-- setCookie of a response. `time_text` is Time2Str with the format that the code gives it.
unfoldable pub set_cookie : (ℕ → Text) → Response → Text → Text → ℕ → Text → Text → Bool → Response
set_cookie time_text r key val expired path domain secure = record r {
  cookies =
      r.cookies
      ++ ((key
            ++ (codes "="
                ++ (val
                    ++ ((if expired == 0
                          then []
                          else codes ";expires=" ++ (time_text expired ++ codes " GMT"))
                        ++ ((if is_empty domain then [] else codes ";domain=" ++ domain)
                            ++ ((if is_empty path then [] else codes ";path=" ++ path)
                                ++ (if secure then codes ";secure" else [])))))))
          ∷ []);
}
