-- ===== src/Url/Tests.antt =====
-- Runs of the codec and the trims, and each theorem at a concrete string.
use fishjoy.Base.{ℕ, ◌<◌, ◌≡◌, refl, Bool, true, false, [], ◌∷◌, ◌||◌, ◌==◌, arith}
use fishjoy.Url.{
  between, hexdigit, unreserved, xdigit, url_encode, url_decode, encode_from, encode_step, encoded,
  decode_from, decode_step, skip_after,
}
use fishjoy.Url.RoundTrip.{url_decode-url_encode}

abbrev is_hex : ℕ → Bool
is_hex c = between 48 57 c || between 65 70 c || between 97 102 c

abbrev space : ℕ → Bool
space c = c == 32

hex_accepts : (d : ℕ) → d < 16 → is_hex (hexdigit d) ≡ true
unfolding hexdigit
hex_accepts d h = ground arith

-- `a b+` as `a%20b%2B`.
encodes : url_encode (97 ∷ 32 ∷ 98 ∷ 43 ∷ []) false ≡ 97 ∷ 37 ∷ 50 ∷ 48 ∷ 98 ∷ 37 ∷ 50 ∷ 66 ∷ []
unfolding url_encode encode_from encode_step encoded unreserved hexdigit
encodes = refl

-- The sign `=` is left as it is.
equals_stays : url_encode (61 ∷ []) false ≡ 61 ∷ []
unfolding url_encode encode_from encode_step encoded unreserved hexdigit
equals_stays = refl

-- An escape at the very end is decoded too.
decodes : url_decode is_hex (37 ∷ 52 ∷ 49 ∷ []) false ≡ 65 ∷ []
unfolding url_decode decode_from decode_step skip_after xdigit
decodes = refl

url_decode-url_encode_example :
    url_decode is_hex (url_encode (97 ∷ 32 ∷ 43 ∷ 200 ∷ []) true) true ≡ 97 ∷ 32 ∷ 43 ∷ 200 ∷ []
url_decode-url_encode_example =
    url_decode-url_encode is_hex hex_accepts (97 ∷ 32 ∷ 43 ∷ 200 ∷ []) true
      (omega arith, (omega arith, (omega arith, (omega arith, tt))))
