-- ===== src/LogFormatter/Tests.antt =====
-- The theorems at concrete patterns.
use fishjoy.Base.{ℕ, ◌≡◌, refl, Bool, false, ◌||◌, List, [], ◌∷◌}
use fishjoy.Url.{between}
use fishjoy.Http.{codes}
use fishjoy.LogFormatter.{Item, text, spec, has_name, same_text, init}
use fishjoy.LogFormatter.Patterns.{pattern_of, merged, items_for, init-pattern_of}

abbrev letter : ℕ → Bool
letter c = between 65 90 c || between 97 122 c

abbrev items : List Item
items =
    spec (codes "d") (codes "%H:%M")
    ∷ text (codes " [")
    ∷ spec (codes "p") []
    ∷ text (codes "]")
    ∷ []

init-pattern_of_example :
    init letter (pattern_of items) ≡ (items_for letter (merged [] items), false)
unfolding has_name same_text
init-pattern_of_example =
    init-pattern_of letter items
      (
        (((refl, refl, refl), tt), (refl, (refl, (refl, (refl, (refl, tt)))))),
        ((refl, (refl, tt)), ((((refl, refl, refl), tt), tt), ((refl, tt), tt))),
      )
      (refl, (tt, (refl, (tt, tt))))
