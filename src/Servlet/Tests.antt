-- ===== src/Servlet/Tests.antt =====
-- Runs of the dispatch, and each theorem at a concrete table.
use fishjoy.Base.{ℕ, ◌≡◌, refl, Bool, true, false, [], ◌∷◌, ◌==◌, if◌then◌else◌, arith}
use fishjoy.Servlet.{
  hold, make, get, shared, not_found, Dispatch, find, first_match, get_matched_servlet, add_servlet,
  add_servlet_creator, add_glob_servlet, add_glob_servlet_creator, del_servlet, del_glob_servlet,
}
use fishjoy.Servlet.Tables.{IsValid, tables-IsValid}
use fishjoy.Servlet.Laws.{Serves, get_matched_servlet-Serves}

-- The uri 1 has the servlet 10, and the pattern 2 the class 20.
abbrev site : Dispatch
site = record {
  datas = (1, hold 10) ∷ (3, hold 30) ∷ [];
  globs = (2, make 20) ∷ (4, hold 40) ∷ [];
  default = not_found;
}

site-IsValid : IsValid site
site-IsValid = record { datas_once = (omega arith, (tt, tt)); globs_once = (omega arith, (tt, tt)) }

-- The pattern 4 matches the uri 6, and nothing else matches.
abbrev matches : ℕ → ℕ → Bool
matches pat uri = if pat == 4 then (if uri == 6 then true else false) else false

by_pattern : get_matched_servlet matches site 6 ≡ shared 40
unfolding get_matched_servlet find first_match get
by_pattern = refl

tables-IsValid_example :
    IsValid (add_servlet site 3 31)
    × IsValid (add_servlet_creator site 3 (make 5))
    × IsValid (add_glob_servlet site 3 31)
    × IsValid (add_glob_servlet_creator site 3 (make 5))
    × IsValid (del_servlet site 3)
    × IsValid (del_glob_servlet site 3)
tables-IsValid_example = tables-IsValid site 3 31 (make 5) site-IsValid

get_matched_servlet-Serves_example : Serves matches site 6 (get_matched_servlet matches site 6)
get_matched_servlet-Serves_example = get_matched_servlet-Serves matches site 6
