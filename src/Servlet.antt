-- ===== src/Servlet.antt =====
-- The dispatch of requests, in src/http/servlet.cpp and include/fishjoy/http/servlet.hpp.
-- A servlet, a servlet class and a uri are numbers. `m_datas` is a list of pairs without a uri
-- twice. `fnmatch` is an argument, which tells whether a pattern matches a uri. The lock makes each
-- operation one step.
pub mod Tables
pub mod Laws
mod Tests
use fishjoy.Base.{
  ℕ, Bool, true, false, Option, none, some, List, [], ◌∷◌, ◌++◌, ◌==◌, if◌then◌else◌,
}

-- HoldServletCreator hands out its servlet, ServletCreator makes a new one of its class.
pub data Creator : Type 0 where
  hold : ℕ → Creator
  make : ℕ → Creator

pub data Servlet : Type 0 where
  shared : ℕ → Servlet
  made : ℕ → Servlet
  not_found : Servlet

unfoldable pub get : Creator → Servlet
get (hold servlet) = shared servlet
get (make class) = made class

pub record Dispatch : Type 0 where
  pub datas : List (ℕ × Creator)
  pub globs : List (ℕ × Creator)
  pub default : Servlet

abbrev pub create : Dispatch
create = record { datas = []; globs = []; default = not_found }

-- std::unordered_map's operator[] with an assignment, erase and find.
pub assign : List (ℕ × Creator) → ℕ → Creator → List (ℕ × Creator)
assign [] uri c = (uri, c) ∷ []
assign (x ∷ xs) uri c = let rest = assign xs uri c in if x.0 == uri then (uri, c) ∷ xs else x ∷ rest

-- The loops over m_globs stop at the first entry of the uri. On a map without a uri twice the same
-- walk is std::unordered_map's erase.
pub erase_first : List (ℕ × Creator) → ℕ → List (ℕ × Creator)
erase_first [] uri = []
erase_first (x ∷ xs) uri = let rest = erase_first xs uri in if x.0 == uri then xs else x ∷ rest

pub find : List (ℕ × Creator) → ℕ → Option Creator
find [] uri = none
find (x ∷ xs) uri = let rest = find xs uri in if x.0 == uri then some x.1 else rest

unfoldable pub add_servlet : Dispatch → ℕ → ℕ → Dispatch
unfolding assign
add_servlet d uri servlet = record d { datas = assign d.datas uri (hold servlet) }

unfoldable pub add_servlet_creator : Dispatch → ℕ → Creator → Dispatch
unfolding assign
add_servlet_creator d uri c = record d { datas = assign d.datas uri c }

unfoldable pub add_glob_servlet_creator : Dispatch → ℕ → Creator → Dispatch
unfolding erase_first
add_glob_servlet_creator d uri c = record d { globs = erase_first d.globs uri ++ ((uri, c) ∷ []) }

unfoldable pub add_glob_servlet : Dispatch → ℕ → ℕ → Dispatch
unfolding erase_first
add_glob_servlet d uri servlet = record d {
  globs = erase_first d.globs uri ++ ((uri, hold servlet) ∷ []);
}

unfoldable pub del_servlet : Dispatch → ℕ → Dispatch
unfolding erase_first
del_servlet d uri = record d { datas = erase_first d.datas uri }

unfoldable pub del_glob_servlet : Dispatch → ℕ → Dispatch
unfolding erase_first
del_glob_servlet d uri = record d { globs = erase_first d.globs uri }

abbrev pub got : Option Creator → Option Servlet
got none = none
got (some c) = some (get c)

unfoldable pub get_servlet : Dispatch → ℕ → Option Servlet
unfolding find get
get_servlet d uri = got (find d.datas uri)

unfoldable pub get_glob_servlet : Dispatch → ℕ → Option Servlet
unfolding find get
get_glob_servlet d uri = got (find d.globs uri)

module _ (fnmatch : ℕ → ℕ → Bool) where
  pub first_match : List (ℕ × Creator) → ℕ → Option Creator
  first_match [] uri = none
  first_match (x ∷ xs) uri =
      let rest = first_match xs uri in if fnmatch x.0 uri then some x.1 else rest

  abbrev pub matched : Option Creator → Option Creator → Servlet → Servlet
  matched (some c) g default = get c
  matched none (some c) default = get c
  matched none none default = default

  unfoldable pub get_matched_servlet : Dispatch → ℕ → Servlet
  unfolding find first_match get
  get_matched_servlet d uri = matched (find d.datas uri) (first_match d.globs uri) d.default

unfoldable pub set_default : Dispatch → Servlet → Dispatch
set_default d s = record d { default = s }
