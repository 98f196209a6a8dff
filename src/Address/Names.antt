-- ===== src/Address/Names.antt =====
-- The names in src/net/address.cpp: the host and the service that Lookup passes to getaddrinfo, and
-- the paths of UnixAddress.
use fishjoy.Base.{
  ℕ, zero, suc, ◌+◌, ◌-◌, ◌<◌, ◌≤◌, ◌≡◌, refl, sym, ap, ap₂, ◌∙◌, Bool, true, false, ◌&&◌, Option,
  none, some, [], ◌∷◌, ◌++◌, append_assoc, append-nil, length, length-append, take, slice, lay,
  replicate, take-append_self, ltb, ◌==◌, if◌then◌else◌, Result, ok, err, out_of_range, lt→ltb,
  le→ltb, arith,
}
use fishjoy.Http.Maps.{Text}
use fishjoy.Http.{is_empty, cut}
use fishjoy.Http.Pairs.{Free, cut-behind, cut-Free}

abbrev pub after_colon : Text → Option Text
after_colon [] = none
after_colon (c ∷ cs) = if c == b':' then some cs else none

abbrev pub inside : Option (Text × Text) → Text × Option Text
inside none = ([], none)
inside (some (node, after)) = (node, after_colon after)

-- `[node]` with a service behind it.
unfoldable pub bracketed : Text → Text × Option Text
unfolding cut
bracketed [] = ([], none)
bracketed (c ∷ cs) = if c == b'[' then inside (cut b']' cs) else ([], none)

abbrev pub no_more : Option (Text × Text) → Bool
no_more none = true
no_more (some p) = false

abbrev pub around : Option (Text × Text) → Text × Option Text
around none = ([], none)
around (some (before, after)) =
    if no_more (cut b':' after) then (before, some after) else ([], some (b':' ∷ after))

-- A name with a service behind the only colon. Where there are more, `service` stays at the first.
unfoldable pub by_colon : Text → Text × Option Text
unfolding cut
by_colon host = around (cut b':' host)

abbrev pub or_else : Text × Option Text → Text × Option Text → Text × Option Text
or_else first second = if is_empty first.0 then second else first

abbrev pub settle : Text → Text × Option Text → Text × Option Text
settle host found = if is_empty found.0 then (host, found.1) else found

-- The node and the service that Lookup asks for.
unfoldable pub lookup_target : Text → Text × Option Text
unfolding bracketed by_colon
lookup_target host = settle host (or_else (bracketed host) (by_colon host))

bracketed-inside :
    (node port : Text)
    → Free b']' node
    → bracketed (b'[' ∷ (node ++ (b']' ∷ b':' ∷ port))) ≡ (node, some port)
unfolding bracketed
bracketed-inside node port f = ap inside (cut-behind b']' node (b':' ∷ port) f)

bracketed-other : (c : ℕ) (cs : Text) → (c == b'[') ≡ false → bracketed (c ∷ cs) ≡ ([], none)
unfolding bracketed
bracketed-other c cs e = rw e refl

by_colon-one :
    (node port : Text)
    → Free b':' node
    → Free b':' port
    → by_colon (node ++ (b':' ∷ port)) ≡ (node, some port)
unfolding by_colon
by_colon-one node port f g =
    ap around (cut-behind b':' node port f)
    ∙ ap (λ o. if no_more o then (node, some port) else ([], some (b':' ∷ port)))
        (cut-Free b':' port g)

by_colon-two :
    (node mid rest : Text)
    → Free b':' node
    → Free b':' mid
    → by_colon (node ++ (b':' ∷ (mid ++ (b':' ∷ rest))))
      ≡ ([], some (b':' ∷ (mid ++ (b':' ∷ rest))))
unfolding by_colon
by_colon-two node mid rest f g =
    ap around (cut-behind b':' node (mid ++ (b':' ∷ rest)) f)
    ∙ ap
        (λ o.
          if no_more o
          then (node, some (mid ++ (b':' ∷ rest)))
          else ([], some (b':' ∷ (mid ++ (b':' ∷ rest)))))
        (cut-behind b':' mid rest g)

-- For a name in brackets with no `]` in it and a service behind `]:`, Lookup asks for this name
-- and this service.
pub lookup_target-bracket :
    (c : ℕ) (cs port : Text)
    → Free b']' (c ∷ cs)
    → lookup_target (b'[' ∷ ((c ∷ cs) ++ (b']' ∷ b':' ∷ port))) ≡ (c ∷ cs, some port)
unfolding lookup_target
lookup_target-bracket c cs port f =
    let host = b'[' ∷ ((c ∷ cs) ++ (b']' ∷ b':' ∷ port)) in
    ap (λ x. settle host (or_else x (by_colon host))) (bracketed-inside (c ∷ cs) port f)

-- For a name that begins with no `[`, and a service behind the only colon, Lookup asks for this
-- name and this service.
pub lookup_target-colon :
    (c : ℕ) (cs port : Text)
    → (c == b'[') ≡ false
    → Free b':' (c ∷ cs)
    → Free b':' port
    → lookup_target ((c ∷ cs) ++ (b':' ∷ port)) ≡ (c ∷ cs, some port)
unfolding lookup_target
lookup_target-colon c cs port other f g =
    let host = (c ∷ cs) ++ (b':' ∷ port) in
    ap₂ (λ x y. settle host (or_else x y)) (bracketed-other c (cs ++ (b':' ∷ port)) other)
      (by_colon-one (c ∷ cs) port f g)

-- For a host that begins with no `[` and has two colons, not one of them first, Lookup asks for
-- the whole host, but with a service that begins at the first colon.
pub lookup_target-two_colons :
    (c : ℕ) (cs mid rest : Text)
    → (c == b'[') ≡ false
    → Free b':' (c ∷ cs)
    → Free b':' mid
    → lookup_target ((c ∷ cs) ++ (b':' ∷ (mid ++ (b':' ∷ rest))))
      ≡ ((c ∷ cs) ++ (b':' ∷ (mid ++ (b':' ∷ rest))), some (b':' ∷ (mid ++ (b':' ∷ rest))))
unfolding lookup_target
lookup_target-two_colons c cs mid rest other f g =
    let host = (c ∷ cs) ++ (b':' ∷ (mid ++ (b':' ∷ rest))) in
    ap₂ (λ x y. settle host (or_else x y))
      (bracketed-other c (cs ++ (b':' ∷ (mid ++ (b':' ∷ rest)))) other)
      (by_colon-two (c ∷ cs) mid rest f g)

-- UnixAddress: the bytes of sun_path, of which there are `capacity`, and the length of the address,
-- in which they begin at `offset`.
pub record UnixAddress : Type 0 where
  pub sun_path : Text
  pub addr_len : ℕ

-- The bytes up to the first 0.
abbrev pub c_string : Text → Text
c_string [] = []
c_string (c ∷ cs) = let rest = c_string cs in if c == 0 then [] else c ∷ rest

abbrev pub is_abstract : Text → Bool
is_abstract [] = false
is_abstract (c ∷ cs) = c == 0

module _ (offset capacity : ℕ) where
  abbrev pub path_length : Text → ℕ
  path_length [] = 1
  path_length (c ∷ cs) = if c == 0 then length (c ∷ cs) else suc (length (c ∷ cs))

  -- The constructor with a path.
  unfoldable pub unix_address : Text → Result UnixAddress
  unix_address path =
      if ltb capacity (path_length path)
      then err out_of_range
      else ok (record {
        sun_path = lay (take (path_length path) (path ++ (0 ∷ []))) (replicate capacity 0);
        addr_len = path_length path + offset;
      })

  -- getPath and insert.
  unfoldable pub get_path : UnixAddress → Text
  get_path u =
      if ltb offset u.addr_len && is_abstract u.sun_path
      then b'\\' ∷ b'0' ∷ slice 1 (u.addr_len - offset - 1) u.sun_path
      else c_string u.sun_path

lay-zeros :
    (xs : Text) (n : ℕ) → length xs ≤ n → lay xs (replicate n 0) ≡ xs ++ replicate (n - length xs) 0
lay-zeros [] n le = ap (λ (k : ℕ). replicate k 0) (omega arith)
lay-zeros (x ∷ xs) zero le = absurd (omega arith)
lay-zeros (x ∷ xs) (suc n) le =
    ap (◌∷◌ x) (lay-zeros xs n (omega arith) ∙ ap (λ (k : ℕ). xs ++ replicate k 0) (omega arith))

c_string-Free : (xs ys : Text) → Free 0 xs → c_string (xs ++ (0 ∷ ys)) ≡ xs
c_string-Free [] ys h = refl
c_string-Free (x ∷ xs) ys (h, hs) = rw h (ap (◌∷◌ x) (c_string-Free xs ys hs))

-- The path as it is shown.
abbrev pub shown : Text → Text
shown [] = []
shown (c ∷ cs) = if c == 0 then b'\\' ∷ b'0' ∷ cs else c ∷ cs

module _ (offset capacity : ℕ) where
  stored :
      (path : Text) (n : ℕ) (bytes : Text)
      → path_length offset capacity path ≡ n
      → n ≤ capacity
      → take n (path ++ (0 ∷ [])) ≡ bytes
      → length bytes ≤ capacity
      → unix_address offset capacity path
        ≡ ok (record {
          sun_path = bytes ++ replicate (capacity - length bytes) 0;
          addr_len = n + offset;
        })
  unfolding unix_address
  stored path n bytes e le t fits =
      rw (e, le→ltb capacity n le)
        (ap
            (λ (b : Text).
              ok (record { sun_path = lay b (replicate capacity 0); addr_len = n + offset }))
            t
          ∙ ap (λ (b : Text). ok (record { sun_path = b; addr_len = n + offset }))
              (lay-zeros bytes capacity fits))

  take_all : (xs : Text) (n : ℕ) → length xs ≡ n → take n xs ≡ xs
  take_all xs n e =
      ap (λ (k : ℕ). take k xs) (sym e)
      ∙ ap (take (length xs)) (sym (append-nil xs))
      ∙ take-append_self xs []

  plain_path :
      (c : ℕ) (cs : Text)
      → Free 0 (c ∷ cs)
      → length (c ∷ cs) < capacity
      → (u : UnixAddress) × (unix_address offset capacity (c ∷ cs) ≡ ok u)
        × (get_path offset capacity u ≡ c ∷ cs)
  unfolding get_path
  plain_path c cs (h, hs) lt =
      let path = c ∷ cs in
      let n = suc (length path) in
      let bytes = path ++ (0 ∷ []) in
      let len = length-append path (0 ∷ []) in
      (
        record { sun_path = bytes ++ replicate (capacity - length bytes) 0; addr_len = n + offset },
        stored path n bytes (rw h refl) lt (take_all bytes n (omega (arith, len)))
            (omega (arith, len)),
        ap
              (λ (b : Bool).
                if b
                then b'\\'
                  ∷ b'0'
                  ∷ slice 1 (n + offset - offset - 1)
                      (bytes ++ replicate (capacity - length bytes) 0)
                else c_string (bytes ++ replicate (capacity - length bytes) 0))
              (ap (λ (b : Bool). ltb offset (n + offset) && b) h
                ∙ and_false (ltb offset (n + offset)))
            ∙ ap c_string (append_assoc path (0 ∷ []) (replicate (capacity - length bytes) 0))
            ∙ c_string-Free path (replicate (capacity - length bytes) 0) (h, hs),
      )
    where
      and_false : (b : Bool) → (b && false) ≡ false
      and_false true = refl
      and_false false = refl

  abstract_path :
      (cs : Text)
      → length (0 ∷ cs) ≤ capacity
      → (u : UnixAddress) × (unix_address offset capacity (0 ∷ cs) ≡ ok u)
        × (get_path offset capacity u ≡ b'\\' ∷ b'0' ∷ cs)
  unfolding get_path
  abstract_path cs le =
      let n = length (0 ∷ cs) in
      (
        record { sun_path = (0 ∷ cs) ++ replicate (capacity - n) 0; addr_len = n + offset },
        stored (0 ∷ cs) n (0 ∷ cs) refl le (take-append_self (0 ∷ cs) (0 ∷ [])) le,
        rw (lt→ltb offset (n + offset) (omega arith)) (
            ap (λ (xs : Text). b'\\' ∷ b'0' ∷ xs)
              (ap (λ (k : ℕ). take k (cs ++ replicate (capacity - n) 0)) (omega arith)
                ∙ take-append_self cs (replicate (capacity - n) 0))),
      )

  -- A path that the constructor takes.
  abbrev pub IsPath : Text → Type 0
  IsPath [] = ⊥
  IsPath (zero ∷ cs) = length (0 ∷ cs) ≤ capacity
  IsPath (suc c ∷ cs) = Free 0 (suc c ∷ cs) × (length (suc c ∷ cs) < capacity)

  -- A path that begins with 0 and is as long as sun_path at most, or has no 0 in it and is
  -- shorter, is taken by the constructor and shown by getPath, with `\\0` for a 0 at the front.
  pub unix_address-get_path :
      (path : Text)
      → IsPath path
      → (u : UnixAddress) × (unix_address offset capacity path ≡ ok u)
        × (get_path offset capacity u ≡ shown path)
  unix_address-get_path [] h = absurd h
  unix_address-get_path (zero ∷ cs) h = abstract_path cs h
  unix_address-get_path (suc c ∷ cs) (f, lt) =
      let (u, e, p) = plain_path (suc c) cs f lt in (u, e, p ∙ rw f.0 refl)
