-- ===== src/IoManager/Valid.antt =====
-- The invariant of the I/O manager.
use fishjoy.Base.{
  ℕ, zero, suc, ◌+◌, ◌-◌, ◌/◌, ◌<◌, ◌≤◌, ◌≡◌, refl, sym, ap, ap₂, ◌∙◌, subst, Bool, some, List, [],
  ◌∷◌, ◌++◌, length, get_elem?, set, take, All, ◌==◌, if◌then◌else◌, arith, ltb, if_cases,
  append-All, take-nil, length-append, length-take, ltb→lt,
}
use fishjoy.IoManager.{
  Event, none_event, FdContext, IoManager, note, fresh_from, context_resize, make_room, create,
}
use fishjoy.IoManager.Events.{Ready, amount, no_amount}

abbrev pub events_at : List FdContext → ℕ → Event
events_at [] i = none_event
events_at (c ∷ cs) zero = c.events
events_at (c ∷ cs) (suc i) = events_at cs i

abbrev pub total : List FdContext → ℕ
total [] = 0
total (c ∷ cs) = amount c.events + total cs

-- A slot is in use exactly where its event is registered, the count is that of the registered
-- events, and the kernel was last asked for the registered events.
pub record IsValid (m : IoManager) : Type 0 where
  pub ready : All Ready m.contexts
  pub counted : m.pending ≡ total m.contexts
  pub same_interest : (fd : ℕ) → m.interest fd ≡ events_at m.contexts fd

pub get-All :
    (P : FdContext → Type 0) (cs : List FdContext) (i : ℕ) {c : FdContext}
    → All P cs
    → get_elem? cs i ≡ some c
    → P c
get-All P [] i l e = cc
get-All P (d ∷ cs) zero {c} l e = subst P same l.0
  where
    same : d ≡ c
    same = cc
get-All P (c ∷ cs) (suc i) l e = get-All P cs i l.1 e

pub set-All :
    (P : FdContext → Type 0) (cs : List FdContext) (i : ℕ) (c : FdContext)
    → All P cs
    → P c
    → All P (set cs i c)
set-All P [] i c l p = tt
set-All P (d ∷ cs) zero c l p = (p, l.1)
set-All P (d ∷ cs) (suc i) c l p = (l.0, set-All P cs i c l.1 p)

total-set :
    (cs : List FdContext) (i : ℕ) (c c' : FdContext)
    → get_elem? cs i ≡ some c
    → total (set cs i c') + amount c.events ≡ total cs + amount c'.events
total-set [] i c c' e = cc
total-set (d ∷ cs) zero c c' e = omega (arith, same e)
  where
    same : some d ≡ some c → amount d.events ≡ amount c.events
    same e = cc
total-set (d ∷ cs) (suc i) c c' e = omega (arith, total-set cs i c c' e)

suc-eq : (i j : ℕ) → (i == j) ≡ (suc i == suc j)
suc-eq i j = ground arith

pub events_at-set :
    (cs : List FdContext) (i : ℕ) (c c' : FdContext) (j : ℕ)
    → get_elem? cs i ≡ some c
    → events_at (set cs i c') j ≡ note (events_at cs) i c'.events j
events_at-set [] i c c' j e = cc
events_at-set (d ∷ cs) zero c c' zero e = refl
events_at-set (d ∷ cs) zero c c' (suc j) e = ground arith
events_at-set (d ∷ cs) (suc i) c c' zero e = ground arith
events_at-set (d ∷ cs) (suc i) c c' (suc j) e =
    events_at-set cs i c c' j e
    ∙ ap (λ (b : Bool). if b then c'.events else events_at cs j) (suc-eq i j)

pub events_at-get :
    (cs : List FdContext) (i : ℕ) (c : FdContext)
    → get_elem? cs i ≡ some c
    → events_at cs i ≡ c.events
events_at-get [] i c e = cc
events_at-get (d ∷ cs) zero c e = same e
  where
    same : some d ≡ some c → d.events ≡ c.events
    same e = cc
events_at-get (d ∷ cs) (suc i) c e = events_at-get cs i c e

-- One context changes, and the count and the kernel with it.
pub replace-IsValid :
    (m : IoManager) (fd : ℕ) (c c' : FdContext) (pending : ℕ) (events : Event)
    → IsValid m
    → get_elem? m.contexts fd ≡ some c
    → c'.events ≡ events
    → Ready c'
    → pending + amount c.events ≡ m.pending + amount events
    → IsValid (record m {
      contexts = set m.contexts fd c';
      pending = pending;
      interest = note m.interest fd events;
    })
replace-IsValid m fd c c' pending events v e same r h = record {
  ready = set-All Ready m.contexts fd c' v.ready r;
  counted = omega (arith, total-set m.contexts fd c c' e, v.counted, h, ap amount same);
  same_interest = λ j.
      ap₂ (λ (x y : Event). if fd == j then y else x) (v.same_interest j) (sym same)
      ∙ sym (events_at-set m.contexts fd c c' j e);
}

fresh-Ready : (i n : ℕ) → All Ready (fresh_from i n)
fresh-Ready i zero = tt
fresh-Ready i (suc n) = ((refl, refl), fresh-Ready (suc i) n)

total-fresh : (i n : ℕ) → total (fresh_from i n) ≡ 0
total-fresh i zero = refl
total-fresh i (suc n) = omega (arith, total-fresh (suc i) n)

events_at-fresh : (i n j : ℕ) → events_at (fresh_from i n) j ≡ none_event
events_at-fresh i zero j = refl
events_at-fresh i (suc n) zero = refl
events_at-fresh i (suc n) (suc j) = events_at-fresh (suc i) n j

total-append : (cs ds : List FdContext) → total (cs ++ ds) ≡ total cs + total ds
total-append [] ds = omega arith
total-append (c ∷ cs) ds = omega (arith, total-append cs ds)

events_at-append_none :
    (cs ds : List FdContext)
    → ((j : ℕ) → events_at ds j ≡ none_event)
    → (j : ℕ) → events_at (cs ++ ds) j ≡ events_at cs j
events_at-append_none [] ds h j = h j
events_at-append_none (c ∷ cs) ds h zero = refl
events_at-append_none (c ∷ cs) ds h (suc j) = events_at-append_none cs ds h j

take_long : (n : ℕ) (cs : List FdContext) → length cs ≤ n → take n cs ≡ cs
take_long n [] h = take-nil n
take_long zero (c ∷ cs) h = absurd (omega arith)
take_long (suc n) (c ∷ cs) h = ap (◌∷◌ c) (take_long n cs (omega arith))

-- The contexts that are there already stay, and new ones have no events.
resize-IsValid :
    (m : IoManager) (n : ℕ)
    → length m.contexts ≤ n
    → IsValid m
    → IsValid (record m { contexts = context_resize m.contexts n })
unfolding context_resize
resize-IsValid m n h v = record {
  ready =
      append-All Ready (take n m.contexts) new (subst (All Ready) (sym kept) v.ready)
        (fresh-Ready (length m.contexts) (n - length m.contexts));
  counted = omega (
    arith,
    v.counted,
    total-append (take n m.contexts) new,
    ap total kept,
    total-fresh (length m.contexts) (n - length m.contexts),
  );
  same_interest = λ j.
      v.same_interest j
      ∙ ap (λ (cs : List FdContext). events_at cs j) (sym kept)
      ∙ sym (
          events_at-append_none (take n m.contexts) new
            (events_at-fresh (length m.contexts) (n - length m.contexts)) j);
}
  where
    kept : take n m.contexts ≡ m.contexts
    kept = take_long n m.contexts h

    new : List FdContext
    new = fresh_from (length m.contexts) (n - length m.contexts)

length-fresh_from : (i n : ℕ) → length (fresh_from i n) ≡ n
length-fresh_from i zero = refl
length-fresh_from i (suc n) = ap suc (length-fresh_from (suc i) n)

length-resize : (cs : List FdContext) (n : ℕ) → length cs ≤ n → length (context_resize cs n) ≡ n
unfolding context_resize
length-resize cs n h = omega (
  arith,
  length-append (take n cs) (fresh_from (length cs) (n - length cs)),
  length-take n cs,
  length-fresh_from (length cs) (n - length cs),
)

get_inside :
    (cs : List FdContext) (i : ℕ) → i < length cs → (c : FdContext) × (get_elem? cs i ≡ some c)
get_inside [] i h = absurd (omega arith)
get_inside (c ∷ cs) zero h = (c, refl)
get_inside (c ∷ cs) (suc i) h = get_inside cs i (omega arith)

-- The vector always has room for two descriptors, so that half as much again is room for a third.
pub record Roomy (m : IoManager) (fd : ℕ) (m' : IoManager) : Type 0 where
  pub valid : IsValid m'
  pub there : (c : FdContext) × (get_elem? m'.contexts fd ≡ some c)
  pub same : (j : ℕ) → events_at m'.contexts j ≡ events_at m.contexts j
  pub long : length m.contexts ≤ length m'.contexts

pub make_room-Roomy :
    (m : IoManager) (fd : ℕ) → 1 < length m.contexts → IsValid m → Roomy m fd (make_room m fd)
make_room-Roomy m fd two v =
    if_cases (Roomy m fd) (ltb fd (length m.contexts)) _ _
      (λ short. record {
        valid = v;
        there = get_inside m.contexts fd (ltb→lt fd _ short);
        same = λ j. refl;
        long = omega arith;
      })
      (λ long.
        let le : length m.contexts ≤ fd = ground arith in
        let valid = resize-IsValid m (fd + fd / 2) (omega arith) v in
        let size = length-resize m.contexts (fd + fd / 2) (omega arith) in
        record {
          valid = valid;
          there = get_inside _ fd (omega (arith, size));
          same = λ j. sym (valid.same_interest j) ∙ v.same_interest j;
          long = omega (arith, size);
        })

pub create-IsValid : IsValid create × (length create.contexts ≡ 32)
unfolding create context_resize
create-IsValid = (
  record {
    ready = fresh-Ready 0 32;
    counted = refl;
    same_interest = λ j. sym (events_at-fresh 0 32 j);
  },
  refl,
)

-- Where nothing is counted, no descriptor has an event.
pub no_total : (cs : List FdContext) (j : ℕ) → total cs ≡ 0 → events_at cs j ≡ none_event
no_total [] j h = refl
no_total (c ∷ cs) zero h = no_amount c.events (omega arith)
no_total (c ∷ cs) (suc j) h = no_total cs j (omega arith)

pub amount-le-total :
    (cs : List FdContext) (i : ℕ) (c : FdContext)
    → get_elem? cs i ≡ some c
    → amount c.events ≤ total cs
amount-le-total [] i c e = cc
amount-le-total (d ∷ cs) zero c e = omega (arith, same e)
  where
    same : some d ≡ some c → amount d.events ≡ amount c.events
    same e = cc
amount-le-total (d ∷ cs) (suc i) c e = omega (arith, amount-le-total cs i c e)
