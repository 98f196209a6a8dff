-- ===== src/Timer/Expiry.antt =====
-- The loop of `list_expired_cb` over the expired timers.
use fishjoy.Base.{
  ℕ, true, ◌≡◌, refl, sym, ap, ap₂, ◌∙◌, subst, ◌≢◌, ◌⊎◌, inl, inr, Option, List, [], ◌∷◌, ◌++◌,
  map, All, ◌==◌, ==_iff, if◌then◌else◌, Bool-cases, if_cases, if_elim, ℕ_discrete,
}
use fishjoy.Timer.{Timer, Heap, update, insert, renewed, fire}
use fishjoy.Timer.Order.{
  Sorted, Out, In, Sorted-Out, Sorted-frame, insert-All, insert-Sorted, insert-In_self, insert-In,
  In-insert,
}

abbrev pub Distinct : List ℕ → Type 0
Distinct [] = Unit {0}
Distinct (a ∷ ts) = Out a ts × Distinct ts

pub In-or-Out : (b : ℕ) (ts : List ℕ) → In b ts ⊎ Out b ts
In-or-Out b [] = inr tt
In-or-Out b (t ∷ ts) = elim (ℕ_discrete t b) [
  | yes e ↦ inl (inl e)
  | no n ↦ elim (In-or-Out b ts) [ inl i ↦ inl (inr i) | inr o ↦ inr (n, o) ]
]

pub In-Out : (b : ℕ) (ts : List ℕ) → In b ts → Out b ts → ⊥
In-Out b [] i o = i
In-Out b (t ∷ ts) (inl e) o = o.0 e
In-Out b (t ∷ ts) (inr i) o = In-Out b ts i o.1

append-All_left : (P : ℕ → Type 0) (xs ys : List ℕ) → All P (xs ++ ys) → All P xs × All P ys
append-All_left P [] ys l = (tt, l)
append-All_left P (x ∷ xs) ys l = let (l₁, l₂) = append-All_left P xs ys l.1 in ((l.0, l₁), l₂)

-- The parts of an ordered list have no timer in common.
pub Sorted-parts :
    (h : Heap) (E L : List ℕ) → Sorted h (E ++ L) → Distinct E × All (λ a. Out a L) E × Sorted h L
Sorted-parts h [] L s = (tt, tt, s)
Sorted-parts h (a ∷ E) L s =
    let (d, o, s') = Sorted-parts h E L s.1 in
    let (o₁, o₂) = append-All_left (λ t. t ≢ a) E L (Sorted-Out h a (E ++ L) s.0) in
    ((o₁, d), (o₂, o), s')

pub record Fired (now : ℕ) (E : List ℕ) (h : Heap) (ts : List ℕ)
    (r : Heap × List ℕ × List (Option ℕ)) : Type 0 where
  pub calls : r.2 ≡ map (λ a. (h a).cb) E
  pub ordered : Sorted r.0 r.1
  pub kept : (b : ℕ) → In b ts → In b r.1
  pub again : (b : ℕ) → In b E → (h b).recurring ≡ true → In b r.1
  pub no_more : (b : ℕ) → In b r.1 → In b ts ⊎ (In b E × ((h b).recurring ≡ true))
  pub others : (b : ℕ) → Out b E → r.0 b ≡ h b
  pub changed : (b : ℕ) → In b E → r.0 b ≡ renewed now (h b)

pub update_self : (h : Heap) (a : ℕ) (x : Timer) → update h a x a ≡ x
update_self h a x = rw ((==_iff a a).1 refl)

pub update_ne : (h : Heap) (a b : ℕ) (x : Timer) → a ≢ b → update h a x b ≡ h b
update_ne h a b x n = elim (Bool-cases (a == b)) [
  | inl e ↦ absurd (n ((==_iff a b).0 e))
  | inr e ↦ rw e
]

calls_frame :
    (h : Heap) (a : ℕ) (x : Timer) (E : List ℕ)
    → Out a E
    → map (λ b. (update h a x b).cb) E ≡ map (λ b. (h b).cb) E
calls_frame h a x [] o = refl
calls_frame h a x (b ∷ E) o =
    ap₂ ◌∷◌ (ap (λ (t : Timer). t.cb) (update_ne h a b x (λ e. o.0 (sym e))))
      (calls_frame h a x E o.1)

-- One round, which leaves the heap `h'` and the set `ts'`.
fire_step :
    (now a : ℕ) (E : List ℕ) (h : Heap) (ts ts' : List ℕ) (r : Heap × List ℕ × List (Option ℕ))
    → Out a E
    → ((b : ℕ) → In b ts → In b ts')
    → ((h a).recurring ≡ true → In a ts')
    → ((b : ℕ) → In b ts' → In b ts ⊎ ((b ≡ a) × ((h a).recurring ≡ true)))
    → Fired now E (update h a (renewed now (h a))) ts' r
    → Fired now (a ∷ E) h ts (r.0, r.1, (h a).cb ∷ r.2)
fire_step now a E h ts ts' r out keep back_in only f = record {
  calls = ap (◌∷◌ (h a).cb) (f.calls ∙ calls_frame h a x E out);
  ordered = f.ordered;
  kept = λ b i. f.kept b (keep b i);
  again = λ b i rec. elim i [
    | inl e ↦ f.kept b (
        subst (λ (k : ℕ). In k ts') e
          (back_in (subst (λ (k : ℕ). (h k).recurring ≡ true) (sym e) rec)))
    | inr there ↦ f.again b there (ap (λ (t : Timer). t.recurring) (other b there) ∙ rec)
  ];
  no_more = λ b i. elim (f.no_more b i) [
    | inl set ↦ elim (only b set) [
      | inl old ↦ inl old
      | inr p ↦ inr (inl (sym p.0), subst (λ (k : ℕ). (h k).recurring ≡ true) (sym p.0) p.1)
    ]
    | inr p ↦ inr (inr p.0, sym (ap (λ (t : Timer). t.recurring) (other b p.0)) ∙ p.1)
  ];
  others = λ b o. f.others b o.1 ∙ update_ne h a b x (λ e. o.0 e);
  changed = λ b i. elim i [
    | inl e ↦ subst (λ (k : ℕ). r.0 k ≡ renewed now (h k)) e (f.others a out ∙ update_self h a x)
    | inr there ↦ f.changed b there ∙ ap (renewed now) (other b there)
  ];
}
  where
    x : Timer
    x = renewed now (h a)

    other : (b : ℕ) → In b E → update h a x b ≡ h b
    other b i = update_ne h a b x (λ e. In-Out a E (subst (λ (k : ℕ). In k E) (sym e) i) out)

-- The callbacks of the expired timers are called in order; those that recur are set again, and the
-- others are gone.
pub fire-Fired :
    (now : ℕ) (E : List ℕ) (h : Heap) (ts : List ℕ)
    → Distinct E
    → All (λ a. Out a ts) E
    → Sorted h ts
    → Fired now E h ts (fire now E h ts)
unfolding fire
fire-Fired now [] h ts d o s = record {
  calls = refl;
  ordered = s;
  kept = λ b i. i;
  again = λ b i rec. absurd i;
  no_more = λ b i. inl i;
  others = λ b o. refl;
  changed = λ b i. absurd i;
}
fire-Fired now (a ∷ E) h ts d o s =
    fire_step now a E h ts ts' (fire now E h' ts') d.0 keep back_in only
      (fire-Fired now E h' ts' d.1 (apart E d.0 o.1) ordered)
  where
    h' : Heap
    h' = update h a (renewed now (h a))

    ts' : List ℕ
    ts' = if (h a).recurring then insert h' a ts else ts

    keep : (b : ℕ) → In b ts → In b ts'
    keep b i = if_cases (In b) (h a).recurring _ _ (λ _. insert-In h' a b ts i) (λ _. i)

    back_in : (h a).recurring ≡ true → In a ts'
    back_in rec =
        if_cases (In a) (h a).recurring _ _ (λ _. insert-In_self h' a ts)
          (λ once. cc (sym rec ∙ once))

    only : (b : ℕ) → In b ts' → In b ts ⊎ ((b ≡ a) × ((h a).recurring ≡ true))
    only b i =
        if_elim (In b) (h a).recurring (insert h' a ts) ts i
          (λ rec j. elim (In-insert h' a b ts j) [ inl e ↦ inr (e, rec) | inr old ↦ inl old ])
          (λ _ j. inl j)

    still : Sorted h' ts
    still = Sorted-frame h a (renewed now (h a)) ts o.0 s

    ordered : Sorted h' ts'
    ordered =
        if_cases (Sorted h') (h a).recurring _ _ (λ _. insert-Sorted h' a ts still) (λ _. still)

    apart_one : (b : ℕ) → b ≢ a → Out b ts → Out b ts'
    apart_one b n out =
        if_cases (Out b) (h a).recurring _ _
          (λ _. insert-All (λ t. t ≢ b) h' a ts (λ e. n (sym e)) out) (λ _. out)

    apart : (bs : List ℕ) → Out a bs → All (λ b. Out b ts) bs → All (λ b. Out b ts') bs
    apart [] n l = tt
    apart (b ∷ bs) n l = (apart_one b n.0 l.0, apart bs n.1 l.1)
