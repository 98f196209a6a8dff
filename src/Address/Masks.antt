-- ===== src/Address/Masks.antt =====
-- The masks of networks against what they stand for.
use Prim.Native.Nat.{bit_and, bit_or}
use fishjoy.Base.{
  ℕ, zero, suc, ◌+◌, ◌-◌, ◌*◌, ◌/◌, ◌%◌, ◌^◌, ◌<◌, ◌≤◌, ◌≡◌, refl, sym, ap, ap₂, ◌∙◌, subst, Bool,
  true, false, ◌&&◌, Option, none, some, List, [], ◌∷◌, All, min, ltb, ◌==◌, if◌then◌else◌, ==_iff,
  Bool-cases, inl, inr, arith, lt→ltb,
}
use fishjoy.Endian.{IsByte}
use fishjoy.Address.{
  Reply, address, null_address, undefined, create_mask_8, change_from, all_to, broadcast_address_6,
  network_address_6, subnet_mask_6, prefix_of_6,
}

abbrev pub all_below : ℕ → (ℕ → Bool) → Bool
all_below zero test = true
all_below (suc n) test = test n && all_below n test

pub all_below-true :
    (n : ℕ) (test : ℕ → Bool) (i : ℕ) → all_below n test ≡ true → i < n → test i ≡ true
all_below-true zero test i h lt = absurd (omega arith)
all_below-true (suc n) test i h lt = elim (Bool-cases (i == n)) [
  | inl e ↦ subst (λ (k : ℕ). test k ≡ true) (sym ((==_iff i n).0 e)) (first (test n) _ h)
  | inr e ↦ all_below-true n test i (rest (test n) _ h) (ground arith)
]
  where
    first : (a b : Bool) → (a && b) ≡ true → a ≡ true
    first true b h = refl
    first false b h = cc

    rest : (a b : Bool) → (a && b) ≡ true → b ≡ true
    rest true b h = h
    rest false b h = cc

-- Of a byte the first `k` bits stay, and the others are 0 or 1.
abbrev pub keep_bits : ℕ → ℕ → ℕ
keep_bits k b = b / 2 ^ (8 - k) * 2 ^ (8 - k)

abbrev pub fill_bits : ℕ → ℕ → ℕ
fill_bits k b = keep_bits k b + (2 ^ (8 - k) - 1)

-- The first `p` bits of some bytes in the one, and the others, byte by byte.
abbrev pub on_prefix : (ℕ → ℕ → ℕ) → ℕ → List ℕ → List ℕ
on_prefix f p [] = []
on_prefix f p (b ∷ bs) = f (min 8 p) b ∷ on_prefix f (p - 8) bs

abbrev byte_test : ℕ → ℕ → Bool
byte_test k b =
    (bit_or b (create_mask_8 k) == fill_bits k b)
    && (bit_and b (create_mask_8 k) == b % 2 ^ (8 - k))

bytes_pass : all_below 8 (λ k. all_below 256 (byte_test k)) ≡ true
unfolding create_mask_8
bytes_pass = refl

bit_or-create_mask_8 : (k b : ℕ) → k < 8 → IsByte b → bit_or b (create_mask_8 k) ≡ fill_bits k b
bit_or-create_mask_8 k b hk hb = (==_iff _ _).0 (first _ _ passes)
  where
    passes : byte_test k b ≡ true
    passes =
        all_below-true 256 (byte_test k) b
          (all_below-true 8 (λ k. all_below 256 (byte_test k)) k bytes_pass hk) hb

    first : (a b : Bool) → (a && b) ≡ true → a ≡ true
    first true b h = refl
    first false b h = cc

bit_and-create_mask_8 : (k b : ℕ) → k < 8 → IsByte b → bit_and b (create_mask_8 k) ≡ b % 2 ^ (8 - k)
bit_and-create_mask_8 k b hk hb = (==_iff _ _).0 (second _ _ passes)
  where
    passes : byte_test k b ≡ true
    passes =
        all_below-true 256 (byte_test k) b
          (all_below-true 8 (λ k. all_below 256 (byte_test k)) k bytes_pass hk) hb

    second : (a b : Bool) → (a && b) ≡ true → b ≡ true
    second true b h = h
    second false b h = cc

fill_all : (p : ℕ) (bs : List ℕ) → p ≡ 0 → All IsByte bs → on_prefix fill_bits p bs ≡ all_to 255 bs
fill_all p [] z h = refl
fill_all p (b ∷ bs) z (h, hs) =
    ap₂ (◌∷◌) (ap (λ (k : ℕ). fill_bits (min 8 k) b) z ∙ omega arith)
      (fill_all (p - 8) bs (omega arith) hs)

eight : (p : ℕ) → 8 ≤ p → min 8 p ≡ 8
eight p ge = omega arith

whole : (b : ℕ) → fill_bits 8 b ≡ b
whole b = omega arith

change_from-fill :
    (p : ℕ) (bs : List ℕ)
    → All IsByte bs
    → change_from (p / 8) (λ b. bit_or b (create_mask_8 (p % 8))) 255 bs ≡ on_prefix fill_bits p bs
unfolding change_from
change_from-fill p [] h = refl
change_from-fill p (b ∷ bs) (h, hs) = elim (Bool-cases (ltb p 8)) [
  | inl lt ↦ near (p / 8) (p % 8) (ground arith) (ground arith) (ground arith)
  | inr ge ↦
      far (p / 8) (p % 8) ((p - 8) / 8) ((p - 8) % 8) (ground arith) (ground arith) (ground arith)
        (change_from-fill (p - 8) bs hs)
]
  where
    near :
        (i k : ℕ)
        → i ≡ 0
        → k ≡ p
        → p < 8
        → change_from i (λ b. bit_or b (create_mask_8 k)) 255 (b ∷ bs)
          ≡ on_prefix fill_bits p (b ∷ bs)
    near i k z e lt =
        rw (z, e)
          (ap₂ (◌∷◌) (bit_or-create_mask_8 p b lt h ∙ ap (λ (k : ℕ). fill_bits k b) (omega arith))
            (sym (fill_all (p - 8) bs (omega arith) hs)))

    far :
        (i k j l : ℕ)
        → i ≡ suc j
        → k ≡ l
        → 8 ≤ p
        → change_from j (λ b. bit_or b (create_mask_8 l)) 255 bs ≡ on_prefix fill_bits (p - 8) bs
        → change_from i (λ b. bit_or b (create_mask_8 k)) 255 (b ∷ bs)
          ≡ on_prefix fill_bits p (b ∷ bs)
    far i k j l z e ge rec =
        rw (z, e) (ap₂ (◌∷◌) (sym (ap (λ (k : ℕ). fill_bits k b) (eight p ge) ∙ whole b)) rec)

-- For a prefix below 128 bits the broadcast address of IPv6 keeps the first bits, and has ones
-- behind them.
pub broadcast_address_6-fill :
    (a : List ℕ) (p : ℕ)
    → All IsByte a
    → p < 128
    → broadcast_address_6 a p ≡ address (on_prefix fill_bits p a)
unfolding broadcast_address_6
broadcast_address_6-fill a p h lt =
    rw (lt→ltb (p / 8) 16 (omega arith)) (ap address (change_from-fill p a h))

change_from-low :
    (i k : ℕ) (a : List ℕ)
    → k < 8
    → All IsByte a
    → change_from i (λ b. bit_and b (create_mask_8 k)) 0 a
      ≡ change_from i (λ b. b % 2 ^ (8 - k)) 0 a
unfolding change_from
change_from-low i k [] lt h = refl
change_from-low zero k (b ∷ bs) lt (h, hs) =
    ap (λ (x : ℕ). x ∷ all_to 0 bs) (bit_and-create_mask_8 k b lt h)
change_from-low (suc i) k (b ∷ bs) lt (h, hs) = ap (◌∷◌ b) (change_from-low i k bs lt hs)

-- The bytes, each with its index.
abbrev pub by_index : (ℕ → ℕ → ℕ) → List ℕ → List ℕ
by_index f [] = []
by_index f (b ∷ bs) = f 0 b ∷ by_index (λ i. f (suc i)) bs

-- What is left of the byte at index `i` where the prefix has `p` bits.
abbrev pub left_of : ℕ → ℕ → ℕ → ℕ
left_of p i b = if ltb i (p / 8) then b else if i == p / 8 then b % 2 ^ (8 - p % 8) else 0

all_to-by_index : (bs : List ℕ) → all_to 0 bs ≡ by_index (λ i b. 0) bs
all_to-by_index [] = refl
all_to-by_index (b ∷ bs) = ap (λ (x : List ℕ). 0 ∷ x) (all_to-by_index bs)

by_index-ap :
    (f g : ℕ → ℕ → ℕ) (bs : List ℕ) → ((i b : ℕ) → f i b ≡ g i b) → by_index f bs ≡ by_index g bs
by_index-ap f g [] h = refl
by_index-ap f g (b ∷ bs) h =
    ap₂ (◌∷◌) (h 0 b) (by_index-ap (λ i. f (suc i)) (λ i. g (suc i)) bs (λ i. h (suc i)))

change_from-by_index :
    (k : ℕ) (f : ℕ → ℕ) (bs : List ℕ)
    → change_from k f 0 bs ≡ by_index (λ i b. if ltb i k then b else if i == k then f b else 0) bs
unfolding change_from
change_from-by_index k f [] = refl
change_from-by_index zero f (b ∷ bs) =
    ap (◌∷◌ (f b)) (all_to-by_index bs ∙ by_index-ap _ _ bs (λ i b. ground arith))
change_from-by_index (suc k) f (b ∷ bs) =
    ap₂ (◌∷◌) (ground arith)
      (change_from-by_index k f bs ∙ by_index-ap _ _ bs (λ i b. ground arith))

-- For a prefix below 128 bits networkAddress of IPv6 leaves the whole bytes of the prefix, and of
-- the byte at its end the bits of the host, not those of the network; the bytes behind are 0.
pub network_address_6-low :
    (a : List ℕ) (p : ℕ)
    → All IsByte a
    → p < 128
    → network_address_6 a p ≡ address (by_index (left_of p) a)
unfolding network_address_6
network_address_6-low a p h lt = rw (lt→ltb (p / 8) 16 (omega arith)) (
    ap address (
      change_from-low (p / 8) (p % 8) a (omega arith) h
      ∙ change_from-by_index (p / 8) (λ b. b % 2 ^ (8 - p % 8)) a))

abbrev prefix_in : Reply → Option ℕ
prefix_in (address a) = some (prefix_of_6 a)
prefix_in null_address = none
prefix_in undefined = none

abbrev is_some : ℕ → Option ℕ → Bool
is_some p none = false
is_some p (some q) = q == p

prefixes_pass : all_below 128 (λ p. is_some p (prefix_in (subnet_mask_6 p))) ≡ true
unfolding subnet_mask_6 prefix_of_6
prefixes_pass = refl

is_some-some : (p : ℕ) (o : Option ℕ) → is_some p o ≡ true → o ≡ some p
is_some-some p none e = cc
is_some-some p (some q) e = ap some ((==_iff q p).0 e)

address_of :
    (p : ℕ) (r : Reply)
    → prefix_in r ≡ some p
    → (a : List ℕ) × (r ≡ address a) × (prefix_of_6 a ≡ p)
address_of p (address a) e = (a, refl, same (prefix_of_6 a) p e)
  where
    same : (x y : ℕ) → some x ≡ some y → x ≡ y
    same x y e = cc
address_of p null_address e = cc
address_of p undefined e = cc

-- For a prefix below 128 bits the subnet mask of IPv6 is defined, and CountBytes, byte by byte,
-- gives the prefix back from it.
pub prefix_of_6-subnet_mask_6 :
    (p : ℕ) → p < 128 → (a : List ℕ) × (subnet_mask_6 p ≡ address a) × (prefix_of_6 a ≡ p)
prefix_of_6-subnet_mask_6 p lt = address_of p (subnet_mask_6 p) (
    is_some-some p (prefix_in (subnet_mask_6 p))
      (all_below-true 128 (λ p. is_some p (prefix_in (subnet_mask_6 p))) p prefixes_pass lt))
