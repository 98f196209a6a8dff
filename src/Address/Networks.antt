-- ===== src/Address/Networks.antt =====
-- The networks of IPv4: the first bits of an address stay, and the others are all 0 or all 1.
use Prim.Native.Nat.{bit_and, bit_or}
use fishjoy.Base.{
  ℕ, ◌-◌, ◌^◌, ◌<◌, ◌≤◌, ◌≡◌, refl, ap, ap₂, ◌∙◌, Bool, true, false, ◌&&◌, some, List, [], ◌∷◌, All,
  min, ◌==◌, ==_iff, arith, lt→ltb, le→ltb, le→leb,
}
use fishjoy.Endian.{IsByte}
use fishjoy.Address.{
  address, create_mask_32, network_bytes, zip, masked, broadcast_address_4, network_address_4,
}
use fishjoy.Address.Masks.{all_below, all_below-true, keep_bits, fill_bits, on_prefix}

-- The bytes of a mask for `p` bits.
abbrev low : ℕ → ℕ
low k = 2 ^ (8 - k) - 1

abbrev low_bytes : ℕ → List ℕ
low_bytes p =
    low (min 8 p) ∷ low (min 8 (p - 8)) ∷ low (min 8 (p - 8 - 8)) ∷ low (min 8 (p - 8 - 8 - 8)) ∷ []

abbrev high_bytes : ℕ → List ℕ
high_bytes p =
    (255 - low (min 8 p))
    ∷ (255 - low (min 8 (p - 8)))
    ∷ (255 - low (min 8 (p - 8 - 8)))
    ∷ (255 - low (min 8 (p - 8 - 8 - 8)))
    ∷ []

abbrev alike : List ℕ → List ℕ → Bool
alike [] [] = true
alike [] (y ∷ ys) = false
alike (x ∷ xs) [] = false
alike (x ∷ xs) (y ∷ ys) = (x == y) && alike xs ys

both : (a b : Bool) → (a && b) ≡ true → (a ≡ true) × (b ≡ true)
both true b h = (refl, h)
both false b h = cc

alike-eq : (xs ys : List ℕ) → alike xs ys ≡ true → xs ≡ ys
alike-eq [] [] e = refl
alike-eq [] (y ∷ ys) e = cc
alike-eq (x ∷ xs) [] e = cc
alike-eq (x ∷ xs) (y ∷ ys) e =
    let (h, hs) = both (x == y) (alike xs ys) e in ap₂ (◌∷◌) ((==_iff x y).0 h) (alike-eq xs ys hs)

abbrev mask_test : ℕ → Bool
mask_test p =
    alike (network_bytes (2 ^ (32 - p) - 1)) (low_bytes p)
    && alike (network_bytes (2 ^ 32 - 1 - (2 ^ (32 - p) - 1))) (high_bytes p)

masks_pass : all_below 33 mask_test ≡ true
unfolding network_bytes
masks_pass = refl

abbrev byte_test : ℕ → ℕ → Bool
byte_test k b = (bit_or b (low k) == fill_bits k b) && (bit_and b (255 - low k) == keep_bits k b)

bytes_pass : all_below 9 (λ k. all_below 256 (byte_test k)) ≡ true
bytes_pass = refl

byte_masked :
    (k b : ℕ)
    → k < 9
    → IsByte b
    → (bit_or b (low k) ≡ fill_bits k b) × (bit_and b (255 - low k) ≡ keep_bits k b)
byte_masked k b hk hb =
    let (h, hs) = both _ _ (
      all_below-true 256 (byte_test k) b
        (all_below-true 9 (λ k. all_below 256 (byte_test k)) k bytes_pass hk) hb) in
    ((==_iff _ _).0 h, (==_iff _ _).0 hs)

network_masks :
    (p : ℕ)
    → p ≤ 32
    → (network_bytes (2 ^ (32 - p) - 1) ≡ low_bytes p)
      × (network_bytes (2 ^ 32 - 1 - (2 ^ (32 - p) - 1)) ≡ high_bytes p)
network_masks p hi =
    let (h, hs) =
      both (alike (network_bytes (2 ^ (32 - p) - 1)) (low_bytes p))
        (alike (network_bytes (2 ^ 32 - 1 - (2 ^ (32 - p) - 1))) (high_bytes p))
        (all_below-true 33 mask_test p masks_pass (omega arith)) in
    (alike-eq _ _ h, alike-eq _ _ hs)

create_mask_32-some : (p : ℕ) → 2 ≤ p → p ≤ 32 → create_mask_32 p ≡ some (2 ^ (32 - p) - 1)
unfolding create_mask_32
create_mask_32-some p lo hi = rw (lt→ltb 1 p (omega arith), le→leb p 32 hi) refl

-- For a prefix of 2 to 32 bits the broadcast address of an IPv4 address has its first bits and
-- then ones, and the network address its first bits and then zeros.
pub networks_4-on_prefix :
    (a b c d p : ℕ)
    → All IsByte (a ∷ b ∷ c ∷ d ∷ [])
    → 2 ≤ p
    → p ≤ 32
    → (broadcast_address_4 (a ∷ b ∷ c ∷ d ∷ []) p
        ≡ address (on_prefix fill_bits p (a ∷ b ∷ c ∷ d ∷ [])))
      × (network_address_4 (a ∷ b ∷ c ∷ d ∷ []) p
          ≡ address (on_prefix keep_bits p (a ∷ b ∷ c ∷ d ∷ [])))
unfolding broadcast_address_4 network_address_4
networks_4-on_prefix a b c d p (ha, (hb, (hc, (hd, _)))) lo hi =
    let (ms, ns) = network_masks p hi in
    let (a₁, a₂) = byte_masked (min 8 p) a (omega arith) ha in
    let (b₁, b₂) = byte_masked (min 8 (p - 8)) b (omega arith) hb in
    let (c₁, c₂) = byte_masked (min 8 (p - 8 - 8)) c (omega arith) hc in
    let (d₁, d₂) = byte_masked (min 8 (p - 8 - 8 - 8)) d (omega arith) hd in
    (
      rw (le→ltb 32 p hi) (
          ap (masked (λ m. zip bit_or (a ∷ b ∷ c ∷ d ∷ []) (network_bytes m)))
            (create_mask_32-some p lo hi)
          ∙ ap (λ bs. address (zip bit_or (a ∷ b ∷ c ∷ d ∷ []) bs)) ms
          ∙ ap address (ap₂ (◌∷◌) a₁ (ap₂ (◌∷◌) b₁ (ap₂ (◌∷◌) c₁ (ap₂ (◌∷◌) d₁ refl))))),
      rw (le→ltb 32 p hi) (
          ap (masked (λ m. zip bit_and (a ∷ b ∷ c ∷ d ∷ []) (network_bytes (2 ^ 32 - 1 - m))))
            (create_mask_32-some p lo hi)
          ∙ ap (λ bs. address (zip bit_and (a ∷ b ∷ c ∷ d ∷ []) bs)) ns
          ∙ ap address (ap₂ (◌∷◌) a₂ (ap₂ (◌∷◌) b₂ (ap₂ (◌∷◌) c₂ (ap₂ (◌∷◌) d₂ refl))))),
    )
