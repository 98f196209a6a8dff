-- ===== src/ByteArray/Chain.antt =====
-- The chain of blocks as one run of bytes: what `peek`, `poke`, `read_loop` and `write_loop` do to it.
use fishjoy.Base.{
  ℕ, zero, suc, ◌+◌, ◌*◌, ◌≤◌, ◌<◌, ◌≡◌, refl, sym, ap, ◌∙◌, List, [], ◌∷◌, ◌++◌, length, take,
  drop, replicate, slice, overwrite, lay, ok, arith, length-append, length-overwrite, append_assoc,
  ok-injective,
}
use fishjoy.ByteArray.{Block, peek, poke}

-- All the bytes of the chain.
abbrev pub flat : List Block → List ℕ
flat [] = []
flat (n ∷ ns) = n ++ flat ns

-- Every block has `base` bytes.
abbrev pub Uniform : ℕ → List Block → Type 0
Uniform base [] = Unit {0}
Uniform base (n ∷ ns) = (length n ≡ base) × Uniform base ns

pub length-flat :
    (base : ℕ) (ns : List Block) → Uniform base ns → length (flat ns) ≡ length ns * base
length-flat base [] u = omega arith
length-flat base (n ∷ ns) u = omega (arith, length-append n (flat ns), length-flat base ns u.1, u.0)

pub flat-append : (ms ns : List Block) → flat (ms ++ ns) ≡ flat ms ++ flat ns
flat-append [] ns = refl
flat-append (m ∷ ms) ns = ap (◌++◌ m) (flat-append ms ns) ∙ sym (append_assoc m (flat ms) (flat ns))

pub append-Uniform :
    (base : ℕ) (ms ns : List Block) → Uniform base ms → Uniform base ns → Uniform base (ms ++ ns)
append-Uniform base [] ns u v = v
append-Uniform base (m ∷ ms) ns u v = (u.0, append-Uniform base ms ns u.1 v)

pub replicate-Uniform : (k : ℕ) (n : Block) → Uniform (length n) (replicate k n)
replicate-Uniform zero n = tt
replicate-Uniform (suc k) n = (refl, replicate-Uniform k n)

-- A block number whose bytes begin inside the chain is the number of a block.
pub lt_of_mul_lt : (c n base r : ℕ) → c * base + r < n * base → c < n
lt_of_mul_lt c n base r h = grind arith

pub peek-ok :
    (base : ℕ) (ns : List Block) (c : ℕ)
    → Uniform base ns
    → c < length ns
    → (n : Block) × (peek ns c ≡ ok n) × (length n ≡ base)
unfolding peek
peek-ok base [] c u h = elim h [ ]
peek-ok base (n ∷ ns) zero u h = (n, refl, u.0)
peek-ok base (n ∷ ns) (suc c) u h = peek-ok base ns c u.1 (omega arith)

module _ {ℓ} {A : Type ℓ} where
  lay-append_left :
      (ys xs zs : List A) → length ys ≤ length xs → lay ys (xs ++ zs) ≡ lay ys xs ++ zs
  lay-append_left [] xs zs h = refl
  lay-append_left (y ∷ ys) [] zs h = absurd (omega arith)
  lay-append_left (y ∷ ys) (x ∷ xs) zs h = ap (◌∷◌ y) (lay-append_left ys xs zs (omega arith))

  overwrite-append_left :
      (xs : List A) (i : ℕ) (ys zs : List A)
      → i + length ys ≤ length xs
      → overwrite (xs ++ zs) i ys ≡ overwrite xs i ys ++ zs
  overwrite-append_left xs zero ys zs h = lay-append_left ys xs zs (omega arith)
  overwrite-append_left [] (suc i) ys zs h = absurd (omega arith)
  overwrite-append_left (x ∷ xs) (suc i) ys zs h =
      ap (◌∷◌ x) (overwrite-append_left xs i ys zs (omega arith))

  -- A write behind the first `length xs` places.
  overwrite-append_right :
      (xs : List A) (i k : ℕ) (ys zs : List A)
      → k ≡ length xs + i
      → overwrite (xs ++ zs) k ys ≡ xs ++ overwrite zs i ys
  overwrite-append_right [] i k ys zs e = ap (λ (j : ℕ). overwrite zs j ys) (omega arith)
  overwrite-append_right (x ∷ xs) i zero ys zs e = absurd (omega arith)
  overwrite-append_right (x ∷ xs) i (suc k) ys zs e =
      ap (◌∷◌ x) (overwrite-append_right xs i k ys zs (omega arith))

  slice-append_left :
      (i n : ℕ) (xs zs : List A) → i + n ≤ length xs → slice i n (xs ++ zs) ≡ slice i n xs
  slice-append_left zero zero xs zs h = refl
  slice-append_left zero (suc n) [] zs h = absurd (omega arith)
  slice-append_left zero (suc n) (x ∷ xs) zs h =
      ap (◌∷◌ x) (slice-append_left zero n xs zs (omega arith))
  slice-append_left (suc i) n [] zs h = absurd (omega arith)
  slice-append_left (suc i) n (x ∷ xs) zs h = slice-append_left i n xs zs (omega arith)

  drop-append_right :
      (xs : List A) (i k : ℕ) (zs : List A) → k ≡ length xs + i → drop k (xs ++ zs) ≡ drop i zs
  drop-append_right [] i k zs e = ap (λ (j : ℕ). drop j zs) (omega arith)
  drop-append_right (x ∷ xs) i zero zs e = absurd (omega arith)
  drop-append_right (x ∷ xs) i (suc k) zs e = drop-append_right xs i k zs (omega arith)

-- Inside a block, a write to the block is a write to the run of bytes, and likewise a read.
pub flat-poke :
    (base : ℕ) (ns : List Block) (c npos : ℕ) (bytes : List ℕ)
    → Uniform base ns
    → npos + length bytes ≤ base
    → c < length ns
    → flat (poke ns c npos bytes) ≡ overwrite (flat ns) (c * base + npos) bytes
unfolding poke
flat-poke base [] c npos bytes u h hc = elim hc [ ]
flat-poke base (n ∷ ns) zero npos bytes u h hc =
    sym (overwrite-append_left n npos bytes (flat ns) (omega arith))
    ∙ ap (λ (j : ℕ). overwrite (n ++ flat ns) j bytes) (omega arith)
flat-poke base (n ∷ ns) (suc c) npos bytes u h hc =
    ap (◌++◌ n) (flat-poke base ns c npos bytes u.1 h (omega arith))
    ∙ sym (
        overwrite-append_right n (c * base + npos) (suc c * base + npos) bytes (flat ns)
          (omega arith))

pub poke-Uniform :
    (base : ℕ) (ns : List Block) (c npos : ℕ) (bytes : List ℕ)
    → Uniform base ns
    → Uniform base (poke ns c npos bytes)
unfolding poke
poke-Uniform base [] c npos bytes u = tt
poke-Uniform base (n ∷ ns) zero npos bytes u = (length-overwrite n npos bytes ∙ u.0, u.1)
poke-Uniform base (n ∷ ns) (suc c) npos bytes u = (u.0, poke-Uniform base ns c npos bytes u.1)

pub length-poke :
    (ns : List Block) (c npos : ℕ) (bytes : List ℕ) → length (poke ns c npos bytes) ≡ length ns
unfolding poke
length-poke [] c npos bytes = refl
length-poke (n ∷ ns) zero npos bytes = refl
length-poke (n ∷ ns) (suc c) npos bytes = ap suc (length-poke ns c npos bytes)

pub slice-flat :
    (base : ℕ) (ns : List Block) (c npos k : ℕ) {n : Block}
    → Uniform base ns
    → peek ns c ≡ ok n
    → npos + k ≤ base
    → slice (c * base + npos) k (flat ns) ≡ slice npos k n
unfolding peek
slice-flat base [] c npos k u e h = cc
slice-flat base (m ∷ ns) zero npos k {n} u e h =
    ap (λ (j : ℕ). slice j k (m ++ flat ns)) (omega arith)
    ∙ slice-append_left npos k m (flat ns) (omega arith)
    ∙ ap (slice npos k) (ok-injective e)
slice-flat base (m ∷ ns) (suc c) npos k u e h =
    ap (take k)
      (drop-append_right m (c * base + npos) (suc c * base + npos) (flat ns) (omega arith))
    ∙ slice-flat base ns c npos k u.1 e h
