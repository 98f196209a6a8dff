-- ===== src/ByteArray/Refinement.antt =====
-- The buffer against a flat sequence of bytes with a place in it.
use fishjoy.Base.{
  ℕ, suc, ◌+◌, ◌≡◌, ap, ap₂, ◌∙◌, List, [], ◌∷◌, ◌++◌, length, take, drop, slice, leb, leb→le,
  if◌then◌else◌, if_cases, Result, ok, err, out_of_range, ◌>>=◌, >>=-eq-ok, ok-injective, arith,
}
use fishjoy.ByteArray.{ByteArray, write, read, set_position}
use fishjoy.ByteArray.Valid.{IsValid, contents, length-contents}
use fishjoy.ByteArray.Appending.{write-Wrote}
use fishjoy.ByteArray.Reading.{read-Read}
use fishjoy.ByteArray.Seeking.{set_position-Sought}

-- `get n` asks for `suc n` bytes.
pub data Command : Type 0 where
  put : List ℕ → Command
  get : ℕ → Command
  go : ℕ → Command

pub record Flat : Type 0 where
  pub bytes : List ℕ
  pub place : ℕ

-- What the commands mean: the bytes that they read, and what they leave behind.
unfoldable pub flat_step : Flat → Command → Result (Flat × List ℕ)
flat_step f (put bs) = ok (
  record {
    bytes = take f.place f.bytes ++ bs ++ drop (f.place + length bs) f.bytes;
    place = f.place + length bs;
  },
  [],
)
flat_step f (get n) =
    if leb (f.place + suc n) (length f.bytes)
    then ok (record { bytes = f.bytes; place = f.place + suc n }, slice f.place (suc n) f.bytes)
    else err out_of_range
flat_step f (go v) =
    if leb v (length f.bytes)
    then ok (record { bytes = f.bytes; place = v }, [])
    else err out_of_range

unfoldable pub flat_run : Flat → List Command → Result (Flat × List ℕ)
unfolding flat_step
flat_run f [] = ok (f, [])
flat_run f (c ∷ cs) = do
  (f₁, out) ← flat_step f c
  (f₂, outs) ← flat_run f₁ cs
  ok (f₂, out ++ outs)

-- The commands as calls of the buffer.
unfoldable pub step : ByteArray → Command → Result (ByteArray × List ℕ)
step b (put bs) = do b' ← write b bs; ok (b', [])
step b (get n) = do (out, b') ← read b (suc n); ok (b', out)
step b (go v) = do b' ← set_position b v; ok (b', [])

unfoldable pub run : ByteArray → List Command → Result (ByteArray × List ℕ)
unfolding step
run b [] = ok (b, [])
run b (c ∷ cs) = do (b₁, out) ← step b c; (b₂, outs) ← run b₁ cs; ok (b₂, out ++ outs)

-- The flat bytes that a buffer stands for.
abbrev pub flat_of : ByteArray → Flat
flat_of b = record { bytes = contents b; place = b.position }

module _ (b : ByteArray) (v : IsValid b) where
  abbrev Follows : Command → Result (Flat × List ℕ) → Type 0
  Follows c r =
      (f' : Flat) (out : List ℕ)
      → r ≡ ok (f', out)
      → (b' : ByteArray) × (step b c ≡ ok (b', out)) × IsValid b' × (flat_of b' ≡ f')

  follows :
      (c : Command) (f₁ : Flat) (out₁ : List ℕ) (b' : ByteArray)
      → step b c ≡ ok (b', out₁)
      → IsValid b'
      → flat_of b' ≡ f₁
      → Follows c (ok (f₁, out₁))
  follows c f₁ out₁ b' runs v' same f' out e =
      let pair = ok-injective e in
      (
        b',
        runs ∙ ap (λ (o : List ℕ). ok (b', o)) (ap (λ (p : Flat × List ℕ). p.1) pair),
        v',
        same ∙ ap (λ (p : Flat × List ℕ). p.0) pair,
      )

  flat_eq :
      (b' : ByteArray) (xs : List ℕ) (n : ℕ)
      → contents b' ≡ xs
      → b'.position ≡ n
      → flat_of b' ≡ record { bytes = xs; place = n }
  flat_eq b' xs n e p = ap₂ (λ (xs : List ℕ) (n : ℕ). record { bytes = xs; place = n }) e p

  put-Follows : (bs : List ℕ) → Follows (put bs) (flat_step (flat_of b) (put bs))
  unfolding flat_step step
  put-Follows bs =
      let (b', e, w) = write-Wrote b bs v in
      follows (put bs) _ [] b' (ap (λ r. r >>= λ (b' : ByteArray). ok (b', [])) e) w.valid
        (flat_eq b' _ _ w.spliced w.moved_on)

  get-Follows : (n : ℕ) → Follows (get n) (flat_step (flat_of b) (get n))
  unfolding flat_step step
  get-Follows n =
      if_cases (Follows (get n)) (leb (b.position + suc n) (length (contents b))) _ _
        (λ h.
          let le = leb→le (b.position + suc n) (length (contents b)) h in
          let (b', e, r) =
            read-Read b (suc n) v (omega (arith, le, length-contents b v))
              (omega (arith, le, length-contents b v, v.size_le)) in
          follows (get n) _ _ b' (ap (λ r. r >>= λ (p : List ℕ × ByteArray). ok (p.1, p.0)) e)
            r.valid (flat_eq b' _ _ r.same_contents r.moved_on))
        (λ h f' out e. cc)

  go-Follows : (p : ℕ) → Follows (go p) (flat_step (flat_of b) (go p))
  unfolding flat_step step
  go-Follows p =
      if_cases (Follows (go p)) (leb p (length (contents b))) _ _
        (λ h.
          let le = leb→le p (length (contents b)) h in
          let (b', e, s) =
            set_position-Sought b p v (omega (arith, le, length-contents b v, v.size_le)) in
          follows (go p) _ [] b' (ap (λ r. r >>= λ (b' : ByteArray). ok (b', [])) e) s.valid
            (flat_eq b' _ _ (s.same_contents (omega (arith, le, length-contents b v))) s.at_place))
        (λ h f' out e. cc)

  step-Follows : (c : Command) → Follows c (flat_step (flat_of b) c)
  step-Follows (put bs) = put-Follows bs
  step-Follows (get n) = get-Follows n
  step-Follows (go p) = go-Follows p

-- In a valid buffer every program of writes, reads of at least one byte and moves of the position,
-- that has a meaning on the flat bytes with their place, runs without an error, reads the bytes
-- that it means, and leaves a valid buffer that stands for the bytes and the place it means.
pub run-flat_run :
    (cs : List Command) (b : ByteArray) (f' : Flat) (outs : List ℕ)
    → IsValid b
    → flat_run (flat_of b) cs ≡ ok (f', outs)
    → (b' : ByteArray) × (run b cs ≡ ok (b', outs)) × IsValid b' × (flat_of b' ≡ f')
unfolding flat_run run
run-flat_run [] b f' outs v e =
    let pair = ok-injective e in
    (
      b,
      ap (λ (o : List ℕ). ok (b, o)) (ap (λ (p : Flat × List ℕ). p.1) pair),
      v,
      ap (λ (p : Flat × List ℕ). p.0) pair,
    )
run-flat_run (c ∷ cs) b f' outs v e =
    let ((f₁, out), e₁, rest) = >>=-eq-ok (flat_step (flat_of b) c) _ e in
    let ((f₂, outs₂), e₂, last) = >>=-eq-ok (flat_run f₁ cs) _ rest in
    let (b₁, s₁, v₁, same) = step-Follows b v c f₁ out e₁ in
    let (b₂, s₂, v₂, same₂) =
      run-flat_run cs b₁ f₂ outs₂ v₁ (ap (λ (f : Flat). flat_run f cs) same ∙ e₂) in
    let pair = ok-injective last in
    (
      b₂,
      ap
            (λ r. r >>= λ (p : ByteArray × List ℕ).
              run p.0 cs >>= λ (q : ByteArray × List ℕ). ok (q.0, p.1 ++ q.1))
            s₁
          ∙ ap (λ r. r >>= λ (q : ByteArray × List ℕ). ok (q.0, out ++ q.1)) s₂
          ∙ ap (λ (o : List ℕ). ok (b₂, o)) (ap (λ (p : Flat × List ℕ). p.1) pair),
      v₂,
      same₂ ∙ ap (λ (p : Flat × List ℕ). p.0) pair,
    )
