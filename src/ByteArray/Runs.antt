-- ===== src/ByteArray/Runs.antt =====
-- Runs of bytes: what several writes in a row leave in the buffer, and what several reads take.
use fishjoy.Base.{
  ℕ, ◌+◌, ◌≤◌, ◌<◌, ◌≡◌, refl, sym, ap, ap₂, ◌∙◌, List, [], ◌++◌, length, take, drop, ok, arith,
  append_assoc, length-append, length-drop, drop-drop, drop-append_self, take-append_self,
  drop-take_run,
}
use fishjoy.Endian.{Endian}
use fishjoy.ByteArray.{ByteArray, write, read, set_position}
use fishjoy.ByteArray.Valid.{IsValid, contents, length-contents}
use fishjoy.ByteArray.Appending.{write-Wrote}
use fishjoy.ByteArray.Reading.{read-Read}
use fishjoy.ByteArray.Seeking.{set_position-Sought}

-- The run `bytes` stands between the place `p` and the position.
pub record Behind (e : Endian) (p : ℕ) (bytes : List ℕ) (b : ByteArray) : Type 0 where
  pub valid : IsValid b
  pub order : b.endian ≡ e
  pub rest : List ℕ
  pub split : drop p (contents b) ≡ bytes ++ rest
  pub at_end : b.position ≡ p + length bytes

-- The run `bytes` stands behind the position.
pub record Ahead (e : Endian) (bytes : List ℕ) (b : ByteArray) : Type 0 where
  pub valid : IsValid b
  pub order : b.endian ≡ e
  pub rest : List ℕ
  pub split : drop b.position (contents b) ≡ bytes ++ rest

pub start-Behind : (b : ByteArray) → IsValid b → Behind b.endian b.position [] b
start-Behind b v = record {
  valid = v;
  order = refl;
  rest = drop b.position (contents b);
  split = refl;
  at_end = omega arith;
}

pub write-Behind :
    {e : Endian} {p : ℕ} {bytes : List ℕ} {b : ByteArray} (more : List ℕ)
    → Behind e p bytes b
    → (b' : ByteArray) × (write b more ≡ ok b') × Behind e p (bytes ++ more) b'
write-Behind {e} {p} {bytes} {b} more r =
    let (b', writes, w) = write-Wrote b more r.valid in
    (
      b',
      writes,
      record {
        valid = w.valid;
        order = w.same_endian ∙ r.order;
        rest = drop (b.position + length more) (contents b);
        split =
            ap (drop p) w.spliced
            ∙ ap₂ (λ (k : ℕ) zs. drop p (take k (contents b) ++ more ++ zs)) r.at_end refl
            ∙ ap (drop p) (append_assoc (take (p + length bytes) (contents b)) more _)
            ∙ drop-take_run p (contents b) bytes
                (more ++ drop (b.position + length more) (contents b)) r.rest
                (omega (arith, length-contents b r.valid, r.at_end, r.valid.position_le)) r.split
            ∙ sym (append_assoc bytes more _);
        at_end = omega (arith, w.moved_on, r.at_end, length-append bytes more);
      },
    )

pub set_position-Ahead :
    {e : Endian} {p : ℕ} {bytes : List ℕ} {b : ByteArray}
    → Behind e p bytes b
    → (b' : ByteArray) × (set_position b p ≡ ok b') × Ahead e bytes b'
set_position-Ahead {e} {p} {bytes} {b} r =
    let (b', seeks, s) =
      set_position-Sought b p r.valid
        (omega (arith, r.at_end, r.valid.position_le, r.valid.size_le)) in
    (
      b',
      seeks,
      record {
        valid = s.valid;
        order = s.same_endian ∙ r.order;
        rest = r.rest;
        split =
            ap₂ drop s.at_place (s.same_contents (omega (arith, r.at_end, r.valid.position_le)))
            ∙ r.split;
      },
    )

pub read-Ahead :
    {e : Endian} {b : ByteArray} (bytes more : List ℕ)
    → 0 < length bytes
    → Ahead e (bytes ++ more) b
    → (b' : ByteArray) × (read b (length bytes) ≡ ok (bytes, b')) × Ahead e more b'
read-Ahead {e} {b} bytes more some_bytes r =
    let (b', reads, d) =
      read-Read b (length bytes) r.valid inside (omega (arith, inside, r.valid.size_le)) in
    (
      b',
      reads
          ∙ ap (λ found. ok (found, b'))
              (ap (take (length bytes)) whole ∙ take-append_self bytes (more ++ r.rest)),
      record {
        valid = d.valid;
        order = d.same_endian ∙ r.order;
        rest = r.rest;
        split =
            ap₂ drop d.moved_on d.same_contents
            ∙ sym (drop-drop (length bytes) b.position (contents b))
            ∙ ap (drop (length bytes)) whole
            ∙ drop-append_self bytes (more ++ r.rest);
      },
    )
  where
    whole : drop b.position (contents b) ≡ bytes ++ (more ++ r.rest)
    whole = r.split ∙ append_assoc bytes more r.rest

    inside : b.position + length bytes ≤ b.size
    inside = omega (
      arith,
      length-drop b.position (contents b),
      length-contents b r.valid,
      ap length whole,
      length-append bytes (more ++ r.rest),
      some_bytes,
    )
