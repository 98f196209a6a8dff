-- ===== src/LogFile/Laws.antt =====
-- What a log file holds after an append, and when it rolls.
use fishjoy.Base.{
  ℕ, suc, ◌+◌, ◌-◌, ◌≤◌, ◌<◌, ◌≡◌, refl, sym, ap, ap₂, ◌∙◌, subst, Bool, true, false, not, List,
  ◌++◌, length, overwrite, ltb, leb, ◌==◌, if_cases, arith, le→ltb, lt→ltb, length-replicate,
  length-overwrite, length-append, ltb→lt, leb→le, take-add, take-overwrite, slice-overwrite_self,
  length-take, length-drop, drop, take, replicate, take-append-drop, zero, [], ◌∷◌,
}
use fishjoy.LogFile.{
  FileWriter, mmap_file, append_file, open_file, write_file, write_rest, write_all, written_bytes,
  logged, LogFile, roll_file, check, wrote, append, period,
}

-- A mapped file has the size at which files roll.
abbrev pub Sized : ℕ → FileWriter → Type 0
Sized roll_size (mmap_file buffer written) = (length buffer ≡ roll_size) × (written ≤ roll_size)
Sized roll_size (append_file contents written) = Unit

unfoldable pub IsValid : LogFile → Type 0
IsValid f = Sized f.roll_size f.file

module _ (fwrite : ℕ → List ℕ → ℕ) (older : List ℕ) (stray : ℕ) where
  open-Sized :
      (mmap : Bool) (roll_size : ℕ) → Sized roll_size (open_file older stray mmap roll_size)
  open-Sized true roll_size = (
    omega (
      arith,
      length-take roll_size (older ++ replicate roll_size 0),
      length-append older (replicate roll_size 0),
      length-replicate {A = ℕ} roll_size 0,
    ),
    omega arith,
  )
  open-Sized false roll_size = tt

  write-Sized :
      (roll_size : ℕ) (w : FileWriter) (msg : List ℕ)
      → Sized roll_size w
      → Sized roll_size (write_file fwrite w msg)
  unfolding write_file
  write-Sized roll_size (mmap_file buffer written) msg s =
      if_cases (Sized roll_size) (ltb (length buffer - written) (length msg)) _ _ (λ _. s)
        (λ fits. (length-overwrite buffer written msg ∙ s.0, ground (arith, s.0, s.1)))
  write-Sized roll_size (append_file contents written) msg s = tt

  roll-IsValid : (f : LogFile) (now : ℕ) → IsValid f → IsValid (roll_file older stray f now)
  unfolding IsValid roll_file
  roll-IsValid f now v =
      if_cases IsValid (ltb f.last_roll now) _ _ (λ _. open-Sized f.is_mmap f.roll_size) (λ _. v)

  check-IsValid : (f : LogFile) (now : ℕ) → IsValid f → IsValid (check older stray f now)
  unfolding IsValid check
  check-IsValid f now v =
      if_cases IsValid (not (period now == f.start_of_period)) _ _ (λ _. roll-IsValid f now v)
        (λ _. if_cases IsValid (ltb f.flush_interval (now - f.last_flush)) _ _ (λ _. v) (λ _. v))

  -- `append` keeps a log file valid, whether it rolls or not, whatever stands in the files that it
  -- opens and whatever fwrite takes: a mapped file is as long as the roll size and not written
  -- beyond it.
  pub append-IsValid :
      (f : LogFile) (now : ℕ) (msg : List ℕ)
      → IsValid f
      → IsValid (append fwrite older stray f now msg)
  unfolding IsValid append
  append-IsValid f now msg v =
      let s = write-Sized f.roll_size f.file msg v in
      if_cases IsValid (ltb f.roll_size (written_bytes (write_file fwrite f.file msg))) _ _
        (λ _. roll-IsValid (wrote fwrite f msg) now s)
        (λ _.
          if_cases IsValid (leb f.check_freq_count (suc f.count)) _ _
            (λ _. check-IsValid (record (wrote fwrite f msg) { count = 0 }) now s) (λ _. s))

  module _ (progress : (i c : ℕ) (cs : List ℕ) → 0 < fwrite i (c ∷ cs)) where
    -- Where every call takes something, nothing of a message is left.
    write_rest-whole :
        (fuel i : ℕ) (msg : List ℕ) → length msg ≤ fuel → write_rest fwrite fuel i msg ≡ msg
    unfolding write_rest
    write_rest-whole zero i [] h = refl
    write_rest-whole zero i (c ∷ cs) h = absurd (omega arith)
    write_rest-whole (suc fuel) i [] h = refl
    write_rest-whole (suc fuel) i (c ∷ cs) h =
        let x = fwrite i (c ∷ cs) in
        let p = progress i c cs in
        let some_taken : (fwrite i (c ∷ cs) == 0) ≡ false = ground (arith, p) in
        rw some_taken (
          ap (λ (t : List ℕ). take x (c ∷ cs) ++ t)
            (write_rest-whole fuel (suc i) (drop x (c ∷ cs))
              (omega (arith, length-drop x (c ∷ cs), h, p)))
          ∙ take-append-drop x (c ∷ cs))

    write_all-whole : (msg : List ℕ) → write_all fwrite msg ≡ msg
    write_all-whole msg =
        ap (λ (t : List ℕ). take (fwrite 0 msg) msg ++ t)
          (write_rest-whole (length msg) 1 (drop (fwrite 0 msg) msg)
            (omega (arith, length-drop (fwrite 0 msg) msg)))
        ∙ take-append-drop (fwrite 0 msg) msg

    -- A message that fits into what is left of the roll size is added to what the file holds,
    -- where a mapped file is as long as the roll size and every call of fwrite takes something.
    write_file-logged :
        (roll_size : ℕ) (w : FileWriter) (msg : List ℕ)
        → Sized roll_size w
        → written_bytes w + length msg ≤ roll_size
        → logged (write_file fwrite w msg) ≡ logged w ++ msg
    unfolding write_file
    write_file-logged roll_size (mmap_file buffer written) msg s h =
        rw (le→ltb (length buffer - written) (length msg) (omega (arith, s.0, h))) (
          sym (take-add written (length msg) (overwrite buffer written msg))
          ∙ ap₂ ◌++◌ (take-overwrite buffer written msg)
              (slice-overwrite_self buffer written msg (omega (arith, s.0, h))))
    write_file-logged roll_size (append_file contents written) msg s h =
        ap (λ (t : List ℕ). contents ++ t) (write_all-whole msg)

  full :
      (buffer : List ℕ) (written : ℕ) (msg : List ℕ)
      → length buffer - written < length msg
      → write_file fwrite (mmap_file buffer written) msg ≡ mmap_file buffer written
  unfolding write_file
  full buffer written msg h = rw (lt→ltb (length buffer - written) (length msg) h)

  -- Where a message does not fit into what is left of a mapped file, in a valid log file, and the
  -- check for a new period is not due, `append` leaves the file as it is: the message is lost and
  -- no new file begins.
  mmap_never_rolls :
      (f : LogFile) (now : ℕ) (buffer : List ℕ) (written : ℕ) (msg : List ℕ)
      → IsValid f
      → f.file ≡ mmap_file buffer written
      → suc f.count < f.check_freq_count
      → f.roll_size - written < length msg
      → ((append fwrite older stray f now msg).file ≡ f.file)
        × ((append fwrite older stray f now msg).rolled ≡ f.rolled)
  unfolding IsValid append
  mmap_never_rolls f now buffer written msg v e few long =
      if_cases (λ (g : LogFile). (g.file ≡ f.file) × (g.rolled ≡ f.rolled))
        (ltb f.roll_size (written_bytes (write_file fwrite f.file msg))) _ _
        (λ over.
          absurd (no_roll (ltb→lt f.roll_size (written_bytes (write_file fwrite f.file msg)) over)))
        (λ _.
          if_cases (λ (g : LogFile). (g.file ≡ f.file) × (g.rolled ≡ f.rolled))
            (leb f.check_freq_count (suc f.count)) _ _
            (λ due. absurd (not_due (leb→le f.check_freq_count (suc f.count) due)))
            (λ _. (same, refl)))
    where
      sized : (length buffer ≡ f.roll_size) × (written ≤ f.roll_size)
      sized = subst (Sized f.roll_size) e v

      same : write_file fwrite f.file msg ≡ f.file
      same =
          ap (λ w. write_file fwrite w msg) e
          ∙ full buffer written msg (omega (arith, sized.0, long))
          ∙ sym e

      no_roll : f.roll_size < written_bytes (write_file fwrite f.file msg) → ⊥
      no_roll h = omega (arith, h, ap written_bytes (same ∙ e), sized.1)

      not_due : f.check_freq_count ≤ suc f.count → ⊥
      not_due h = omega (arith, h, few)
