-- ===== src/LogFile/Tests.antt =====
-- Runs of a log file, and each theorem at a concrete file.
use fishjoy.Base.{ℕ, List, length, refl, true, [], ◌∷◌, arith}
use fishjoy.LogFile.{mmap_file, LogFile, append}
use fishjoy.LogFile.Laws.{IsValid, append-IsValid}

-- Four bytes of memory, of which two are written.
abbrev mapped : LogFile
mapped = record {
  roll_size = 4;
  flush_interval = 3;
  check_freq_count = 100;
  count = 0;
  start_of_period = 0;
  last_roll = 0;
  last_flush = 0;
  file = mmap_file (5 ∷ 6 ∷ 0 ∷ 0 ∷ []) 2;
  is_mmap = true;
  rolled = 0;
}

-- Every call takes the whole.
abbrev all_of : ℕ → List ℕ → ℕ
all_of i msg = length msg

mapped-IsValid : IsValid mapped
unfolding IsValid
mapped-IsValid = (refl, omega arith)

append-IsValid_example : IsValid (append all_of [] 0 mapped 9 (7 ∷ []))
append-IsValid_example = append-IsValid all_of [] 0 mapped 9 (7 ∷ []) mapped-IsValid
