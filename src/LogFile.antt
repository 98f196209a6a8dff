-- ===== src/LogFile.antt =====
-- The log files of src/log/log_file.cpp and include/fishjoy/log/log_file.hpp, and the buffer of
-- src/log/log_buffer.cpp.
-- Sizes are below 2 ^ 31, so that the int32_t members hold them. The mapped memory of a file has
-- the length `mem_size`; open and mmap succeed. `fwrite` gives how many bytes the call of that number
-- takes of what is left of a message, `older` is what stands in a file that is opened, and `stray` what
-- stands in m_written of a new AppendFileWriter, whose constructor does not set it. `now` is the time
-- that `time` gives, and that getLogFileName, a function which no file declares, sets for rollFile. The
-- names of the files are left out: `rolled` counts the files.
pub mod Laws
mod Tests
use fishjoy.Base.{
  ℕ, zero, suc, ◌+◌, ◌-◌, ◌*◌, ◌/◌, Bool, true, false, not, List, [], ◌∷◌, ◌++◌, length, replicate,
  overwrite, take, drop, ltb, leb, ◌==◌, if◌then◌else◌,
}

pub data FileWriter : Type 0 where
  mmap_file : List ℕ → ℕ → FileWriter
  append_file : List ℕ → ℕ → FileWriter

-- ftruncate cuts a file to a length, or fills it up with zeros.
abbrev pub ftruncate : List ℕ → ℕ → List ℕ
ftruncate contents n = take n (contents ++ replicate n 0)

abbrev pub open_mmap : List ℕ → ℕ → FileWriter
open_mmap older mem_size = mmap_file (ftruncate older mem_size) 0

abbrev pub open_append : List ℕ → ℕ → FileWriter
open_append older stray = append_file older stray

abbrev pub open_file : List ℕ → ℕ → Bool → ℕ → FileWriter
open_file older stray true roll_size = open_mmap older roll_size
open_file older stray false roll_size = open_append older stray

-- The calls of fwrite from the number `i` on, until nothing remains or a call takes nothing: the bytes
-- that were taken.
unfoldable pub write_rest : (ℕ → List ℕ → ℕ) → ℕ → ℕ → List ℕ → List ℕ
write_rest fwrite zero i msg = []
write_rest fwrite (suc fuel) i [] = []
write_rest fwrite (suc fuel) i (c ∷ cs) =
    let x = fwrite i (c ∷ cs) in
    let rest = write_rest fwrite fuel (suc i) (drop x (c ∷ cs)) in
    if x == 0 then [] else take x (c ∷ cs) ++ rest

abbrev pub write_all : (ℕ → List ℕ → ℕ) → List ℕ → List ℕ
write_all fwrite msg =
    take (fwrite 0 msg) msg ++ write_rest fwrite (length msg) 1 (drop (fwrite 0 msg) msg)

-- m_written of an append file grows by the whole message, whatever was taken.
unfoldable pub write_file : (ℕ → List ℕ → ℕ) → FileWriter → List ℕ → FileWriter
unfolding write_rest
write_file fwrite (mmap_file buffer written) msg =
    if ltb (length buffer - written) (length msg)
    then mmap_file buffer written
    else mmap_file (overwrite buffer written msg) (written + length msg)
write_file fwrite (append_file contents written) msg =
    append_file (contents ++ write_all fwrite msg) (written + length msg)

abbrev pub written_bytes : FileWriter → ℕ
written_bytes (mmap_file buffer written) = written
written_bytes (append_file contents written) = written

-- What a file holds of the log.
abbrev pub logged : FileWriter → List ℕ
logged (mmap_file buffer written) = take written buffer
logged (append_file contents written) = contents

pub record LogFile : Type 0 where
  pub roll_size : ℕ
  pub flush_interval : ℕ
  pub check_freq_count : ℕ
  pub count : ℕ
  pub start_of_period : ℕ
  pub last_roll : ℕ
  pub last_flush : ℕ
  pub file : FileWriter
  pub is_mmap : Bool
  pub rolled : ℕ

-- kRollPerSeconds
abbrev pub roll_per_seconds : ℕ
roll_per_seconds = 60 * 60 * 24

abbrev pub period : ℕ → ℕ
period now = now / roll_per_seconds * roll_per_seconds

unfoldable pub roll_file : List ℕ → ℕ → LogFile → ℕ → LogFile
roll_file older stray f now =
    if ltb f.last_roll now
    then record f {
      last_roll = now;
      last_flush = now;
      start_of_period = period now;
      file = open_file older stray f.is_mmap f.roll_size;
      rolled = suc f.rolled;
    }
    else f

-- The check that is due after some messages.
unfoldable pub check : List ℕ → ℕ → LogFile → ℕ → LogFile
unfolding roll_file
check older stray f now =
    if not (period now == f.start_of_period)
    then roll_file older stray f now
    else if ltb f.flush_interval (now - f.last_flush)
    then record f { last_flush = now }
    else f

abbrev pub wrote : (ℕ → List ℕ → ℕ) → LogFile → List ℕ → LogFile
wrote fwrite f msg = record f { file = write_file fwrite f.file msg }

unfoldable pub append : (ℕ → List ℕ → ℕ) → List ℕ → ℕ → LogFile → ℕ → List ℕ → LogFile
unfolding write_file roll_file check
append fwrite older stray f now msg =
    if ltb f.roll_size (written_bytes (write_file fwrite f.file msg))
    then roll_file older stray (wrote fwrite f msg) now
    else if leb f.check_freq_count (suc f.count)
    then check older stray (record (wrote fwrite f msg) { count = 0 }) now
    else record (wrote fwrite f msg) { count = suc f.count }

-- LogBuffer. `append` copies without a test: beyond the end the result is not defined, and the
-- model cuts.
pub record LogBuffer : Type 0 where
  pub memory : List ℕ
  pub total : ℕ
  pub available : ℕ
  pub cur : ℕ

unfoldable pub create_buffer : ℕ → LogBuffer
create_buffer total = record {
  memory = replicate total 0;
  total = total;
  available = total;
  cur = 0;
}

unfoldable pub clear_buffer : LogBuffer → LogBuffer
clear_buffer b = record b { cur = 0; available = b.total }

unfoldable pub append_buffer : LogBuffer → List ℕ → LogBuffer
append_buffer b data' = record b {
  memory = overwrite b.memory b.cur data';
  cur = b.cur + length data';
  available = b.available - length data';
}
