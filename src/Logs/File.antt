-- ===== src/Logs/File.antt =====
-- src/slite/Logging.h and Logging.cc: writing and rolling the log file. The time of each call of
-- ::time, in seconds, and the answers of fwrite_unlocked are arguments; names and flushes are left
-- out.
use serverlite.Base.{
  ℕ, ◌+◌, ◌-◌, ◌*◌, ◌/◌, ◌≤◌, ◌<◌, ◌≡◌, arith, Bool, false, Option, some, none, List, [], ◌∷◌,
  Bytes, length, if◌then◌else◌, ltb, leb, ◌==◌, not, ◌⊎◌, ◌&&◌,
}
use serverlite.Base.Options.{◌>>=◌}

-- kRollPerSeconds_.
abbrev pub roll_per_seconds : ℕ
roll_per_seconds = 60 * 60 * 24

pub record Logging : Type 0 where
  pub roll_size : ℕ
  pub flush_interval : ℕ
  pub check_every_n : ℕ
  pub count : ℕ
  pub last_roll : ℕ
  pub last_flush : ℕ
  pub start_of_period : ℕ
  pub written_bytes : ℕ

-- rollFile, at the time `now`.
pub roll_file : ℕ → Logging → Logging
roll_file now l =
    if ltb l.last_roll now
    then record l {
      last_roll = now;
      last_flush = now;
      start_of_period = now / roll_per_seconds * roll_per_seconds;
      written_bytes = 0;
    }
    else l

-- What fwrite_unlocked returns, and whether ferror is set then.
pub record Fwrite : Type 0 where
  pub count : ℕ
  pub failed : Bool

-- The loop of writeToFile, from `written` on: what is written at its end. Every call is handed the
-- whole line. `none`: the loop is not over with these answers.
pub write_loop : List Fwrite → ℕ → ℕ → Option ℕ
write_loop [] size written = if written == size then some written else none
write_loop (f ∷ fs) size written =
    let rest = write_loop fs size (written + f.count) in
    if written == size
    then some written
    else if not (f.count == size - written) && f.failed
    then some written
    else rest

-- append_unlocked from behind the call of writeToFile on, which wrote `written`.
after_write : ℕ → ℕ → Logging → Logging
unfolding roll_file
after_write written now l =
    let l1 = record l { written_bytes = l.written_bytes + written } in
    if ltb l.roll_size l1.written_bytes
    then roll_file now l1
    else if leb l.check_every_n (l.count + 1)
    then (if not (now / roll_per_seconds * roll_per_seconds == l.start_of_period)
        then roll_file now (record l1 { count = 0 })
        else if ltb l.flush_interval (now - l.last_flush)
        then record l1 { count = 0; last_flush = now }
        else record l1 { count = 0 })
    else record l1 { count = l.count + 1 }

-- append_unlocked, with the time that rollFile and the check of the period see.
pub append_unlocked : List Fwrite → Bytes → ℕ → Logging → Option Logging
unfolding write_loop after_write
append_unlocked answers line now l = do
  written ← write_loop answers (length line) 0
  some (after_write written now l)

after_write_bounded :
    (n now : ℕ) (l : Logging)
    → l.last_roll < now
    → ((after_write n now l).written_bytes ≤ l.roll_size)
      × (((after_write n now l).written_bytes ≡ l.written_bytes + n)
          ⊎ (((after_write n now l).written_bytes ≡ 0) × ((after_write n now l).last_roll ≡ now)))
unfolding after_write
after_write_bounded n now l later = ground arith

write_loop_whole : (n : ℕ) → write_loop (record { count = n; failed = false } ∷ []) n 0 ≡ some n
unfolding write_loop
write_loop_whole n = ground arith

-- A line that fwrite takes whole, after the second of the last roll: afterwards the file has at most
-- rollSize bytes written, the line counted, or it is a new one, begun at that time, with none.
pub append_unlocked_bounded :
    (line : Bytes) (now : ℕ) (l : Logging)
    → l.last_roll < now
    → (l' : Logging) × (append_unlocked
          (record { count = length line; failed = false } ∷ [])
          line
          now
          l
        ≡ some l')
      × (l'.written_bytes ≤ l.roll_size)
      × ((l'.written_bytes ≡ l.written_bytes + length line)
          ⊎ ((l'.written_bytes ≡ 0) × (l'.last_roll ≡ now)))
unfolding append_unlocked
append_unlocked_bounded line now l later =
    let n = length line in
    let b = after_write_bounded n now l later in
    (after_write n now l, rw (write_loop_whole n), b.0, b.1)
