-- ===== src/Logs.antt =====
-- src/slite/AsyncLogger.h and AsyncLogger.cc. What holds mutex_ is one step. A std::string that was
-- moved from is taken to be empty, as the standard libraries leave it. What the backend appends to
-- its Logging is recorded; Logs/File models that class.
pub mod File
pub mod Logger
pub mod Order
mod Tests
use serverlite.Base.{
  ℕ, ◌+◌, ◌-◌, ◌%◌, ◌^◌, ◌≡◌, Bool, true, false, List, [], ◌∷◌, ◌++◌, Bytes, length, take, codes,
  is_empty, if◌then◌else◌, ltb,
}
use serverlite.Base.Digits.{to_string}

-- kBufferSize.
abbrev pub buffer_size : ℕ
buffer_size = 686000

-- Where the backend's thread stands: at the test of its loop, in wait_for, or ended.
pub data Phase : Type 0 where
  testing waiting ended : Phase

-- `written` are the strings that the backend appended to the file, the oldest first; `logs` are those
-- that append was called with.
pub record AsyncLogger : Type 0 where
  pub running : Bool
  pub phase : Phase
  pub buffer : Bytes
  pub next_buffer : Bytes
  pub buffers : List Bytes
  pub written : List Bytes
  pub logs : List Bytes

-- AsyncLogger::AsyncLogger and start.
abbrev pub started : AsyncLogger
started = record {
  running = true;
  phase = testing;
  buffer = [];
  next_buffer = [];
  buffers = [];
  written = [];
  logs = [];
}

-- kBufferSize - buffer_.size(), in size_t.
abbrev pub room : AsyncLogger → ℕ
room a = (buffer_size + (2 ^ 64 - length a.buffer)) % 2 ^ 64

-- append. Whether nextBuffer_ is empty or not, the new buffer begins empty, and nextBuffer_ is left
-- as it is.
pub append : Bytes → AsyncLogger → AsyncLogger
append log a =
    let a1 = record a { logs = a.logs ++ log ∷ [] } in
    if ltb (length log) (room a) then record a1 { buffer = a.buffer ++ log } else record a1 {
      buffers = a.buffers ++ a.buffer ∷ [];
      buffer = if is_empty a.next_buffer then a.next_buffer ++ log else log;
    }

-- The message that stands for the buffers that are dropped.
abbrev pub dropped_message : List Bytes → Bytes
dropped_message bs = codes "Dropped log messages, %zd larger buffers " ++ to_string (length bs - 2)

-- What one round appends to the file.
abbrev pub to_write : List Bytes → List Bytes
to_write bs = if ltb 25 (length bs) then dropped_message bs ∷ take 2 bs else bs

-- One round of backend, from the end of the wait on. buffer1 and buffer2 are empty at its start and at
-- its end.
pub round : AsyncLogger → AsyncLogger
round a = record a {
  phase = testing;
  buffer = [];
  next_buffer = [];
  buffers = [];
  written = a.written ++ to_write (a.buffers ++ a.buffer ∷ []);
}

-- stop, up to join.
abbrev pub stop : AsyncLogger → AsyncLogger
stop a = record a { running = false }

-- The test of the loop.
abbrev pub test : AsyncLogger → AsyncLogger
test a = record a { phase = if a.running then waiting else ended }

pub data Step (a : AsyncLogger) : AsyncLogger → Type 0 where
  appends : (log : Bytes) → Step a (append log a)
  stops : Step a (stop a)
  tests : a.phase ≡ testing → Step a (test a)
  writes : a.phase ≡ waiting → Step a (round a)
