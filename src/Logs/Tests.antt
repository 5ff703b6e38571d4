-- ===== src/Logs/Tests.antt =====
-- Runs of the logger.
use serverlite.Base.{ℕ, zero, suc, ◌≡◌, refl, [], ◌∷◌, codes, concat, List, Bytes}
use serverlite.Logs.{AsyncLogger, waiting, started, append, stop, test, appends, tests}
use serverlite.Logs.File.{Logging}
use serverlite.Logs.Order.{Kept, here, then_step, text, Kept-text}

abbrev logged : AsyncLogger
logged = record started { phase = waiting; buffer = codes "ab"; logs = codes "a" ∷ codes "b" ∷ [] }

Kept-logged : Kept logged
unfolding append
Kept-logged =
    then_step (then_step (then_step here (appends (codes "a")) tt) (tests refl) tt)
      (appends (codes "b")) tt

Kept-text_example : text logged ≡ concat (codes "a" ∷ codes "b" ∷ [])
Kept-text_example = Kept-text Kept-logged

abbrev many : ℕ → List Bytes
many zero = []
many (suc n) = codes "x" ∷ many n

abbrev flooded : AsyncLogger
flooded = record started { phase = waiting; buffers = many 25 }

abbrev unsaved : AsyncLogger
unsaved = record started { buffer = codes "lost" }

abbrev late : AsyncLogger
late = append (codes "late") (test (stop unsaved))

abbrev file : Logging
file = record {
  roll_size = 10;
  flush_interval = 3;
  check_every_n = 1024;
  count = 0;
  last_roll = 100;
  last_flush = 100;
  start_of_period = 0;
  written_bytes = 8;
}
