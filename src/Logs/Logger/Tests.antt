-- ===== src/Logs/Logger/Tests.antt =====
-- Runs of the logger.
use serverlite.Base.{◌≡◌, refl, arith, true, List, [], ◌∷◌, codes}
use serverlite.Base.Digits.{to_string}
use serverlite.Logs.Logger.{
  LogLevel, debug, info, warn, error, fatal, Statement, is_logged, text, log_all, base_name,
}
use serverlite.Logs.Logger.Shown.{read_lines, IsPlain, line_of, log_all-shown}

abbrev statement : LogLevel → Statement
statement l = record {
  file = codes "src/slite/Timer.cc";
  func = codes "run";
  line = 42;
  level = l;
  time = codes "2026-01-02 03:04:05 ";
  thread = codes "7";
  message = codes "late";
}

debug_text : text (statement debug) ≡ codes "2026-01-02 03:04:05 7 DEBUG Timer.cc run:42 -- late"
unfolding text base_name to_string
debug_text = refl

statement-IsPlain : (l : LogLevel) → IsPlain (statement l)
statement-IsPlain l = record {
  file = omega arith;
  func = omega arith;
  time = omega arith;
  thread = omega arith;
  message = omega arith;
}

-- At the level ERROR the warning comes out all the same, and nothing behind the FATAL.
abbrev five : List Statement
five = statement info ∷ statement warn ∷ statement debug ∷ statement fatal ∷ statement error ∷ []

log_all-shown_example :
    (read_lines [] (log_all error five).0
      ≡ line_of (statement warn) ∷ line_of (statement fatal) ∷ [])
    × ((log_all error five).1 ≡ true)
unfolding is_logged
log_all-shown_example = log_all-shown error five (
  statement-IsPlain info,
  (
    statement-IsPlain warn,
    (statement-IsPlain debug, (statement-IsPlain fatal, (statement-IsPlain error, tt))),
  ),
)
