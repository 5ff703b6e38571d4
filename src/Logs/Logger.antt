-- ===== src/Logs/Logger.antt =====
-- src/slite/Logger.h and Logger.cc: a statement of LOG_TRACE and its kin, from the test of the level to the
-- text that g_output is handed. The time, as getFormatTime writes it, and the text of the thread's id
-- are parts of a statement.
pub mod Shown
mod Tests
use serverlite.Base.{
  ℕ, ◌+◌, Bool, true, false, ◌&&◌, not, Option, some, none, List, [], ◌∷◌, ◌++◌, Bytes, codes, leb,
  if◌then◌else◌, ◌==◌,
}
use serverlite.Base.Digits.{to_string}

pub data LogLevel : Type 0 where
  trace debug info warn error fatal : LogLevel

-- The number of a level in the enumeration.
abbrev pub rank : LogLevel → ℕ
rank trace = 0
rank debug = 1
rank info = 2
rank warn = 3
rank error = 4
rank fatal = 5

abbrev pub is_fatal : LogLevel → Bool
is_fatal fatal = true
is_fatal _ = false

pub log_level_name : LogLevel → Bytes
log_level_name trace = codes "TRACE "
log_level_name debug = codes "DEBUG "
log_level_name info = codes "INFO  "
log_level_name warn = codes "WARN  "
log_level_name error = codes "ERROR "
log_level_name fatal = codes "FATAL "

-- A statement: __FILE__, __func__, __LINE__, the level of its macro, and what is streamed into it.
pub record Statement : Type 0 where
  pub file : Bytes
  pub func : Bytes
  pub line : ℕ
  pub level : LogLevel
  pub time : Bytes
  pub thread : Bytes
  pub message : Bytes

-- The macros: three of them test g_level, the others log whatever it is.
pub is_logged : LogLevel → Statement → Bool
is_logged g s = if leb (rank s.level) 2 then leb (rank g) (rank s.level) else true

-- file.substr(pos + 1, ...) at the last '/', the whole name where there is none, as npos + 1 is 0.
abbrev pub behind_last : Bytes → Bytes → Bytes
behind_last best [] = best
behind_last best (b ∷ bs) = behind_last (if b == 47 then bs else best) bs

pub base_name : Bytes → Bytes
base_name file = behind_last file file

-- LOG_TRACE and LOG_DEBUG name the function as well.
abbrev pub place : Statement → Bytes
place s =
    base_name s.file
    ++ ((if leb (rank s.level) 1 then codes " " ++ s.func else [])
        ++ (codes ":" ++ to_string s.line))

-- The text of the constructor and of what is streamed.
pub text : Statement → Bytes
unfolding log_level_name
text s =
    s.time
    ++ (s.thread
        ++ (codes " " ++ (log_level_name s.level ++ (place s ++ (codes " -- " ++ s.message)))))

-- The destructor: what g_output gets, and whether the process ends.
pub log : Statement → Bytes × Bool
unfolding text
log s = (text s ++ 10 ∷ [], is_fatal s.level)

-- Statements one after the other: what is put out, and whether the process has ended.
pub log_all : LogLevel → List Statement → Bytes × Bool
unfolding log is_logged
log_all g [] = ([], false)
log_all g (s ∷ ss) =
    let (out, over) = log s in
    let (rest, over') = log_all g ss in
    if is_logged g s then (if over then (out, true) else (out ++ rest, over')) else (rest, over')
