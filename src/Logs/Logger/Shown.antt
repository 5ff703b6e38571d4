-- ===== src/Logs/Logger/Shown.antt =====
-- Which statements of src/slite/Logger.h come out, and how their lines are told apart.
use serverlite.Base.{
  ◌≡◌, refl, sym, ap, ap₂, take, ◌∙◌, arith, Bool, true, false, List, [], ◌∷◌, ◌++◌, Bytes,
  if◌then◌else◌, ◌==◌, ==_ne, map, append_assoc, append-nil, codes, leb, Bool-cases, inl, inr,
}
use serverlite.Base.Text.{Lacks, Lacks-append}
use serverlite.Base.Digits.{to_string, AllDigits, to_string-AllDigits}
use serverlite.Logs.Logger.{
  trace, debug, info, warn, error, fatal, log_level_name, behind_last, rank, LogLevel, Statement,
  is_logged, is_fatal, base_name, place, text, log, log_all,
}

-- Which levels come out under which: a table.
abbrev pub passes : LogLevel → LogLevel → Bool
passes trace l = true
passes debug trace = false
passes debug l = true
passes info trace = false
passes info debug = false
passes info l = true
passes g trace = false
passes g debug = false
passes g info = false
passes g l = true

abbrev pub kills : LogLevel → Bool
kills fatal = true
kills l = false

-- The name of a level, and its field of six characters.
abbrev pub word : LogLevel → Bytes
word trace = codes "TRACE"
word debug = codes "DEBUG"
word info = codes "INFO"
word warn = codes "WARN"
word error = codes "ERROR"
word fatal = codes "FATAL"

abbrev pub padded : Bytes → Bytes
padded w = take 6 (w ++ codes "      ")

abbrev pub has_slash : Bytes → Bool
has_slash [] = false
has_slash (b ∷ bs) = let rest = has_slash bs in if b == 47 then true else rest

-- What stands behind the last slash.
abbrev pub name_of : Bytes → Bytes
name_of [] = []
name_of (b ∷ bs) =
    let rest = name_of bs in if has_slash bs then rest else if b == 47 then bs else b ∷ bs

-- TRACE and DEBUG name the function.
abbrev pub function_of : LogLevel → Bytes → Bytes
function_of trace func = codes " " ++ func
function_of debug func = codes " " ++ func
function_of l func = []

abbrev pub line_of : Statement → Bytes
line_of s =
    s.time
    ++ (s.thread
        ++ (codes " "
            ++ (padded (word s.level)
                ++ ((name_of s.file
                      ++ (function_of s.level s.func ++ (codes ":" ++ to_string s.line)))
                    ++ (codes " -- " ++ s.message)))))

-- The statements that come out: those whose level passes, up to the first FATAL.
abbrev pub shown : LogLevel → List Statement → List Statement
shown g [] = []
shown g (s ∷ ss) =
    let rest = shown g ss in
    if passes g s.level then s ∷ (if kills s.level then [] else rest) else rest

passes_lem :
    (g l : LogLevel) → (if leb (rank l) 2 then leb (rank g) (rank l) else true) ≡ passes g l
passes_lem trace trace = refl
passes_lem trace debug = refl
passes_lem trace info = refl
passes_lem trace warn = refl
passes_lem trace error = refl
passes_lem trace fatal = refl
passes_lem debug trace = refl
passes_lem debug debug = refl
passes_lem debug info = refl
passes_lem debug warn = refl
passes_lem debug error = refl
passes_lem debug fatal = refl
passes_lem info trace = refl
passes_lem info debug = refl
passes_lem info info = refl
passes_lem info warn = refl
passes_lem info error = refl
passes_lem info fatal = refl
passes_lem warn trace = refl
passes_lem warn debug = refl
passes_lem warn info = refl
passes_lem warn warn = refl
passes_lem warn error = refl
passes_lem warn fatal = refl
passes_lem error trace = refl
passes_lem error debug = refl
passes_lem error info = refl
passes_lem error warn = refl
passes_lem error error = refl
passes_lem error fatal = refl
passes_lem fatal trace = refl
passes_lem fatal debug = refl
passes_lem fatal info = refl
passes_lem fatal warn = refl
passes_lem fatal error = refl
passes_lem fatal fatal = refl

kills_lem : (l : LogLevel) → is_fatal l ≡ kills l
kills_lem trace = refl
kills_lem debug = refl
kills_lem info = refl
kills_lem warn = refl
kills_lem error = refl
kills_lem fatal = refl

padded_lem : (l : LogLevel) → log_level_name l ≡ padded (word l)
unfolding log_level_name
padded_lem trace = refl
padded_lem debug = refl
padded_lem info = refl
padded_lem warn = refl
padded_lem error = refl
padded_lem fatal = refl

function_lem :
    (l : LogLevel) (func : Bytes)
    → (if leb (rank l) 1 then codes " " ++ func else []) ≡ function_of l func
function_lem trace func = refl
function_lem debug func = refl
function_lem info func = refl
function_lem warn func = refl
function_lem error func = refl
function_lem fatal func = refl

behind_last_lem :
    (best file : Bytes) → behind_last best file ≡ (if has_slash file then name_of file else best)
behind_last_lem best [] = refl
behind_last_lem best (b ∷ file) = elim (Bool-cases (b == 47)) [
  | inl slash ↦ rw (slash, behind_last_lem file file) (ground arith)
  | inr other ↦ rw (other, behind_last_lem best file) (ground arith)
]

no_slash : (file : Bytes) → has_slash file ≡ false → name_of file ≡ file
no_slash [] e = refl
no_slash (b ∷ file) e = ground arith

base_name_lem : (file : Bytes) → base_name file ≡ name_of file
unfolding base_name
base_name_lem file = elim (Bool-cases (has_slash file)) [
  | inl some_slash ↦ behind_last_lem file file ∙ rw (some_slash) refl
  | inr none_there ↦ behind_last_lem file file ∙ rw (none_there) (sym (no_slash file none_there))
]

text_lem : (s : Statement) → text s ≡ line_of s
unfolding text
text_lem s = rw (padded_lem s.level, base_name_lem s.file, function_lem s.level s.func) refl

-- The lines of a text, without their ends; a last line with no end is left out.
pub read_lines : Bytes → Bytes → List Bytes
read_lines line [] = []
read_lines line (b ∷ bs) =
    let more = read_lines (line ++ b ∷ []) bs in
    let next = read_lines [] bs in if b == 10 then line ∷ next else more

read_lines-line :
    (acc l rest : Bytes)
    → Lacks 10 l
    → read_lines acc (l ++ 10 ∷ rest) ≡ (acc ++ l) ∷ read_lines [] rest
unfolding read_lines
read_lines-line acc [] rest p = ap (λ (x : Bytes). x ∷ read_lines [] rest) (sym (append-nil acc))
read_lines-line acc (b ∷ l) rest p =
    rw (==_ne b 10 p.0, read_lines-line (acc ++ b ∷ []) l rest p.1)
      (ap (λ (x : Bytes). x ∷ read_lines [] rest) (append_assoc acc (b ∷ []) l))

behind_last-Lacks :
    (best file : Bytes) → Lacks 10 best → Lacks 10 file → Lacks 10 (behind_last best file)
behind_last-Lacks best [] p q = p
behind_last-Lacks best (b ∷ file) p q = elim (Bool-cases (b == 47)) [
  | inl slash ↦ rw slash (behind_last-Lacks file file q.1 q.1)
  | inr other ↦ rw other (behind_last-Lacks best file p q.1)
]

AllDigits-Lacks : (b : Bytes) → AllDigits b → Lacks 10 b
AllDigits-Lacks [] p = tt
AllDigits-Lacks (x ∷ b) p = (λ e. absurd (omega (arith, e, p.0.0)), AllDigits-Lacks b p.1)

-- No newline in the parts of a statement.
pub record IsPlain (s : Statement) : Type 0 where
  pub file : Lacks 10 s.file
  pub func : Lacks 10 s.func
  pub time : Lacks 10 s.time
  pub thread : Lacks 10 s.thread
  pub message : Lacks 10 s.message

abbrev pub AllPlain : List Statement → Type 0
AllPlain [] = Unit
AllPlain (s ∷ ss) = IsPlain s × AllPlain ss

level-Lacks : (l : LogLevel) → Lacks 10 (log_level_name l)
unfolding log_level_name
level-Lacks trace = omega arith
level-Lacks debug = omega arith
level-Lacks info = omega arith
level-Lacks warn = omega arith
level-Lacks error = omega arith
level-Lacks fatal = omega arith

func-Lacks :
    (b : Bool) (func : Bytes) → Lacks 10 func → Lacks 10 (if b then codes " " ++ func else [])
func-Lacks true func p = ((λ e. cc), p)
func-Lacks false func p = tt

text-Lacks : (s : Statement) → IsPlain s → Lacks 10 (text s)
unfolding text base_name
text-Lacks s p = Lacks-append 10 s.time _ p.time (
    Lacks-append 10 s.thread _ p.thread (
      (λ e. cc),
      Lacks-append 10 (log_level_name s.level) _ (level-Lacks s.level) (
          Lacks-append 10 (place s) _
            (Lacks-append 10 (base_name s.file) _ (behind_last-Lacks s.file s.file p.file p.file) (
              Lacks-append 10 (if leb (rank s.level) 1 then codes " " ++ s.func else []) _
                (func-Lacks (leb (rank s.level) 1) s.func p.func)
                ((λ e. cc), AllDigits-Lacks (to_string s.line) (to_string-AllDigits s.line))))
            ((λ e. cc), ((λ e. cc), ((λ e. cc), ((λ e. cc), p.message))))),
    ))

abbrev pub any_fatal : List Statement → Bool
any_fatal [] = false
any_fatal (s ∷ ss) = let rest = any_fatal ss in if kills s.level then true else rest

-- Statements whose parts have no newline, under any level: the text that was put out is read back,
-- line by line, as exactly the lines of the statements whose level passes, in their order and up to
-- the first FATAL one, and the process ends just where one of those is FATAL. Under the level TRACE
-- every statement passes; DEBUG, INFO and above hide what stands before them, but WARN, ERROR and
-- FATAL pass always. A line has the time, the thread, the level padded to six characters, the file
-- behind its last slash, with the function for TRACE and DEBUG, the number of the line and the text.
pub log_all-shown :
    (g : LogLevel) (ss : List Statement)
    → AllPlain ss
    → (read_lines [] (log_all g ss).0 ≡ map line_of (shown g ss))
      × ((log_all g ss).1 ≡ any_fatal (shown g ss))
unfolding log_all log is_logged read_lines
log_all-shown g [] all = (refl, refl)
log_all-shown g (s ∷ ss) all =
    let (lines, over) = log_all-shown g ss all.1 in
    let first = text-Lacks s all.0 in
    let alone = read_lines-line [] (text s) [] first in
    elim (Bool-cases (passes g s.level)) [
      | inr hidden ↦ rw (passes_lem g s.level, hidden) (lines, over)
      | inl out ↦ elim (Bool-cases (kills s.level)) [
        | inl last ↦
            rw (passes_lem g s.level, kills_lem s.level, out, last)
              (alone ∙ ap (λ (x : Bytes). x ∷ []) (text_lem s), refl)
        | inr more ↦
            rw (passes_lem g s.level, kills_lem s.level, out, more)
              (
                ap (read_lines []) (append_assoc (text s) (10 ∷ []) (log_all g ss).0)
                    ∙ read_lines-line [] (text s) (log_all g ss).0 first
                    ∙ ap₂ (λ (x : Bytes) (xs : List Bytes). x ∷ xs) (text_lem s) lines,
                over,
              )
      ]
    ]
