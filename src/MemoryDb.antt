-- ===== src/MemoryDb.antt =====
-- examples/memdb.cc: a server for requests of the form "*<count>\r\n$<length>\r\n<word>\r\n...". The
-- model is of one connection and the database; what the server sends is listed. An exception of
-- std::stoi leaves onMessage, and nothing catches it: the program ends. The counter of words still
-- to come is not taken below the least int.
pub mod Lines
pub mod Requests
pub mod Answers
mod Tests
use serverlite.Base.{
  ℕ, zero, suc, ◌+◌, ◌-◌, ◌^◌, Bool, true, false, not, ◌&&◌, ◌||◌, Option, some, none, List, [],
  ◌∷◌, ◌++◌, Bytes, codes, length, drop, bytes_eq, if◌then◌else◌, ltb, ◌==◌,
}
use serverlite.Base.Digits.{to_string}
use serverlite.Base.Options.{◌>>=◌}
use serverlite.Base.Stoi.{stoi}
use serverlite.Base.Text.{split_crlf}
use serverlite.Base.Words.{ℤ, pos, negsuc}

pub record Context : Type 0 where
  pub state : ℕ
  -- The words still to come.
  pub count : ℤ
  -- The length announced for the next word; 0 if none is.
  pub length : ℕ
  pub cmds : List Bytes

abbrev pub new_context : Context
new_context = record { state = 0; count = pos 0; length = 0; cmds = [] }

-- int to size_t.
abbrev pub to_size : ℤ → ℕ
to_size (pos n) = n
to_size (negsuc n) = 2 ^ 64 - (n + 1)

-- `context->count--`.
abbrev pub pred : ℤ → ℤ
pred (pos zero) = negsuc zero
pred (pos (suc n)) = pos n
pred (negsuc n) = negsuc (suc n)

abbrev pub is_zero : ℤ → Bool
is_zero (pos zero) = true
is_zero _ = false

-- str[0]: the terminating NUL of an empty string.
abbrev pub front : Bytes → ℕ
front [] = 0
front (b ∷ bs) = b

-- What parse does with one line.
pub data Parsed : Type 0 where
  threw : Parsed
  refused kept : Context → Parsed

abbrev pub kept_by : (ℤ → Context) → Option ℤ → Parsed
kept_by f none = threw
kept_by f (some n) = kept (f n)

-- The branch on `context->length > 0`, where the line has that length.
abbrev pub push_word : Bytes → Context → Context
push_word str c = record {
  state = if is_zero (pred c.count) then 2 else 1;
  count = pred c.count;
  length = 0;
  cmds = c.cmds ++ str ∷ [];
}

-- One round of the loop of parse, on the line `str`.
pub parse_line : Bytes → Context → Parsed
parse_line str context =
    let c = record context { state = 1 } in
    if is_zero c.count && front str == 42
    then kept_by (λ n. record c { count = n }) (stoi (drop 1 str))
    else if c.length == 0 && front str == 36
    then kept_by (λ n. record c { length = to_size n }) (stoi (drop 1 str))
    else if ltb 0 c.length
    then (if length str == c.length then kept (push_word str c) else refused c)
    else kept c

-- What parse returns, with the buffer and the context as it leaves them.
pub data Outcome : Type 0 where
  throws : Outcome
  returns : Bool → Bytes → Context → Outcome

-- The loop, on fuel. A line that is refused stays in the buffer.
pub parse_loop : ℕ → Bytes → Context → Outcome
unfolding parse_line
parse_loop zero buf c = returns true buf c
parse_loop (suc fuel) buf c = elim (split_crlf buf) [
  | none ↦ returns true buf c
  | some (line, rest) ↦ elim (parse_line line c) [
    | threw ↦ throws
    | refused c' ↦ returns false buf c'
    | kept c' ↦ parse_loop fuel rest c'
  ]
]

pub parse : Bytes → Context → Outcome
unfolding parse_loop
parse buf c = parse_loop (suc (length buf)) buf c

-- db_, as a function.
abbrev pub Db : Type 0
Db = Bytes → Option Bytes

abbrev pub put : Bytes → Bytes → Db → Db
put k v db j = if bytes_eq k j then some v else db j

abbrev pub remove : Bytes → Db → Db
remove k db j = if bytes_eq k j then none else db j

-- The loop over the keys of DEL: the database, and delCount.
pub delete_all : List Bytes → Db → ℕ → Db × ℕ
delete_all [] db n = (db, n)
delete_all (k ∷ ks) db n = elim (db k) [
  | none ↦ delete_all ks db n
  | some v ↦ delete_all ks (remove k db) (n + 1)
]

abbrev pub crlf : Bytes
crlf = 13 ∷ 10 ∷ []

abbrev pub is_command : Bytes → Bytes → Bytes → Bool
is_command upper lower word = bytes_eq word upper || bytes_eq word lower

-- The branches on cmds[0]: the database, what is sent, and whether the branch goes on to clear the
-- context; the wrong GET returns early.
pub record Answer : Type 0 where
  pub db : Db
  pub sent : Bytes
  pub clears : Bool

abbrev pub get_value : Db → Option Bytes → Bytes
get_value db none = codes "$-1" ++ crlf
get_value db (some v) = codes "+" ++ (v ++ crlf)

get_answer : Db → List Bytes → Answer
get_answer db [] = record {
  db = db;
  sent = codes "-ERR wrong number of arguments for 'get' command" ++ crlf;
  clears = false;
}
get_answer db (k ∷ args) = record { db = db; sent = get_value db (db k); clears = true }

set_answer : Db → List Bytes → Answer
set_answer db (k ∷ v ∷ args) = record { db = put k v db; sent = codes "+ok" ++ crlf; clears = true }
set_answer db _ = record {
  db = db;
  sent = codes "-ERR wrong number of arguments for 'set' command" ++ crlf;
  clears = true;
}

del_answer : Db → List Bytes → Answer
unfolding delete_all
del_answer db args =
    let (db', count) = delete_all args db 0 in
    record { db = db'; sent = codes ":" ++ (to_string count ++ crlf); clears = true }

as_lines : List Bytes → Bytes
as_lines [] = []
as_lines (s ∷ ss) = s ++ (crlf ++ as_lines ss)

command_text : Bytes
unfolding as_lines
command_text = as_lines (
    codes "*7"
    ∷ codes "$11"
    ∷ codes "sunionstore"
    ∷ codes ":-3"
    ∷ codes "*2"
    ∷ codes "+write"
    ∷ codes "+denyoom"
    ∷ codes ":1"
    ∷ codes ":-1"
    ∷ codes ":1"
    ∷ codes "*3"
    ∷ codes "+@write"
    ∷ codes "+@set"
    ∷ codes "+@slow"
    ∷ [])

pub execute : Db → Bytes → List Bytes → Answer
unfolding get_answer set_answer del_answer command_text
execute db word args =
    if bytes_eq word (codes "COMMAND")
    then record { db = db; sent = command_text; clears = true }
    else if is_command (codes "GET") (codes "get") word
    then get_answer db args
    else if is_command (codes "SET") (codes "set") word
    then set_answer db args
    else if is_command (codes "DEL") (codes "del") word
    then del_answer db args
    else record { db = db; sent = codes "-ERR unknown command " ++ (word ++ crlf); clears = true }

-- What a call of onMessage leaves: the database, the buffer, the context and what was sent.
pub record State : Type 0 where
  pub db : Db
  pub buffer : Bytes
  pub context : Context
  pub sent : Bytes

abbrev pub after : Answer → Bytes → Context → State
after a buf c = record {
  db = a.db;
  buffer = buf;
  context = if a.clears then record c { state = 0; cmds = [] } else c;
  sent = a.sent;
}

-- onMessage. none: parse throws, or cmds[0] is read of an empty vector.
pub respond : Db → Bytes → Context → Option State
unfolding execute
respond db buf c =
    if c.state == 2
    then elim c.cmds [ [] ↦ none | w ∷ args ↦ some (after (execute db w args) buf c) ]
    else some (record { db = db; buffer = buf; context = c; sent = [] })

pub on_message : Db → Bytes → Context → Option State
unfolding parse respond
on_message db buf c = elim (parse buf c) [ throws ↦ none | returns ok buf' c' ↦ respond db buf' c' ]

-- onConnection: the context that it makes, and whether it quits the loop.
abbrev pub on_connection : Bool → Option Context × Bool
on_connection up = if up then (some new_context, false) else (none, true)
