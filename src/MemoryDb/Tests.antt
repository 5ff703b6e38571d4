-- ===== src/MemoryDb/Tests.antt =====
-- Runs of examples/memdb.cc.
use serverlite.Base.{
  ℕ, ◌≡◌, ◌≢◌, ◌⊎◌, refl, arith, true, false, some, none, List, [], ◌∷◌, ◌++◌, Bytes, codes, map,
  bytes_eq,
}
use serverlite.Base.Words.{pos}
use serverlite.Base.Digits.{to_string}
use serverlite.Base.Stoi.{stoi}
use serverlite.Base.Text.{split_crlf}
use serverlite.MemoryDb.{
  Context, new_context, throws, returns, parse, Db, crlf, execute, State, on_message,
}
use serverlite.MemoryDb.Requests.{IsWord, IsRequest, request}
use serverlite.MemoryDb.Answers.{serve, answers, serve-requests, IsReady, on_message-IsReady}

abbrev empty : Db
empty k = none

abbrev set_request : List Bytes
set_request = codes "SET" ∷ codes "k" ∷ codes "v" ∷ []

abbrev get_request : List Bytes
get_request = codes "GET" ∷ codes "k" ∷ []

abbrev del_request : List Bytes
del_request = codes "DEL" ∷ codes "k" ∷ codes "j" ∷ []

-- A request as it stands on the wire.
get_text :
    request get_request
    ≡ codes "*2"
      ++ (crlf
          ++ (codes "$3"
              ++ (crlf
                  ++ (codes "GET" ++ (crlf ++ (codes "$1" ++ (crlf ++ (codes "k" ++ crlf))))))))
unfolding to_string
get_text = refl

-- Set, read, delete, read again.
stored :
    (answers (set_request ∷ get_request ∷ del_request ∷ get_request ∷ []) empty).1
    ≡ (codes "+ok" ++ crlf)
      ∷ (codes "+v" ++ crlf)
      ∷ (codes ":1" ++ crlf)
      ∷ (codes "$-1" ++ crlf)
      ∷ []
unfolding execute bytes_eq to_string
stored = refl

-- A GET of the empty key, as a client writes it: the empty word is never pushed.
empty_word :
    parse (request (codes "GET" ∷ [] ∷ [])) new_context
    ≡ returns true [] (record { state = 1; count = pos 1; length = 0; cmds = codes "GET" ∷ [] })
unfolding parse to_string stoi split_crlf
empty_word = refl

three_letters : (a b c : ℕ) → a ≢ 13 → b ≢ 13 → c ≢ 13 → IsWord (a ∷ b ∷ c ∷ [])
three_letters a b c p q r = ((λ e. cc), (p, (q, (r, tt))), omega arith)

one_letter : (a : ℕ) → a ≢ 13 → IsWord (a ∷ [])
one_letter a p = ((λ e. cc), (p, tt), omega arith)

set-IsRequest : IsRequest set_request
set-IsRequest = (
  (λ e. cc),
  omega arith,
  (
    three_letters 83 69 84 (λ e. cc) (λ e. cc) (λ e. cc),
    (one_letter 107 (λ e. cc), (one_letter 118 (λ e. cc), tt)),
  ),
)

get-IsRequest : IsRequest get_request
get-IsRequest = (
  (λ e. cc),
  omega arith,
  (three_letters 71 69 84 (λ e. cc) (λ e. cc) (λ e. cc), (one_letter 107 (λ e. cc), tt)),
)

-- The request to set cut behind the word SET.
abbrev first_read : Bytes
first_read = codes "*3" ++ (crlf ++ (codes "$3" ++ (crlf ++ (codes "SET" ++ crlf))))

abbrev second_read : Bytes
second_read =
    codes "$1" ++ (crlf ++ (codes "k" ++ (crlf ++ (codes "$1" ++ (crlf ++ (codes "v" ++ crlf))))))

abbrev under_way : Context
under_way = record { state = 1; count = pos 2; length = 0; cmds = codes "SET" ∷ [] }

first_read_done : parse first_read new_context ≡ returns true [] under_way
unfolding parse split_crlf stoi
first_read_done = refl

-- A word of two characters where three were announced.
abbrev wrong_word : Bytes
wrong_word = codes "ab" ++ crlf

abbrev refusing : Context
refusing = record { state = 1; count = pos 1; length = 3; cmds = [] }

wrong_word_refused :
    parse (codes "*1" ++ (crlf ++ (codes "$3" ++ (crlf ++ wrong_word)))) new_context
    ≡ returns false wrong_word refusing
unfolding parse split_crlf stoi
wrong_word_refused = refl

serve-requests_example :
    serve (map request (set_request ∷ get_request ∷ [])) empty [] new_context
    ≡ some (answers (set_request ∷ get_request ∷ []) empty)
unfolding execute bytes_eq
serve-requests_example =
    serve-requests (set_request ∷ get_request ∷ []) empty
      (set-IsRequest, refl, (get-IsRequest, refl, tt))

new_context-IsReady : IsReady new_context
new_context-IsReady e = absurd (cc e)

on_message-IsReady_example :
    (parse (codes "*1\r\n") new_context ≡ throws)
    ⊎ ((s : State) × (on_message empty (codes "*1\r\n") new_context ≡ some s) × IsReady s.context)
on_message-IsReady_example =
    on_message-IsReady empty (codes "*1\r\n") new_context new_context-IsReady
