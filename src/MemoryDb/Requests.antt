-- ===== src/MemoryDb/Requests.antt =====
-- Requests to examples/memdb.cc as a client writes them, one or more in a read.
use serverlite.Base.{
  ℕ, suc, ◌^◌, ◌<◌, ◌≡◌, ◌≢◌, refl, sym, ap, ◌∙◌, arith, true, false, List, [], ◌∷◌, ◌++◌, Bytes,
  map, concat, length, append_assoc, append-nil, ltb, ==_refl, length-pos, if◌then◌else◌, ◌==◌,
}
use serverlite.Base.Words.{pos}
use serverlite.Base.Digits.{to_string, AllDigits, to_string-AllDigits}
use serverlite.Base.Stoi.{stoi-to_string}
use serverlite.Base.Text.{split_crlf, Lacks, split_crlf-line}
use serverlite.MemoryDb.{
  Context, new_context, kept, returns, parse_line, parse, push_word, is_zero, Db, respond,
  on_message,
}
use serverlite.MemoryDb.Lines.{parse_kept, parse_waits}

-- A word of a request, and a request, that can be sent.
abbrev pub IsWord : Bytes → Type 0
IsWord w = (w ≢ []) × Lacks 13 w × (length w < 2 ^ 31)

abbrev pub AllWords : List Bytes → Type 0
AllWords [] = Unit
AllWords (w ∷ ws) = IsWord w × AllWords ws

abbrev pub IsRequest : List Bytes → Type 0
IsRequest ws = (ws ≢ []) × (length ws < 2 ^ 31) × AllWords ws

abbrev pub AllRequests : List (List Bytes) → Type 0
AllRequests [] = Unit
AllRequests (r ∷ rs) = IsRequest r × AllRequests rs

-- "$<length>\r\n<word>\r\n" for each word.
abbrev pub bulks : List Bytes → Bytes
bulks [] = []
bulks (w ∷ ws) = 36 ∷ (to_string (length w) ++ 13 ∷ 10 ∷ (w ++ 13 ∷ 10 ∷ bulks ws))

abbrev pub request : List Bytes → Bytes
request ws = 42 ∷ (to_string (length ws) ++ 13 ∷ 10 ∷ bulks ws)

AllDigits-Lacks : (s : Bytes) → AllDigits s → Lacks 13 s
AllDigits-Lacks [] h = tt
AllDigits-Lacks (b ∷ s) h = ((λ e. omega (arith, e)), AllDigits-Lacks s h.1)

number-Lacks : (b n : ℕ) → b ≢ 13 → Lacks 13 (b ∷ to_string n)
number-Lacks b n ne = (ne, AllDigits-Lacks (to_string n) (to_string-AllDigits n))

star :
    (n : ℕ) (c : Context)
    → n < 2 ^ 31
    → c.count ≡ pos 0
    → parse_line (42 ∷ to_string n) c ≡ kept (record c { state = 1; count = pos n })
unfolding parse_line
star n c small e = rw (e, stoi-to_string n small)

dollar :
    (n k : ℕ) (c : Context)
    → n < 2 ^ 31
    → c.count ≡ pos (suc k)
    → c.length ≡ 0
    → parse_line (36 ∷ to_string n) c ≡ kept (record c { state = 1; length = n })
unfolding parse_line
dollar n k c small e l = rw (e, l, stoi-to_string n small)

word :
    (w : Bytes) (k : ℕ) (c : Context)
    → w ≢ []
    → c.count ≡ pos (suc k)
    → c.length ≡ length w
    → parse_line w c ≡ kept (push_word w c)
unfolding parse_line
word w k c ne e l =
    let some_bytes = length-pos w ne in
    let longer : ltb 0 (length w) ≡ true = ground arith in
    let not_none : (length w == 0) ≡ false = ground arith in
    rw (e, l, not_none, longer, ==_refl (length w))

-- The state of the context after a list of words or requests: 2, if there is one.
abbrev ends_in {ℓ} : {A : Type ℓ} → ℕ → List A → ℕ
ends_in s [] = s
ends_in s (w ∷ ws) = 2

parse_front :
    (line tail rest : Bytes) (c c' : Context)
    → Lacks 13 line
    → parse_line line c ≡ kept c'
    → parse ((line ++ 13 ∷ 10 ∷ tail) ++ rest) c ≡ parse (tail ++ rest) c'
parse_front line tail rest c c' lacks p =
    let whole = append_assoc line (13 ∷ 10 ∷ tail) rest in
    rw whole (parse_kept _ line (tail ++ rest) c c' (split_crlf-line line (tail ++ rest) lacks) p)

ends_in_two : (ws : List Bytes) → ends_in (if is_zero (pos (length ws)) then 2 else 1) ws ≡ 2
ends_in_two [] = refl
ends_in_two (w ∷ ws) = refl

ends_in_two_still {ℓ} : {A : Type ℓ} (xs : List A) → ends_in 2 xs ≡ 2
ends_in_two_still [] = refl
ends_in_two_still (x ∷ xs) = refl

parse-bulks :
    (ws : List Bytes) (rest : Bytes) (s : ℕ) (cs : List Bytes)
    → AllWords ws
    → parse
        (bulks ws ++ rest)
        (record { state = s; count = pos (length ws); length = 0; cmds = cs })
      ≡ parse rest (record { state = ends_in s ws; count = pos 0; length = 0; cmds = cs ++ ws })
parse-bulks [] rest s cs all = rw (append-nil cs)
parse-bulks (w ∷ ws) rest s cs all =
    let n = length w in
    let left = length ws in
    let (ne, lacks, small) = all.0 in
    let c : Context = record { state = s; count = pos (suc left); length = 0; cmds = cs } in
    parse_front (36 ∷ to_string n) (w ++ 13 ∷ 10 ∷ bulks ws) rest c _
      (number-Lacks 36 n (λ e. omega (arith, e))) (dollar n left c small refl refl)
    ∙ parse_front w (bulks ws) rest (record c { state = 1; length = n }) _ lacks
        (word w left _ ne refl refl)
    ∙ parse-bulks ws rest _ (cs ++ w ∷ []) all.1
    ∙ rw (ends_in_two ws, append_assoc cs (w ∷ []) ws)

-- A whole request in front of the buffer, where no request is under way.
parse-request :
    (ws : List Bytes) (rest : Bytes) (c : Context)
    → IsRequest ws
    → c.count ≡ pos 0
    → c.length ≡ 0
    → parse (request ws ++ rest) c
      ≡ parse rest (record { state = 2; count = pos 0; length = 0; cmds = c.cmds ++ ws })
parse-request [] rest c h e l = absurd (h.0 refl)
parse-request (w ∷ ws) rest c (some_word, few, all) e l =
    let n = length (w ∷ ws) in
    parse_front (42 ∷ to_string n) (bulks (w ∷ ws)) rest c _
      (number-Lacks 42 n (λ e'. omega (arith, e'))) (star n c few e)
    ∙ rw l (parse-bulks (w ∷ ws) rest 1 c.cmds all)

parse-requests :
    (rs : List (List Bytes)) (s : ℕ) (cs : List Bytes)
    → AllRequests rs
    → parse (concat (map request rs)) (record { state = s; count = pos 0; length = 0; cmds = cs })
      ≡ returns true []
          (record { state = ends_in s rs; count = pos 0; length = 0; cmds = cs ++ concat rs })
unfolding split_crlf
parse-requests [] s cs all = rw (append-nil cs) (parse_waits [] _ refl)
parse-requests (r ∷ rs) s cs all =
    parse-request r (concat (map request rs))
      (record { state = s; count = pos 0; length = 0; cmds = cs }) all.0 refl refl
    ∙ parse-requests rs 2 (cs ++ r) all.1
    ∙ rw (ends_in_two_still rs, append_assoc cs r (concat rs))

pub parse_one :
    (ws : List Bytes) (s : ℕ) (cs : List Bytes)
    → IsRequest ws
    → parse (request ws) (record { state = s; count = pos 0; length = 0; cmds = cs })
      ≡ returns true [] (record { state = 2; count = pos 0; length = 0; cmds = cs ++ ws })
parse_one ws s cs h =
    let c : Context = record { state = s; count = pos 0; length = 0; cmds = cs } in
    ap (λ b. parse b c) (sym (append-nil (request ws)))
    ∙ parse-requests (ws ∷ []) s cs (h, tt)
    ∙ rw (append-nil ws)

-- Requests that can be sent and come in one read, on a connection with no request under way, are
-- taken for one: one answer is sent, to the first word, with all the other words of all the
-- requests as its arguments, and nothing is left in the buffer.
on_message_pipelined :
    (db : Db) (r : List Bytes) (rs : List (List Bytes))
    → AllRequests (r ∷ rs)
    → on_message db (concat (map request (r ∷ rs))) new_context
      ≡ respond db [] (record { state = 2; count = pos 0; length = 0; cmds = concat (r ∷ rs) })
unfolding on_message
on_message_pipelined db r rs all = rw (parse-requests (r ∷ rs) 0 [] all, on_message)
