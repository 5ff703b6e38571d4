-- ===== src/MemoryDb/Answers.antt =====
-- What examples/memdb.cc answers, request after request and on any reads.
use serverlite.Base.{
  ℕ, ◌≡◌, ◌≢◌, refl, arith, Bool, true, ◌&&◌, Option, some, none, List, [], ◌∷◌, ◌++◌, Bytes, codes,
  bytes_eq, map, ◌==◌, Bool-cases, inl, inr, ◌⊎◌,
}
use serverlite.Base.Words.{ℤ, pos}
use serverlite.Base.Options.{◌>>=◌}
use serverlite.MemoryDb.{
  Context, new_context, kept, kept_by, is_zero, front, Outcome, throws, returns, parse_line, parse,
  Db, crlf, Answer, get_value, execute, State, respond, after, on_message,
}
use serverlite.MemoryDb.Lines.{along, refused_again}
use serverlite.MemoryDb.Requests.{IsRequest, request, parse_one}

-- The calls of onMessage for the reads of a connection, on the buffer, the context and the database
-- that the calls before left: the database at the end, and what each call sent.
pub serve : List Bytes → Db → Bytes → Context → Option (Db × List Bytes)
serve [] db buf c = some (db, [])
serve (r ∷ reads) db buf c = on_message db (buf ++ r) c >>= λ s.
    serve reads s.db s.buffer s.context >>= λ (db', out). some (db', s.sent ∷ out)

-- The answers to requests, each executed on the database that the ones before left.
abbrev pub answers : List (List Bytes) → Db → Db × List Bytes
answers [] db = (db, [])
answers ([] ∷ rs) db = answers rs db
answers ((w ∷ args) ∷ rs) db =
    let a = execute db w args in let (db', out) = answers rs a.db in (db', a.sent ∷ out)

-- Every request can be sent, and none is a GET with no key.
abbrev pub AllServed : List (List Bytes) → Db → Type 0
AllServed [] db = Unit
AllServed ([] ∷ rs) db = ⊥
AllServed ((w ∷ args) ∷ rs) db =
    let a = execute db w args in IsRequest (w ∷ args) × (a.clears ≡ true) × AllServed rs a.db

-- One request in a read, where the context has words already.
on_message-request :
    (db : Db) (ws : List Bytes) (s : ℕ) (cs : List Bytes)
    → IsRequest ws
    → on_message db (request ws) (record { state = s; count = pos 0; length = 0; cmds = cs })
      ≡ respond db [] (record { state = 2; count = pos 0; length = 0; cmds = cs ++ ws })
unfolding on_message
on_message-request db ws s cs h = rw (parse_one ws s cs h, on_message)

-- Requests that can be sent, one in each read, are answered one by one, and in order, as if each was
-- executed on the database that the ones before it left; if none is a GET with no key.
pub serve-requests :
    (rs : List (List Bytes)) (db : Db)
    → AllServed rs db
    → serve (map request rs) db [] new_context ≡ some (answers rs db)
unfolding serve respond
serve-requests [] db h = refl
serve-requests ([] ∷ rs) db h = absurd h
serve-requests ((w ∷ args) ∷ rs) db (h, clears, more) =
    rw (on_message-request db (w ∷ args) 0 [] h, clears)
      (rw (serve-requests rs (execute db w args).db more))

get-IsRequest : IsRequest (codes "GET" ∷ [])
get-IsRequest = (
  (λ e. cc),
  omega arith,
  (((λ e. cc), ((λ e. cc), ((λ e. cc), ((λ e. cc), tt))), omega arith), tt),
)

-- After a GET with no key the words stay in cmds: the next request, whatever it asks, is
-- answered with the value of its first word, and the database is as it was.
wrong_get_shifts :
    (db : Db) (w : Bytes) (args : List Bytes)
    → IsRequest (w ∷ args)
    → serve (request (codes "GET" ∷ []) ∷ request (w ∷ args) ∷ []) db [] new_context
      ≡ some (
        db,
        (codes "-ERR wrong number of arguments for 'get' command" ++ crlf)
            ∷ get_value db (db w)
            ∷ [],
      )
unfolding serve respond execute bytes_eq
wrong_get_shifts db w args h =
    rw (on_message-request db (codes "GET" ∷ []) 0 [] get-IsRequest)
      (rw (on_message-request db (w ∷ args) 2 (codes "GET" ∷ []) h))

-- In state 2 there is a first word.
abbrev pub IsReady : Context → Type 0
IsReady c = c.state ≡ 2 → c.cmds ≢ []

kept_by_state :
    (f : ℤ → Context) (o : Option ℤ) (c : Context)
    → ((n : ℤ) → (f n).state ≡ 1)
    → kept_by f o ≡ kept c
    → c.state ≡ 1
kept_by_state f none c h e = cc
kept_by_state f (some n) c h e = let s = h n in cc

append_some {ℓ} : {A : Type ℓ} (a : List A) (x : A) → (a ++ x ∷ []) ≢ []
append_some [] x e = cc
append_some (y ∷ a) x e = cc

one_not_two : (c : Context) → c.state ≡ 1 → c.state ≢ 2
one_not_two c e two = omega (arith, e, two)

line-IsReady : (line : Bytes) (c c' : Context) → parse_line line c ≡ kept c' → IsReady c'
unfolding parse_line
line-IsReady line c c' e two = elim (Bool-cases (is_zero c.count && front line == 42)) [
  | inl new ↦ absurd (one_not_two c' (kept_by_state _ _ c' (λ n. refl) (rw new at e)) two)
  | inr old ↦ elim (Bool-cases (c.length == 0 && front line == 36)) [
    | inl size ↦
        absurd (one_not_two c' (kept_by_state _ _ c' (λ n. refl) (rw (old, size) at e)) two)
    | inr word ↦ let e' = rw (old, word) at e in λ nil. ground (arith, e', append_some c.cmds line)
  ]
]

abbrev KeepsReady : Context → Outcome → Type 0
KeepsReady c throws = Unit
KeepsReady c (returns ok left c') = IsReady c → IsReady c'

keeps_behind : (c d : Context) (o : Outcome) → KeepsReady d o → IsReady d → KeepsReady c o
keeps_behind c d throws k h = tt
keeps_behind c d (returns ok left c') k h = λ r. k h

List-cases : (ws : List Bytes) → (ws ≡ []) ⊎ ((p : Bytes × List Bytes) × (ws ≡ p.0 ∷ p.1))
List-cases [] = inl refl
List-cases (w ∷ ws) = inr ((w, ws), refl)

Outcome-cases :
    (o : Outcome)
    → (o ≡ throws) ⊎ ((ok : Bool) × (left : Bytes) × (c : Context) × (o ≡ returns ok left c))
Outcome-cases throws = inl refl
Outcome-cases (returns ok left c) = inr (ok, left, c, refl)

after-IsReady :
    (a : Answer) (buf : Bytes) (c : Context) → IsReady c → IsReady (after a buf c).context
after-IsReady a buf c h = elim (Bool-cases a.clears) [
  | inl clears ↦ rw clears (λ two. cc)
  | inr keeps ↦ rw keeps h
]

respond-IsReady :
    (db : Db) (buf : Bytes) (c : Context)
    → IsReady c
    → (s : State) × (respond db buf c ≡ some s) × IsReady s.context
unfolding respond
respond-IsReady db buf c h = elim (Bool-cases (c.state == 2)) [
  | inr other ↦ (record { db = db; buffer = buf; context = c; sent = [] }, rw (other, respond), h)
  | inl two ↦ elim (List-cases c.cmds) [
    | inl nil ↦ absurd (h (ground arith) nil)
    | inr ((w, args), words) ↦ (
      after (execute db w args) buf c,
      simp (two, words, respond),
      after-IsReady (execute db w args) buf c h,
    )
  ]
]

-- From a context that has a first word in state 2, as a new one has, onMessage comes to no failure,
-- unless a number of the input makes std::stoi throw, and leaves such a context: cmds[0] is never
-- read of an empty vector.
pub on_message-IsReady :
    (db : Db) (buf : Bytes) (c : Context)
    → IsReady c
    → (parse buf c ≡ throws) ⊎ ((s : State) × (on_message db buf c ≡ some s) × IsReady s.context)
unfolding on_message
on_message-IsReady db buf c h =
    let ready : KeepsReady c (parse buf c) =
      along {P = λ b d o. KeepsReady d o} (λ b d w r. r) (λ b d. tt)
        (λ b l r d d' w p. λ h two. absurd (one_not_two d' (refused_again l d d' p).1 two))
        (λ b l r d d' o w p s. keeps_behind d d' o s (line-IsReady l d d' p)) buf c in
    elim (Outcome-cases (parse buf c)) [
      | inl failed ↦ inl failed
      | inr (ok, left, c', e) ↦
          let (s, ran, r) = respond-IsReady db left c' ((rw e at ready) h) in
          inr (s, rw (e, on_message) ran, r)
    ]
