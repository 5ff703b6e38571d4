-- ===== src/SubPub.antt =====
-- The server of examples/subpub.cc: the topics, who listens to them, and the lines of the protocol.
-- Each callback is one step: the mutex covers what it does to the topics, but for one test. A set of
-- topics is the list of its elements. `none`: an exception of substr, or an erase at end().
pub mod Topics
pub mod Covering
pub mod Events
pub mod Text
pub mod Delivery
pub mod Sessions
pub mod Publishing
pub mod Errors
pub mod Receiving
mod Tests
use serverlite.Base.{
  ℕ, zero, suc, ◌+◌, ◌-◌, Bool, true, false, ◌&&◌, ◌||◌, Option, some, none, List, [], ◌∷◌, ◌++◌,
  Bytes, codes, length, take, drop, bytes_eq, if◌then◌else◌, ltb, ◌==◌, map,
}
use serverlite.Base.Options.{◌>>=◌}
use serverlite.Base.Text.{split_crlf}

-- The characters that strip takes off.
abbrev pub is_blank : ℕ → Bool
is_blank b = (b == 13 || b == 10) || b == 32

abbrev pub strip_front : Bytes → Bytes
strip_front [] = []
strip_front (b ∷ bs) = let rest = strip_front bs in if is_blank b then rest else b ∷ bs

abbrev pub cons_kept : ℕ → Bytes → Bytes
cons_kept b [] = if is_blank b then [] else b ∷ []
cons_kept b (c ∷ cs) = b ∷ c ∷ cs

abbrev pub strip_back : Bytes → Bytes
strip_back [] = []
strip_back (b ∷ bs) = cons_kept b (strip_back bs)

pub strip : Bytes → Bytes
strip s = strip_back (strip_front s)

-- find_first_of("\r\n"): either of the two characters.
abbrev pub is_end : ℕ → Bool
is_end b = b == 13 || b == 10

pub find_end : Bytes → Option ℕ
find_end [] = none
find_end (b ∷ bs) =
    let later = find_end bs in if is_end b then some 0 else (later >>= λ i. some (i + 1))

-- getMessage: the data, errcode, and the buffer.
pub record Taken : Type 0 where
  pub text : Bytes
  pub errcode : ℕ
  pub buffer : Bytes

abbrev pub bad_length : Bytes → Bool
bad_length text = ltb 100 (length text) || ltb (length text) 5

abbrev pub taken_at : Bytes → Option ℕ → Taken
taken_at buffer none = record { text = []; errcode = 1; buffer = [] }
taken_at buffer (some pos) =
    let text = take pos buffer in
    record {
      text = text;
      errcode = if bad_length text then 2 else 0;
      buffer = drop (pos + 2) buffer;
    }

pub get_message : Bytes → Taken
unfolding find_end
get_message buffer = taken_at buffer (find_end buffer)

-- The server: conns, the sets of topics in the contexts of the connections, the lines that were
-- sent, with whom they went to, and the connections that forceClose was called on.
pub record Hub : Type 0 where
  pub conns : Bytes → Option (List ℕ)
  pub topics : ℕ → List Bytes
  pub sent : List (ℕ × Bytes)
  pub closing : List ℕ

-- conns[topic], as a value.
abbrev pub listeners : Hub → Bytes → List ℕ
listeners h t = elim (h.conns t) [ none ↦ [] | some l ↦ l ]

abbrev pub set_listeners : Bytes → List ℕ → Hub → Hub
set_listeners t l h = record h { conns = λ u. if bytes_eq t u then some l else h.conns u }

abbrev pub set_topics : ℕ → List Bytes → Hub → Hub
set_topics c ts h = record h { topics = λ d. if c == d then ts else h.topics d }

-- insert and erase of std::set.
abbrev pub insert_topic : Bytes → List Bytes → List Bytes
insert_topic t [] = t ∷ []
insert_topic t (u ∷ us) = let rest = insert_topic t us in if bytes_eq u t then u ∷ us else u ∷ rest

abbrev pub erase_topic : Bytes → List Bytes → List Bytes
erase_topic t [] = []
erase_topic t (u ∷ us) = let rest = erase_topic t us in if bytes_eq u t then rest else u ∷ rest

-- erase(std::find(...)) on a vector of connections.
pub erase_conn : ℕ → List ℕ → Option (List ℕ)
erase_conn c [] = none
erase_conn c (d ∷ ds) =
    let rest = erase_conn c ds in if d == c then some ds else (rest >>= λ r. some (d ∷ r))

-- The branch for "sub".
pub subscribe : ℕ → Bytes → Hub → Hub
subscribe c t h =
    set_listeners t (listeners h t ++ c ∷ []) (set_topics c (insert_topic t (h.topics c)) h)

abbrev pub line_to : Bytes → Bytes → Bytes
line_to t content = t ++ (58 ∷ (content ++ 13 ∷ 10 ∷ []))

-- What the branches do next: go on with the buffer, or return.
pub data Next : Type 0 where
  goes_on returns : Hub → Next

-- The branch for "pub".
abbrev pub publish_to : Bytes → Bytes → Hub → Option (List ℕ) → Next
publish_to t content h none = returns h
publish_to t content h (some l) =
    goes_on (record h { sent = h.sent ++ map (λ c. (c, line_to t content)) l })

pub publish : Bytes → Bytes → Hub → Next
publish t content h = publish_to t content h (h.conns t)

-- The branch for "unsub".
abbrev pub unsubscribe_from : ℕ → Bytes → Hub → Option (List ℕ) → Option Next
unsubscribe_from c t h none = some (returns h)
unsubscribe_from c t h (some l) = erase_conn c l >>= λ l'. some (goes_on (set_listeners t l' h))

pub unsubscribe : ℕ → Bytes → Hub → Option Next
unfolding erase_conn
unsubscribe c t h = unsubscribe_from c t (set_topics c (erase_topic t (h.topics c)) h) (h.conns t)

-- substr(n), which throws behind the end.
abbrev pub substr : ℕ → Bytes → Option Bytes
substr n s = if ltb (length s) n then none else some (drop n s)

-- data.find_first_of(' ').
pub find_space : Bytes → Option ℕ
find_space [] = none
find_space (b ∷ bs) =
    let later = find_space bs in if b == 32 then some 0 else (later >>= λ i. some (i + 1))

-- substr(4, pos - 4) and substr(pos + 1, ...): a pos below 4 wraps around to the end of the data,
-- and npos + 1 is 0.
abbrev pub topic_to : Bytes → Option ℕ → Bytes
topic_to text none = drop 4 text
topic_to text (some pos) = if ltb pos 4 then drop 4 text else take (pos - 4) (drop 4 text)

abbrev pub content_from : Bytes → Option ℕ → Bytes
content_from text none = text
content_from text (some pos) = drop (pos + 1) text

-- The branches of the loop of onServerMessage on the data of a line.
pub on_data : ℕ → Bytes → Hub → Option Next
unfolding strip subscribe publish unsubscribe find_space
on_data c text h =
    if bytes_eq (take 3 text) (codes "sub")
    then (substr 4 text >>= λ t. some (goes_on (subscribe c (strip t) h)))
    else if bytes_eq (take 3 text) (codes "pub")
    then some (
        publish (strip (topic_to text (find_space text)))
          (strip (content_from text (find_space text))) h)
    else if bytes_eq (take 5 text) (codes "unsub")
    then (substr 6 text >>= λ t. unsubscribe c (strip t) h)
    else some (goes_on (record h { closing = h.closing ++ c ∷ [] }))

-- One round of the loop, on the line that getMessage takes.
pub on_taken : ℕ → Taken → Hub → Option Next
unfolding on_data
on_taken c m h = if m.errcode == 2 then some (goes_on h) else on_data c m.text h

-- onServerMessage, on fuel: the server and the buffer.
pub message_loop : ℕ → ℕ → Bytes → Hub → Option (Hub × Bytes)
unfolding get_message on_taken
message_loop zero c buffer h = some (h, buffer)
message_loop (suc fuel) c buffer h = elim (split_crlf buffer) [
  | none ↦ some (h, buffer)
  | some _ ↦
      let m = get_message buffer in
      elim (on_taken c m h) [
        | none ↦ none
        | some (goes_on h') ↦ message_loop fuel c m.buffer h'
        | some (returns h') ↦ some (h', m.buffer)
      ]
]

pub on_server_message : ℕ → Bytes → Hub → Option (Hub × Bytes)
unfolding message_loop
on_server_message c buffer h = message_loop (suc (length buffer)) c buffer h

-- The loop of onServerConnection over the topics of a connection that went down.
pub leave : ℕ → List Bytes → Hub → Option Hub
unfolding erase_conn
leave c [] h = some h
leave c (t ∷ ts) h = erase_conn c (listeners h t) >>= λ l. leave c ts (set_listeners t l h)

-- onServerConnection. The context of a connection that went down stays as it is.
pub on_server_connection : Bool → ℕ → Hub → Option Hub
unfolding leave
on_server_connection true c h = some (set_topics c [] h)
on_server_connection false c h = leave c (h.topics c) h

-- A connection that nothing holds any more is destroyed, and its context with it.
abbrev pub forget : ℕ → Hub → Hub
forget c h = set_topics c [] h
