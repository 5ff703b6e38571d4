-- ===== src/SubPub/Receiving.antt =====
-- onClientMessage of src/examples/subpub.cc: a subscriber reads what the server sends. Its loop runs on
-- fuel, a turn each.
pub mod Counting
mod Tests
use serverlite.Base.{
  ℕ, zero, suc, ◌+◌, ◌≡◌, ◌≢◌, refl, sym, ap, ◌∙◌, arith, Bool, true, false, not, ◌||◌, ◌&&◌,
  Option, some, none, List, [], ◌∷◌, ◌++◌, Bytes, codes, length, take, drop, bytes_eq,
  if◌then◌else◌, ltb, ◌==◌, drop-append_past, take-append_exact, Bool-cases, inl, inr,
}
use serverlite.Base.Options.{◌>>=◌}
use serverlite.Base.Text.{split_crlf, Lacks}
use serverlite.SubPub.{Taken, get_message, strip, bad_length, find_end}

-- The variables of the loop: the buffer, errcode, and g_receiveCount.
pub record Client : Type 0 where
  pub buffer : Bytes
  pub errcode : ℕ
  pub receive_count : ℕ

abbrev pub is_found : Option (Bytes × Bytes) → Bool
is_found none = false
is_found (some r) = true

abbrev pub has_line : Bytes → Bool
has_line buffer = is_found (split_crlf buffer)

-- data.find_first_of(':').
pub find_colon : Bytes → Option ℕ
find_colon [] = none
find_colon (b ∷ bs) =
    let later = find_colon bs in if b == 58 then some 0 else (later >>= λ i. some (i + 1))

pub data Turn : Type 0 where
  ends assert_fails : Turn
  goes_on : Client → Turn

-- The asserts on the messages of the two topics.
pub is_expected : Bytes → Bytes → Bool
is_expected topic msg =
    if bytes_eq topic (codes "foo")
    then bytes_eq msg (codes "hello")
    else if bytes_eq topic (codes "bar")
    then bytes_eq msg (codes "world")
    else true

abbrev pub take_message : Bytes → Option ℕ → Client → Turn
take_message text none c = goes_on c
take_message text (some pos) c =
    if is_expected (strip (take pos text)) (strip (drop (pos + 1) text))
    then goes_on (record c { receive_count = c.receive_count + 1 })
    else assert_fails

-- The body of the loop, behind its condition.
pub turn : Client → Turn
unfolding find_colon is_expected
turn c =
    let t = get_message c.buffer in
    if not (has_line c.buffer)
    then ends
    else if c.errcode == 2
    then goes_on c
    else take_message t.text (find_colon t.text)
        (record c { buffer = t.buffer; errcode = t.errcode })

-- What a call of onClientMessage comes to.
pub data Outcome : Type 0 where
  returned : Client → Outcome
  aborted : Outcome

abbrev follow : (Client → Option Outcome) → Client → Turn → Option Outcome
follow again c ends = some (returned c)
follow again c assert_fails = some aborted
follow again c (goes_on d) = again d

pub loop : ℕ → Client → Option Outcome
unfolding turn
loop zero c = none
loop (suc n) c = follow (loop n) c (turn c)

-- onClientMessage: errcode is 0 at first.
pub on_client_message : ℕ → Bytes → ℕ → Option Outcome
unfolding loop
on_client_message fuel buffer count =
    loop fuel (record { buffer = buffer; errcode = 0; receive_count = count })

-- onClientConnection: what is sent, whose second half goes to a connection that is down.
abbrev pub on_client_connection : Bool → List Bytes
on_client_connection up =
    if up
    then (codes "sub:foo" ++ 13 ∷ 10 ∷ []) ∷ (codes "sub:bar" ++ 13 ∷ 10 ∷ []) ∷ []
    else (codes "unsub:foo" ++ 13 ∷ 10 ∷ []) ∷ (codes "unsub:bar" ++ 13 ∷ 10 ∷ []) ∷ []
