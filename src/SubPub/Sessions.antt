-- ===== src/SubPub/Sessions.antt =====
-- Whole sessions of clients of examples/subpub.cc, as the texts that they send.
use serverlite.Base.{
  ℕ, ◌+◌, ◌-◌, ◌≤◌, ◌≡◌, refl, ap, ◌∙◌, arith, false, Option, some, none, List, [], ◌∷◌, ◌++◌,
  Bytes, codes, length, map, bytes_eq, ltb, ==_ne, length-append, take-append_exact,
  drop-append_exact, drop-append_past,
}
use serverlite.Base.Options.{◌>>=◌}
use serverlite.SubPub.{
  Hub, subscribe, Next, goes_on, returns, publish, unsubscribe, on_data, on_server_message,
  on_server_connection, substr, find_space, message_loop,
}
use serverlite.Base.Text.{split_crlf}
use serverlite.SubPub.Covering.{hub_of}
use serverlite.SubPub.Events.{reads, handle, handle_all}
use serverlite.SubPub.Text.{
  IsPlain, IsPlain-IsLine, IsLine, IsLine-append, strip_plain, then_on, on_server_message-line,
}
use serverlite.SubPub.Delivery.{
  Exact, IsTopic, Request, sub, unsub, leaves, event_of, IsFair, subscribe-Exact, unsubscribe_held,
  goes-Exact,
}

substr_behind : (a b : Bytes) (n : ℕ) → n ≡ length a → substr n (a ++ b) ≡ some b
substr_behind a b n e =
    let total = length-append a b in
    let inside : ltb (length (a ++ b)) n ≡ false = ground arith in
    rw (inside, drop-append_exact n a b e)

on_data_sub :
    (c : ℕ) (t : Bytes) (h : Hub)
    → IsPlain t
    → on_data c (codes "sub:" ++ t) h ≡ some (goes_on (subscribe c t h))
unfolding on_data bytes_eq
on_data_sub c t h p = rw (substr_behind (codes "sub:") t 4 refl, strip_plain t p)

on_data_unsub :
    (c : ℕ) (t : Bytes) (h : Hub)
    → IsPlain t
    → on_data c (codes "unsub:" ++ t) h ≡ unsubscribe c t h
unfolding on_data bytes_eq
on_data_unsub c t h p = rw (substr_behind (codes "unsub:") t 6 refl, strip_plain t p)

find_space-plain : (s rest : Bytes) → IsPlain s → find_space (s ++ 32 ∷ rest) ≡ some (length s)
unfolding find_space
find_space-plain [] rest p = refl
find_space-plain (b ∷ s) rest p =
    rw (==_ne b 32 p.0.2, find_space-plain s rest p.1) (ap some (omega arith))

pub on_data_pub :
    (c : ℕ) (t content : Bytes) (h : Hub)
    → IsPlain t
    → IsPlain content
    → on_data c (codes "pub:" ++ (t ++ 32 ∷ content)) h ≡ some (publish t content h)
unfolding on_data bytes_eq
on_data_pub c t content h p q =
    let s = codes "pub:" ++ t in
    let plain : IsPlain s = (
      ((λ e. cc), (λ e. cc), (λ e. cc)),
      (
        ((λ e. cc), (λ e. cc), (λ e. cc)),
        (((λ e. cc), (λ e. cc), (λ e. cc)), (((λ e. cc), (λ e. cc), (λ e. cc)), p)),
      ),
    ) in
    let above : ltb (length s) 4 ≡ false = ground arith in
    rw (
      find_space-plain s content plain,
      above,
      take-append_exact (length s - 4) t (32 ∷ content) (omega arith),
      drop-append_past (length s + 1) 1 s (32 ∷ content) refl,
      strip_plain t p,
      strip_plain content q,
    )

-- The callback for one read that holds one line.
pub read_line :
    (c : ℕ) (s : Bytes) (h : Hub)
    → IsLine s
    → 5 ≤ length s
    → length s ≤ 100
    → handle (reads c (s ++ 13 ∷ 10 ∷ [])) h ≡ (on_data c s h >>= λ n. some (hub_of n))
unfolding handle split_crlf on_server_message message_loop
read_line c s h p lo hi = rw (on_server_message-line c s [] h p lo hi) (done (on_data c s h))
  where
    done : (o : Option Next) → (then_on c [] o >>= λ r. some r.0) ≡ (o >>= λ n. some (hub_of n))
    done none = refl
    done (some (goes_on h')) = refl
    done (some (returns h')) = refl

-- In every state that they meet, the requests are fair.
abbrev pub AllFair : List Request → Hub → Type 0
AllFair [] h = Unit
AllFair (r ∷ rs) h =
    IsFair r h × elim (handle (event_of r) h) [ none ↦ Unit | some h' ↦ AllFair rs h' ]

sub-IsLine : IsLine (codes "sub:")
sub-IsLine = (
  ((λ e. cc), (λ e. cc)),
  (((λ e. cc), (λ e. cc)), (((λ e. cc), (λ e. cc)), (((λ e. cc), (λ e. cc)), tt))),
)

unsub-IsLine : IsLine (codes "unsub:")
unsub-IsLine = (
  ((λ e. cc), (λ e. cc)),
  (
    ((λ e. cc), (λ e. cc)),
    (
      ((λ e. cc), (λ e. cc)),
      (((λ e. cc), (λ e. cc)), (((λ e. cc), (λ e. cc)), (((λ e. cc), (λ e. cc)), tt))),
    ),
  ),
)

pub pub-IsLine : IsLine (codes "pub:")
pub-IsLine = (
  ((λ e. cc), (λ e. cc)),
  (((λ e. cc), (λ e. cc)), (((λ e. cc), (λ e. cc)), (((λ e. cc), (λ e. cc)), tt))),
)

short-IsLine :
    (s t : Bytes)
    → IsLine s
    → 4 ≤ length s
    → length s ≤ 6
    → IsTopic t
    → IsLine (s ++ t) × (5 ≤ length (s ++ t)) × (length (s ++ t) ≤ 100)
short-IsLine s t line lo hi (plain, some_text, short) =
    let total = length-append s t in
    (IsLine-append s t line (IsPlain-IsLine t plain), omega (arith, total), omega (arith, total))

pub read_sub :
    (c : ℕ) (t : Bytes) (h : Hub)
    → IsTopic t
    → handle (event_of (sub c t)) h ≡ some (subscribe c t h)
read_sub c t h topic =
    let (line, lo, hi) =
      short-IsLine (codes "sub:") t sub-IsLine (omega arith) (omega arith) topic in
    read_line c (codes "sub:" ++ t) h line lo hi ∙ rw (on_data_sub c t h topic.0)

pub read_unsub :
    (c : ℕ) (t : Bytes) (h : Hub)
    → IsTopic t
    → handle (event_of (unsub c t)) h ≡ (unsubscribe c t h >>= λ n. some (hub_of n))
read_unsub c t h topic =
    let (line, lo, hi) =
      short-IsLine (codes "unsub:") t unsub-IsLine (omega arith) (omega arith) topic in
    read_line c (codes "unsub:" ++ t) h line lo hi ∙ rw (on_data_unsub c t h topic.0)

fair_step :
    (r : Request) (h : Hub)
    → Exact h
    → IsFair r h
    → (h' : Hub) × (handle (event_of r) h ≡ some h') × Exact h'
unfolding handle on_server_connection
fair_step (leaves c) h v fair = goes-Exact c h v
fair_step (sub c t) h v (topic, fresh) =
    (subscribe c t h, read_sub c t h topic, subscribe-Exact c t h v fresh)
fair_step (unsub c t) h v (topic, held) =
    let (h', left, v') = unsubscribe_held c t h v held in (h', read_unsub c t h topic ∙ rw left, v')

pub fair_all :
    (rs : List Request) (h : Hub)
    → Exact h
    → AllFair rs h
    → (h' : Hub) × (handle_all (map event_of rs) h ≡ some h') × Exact h'
unfolding handle_all
fair_all [] h v fair = (h, refl, v)
fair_all (r ∷ rs) h v (fair, more) =
    let (h1, ran, v1) = fair_step r h v fair in
    let (h', all, v') = fair_all rs h1 v1 (rw ran at more) in (h', rw ran all, v')
