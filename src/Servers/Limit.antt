-- ===== src/Servers/Limit.antt =====
-- src/examples/max_connection.cc: the server that closes a connection beyond kMaxConnections_. Its
-- connections are numbers. connectionCallback comes once with connected() for a connection that is
-- established, and once without when it is closed, by its peer or as forceClose asked.
use serverlite.Base.{
  ℕ, suc, zero, ◌+◌, ◌≤◌, Bool, true, false, Option, some, none, List, [], ◌∷◌, length,
  if◌then◌else◌, ◌==◌, ltb, subst, ◌≡◌, refl, ap, arith, Option-cases, Bool-cases, inl, inr,
}
use serverlite.Base.Words.{ℤ, pos, negsuc, int_gt}

abbrev pub increment : ℤ → ℤ
increment (pos n) = pos (suc n)
increment (negsuc zero) = pos 0
increment (negsuc (suc n)) = negsuc n

abbrev pub decrement : ℤ → ℤ
decrement (pos (suc n)) = pos n
decrement (pos zero) = negsuc 0
decrement (negsuc n) = negsuc (suc n)

-- onConnection: numConnected_, and whether forceClose is called; `max` is kMaxConnections_, where that
-- is not negative.
pub on_connection : ℕ → Bool → ℤ → ℤ × Bool
on_connection max up num =
    if up then (increment num, int_gt (increment num) max) else (decrement num, false)

-- The server, with the connections that are up and those of them that it told to close.
pub record Server : Type 0 where
  pub num_connected : ℤ
  pub serving : List ℕ
  pub closing : List ℕ

abbrev pub make_server : Server
make_server = record { num_connected = pos 0; serving = []; closing = [] }

abbrev pub remove : ℕ → List ℕ → Option (List ℕ)
remove c [] = none
remove c (x ∷ xs) =
    let rest = remove c xs in
    if x == c then some xs else elim rest [ none ↦ none | some ys ↦ some (x ∷ ys) ]

pub data Event : Type 0 where
  comes goes : ℕ → Event

comes_in : ℕ → ℕ → Server → Server
unfolding on_connection
comes_in max c s =
    let (n, forced) = on_connection max true s.num_connected in
    if forced
    then record s { num_connected = n; closing = c ∷ s.closing }
    else record s { num_connected = n; serving = c ∷ s.serving }

-- A connection that is not up does not go: none.
goes_out : ℕ → ℕ → Server → Option Server
unfolding on_connection
goes_out max c s =
    let n = (on_connection max false s.num_connected).0 in
    elim (remove c s.closing) [
      | some closing ↦ some (record s { num_connected = n; closing = closing })
      | none ↦ elim (remove c s.serving) [
        | some serving ↦ some (record s { num_connected = n; serving = serving })
        | none ↦ none
      ]
    ]

pub event : ℕ → Event → Server → Option Server
unfolding comes_in goes_out
event max (comes c) s = some (comes_in max c s)
event max (goes c) s = goes_out max c s

unfoldable pub events : ℕ → List Event → Server → Option Server
unfolding event
events max [] s = some s
events max (e ∷ es) s = elim (event max e s) [ none ↦ none | some s' ↦ events max es s' ]

-- numConnected_ counts the connections that are up, and no more than kMaxConnections_ are served.
pub record IsLimited (max : ℕ) (s : Server) : Type 0 where
  pub counts : s.num_connected ≡ pos (length s.serving + length s.closing)
  pub limit : length s.serving ≤ max

remove_shorter : (c : ℕ) (xs ys : List ℕ) → remove c xs ≡ some ys → length xs ≡ suc (length ys)
remove_shorter c [] ys e = cc
remove_shorter c (x ∷ xs) ys e = elim (Bool-cases (x == c)) [
  | inl here ↦ ground arith
  | inr there ↦ elim (Option-cases (remove c xs)) [
    | inl missing ↦ ground arith
    | inr (zs, q) ↦ ground (arith, remove_shorter c xs zs q)
  ]
]

comes_in-IsLimited : (max c : ℕ) (s : Server) → IsLimited max s → IsLimited max (comes_in max c s)
unfolding comes_in on_connection
comes_in-IsLimited max c s l =
    let n = length s.serving + length s.closing in
    let counts : increment s.num_connected ≡ pos (suc n) = ap increment l.counts in
    let limit = l.limit in
    elim (Bool-cases (ltb max (suc n))) [
      | inl full ↦ rw (counts, full) (record { counts = ap pos (omega arith); limit = limit })
      | inr room ↦
          rw (counts, room) (record { counts = ap pos (omega arith); limit = ground arith })
    ]

one_less : (a b : ℕ) (num : ℤ) → num ≡ pos b → b ≡ suc a → decrement num ≡ pos a
one_less a b num e q = rw (e, q) refl

goes_out-IsLimited :
    (max c : ℕ) (s s' : Server) → goes_out max c s ≡ some s' → IsLimited max s → IsLimited max s'
unfolding goes_out on_connection
goes_out-IsLimited max c s s' e l = elim (Option-cases (remove c s.closing)) [
  | inr (xs, q) ↦
      let short = remove_shorter c s.closing xs q in
      let counts =
        one_less (length s.serving + length xs) _ s.num_connected l.counts (omega arith) in
      let limit = l.limit in record { counts = ground arith; limit = ground arith }
  | inl other ↦ elim (Option-cases (remove c s.serving)) [
    | inl missing ↦ absurd (ground arith)
    | inr (ys, q) ↦
        let short = remove_shorter c s.serving ys q in
        let counts =
          one_less (length ys + length s.closing) _ s.num_connected l.counts (omega arith) in
        let limit = l.limit in record { counts = ground arith; limit = ground arith }
  ]
]

-- max_connection, in any order in which connections come and those that are up go: numConnected_
-- is the number of connections that are up, those that were told to close among them, and never
-- more than kMaxConnections_ are served.
pub events-IsLimited :
    (max : ℕ) (es : List Event) (s s' : Server)
    → events max es s ≡ some s'
    → IsLimited max s
    → IsLimited max s'
unfolding events event
events-IsLimited max [] s s' e l = subst (IsLimited max) (ground arith) l
events-IsLimited max (comes c ∷ es) s s' e l =
    events-IsLimited max es (comes_in max c s) s' e (comes_in-IsLimited max c s l)
events-IsLimited max (goes c ∷ es) s s' e l = elim (Option-cases (goes_out max c s)) [
  | inl failed ↦ absurd (ground arith)
  | inr (t, q) ↦ events-IsLimited max es t s' (ground arith) (goes_out-IsLimited max c s t q l)
]
