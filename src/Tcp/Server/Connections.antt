-- ===== src/Tcp/Server/Connections.antt =====
-- The connections of src/slite/TCPServer.cc, and the tasks that make and destroy one.
use serverlite.Base.{
  ℕ, ◌+◌, ◌≤◌, ◌<◌, ◌≡◌, ◌≢◌, refl, sym, ap, ◌∙◌, arith, Option, some, List, [], ◌∷◌, ◌++◌, Bytes,
  ◌==◌, ltb, ◌^◌, Bool-cases, Option-cases, inl, inr, append_assoc, subst, some_inj, codes, ==_refl,
  ==_ne,
}
use serverlite.Base.Digits.{to_string, to_string_injective}
use serverlite.Base.Options.{◌>>=◌}
use serverlite.Tcp.Server.{
  Conn, Server, connect_established_task, connect_destroyed_task, conn_name, new_connection, new_on,
  remove_connection, remove_connection_in_loop, erase_conn, get_next_loop, counted, AcceptResult,
  accepted, passing_errno, fatal_errno, remove_connection_task, accept, handle_recv,
  EventLoopThreadPool,
}

-- What changes the list: the acceptor becomes readable, a connection closes, and its removal runs.
pub data Op : Type 0 where
  readable : ℕ → AcceptResult → Op
  closes removes : Conn → Op

abbrev pub apply : Op → Server → Option Server
apply (readable addr r) s = handle_recv addr r s
apply (closes c) s = some (remove_connection c s)
apply (removes c) s = some (remove_connection_in_loop c s)

abbrev pub applies : List Op → Server → Option Server
applies [] s = some s
applies (o ∷ os) s = apply o s >>= applies os

abbrev pub AllOther : Bytes → List Conn → Type 0
AllOther name [] = Unit
AllOther name (c ∷ cs) = (name ≢ c.name) × AllOther name cs

-- No two of the connections have the same name.
abbrev pub AllDistinct : List Conn → Type 0
AllDistinct [] = Unit
AllDistinct (c ∷ cs) = AllOther c.name cs × AllDistinct cs

-- The names are numbered, in the order of the list, from `lo` on and below `hi`.
abbrev Numbered : Bytes → ℕ → ℕ → List Conn → Type 0
Numbered base lo hi [] = lo ≤ hi
Numbered base lo hi (c ∷ cs) =
    (i : ℕ) × (lo ≤ i) × (c.name ≡ base ++ to_string i) × Numbered base (i + 1) hi cs

Numbered-le : (base : Bytes) (lo hi : ℕ) (cs : List Conn) → Numbered base lo hi cs → lo ≤ hi
Numbered-le base lo hi [] h = h
Numbered-le base lo hi (c ∷ cs) (i, le, e, r) =
    let q = Numbered-le base (i + 1) hi cs r in omega arith

Numbered-lower :
    (base : Bytes) (lo lo' hi : ℕ) (cs : List Conn)
    → lo' ≤ lo
    → Numbered base lo hi cs
    → Numbered base lo' hi cs
Numbered-lower base lo lo' hi [] le h = omega arith
Numbered-lower base lo lo' hi (c ∷ cs) le (i, l, e, r) = (i, omega arith, e, r)

Numbered-append :
    (base : Bytes) (lo hi : ℕ) (cs : List Conn) (c : Conn)
    → Numbered base lo hi cs
    → c.name ≡ base ++ to_string hi
    → Numbered base lo (hi + 1) (cs ++ c ∷ [])
Numbered-append base lo hi [] c h e = (hi, h, e, omega arith)
Numbered-append base lo hi (d ∷ cs) c (i, l, e', r) e =
    (i, l, e', Numbered-append base (i + 1) hi cs c r e)

Numbered-erase :
    (base : Bytes) (lo hi addr : ℕ) (cs : List Conn)
    → Numbered base lo hi cs
    → Numbered base lo hi (erase_conn addr cs)
unfolding erase_conn
Numbered-erase base lo hi addr [] h = h
Numbered-erase base lo hi addr (c ∷ cs) (i, l, e, r) = elim (Bool-cases (c.addr == addr)) [
  | inl found ↦ rw found (Numbered-lower base (i + 1) lo hi cs (omega arith) r)
  | inr other ↦ rw other (i, l, e, Numbered-erase base (i + 1) hi addr cs r)
]

append_cancel : (a b c : Bytes) → a ++ b ≡ a ++ c → b ≡ c
append_cancel [] b c e = e
append_cancel (x ∷ a) b c e = append_cancel a b c cc

Numbered-AllOther :
    (base name : Bytes) (lo hi i : ℕ) (cs : List Conn)
    → i < lo
    → name ≡ base ++ to_string i
    → Numbered base lo hi cs
    → AllOther name cs
Numbered-AllOther base name lo hi i [] lt e h = tt
Numbered-AllOther base name lo hi i (c ∷ cs) lt e (j, l, e', r) = (
  λ same.
      let q = to_string_injective i j (append_cancel base _ _ (sym e ∙ same ∙ e')) in omega arith,
  Numbered-AllOther base name (j + 1) hi i cs (omega arith) e r,
)

Numbered-AllDistinct :
    (base : Bytes) (lo hi : ℕ) (cs : List Conn) → Numbered base lo hi cs → AllDistinct cs
Numbered-AllDistinct base lo hi [] h = tt
Numbered-AllDistinct base lo hi (c ∷ cs) (i, l, e, r) = (
  Numbered-AllOther base c.name (i + 1) hi i cs (omega arith) e r,
  Numbered-AllDistinct base (i + 1) hi cs r,
)

abbrev base_of : Server → Bytes
base_of s = s.name ++ (codes "-" ++ (s.host ++ (codes ":" ++ (to_string s.port ++ codes "#"))))

abbrev Inv : Server → Type 0
Inv s = Numbered (base_of s) 0 s.next_conn_id s.connections

new_on-Inv : (addr : ℕ) (r : ℕ × EventLoopThreadPool) (s : Server) → Inv s → Inv (new_on addr r s)
unfolding new_on conn_name
new_on-Inv addr r s v = Numbered-append (base_of s) 0 s.next_conn_id s.connections _ v refl

new_connection-Inv : (addr : ℕ) (s s' : Server) → new_connection addr s ≡ some s' → Inv s → Inv s'
unfolding new_connection counted
new_connection-Inv addr s s' e v = elim (Option-cases (get_next_loop s.pool)) [
  | inl failed ↦ absurd (cc (rw failed at e))
  | inr (r, q) ↦ elim (Bool-cases (ltb (s.next_conn_id + 1) (2 ^ 31))) [
    | inl room ↦ subst Inv (some_inj _ _ (rw (q, room) at e)) (new_on-Inv addr r s v)
    | inr full ↦ absurd (cc (rw (q, full) at e))
  ]
]

apply-Inv : (o : Op) (s s' : Server) → apply o s ≡ some s' → Inv s → Inv s'
unfolding handle_recv accept remove_connection remove_connection_in_loop
apply-Inv (readable addr (accepted fd)) s s' e v = new_connection-Inv addr s s' e v
apply-Inv (readable addr passing_errno) s s' e v = subst Inv (some_inj _ _ e) v
apply-Inv (readable addr fatal_errno) s s' e v = cc
apply-Inv (closes c) s s' e v = subst Inv (some_inj _ _ e) v
apply-Inv (removes c) s s' e v =
    subst Inv (some_inj _ _ e) (Numbered-erase (base_of s) 0 s.next_conn_id c.addr s.connections v)

applies-Inv : (os : List Op) (s s' : Server) → applies os s ≡ some s' → Inv s → Inv s'
applies-Inv [] s s' e v = subst Inv (some_inj _ _ e) v
applies-Inv (o ∷ os) s s' e v = elim (Option-cases (apply o s)) [
  | inl failed ↦ absurd (cc (rw failed at e))
  | inr (d, q) ↦ applies-Inv os d s' (rw q at e) (apply-Inv o s d q v)
]

-- However connections come and go on a server that begins with none: as long as no call throws, no
-- accept ends the process, and nextConnId_, an int, does not overflow, no two of its connections
-- have the same name.
pub applies-AllDistinct :
    (os : List Op) (s s' : Server)
    → s.connections ≡ []
    → applies os s ≡ some s'
    → AllDistinct s'.connections
applies-AllDistinct os s s' none_yet e =
    Numbered-AllDistinct (base_of s') 0 s'.next_conn_id s'.connections
      (applies-Inv os s s' e (rw none_yet (omega arith)))

-- No connection of the list is at that address.
abbrev pub IsAbsent : ℕ → List Conn → Type 0
IsAbsent addr [] = Unit
IsAbsent addr (c ∷ cs) = (c.addr ≢ addr) × IsAbsent addr cs

erase_conn-last :
    (c : Conn) (cs : List Conn) → IsAbsent c.addr cs → erase_conn c.addr (cs ++ c ∷ []) ≡ cs
unfolding erase_conn
erase_conn-last c [] h = rw (==_refl c.addr)
erase_conn-last c (d ∷ cs) h =
    rw (==_ne d.addr c.addr h.0) (ap (λ l. d ∷ l) (erase_conn-last c cs h.1))

-- A connection accepted at an address that no other connection has, closed, and removed: its own
-- loop is handed first the task that establishes it and then the one that destroys it, each once,
-- with the removal handed to the server's loop between them, and the list is as it was before.
removes-new_connection :
    (addr fd : ℕ) (s s' : Server)
    → IsAbsent addr s.connections
    → handle_recv addr (accepted fd) s ≡ some s'
    → (c : Conn) × (c.addr ≡ addr)
      × (s'.connections ≡ s.connections ++ c ∷ [])
      × (let t = remove_connection_in_loop c (remove_connection c s') in
          (t.connections ≡ s.connections)
          × (t.tasks
              ≡ s.tasks
                ++ ((c.loop, connect_established_task c)
                    ∷ (0, remove_connection_task c)
                    ∷ (c.loop, connect_destroyed_task c)
                    ∷ [])))
unfolding handle_recv accept new_connection counted new_on remove_connection
    remove_connection_in_loop
removes-new_connection addr fd s s' absent e = elim (Option-cases (get_next_loop s.pool)) [
  | inl failed ↦ absurd (cc (rw failed at e))
  | inr (r, q) ↦ elim (Bool-cases (ltb (s.next_conn_id + 1) (2 ^ 31))) [
    | inl room ↦
        let c : Conn = record { addr = addr; loop = r.0; name = conn_name s } in
        let made : new_on addr r s ≡ s' = some_inj _ _ (rw (q, room) at e) in
        rw (← made) (c, refl, refl, (erase_conn-last c s.connections absent, simp append_assoc))
    | inr full ↦ absurd (cc (rw (q, full) at e))
  ]
]
