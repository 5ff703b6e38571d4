-- ===== src/Tcp/Handle/Descriptors.antt =====
-- Every descriptor of a listening handle of src/slite/TCPHandle.cc is closed as often as it is opened.
use serverlite.Base.{
  ℕ, zero, suc, ◌+◌, true, Option, some, none, List, [], ◌∷◌, if◌then◌else◌, ◌==◌, ◌≡◌, ◌≢◌, refl,
  arith, Option-cases, inl, inr, subst, some_inj,
}
use serverlite.Base.Options.{◌>>=◌}
use serverlite.Tcp.Server.{AcceptResult, accepted, passing_errno, fatal_errno}
use serverlite.Tcp.Handle.{
  Call, opened, closed, TcpHandle, make_handle, listen, accept, turn_away, destroy, opens, close,
  close_spare,
}

abbrev pub one : ℕ → ℕ → ℕ
one x d = if x == d then 1 else 0

abbrev pub one_of : Option ℕ → ℕ → ℕ
one_of none d = 0
one_of (some x) d = one x d

abbrev pub count : List ℕ → ℕ → ℕ
count [] d = 0
count (x ∷ xs) d = one x d + count xs d

-- How often a descriptor was opened, and how often closed.
abbrev pub times_opened : List Call → ℕ → ℕ
times_opened [] d = 0
times_opened (opened x ∷ calls) d = one x d + times_opened calls d
times_opened (closed x ∷ calls) d = times_opened calls d

abbrev pub times_closed : List Call → ℕ → ℕ
times_closed [] d = 0
times_closed (opened x ∷ calls) d = times_closed calls d
times_closed (closed x ∷ calls) d = one x d + times_closed calls d

-- What is open is the socket, the spare descriptor, and what was given away.
Balanced : ℕ → TcpHandle → Type 0
Balanced d h =
    times_opened h.calls d
    ≡ times_closed h.calls d + (one h.fd d + (one_of h.null_fd d + count h.given d))

-- What happens to a listening handle: accept is called, with the kernel's answers.
pub record Accept : Type 0 where
  pub result : AcceptResult
  pub conn : Option ℕ
  pub null : Option ℕ

abbrev pub accepts : List Accept → TcpHandle → Option TcpHandle
accepts [] h = some h
accepts (a ∷ rest) h = elim (accept a.result a.conn a.null h) [
  | none ↦ none
  | some h' ↦ accepts rest h'
]

-- The handle of an acceptor: made, listening, and then accepting.
abbrev pub session : ℕ → Option ℕ → List Accept → Option TcpHandle
session fd null turns = do h ← make_handle (some fd); h1 ← listen true null h; accepts turns h1

opens_lem :
    (o : Option ℕ) (calls : List Call) (d : ℕ)
    → (times_opened (opens o calls) d ≡ one_of o d + times_opened calls d)
      × (times_closed (opens o calls) d ≡ times_closed calls d)
opens_lem none calls d = (omega arith, refl)
opens_lem (some x) calls d = (refl, refl)

close_lem :
    (o : Option ℕ) (calls : List Call) (d : ℕ)
    → (times_closed (close o calls) d ≡ one_of o d + times_closed calls d)
      × (times_opened (close o calls) d ≡ times_opened calls d)
close_lem none calls d = (omega arith, refl)
close_lem (some x) calls d = (refl, refl)

turn_away-Balanced :
    (d : ℕ) (conn null : Option ℕ) (h : TcpHandle)
    → Balanced d h
    → Balanced d (turn_away conn null h)
unfolding turn_away Balanced
turn_away-Balanced d conn null h b =
    let calls1 = close h.null_fd h.calls in
    let calls2 = opens conn calls1 in
    let calls3 = close conn calls2 in
    let (c1, o1) = close_lem h.null_fd h.calls d in
    let (o2, c2) = opens_lem conn calls1 d in
    let (c3, o3) = close_lem conn calls2 d in
    let (o4, c4) = opens_lem null calls3 d in omega (arith, b, c1, o1, o2, c2, c3, o3, o4, c4)

accept-Balanced :
    (d : ℕ) (r : AcceptResult) (conn null : Option ℕ) (h h' : TcpHandle)
    → accept r conn null h ≡ some h'
    → Balanced d h
    → Balanced d h'
unfolding accept
accept-Balanced d (accepted fd) conn null h h' e b =
    subst (Balanced d) (some_inj _ _ e) (given_away fd)
  where
    given_away :
        (fd : ℕ) → Balanced d (record h { given = fd ∷ h.given; calls = opened fd ∷ h.calls })
    given_away fd = unfold Balanced in omega (arith, b)
accept-Balanced d passing_errno conn null h h' e b =
    subst (Balanced d) (some_inj _ _ e) (turn_away-Balanced d conn null h b)
accept-Balanced d fatal_errno conn null h h' e b = cc

accepts-Balanced :
    (d : ℕ) (turns : List Accept) (h h' : TcpHandle)
    → accepts turns h ≡ some h'
    → Balanced d h
    → Balanced d h'
accepts-Balanced d [] h h' e b = subst (Balanced d) (some_inj _ _ e) b
accepts-Balanced d (a ∷ rest) h h' e b = elim (Option-cases (accept a.result a.conn a.null h)) [
  | inl failed ↦ absurd (ground arith)
  | inr (g, q) ↦
      accepts-Balanced d rest g h' (ground arith) (accept-Balanced d a.result a.conn a.null h g q b)
]

-- ::open does not give descriptor 0 for the spare one, as it does where standard input is closed.
abbrev pub AllNonzero : List Accept → Type 0
AllNonzero [] = Unit
AllNonzero (a ∷ rest) = (a.null ≢ some 0) × AllNonzero rest

accept-null :
    (r : AcceptResult) (conn null : Option ℕ) (h h' : TcpHandle)
    → accept r conn null h ≡ some h'
    → null ≢ some 0
    → h.null_fd ≢ some 0
    → h'.null_fd ≢ some 0
unfolding accept turn_away
accept-null (accepted fd) conn null h h' e n m = λ q. m (ground arith)
accept-null passing_errno conn null h h' e n m = λ q. n (ground arith)
accept-null fatal_errno conn null h h' e n m = cc

accepts-null :
    (turns : List Accept) (h h' : TcpHandle)
    → accepts turns h ≡ some h'
    → AllNonzero turns
    → h.null_fd ≢ some 0
    → h'.null_fd ≢ some 0
accepts-null [] h h' e all m = λ q. m (ground arith)
accepts-null (a ∷ rest) h h' e all m = elim (Option-cases (accept a.result a.conn a.null h)) [
  | inl failed ↦ absurd (ground arith)
  | inr (g, q) ↦
      accepts-null rest g h' (ground arith) all.1 (accept-null a.result a.conn a.null h g q all.0 m)
]

destroy-count :
    (d : ℕ) (h : TcpHandle)
    → Balanced d h
    → h.null_fd ≢ some 0
    → times_opened (destroy h) d ≡ times_closed (destroy h) d + count h.given d
unfolding destroy Balanced
destroy-count d h b m = spare h.null_fd b m
  where
    spare :
        (o : Option ℕ)
        → times_opened h.calls d
          ≡ times_closed h.calls d + (one h.fd d + (one_of o d + count h.given d))
        → o ≢ some 0
        → times_opened (close_spare o (closed h.fd ∷ h.calls)) d
          ≡ times_closed (close_spare o (closed h.fd ∷ h.calls)) d + count h.given d
    spare none b m = omega (arith, b)
    spare (some zero) b m = absurd (m refl)
    spare (some (suc x)) b m = omega (arith, b)

-- The handle of an acceptor that is made, listens, accepts any number of times with any answers of
-- the kernel that do not end the process, and is destroyed: every descriptor was closed as often as
-- it was opened, but for the connections that were handed out; the connections that were turned
-- away for an errno are closed. The condition is that /dev/null never opens as descriptor 0.
pub session-closes :
    (d fd : ℕ) (null : Option ℕ) (turns : List Accept) (h : TcpHandle)
    → session fd null turns ≡ some h
    → null ≢ some 0
    → AllNonzero turns
    → times_opened (destroy h) d ≡ times_closed (destroy h) d + count h.given d
unfolding make_handle listen
session-closes d fd null turns h e n all =
    let h1 : TcpHandle = record {
      fd = fd;
      null_fd = null;
      given = [];
      calls = opens null (opened fd ∷ []);
    } in
    destroy-count d h (accepts-Balanced d turns h1 h e (listening null))
      (accepts-null turns h1 h e all n)
  where
    listening :
        (o : Option ℕ)
        → Balanced d (record { fd = fd; null_fd = o; given = []; calls = opens o (opened fd ∷ []) })
    listening none = unfold Balanced in omega arith
    listening (some x) = unfold Balanced in omega arith
