-- ===== src/Pingpong/Ends.antt =====
-- Every run of the benchmark of src/examples/pingpong_bench.cc ends, after as many reads as asked.
use serverlite.Base.{
  ℕ, ◌+◌, ◌*◌, ◌-◌, ◌/◌, ◌≡◌, ◌⊎◌, ◌↔◌, refl, sym, subst, arith, List, [], ◌∷◌, some, none,
  Option-cases, Bool-cases, inl, inr, length, ◌≤◌, ◌<◌, false, ltb, ◌==◌, ==_ne, if◌then◌else◌,
}
use serverlite.Base.Options.{◌>>=◌}
use native.Mathlib.Nat.{div-mul-le_self, mul_comm}
use serverlite.Pingpong.{
  Bench, take_one, send, next_pipe, quit_when_even, pass_on, read_callback, run_once, callbacks,
}
use serverlite.Pingpong.Pipes.{
  half_odd, length-zeros, next_pipe_bound, put_adds, put_found, send_active_adds, sum, sum-zeros,
  take_one_found, take_one_takes, zeros,
}

-- The state of a run in which `total` bytes are sent in all: what waits is what was fired and not
-- read, and something waits as long as a write is left.
record IsBalanced (num_pipes total : ℕ) (b : Bench) : Type 0 where
  size : length b.pending ≡ num_pipes
  waits : b.fired ≡ b.reads + sum b.pending
  rest : b.fired + b.writes ≡ total
  spent : (b.writes ≡ 0) ⊎ (1 ≤ sum b.pending)

-- A callback for a pair that has a byte returns, in a balanced state, and has read one byte.
pass_on-IsBalanced :
    (n total i : ℕ) (b : Bench) (js : List ℕ)
    → IsBalanced n total b
    → take_one i b.pending ≡ some js
    → (c : Bench) × (pass_on n i b ≡ some c)
      × IsBalanced n total c
      × (c.reads ≡ b.reads + 1)
      × (c.quits ≡ b.quits)
unfolding pass_on send
pass_on-IsBalanced n total i b js w e =
    let (adds, size, bound) = take_one_takes i b.pending js e in
    let size_ok = w.size in
    let waits_ok = w.waits in
    let rest_ok = w.rest in
    elim (Bool-cases (ltb 0 b.writes)) [
      | inr done ↦
          let c : Bench = record b { pending = js; reads = b.reads + 1 } in
          (
            c,
            rw (e, done) refl,
            record {
              size = omega arith;
              waits = omega arith;
              rest = w.rest;
              spent = inl (ground arith);
            },
            refl,
            refl,
          )
      | inl more ↦
          let (ks, q) =
            put_found (next_pipe n i) js (omega (arith, next_pipe_bound n i (omega arith))) in
          let (added, same) = put_adds (next_pipe n i) js ks q in
          let left : 1 ≤ b.writes = ground arith in
          let c : Bench = record {
            pending = ks;
            reads = b.reads + 1;
            writes = b.writes - 1;
            fired = b.fired + 1;
            quits = b.quits;
          } in
          (
            c,
            rw (e, more, half_odd (next_pipe n i), q) refl,
            record {
              size = omega arith;
              waits = omega arith;
              rest = omega arith;
              spent = inr (omega arith);
            },
            refl,
            refl,
          )
    ]

quits_at :
    (n total : ℕ) (b : Bench) → IsBalanced n total b → (b.fired == b.reads) ≡ (b.reads == total)
quits_at n total b w = ground (arith, w.waits, w.rest, w.spent)

-- With the calls of quit: one, made just where all is read.
record IsRun (num_pipes total : ℕ) (b : Bench) : Type 0 where
  balanced : IsBalanced num_pipes total b
  once : b.quits ≡ (if b.reads == total then 1 else 0)

quit_when_even-IsRun :
    (n total : ℕ) (b : Bench)
    → IsBalanced n total b
    → b.quits ≡ 0
    → IsRun n total (quit_when_even b) × ((quit_when_even b).reads ≡ b.reads)
unfolding quit_when_even
quit_when_even-IsRun n total b w none_yet =
    let same = quits_at n total b w in
    elim (Bool-cases (b.fired == b.reads)) [
      | inl even ↦ rw (even) (
        record {
          balanced = record { size = w.size; waits = w.waits; rest = w.rest; spent = w.spent };
          once = ground arith;
        },
        refl,
      )
      | inr odd ↦ rw (odd) (record { balanced = w; once = ground arith }, refl)
    ]

unread : (n total : ℕ) (b : Bench) → IsBalanced n total b → 1 ≤ sum b.pending → b.reads < total
unread n total b w l = omega (arith, w.waits, w.rest, l)

read_callback-IsRun :
    (n total i : ℕ) (b : Bench) (js : List ℕ)
    → IsRun n total b
    → take_one i b.pending ≡ some js
    → (c : Bench) × (read_callback n i b ≡ some c) × IsRun n total c × (c.reads ≡ b.reads + 1)
unfolding read_callback
read_callback-IsRun n total i b js w e =
    let w' = w.balanced in
    let once = w.once in
    let adds = (take_one_takes i b.pending js e).0 in
    let l = unread n total b w' (omega arith) in
    let (c, q, v, read, same) = pass_on-IsBalanced n total i b js w' e in
    let (r, kept) = quit_when_even-IsRun n total c v (ground arith) in
    (quit_when_even c, rw (q) refl, r, omega arith)

none_called : (n i : ℕ) (b : Bench) → take_one i b.pending ≡ none → read_callback n i b ≡ none
unfolding read_callback pass_on
none_called n i b nothing = rw (nothing) refl

-- While a byte is left to read there is a callback to make, and only then.
goes_on :
    (n total : ℕ) (b : Bench)
    → IsBalanced n total b
    → b.reads < total
    → (i : ℕ) × (c : Bench) × (read_callback n i b ≡ some c)
unfolding read_callback
goes_on n total b w l =
    let some_byte : 1 ≤ sum b.pending = ground (arith, w.waits, w.rest, w.spent) in
    let (i, js, q) = take_one_found b.pending some_byte in
    let (c, called, v, read, same) = pass_on-IsBalanced n total i b js w q in
    (i, quit_when_even c, rw (called) refl)

was_unread :
    (n total i : ℕ) (b c : Bench)
    → IsBalanced n total b
    → read_callback n i b ≡ some c
    → b.reads < total
was_unread n total i b c w e = elim (Option-cases (take_one i b.pending)) [
  | inl nothing ↦ absurd (ground (arith, none_called n i b nothing))
  | inr (js, q) ↦ let adds = (take_one_takes i b.pending js q).0 in unread n total b w (omega arith)
]

callbacks-IsRun :
    (n total : ℕ) (is : List ℕ) (b c : Bench)
    → IsRun n total b
    → callbacks n is b ≡ some c
    → IsRun n total c × (c.reads ≡ b.reads + length is)
unfolding callbacks
callbacks-IsRun n total [] b c w e =
    let same : b ≡ c = cc in (subst (IsRun n total) same w, ground arith)
callbacks-IsRun n total (i ∷ is) b c w e = elim (Option-cases (take_one i b.pending)) [
  | inl nothing ↦ absurd (ground (arith, none_called n i b nothing))
  | inr (js, q) ↦
      let (d, called, v, read) = read_callback-IsRun n total i b js w q in
      let (u, counted) = callbacks-IsRun n total is d c v (ground (arith, called)) in
      (u, omega arith)
]

run_once-IsRun :
    (n active writes : ℕ)
    → 1 ≤ n
    → 1 ≤ active
    → (b : Bench) × (run_once n active writes (zeros n) ≡ some b)
      × IsRun n (active + writes) b
      × (b.reads ≡ 0)
unfolding run_once
run_once-IsRun n active writes some_pair some_active =
    let fits : (0 + active) * (n / active) ≤ n =
      omega (arith, mul_comm active (n / active), div-mul-le_self n active) in
    let (js, q, size, total) =
      send_active_adds active 0 (n / active) n (zeros n) (length-zeros n) some_pair fits in
    let none_yet = sum-zeros n in
    let divides : (active == 0) ≡ false = ==_ne active 0 (λ none_active. omega arith) in
    let late : (0 == (active + writes)) ≡ false =
      ==_ne 0 (active + writes) (λ ended. omega arith) in
    (
      record { pending = js; reads = 0; writes = writes; fired = active; quits = 0 },
      rw (divides, q) refl,
      record {
        balanced = record {
          size = size;
          waits = omega arith;
          rest = refl;
          spent = inr (omega arith);
        };
        once = rw (late) refl;
      },
      refl,
    )

-- With at least one pair and one active byte: runOnce makes its first sends, to pairs that are
-- there. However the loop orders the callbacks of the descriptors that have a byte, after k of them
-- k bytes are read; quit was called, once, just where k is the number of active bytes and writes;
-- and until then there is a descriptor whose callback can be made.
pub run_once-ends :
    (n active writes : ℕ) (is : List ℕ) (c : Bench)
    → 1 ≤ n
    → 1 ≤ active
    → (run_once n active writes (zeros n) >>= callbacks n is) ≡ some c
    → ((b : Bench) × (run_once n active writes (zeros n) ≡ some b))
      × (c.reads ≡ length is)
      × (c.quits ≡ (if length is == (active + writes) then 1 else 0))
      × ((length is < active + writes) ↔ ((i : ℕ) × (d : Bench) × (read_callback n i c ≡ some d)))
run_once-ends n active writes is c some_pair some_active e =
    let (b, started, w, fresh) = run_once-IsRun n active writes some_pair some_active in
    let (v, counted) = callbacks-IsRun n (active + writes) is b c w (rw (started) at e) in
    let all : c.reads ≡ length is = omega arith in
    (
      (b, started),
      all,
      rw (sym all) v.once,
      (
        (λ l. goes_on n (active + writes) c v.balanced (omega arith)),
        (λ h. omega (arith, was_unread n (active + writes) h.0 c h.1 v.balanced h.2)),
      ),
    )
