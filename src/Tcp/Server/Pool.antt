-- ===== src/Tcp/Server/Pool.antt =====
-- The loops that getNextLoop of src/slite/EventLoopThreadPool.cc gives.
use serverlite.Base.{
  ℕ, zero, suc, ◌+◌, ◌-◌, ◌%◌, ◌≤◌, ◌<◌, ◌≡◌, sym, ap, ◌∙◌, arith, Option, some, List, [], ◌∷◌,
  length, if◌then◌else◌, ◌==◌, Bool-cases, inl, inr,
}
use serverlite.Base.Options.{◌>>=◌}
use serverlite.Tcp.Server.{EventLoopThreadPool, at, get_next_loop, next_of}
use native.Mathlib.Nat.{mod-add-mod, mod-lt, mod-eq_of_lt, mod_self}

-- The answer of the (k + 1)-th call from now on.
pub nth_loop : ℕ → EventLoopThreadPool → Option ℕ
nth_loop zero p = get_next_loop p >>= λ r. some r.0
nth_loop (suc k) p = get_next_loop p >>= λ r. nth_loop k r.1

at-Some : (xs : List ℕ) (i : ℕ) → i < length xs → (x : ℕ) × (at xs i ≡ some x)
at-Some [] i h = absurd (omega arith)
at-Some (x ∷ xs) i h = elim (Bool-cases (i == 0)) [
  | inl first ↦ (x, rw first)
  | inr later ↦ let (y, e) = at-Some xs (i - 1) (ground arith) in (y, rw later e)
]

wrap : (n next : ℕ) → 0 < n → next ≤ n → (if next == n then 0 else next) ≡ next % n
wrap n next h le = elim (Bool-cases (next == n)) [
  | inl full ↦ let e : next ≡ n = ground arith in rw full (sym (ap (λ x. x % n) e ∙ mod_self n))
  | inr room ↦ rw room (sym (mod-eq_of_lt (ground arith)))
]

next_of-at :
    (xs : List ℕ) (i l : ℕ) (p : EventLoopThreadPool)
    → at xs i ≡ some l
    → next_of xs i p ≡ some (l, record p { next = i + 1 })
unfolding next_of
next_of-at [] i l p e = cc
next_of-at (x ∷ xs) i l p e = rw e

pub get_next_loop_lem :
    (p : EventLoopThreadPool)
    → 0 < p.num_threads
    → length p.loops ≡ p.num_threads
    → p.next ≤ p.num_threads
    → (l : ℕ) × (at p.loops (p.next % p.num_threads) ≡ some l)
      × (get_next_loop p ≡ some (l, record p { next = p.next % p.num_threads + 1 }))
unfolding get_next_loop
get_next_loop_lem p some_threads full le =
    let lt = mod-lt p.next some_threads in
    let (l, e) = at-Some p.loops (p.next % p.num_threads) (omega arith) in
    (l, e, rw (wrap p.num_threads p.next some_threads le) (next_of-at p.loops _ l p e))

-- Once the pool has started, with at least one thread and a loop for each, the calls of getNextLoop
-- go round the loops: the k-th call from now on, counted from 0, gives the loop that stands k places
-- behind the next one, counted round.
pub nth_loop-at :
    (k : ℕ) (p : EventLoopThreadPool)
    → 0 < p.num_threads
    → length p.loops ≡ p.num_threads
    → p.next ≤ p.num_threads
    → nth_loop k p ≡ at p.loops ((p.next + k) % p.num_threads)
unfolding nth_loop
nth_loop-at zero p h full le =
    let (l, e, g) = get_next_loop_lem p h full le in
    rw g (sym e ∙ ap (λ i. at p.loops (i % p.num_threads)) {x = p.next} (omega arith))
nth_loop-at (suc k) p h full le =
    let (l, e, g) = get_next_loop_lem p h full le in
    let lt = mod-lt p.next h in
    let n = p.num_threads in
    rw g (
      nth_loop-at k (record p { next = p.next % n + 1 }) h full (omega arith)
      ∙ ap (λ i. at p.loops (i % n)) {x = p.next % n + 1 + k} {y = p.next % n + suc k} (omega arith)
      ∙ ap (at p.loops) (mod-add-mod p.next n (suc k)))
