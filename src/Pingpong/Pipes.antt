-- ===== src/Pingpong/Pipes.antt =====
-- The bytes that wait at the pairs of src/examples/pingpong_bench.cc, and the first sends of runOnce.
use serverlite.Base.{
  ℕ, zero, suc, ◌+◌, ◌*◌, ◌/◌, ◌≡◌, refl, ap, sym, subst, arith, List, [], ◌∷◌, some, Option-cases,
  inl, inr, length, ◌≤◌, ◌<◌,
}
use native.Mathlib.Nat.{add-mul, mul_assoc}
use serverlite.Pingpong.{put, take_one, send, next_pipe, send_active}

abbrev pub sum : List ℕ → ℕ
sum [] = 0
sum (k ∷ ks) = k + sum ks

pub put_adds :
    (i : ℕ) (ks js : List ℕ)
    → put i ks ≡ some js
    → (sum js ≡ suc (sum ks)) × (length js ≡ length ks)
unfolding put
put_adds i [] js e = absurd (ground arith)
put_adds zero (k ∷ ks) js e = (ground arith, ground arith)
put_adds (suc i) (k ∷ ks) js e = elim (Option-cases (put i ks)) [
  | inl failed ↦ absurd (ground arith)
  | inr (ls, q) ↦ (ground (arith, put_adds i ks ls q), ground (arith, put_adds i ks ls q))
]

pub put_found : (i : ℕ) (ks : List ℕ) → i < length ks → (js : List ℕ) × (put i ks ≡ some js)
unfolding put
put_found i [] l = absurd (omega (arith, l))
put_found zero (k ∷ ks) l = (suc k ∷ ks, refl)
put_found (suc i) (k ∷ ks) l = let (js, q) = put_found i ks (omega arith) in (k ∷ js, rw (q) refl)

pub take_one_takes :
    (i : ℕ) (ks js : List ℕ)
    → take_one i ks ≡ some js
    → (sum ks ≡ suc (sum js)) × (length js ≡ length ks) × (i < length ks)
unfolding take_one
take_one_takes i [] js e = absurd (ground arith)
take_one_takes zero (zero ∷ ks) js e = absurd (ground arith)
take_one_takes zero (suc k ∷ ks) js e = (ground arith, ground arith, omega arith)
take_one_takes (suc i) (k ∷ ks) js e = elim (Option-cases (take_one i ks)) [
  | inl failed ↦ absurd (ground arith)
  | inr (ls, q) ↦
      let h = take_one_takes i ks ls q in (ground (arith, h), ground (arith, h), omega (arith, h.2))
]

pub take_one_found :
    (ks : List ℕ) → 1 ≤ sum ks → (i : ℕ) × (js : List ℕ) × (take_one i ks ≡ some js)
unfolding take_one
take_one_found [] l = absurd (omega (arith, l))
take_one_found (zero ∷ ks) l =
    let (i, js, q) = take_one_found ks (omega arith) in (suc i, zero ∷ js, rw (q) refl)
take_one_found (suc k ∷ ks) l = (zero, k ∷ ks, refl)

pub half_odd : (p : ℕ) → (2 * p + 1) / 2 ≡ p
half_odd p = omega arith

pub next_pipe_bound : (n i : ℕ) → i < n → next_pipe n i < n
unfolding next_pipe
next_pipe_bound n i l = ground arith

pub index_bound : (i count k n : ℕ) → 1 ≤ n → (i + suc count) * k ≤ n → i * k < n
index_bound i count zero n some_pair fits = omega arith
index_bound i count (suc k) n some_pair fits =
    omega (arith, add-mul i (suc count) (suc k), add-mul 1 count (suc k))

pub send_odd :
    (i k : ℕ) (ks js : List ℕ) → put (i * k) ks ≡ some js → send (i * (k * 2) + 1) ks ≡ some js
unfolding send
send_odd i k ks js q =
    let index : (i * (k * 2) + 1) / 2 ≡ i * k = rw (sym (mul_assoc i k 2)) (omega arith) in
    rw (index) q

-- The first bytes go to pairs that are there.
pub send_active_adds :
    (count i k n : ℕ) (ks : List ℕ)
    → length ks ≡ n
    → 1 ≤ n
    → (i + count) * k ≤ n
    → (js : List ℕ) × (send_active count i (k * 2) ks ≡ some js)
      × (length js ≡ n)
      × (sum js ≡ sum ks + count)
unfolding send_active
send_active_adds zero i k n ks size some_pair fits = (ks, refl, size, omega arith)
send_active_adds (suc count) i k n ks size some_pair fits =
    let bound : i * k < length ks = omega (arith, index_bound i count k n some_pair fits) in
    let (js, q) = put_found (i * k) ks bound in
    let (added, same) = put_adds (i * k) ks js q in
    let (ls, r, size', total) =
      send_active_adds count (suc i) k n js (omega arith) some_pair
        (subst (λ m. m * k ≤ n) {x = i + suc count} {y = suc i + count} (omega arith) fits) in
    (ls, rw (send_odd i k ks js q) r, size', omega arith)

abbrev pub zeros : ℕ → List ℕ
zeros zero = []
zeros (suc n) = 0 ∷ zeros n

pub length-zeros : (n : ℕ) → length (zeros n) ≡ n
length-zeros zero = refl
length-zeros (suc n) = ap suc (length-zeros n)

pub sum-zeros : (n : ℕ) → sum (zeros n) ≡ 0
sum-zeros zero = refl
sum-zeros (suc n) = omega (arith, sum-zeros n)
