-- ===== src/Pingpong.antt =====
-- src/examples/pingpong_bench.cc: runOnce and its readCallback. A byte that is sent to the second
-- descriptor of a pair waits at the first one, whose channel calls readCallback while there is
-- one. The counters are ints that stay natural numbers; none is an index out of range, a division
-- by zero, or a call for a descriptor with nothing to read.
use serverlite.Base.{
  ℕ, zero, suc, ◌+◌, ◌*◌, ◌-◌, ◌/◌, Option, some, none, List, [], ◌∷◌, if◌then◌else◌, ◌==◌, leb,
  ltb,
}
use serverlite.Base.Options.{◌>>=◌}
pub mod Pipes
pub mod Ends
pub mod Tests

-- The bytes that wait at each pair, the three counters, and the calls of quit.
pub record Bench : Type 0 where
  pub pending : List ℕ
  pub reads : ℕ
  pub writes : ℕ
  pub fired : ℕ
  pub quits : ℕ

-- A byte more at the i-th pair.
unfoldable pub put : ℕ → List ℕ → Option (List ℕ)
put i [] = none
put zero (k ∷ ks) = some (suc k ∷ ks)
put (suc i) (k ∷ ks) = put i ks >>= λ js. some (k ∷ js)

-- recv of one byte at the i-th pair.
unfoldable pub take_one : ℕ → List ℕ → Option (List ℕ)
take_one i [] = none
take_one zero (zero ∷ ks) = none
take_one zero (suc k ∷ ks) = some (k ∷ ks)
take_one (suc i) (k ∷ ks) = take_one i ks >>= λ js. some (k ∷ js)

-- send to g_pipes[fd], the second descriptor of its pair.
unfoldable pub send : ℕ → List ℕ → Option (List ℕ)
unfolding put
send fd pending = put (fd / 2) pending

unfoldable pub quit_when_even : Bench → Bench
quit_when_even b = if b.fired == b.reads then record b { quits = b.quits + 1 } else b

unfoldable pub next_pipe : ℕ → ℕ → ℕ
next_pipe num_pipes idx = if leb num_pipes (idx + 1) then (idx + 1) - num_pipes else idx + 1

-- readCallback up to its last test: the byte is read, and another is sent to the next pair where
-- one is left to write.
unfoldable pub pass_on : ℕ → ℕ → Bench → Option Bench
unfolding take_one send next_pipe
pass_on num_pipes idx b = take_one idx b.pending >>= λ pending.
    if ltb 0 b.writes
    then (send (2 * next_pipe num_pipes idx + 1) pending >>= λ sent. some (record {
      pending = sent;
      reads = b.reads + 1;
      writes = b.writes - 1;
      fired = b.fired + 1;
      quits = b.quits;
    }))
    else some (record b { pending = pending; reads = b.reads + 1 })

unfoldable pub read_callback : ℕ → ℕ → Bench → Option Bench
unfolding pass_on quit_when_even
read_callback num_pipes idx b = pass_on num_pipes idx b >>= λ c. some (quit_when_even c)

-- The loop of runOnce that sends the first bytes, from its i-th turn on, with `count` to go.
unfoldable pub send_active : ℕ → ℕ → ℕ → List ℕ → Option (List ℕ)
unfolding send
send_active zero i space pending = some pending
send_active (suc count) i space pending =
    send (i * space + 1) pending >>= λ sent. send_active count (suc i) space sent

-- runOnce up to its call of loop().
unfoldable pub run_once : ℕ → ℕ → ℕ → List ℕ → Option Bench
unfolding send_active
run_once num_pipes num_active num_writes pending =
    if num_active == 0
    then none
    else (send_active num_active 0 (num_pipes / num_active * 2) pending >>= λ sent.
        some (record {
          pending = sent;
          reads = 0;
          writes = num_writes;
          fired = num_active;
          quits = 0;
        }))

-- The callbacks of the loop, in the order in which it makes them.
unfoldable pub callbacks : ℕ → List ℕ → Bench → Option Bench
unfolding read_callback
callbacks num_pipes [] b = some b
callbacks num_pipes (idx ∷ idxs) b =
    read_callback num_pipes idx b >>= λ c. callbacks num_pipes idxs c
