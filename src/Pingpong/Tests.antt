-- ===== src/Pingpong/Tests.antt =====
-- Runs of the benchmark.
use serverlite.Base.{ℕ, ◌≡◌, ◌<◌, ◌↔◌, refl, arith, some, [], ◌∷◌}
use serverlite.Base.Options.{◌>>=◌}
use serverlite.Pingpong.{Bench, run_once, callbacks, read_callback}
use serverlite.Pingpong.Pipes.{zeros}
use serverlite.Pingpong.Ends.{run_once-ends}

ran :
    (run_once 3 1 2 (0 ∷ 0 ∷ 0 ∷ []) >>= λ b. callbacks 3 (0 ∷ 1 ∷ 2 ∷ []) b)
    ≡ some (record { pending = 0 ∷ 0 ∷ 0 ∷ []; reads = 3; writes = 0; fired = 3; quits = 1 })
unfolding run_once callbacks
ran = refl

-- Four pairs, two of them active, after two of five reads.
abbrev halfway : Bench
halfway = record { pending = 0 ∷ 1 ∷ 0 ∷ 1 ∷ []; reads = 2; writes = 1; fired = 4; quits = 0 }

to_halfway : (run_once 4 2 3 (zeros 4) >>= callbacks 4 (2 ∷ 0 ∷ [])) ≡ some halfway
unfolding run_once callbacks
to_halfway = refl

run_once-ends_example :
    ((b : Bench) × (run_once 4 2 3 (zeros 4) ≡ some b))
    × (halfway.reads ≡ 2)
    × (halfway.quits ≡ 0)
    × ((2 < 5) ↔ ((i : ℕ) × (d : Bench) × (read_callback 4 i halfway ≡ some d)))
run_once-ends_example =
    run_once-ends 4 2 3 (2 ∷ 0 ∷ []) halfway (omega arith) (omega arith) to_halfway
