-- ===== src/Engine/Pool/Size.antt =====
-- The number of workers.
use gremlins.Prelude.{ℕ, ◌*◌, ◌≤◌, ◌<◌, ◌≡◌, pos, negsuc, Bool, true, arith, ◌⊎◌}
use gremlins.Engine.Pool.{size, workers}

-- On a machine with a CPU the pool has a worker exactly when the configured number is not negative.
-- There are at most as many as configured, or as CPUs if the number is 0; in integration mode there
-- are at most half as many as configured, unless that is at most 1.
pub workers-size :
    (cpus configured : ℕ) (integration : Bool)
    → 0 < cpus
    → (0 < workers (size cpus (pos configured) integration))
      × (workers (size cpus (negsuc configured) integration) ≡ 0)
      × (((configured ≡ 0) × (workers (size cpus (pos configured) integration) ≤ cpus))
          ⊎ (workers (size cpus (pos configured) integration) ≤ configured))
      × ((configured ≤ 1) ⊎ (workers (size cpus (pos configured) true) * 2 ≤ configured))
unfolding workers size
workers-size cpus configured integration h = ground arith
