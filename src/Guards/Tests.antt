-- ===== src/Guards/Tests.antt =====
-- The theorems on guards at a start state and at one with a thread past the guard.
use ringdb.Prelude.{ℕ, ◌≡◌, ◌≢◌, refl, false, arith}
use ringdb.Guards.{fresh}
use ringdb.Guards.Threads.{System, Reach, start, outside, past, spin_passes}

start_shared : start.guard ≡ fresh false
unfolding fresh
start_shared = refl

-- Thread 0 gets past the guard, and then thread 1 does.
one_past : (u : System) × Reach start u × (u.pc 0 ≡ past) × ((j : ℕ) → 0 ≢ j → u.pc j ≡ outside)
one_past = spin_passes 0 start_shared Reach.here refl

spin_passes_example :
    (u : System) × Reach one_past.0 u
    × (u.pc 1 ≡ past)
    × ((j : ℕ) → 1 ≢ j → u.pc j ≡ one_past.0.pc j)
spin_passes_example = spin_passes 1 start_shared one_past.1 (one_past.3 1 (omega arith))
