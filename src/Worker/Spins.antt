-- ===== src/Worker/Spins.antt =====
-- How long the spinning loops of a worker thread last.
use ringdb.Prelude.{ℕ, suc, ◌≡◌, Bool, true, false, some, arith, refl}
use ringdb.Guards.{Guard, compare_exchange_weak}
use ringdb.Worker.{Spun, spin}

-- A spinning loop on a guard of one thread is passed at once.
pub spin_single :
    (fuel : ℕ) (spurious : ℕ → Bool) (g : Guard) (expected : ℕ)
    → g.is_single_thread ≡ true
    → spin (suc fuel) spurious g expected ≡ some (record { guard = g; my_zero = expected })
unfolding spin
spin_single fuel spurious g expected e = ground arith

-- On a shared guard a spinning loop ends after at most two exchanges that do not fail without a reason,
-- whatever the guard holds: a thread that is past the guard does not keep another one from passing.
spin_passes_held :
    (fuel : ℕ) (spurious : ℕ → Bool) (g : Guard) (expected : ℕ)
    → g.is_single_thread ≡ false
    → spurious (suc fuel) ≡ false
    → spurious fuel ≡ false
    → (s : Spun) × (spin (suc (suc fuel)) spurious g expected ≡ some s)
      × (s.guard.atomic_guard ≡ 1)
      × (s.my_zero ≡ g.atomic_guard)
unfolding spin compare_exchange_weak
spin_passes_held fuel spurious g expected e s s' = (
  record { guard = record g { atomic_guard = 1 }; my_zero = g.atomic_guard },
  ground arith,
  refl,
  refl,
)
