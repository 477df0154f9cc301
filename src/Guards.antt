-- ===== src/Guards.antt =====
-- The guards of LevelInfo, BufferQueue and RequestBatchWaitQueue: an `atomic_uchar` that starts as 1,
-- taken by compare_exchange_weak from 0 to 1 and given back by a store of 1, and the flag that
-- leaves it out. The call sites are in lsm_tree.hpp.
pub mod Threads
mod Tests
use ringdb.Prelude.{ℕ, Bool, true, false, ◌≡◌, ◌==◌, not, ◌&&◌, ◌||◌, if◌then◌else◌}

pub record Guard : Type 0 where
  pub atomic_guard : ℕ
  pub is_single_thread : Bool

-- atomic_guard{1}
pub fresh : Bool → Guard
fresh is_single_thread = record { atomic_guard = 1; is_single_thread = is_single_thread }

-- What one call leaves: its result, the guard, and the caller's variable for the expected value.
pub record Exchange : Type 0 where
  pub success : Bool
  pub value : ℕ
  pub expected : ℕ

-- compare_exchange_weak(expected, 1). A failure, also a spurious one, loads the value found.
unfoldable pub compare_exchange_weak : Bool → ℕ → ℕ → Exchange
compare_exchange_weak spurious value expected =
    if value == expected && not spurious
    then record { success = true; value = 1; expected = expected }
    else record { success = false; value = value; expected = value }

-- The test of a trylock, `is_single_thread || compare_exchange_weak(local_zero, 1)`, whose variable
-- is set to 0 before each call.
unfoldable pub try_lock : Bool → Guard → Bool
unfolding compare_exchange_weak
try_lock spurious g =
    g.is_single_thread || (compare_exchange_weak spurious g.atomic_guard 0).success

-- atomic_guard.store(1), unless the flag leaves it out.
pub unlock : Guard → Guard
unlock g = if g.is_single_thread then g else record g { atomic_guard = 1 }
