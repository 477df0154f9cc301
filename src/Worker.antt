-- ===== src/Worker.antt =====
-- sstable_worker_thread of lsm_tree.hpp: what a worker thread does in turn for each of its sstables, first
-- while it opens and reads them, then for the batches that wait. Here is what these parts share.
pub mod Spins
mod Places
pub mod Opening
pub mod Initial
pub mod Upstream
pub mod Service
pub mod Completions
mod Data
mod Tests
mod Runs
use ringdb.Prelude.{
  ℕ, zero, suc, ◌+◌, ◌*◌, ◌/◌, ◌%◌, ◌^◌, ◌≡◌, Bool, Option, none, some, if◌then◌else◌, sub32,
}
use ringdb.Config.{Config}
use ringdb.Traverse
use ringdb.Guards.{Guard, compare_exchange_weak}

-- The calls of liburing, as a trace. `reading` is one of those that a traversal makes.
pub data Call : Type 0 where
  reading : Traverse.Call → Call
  prep_openat : (file_path : ℕ) → Call
  register_file : (sstable_num fd : ℕ) → Call
  prep_write : (sstable_num from size offset : ℕ) → Call
  prep_msg_to_network : (req_batch : ℕ) → Call
  prep_msg_to_scheduler : (sstable_num : ℕ) → Call
  submit : Call

-- Where an sstable stands.
pub record Place : Type 0 where
  pub level : ℕ
  pub index_in_level : ℕ

module _ (c : Config) where
  pub place_of : ℕ → Place
  place_of sstable_num =
      let level = sstable_num / c.level_factor in
      record { level = level; index_in_level = sub32 sstable_num (level * c.level_factor % 2 ^ 32) }

  -- prev_level and prev_index_in_level, for the sstable at the same place of the level above.
  pub previous_place : ℕ → Place
  unfolding place_of
  previous_place sstable_num =
      let prev_level = sub32 (place_of sstable_num).level 1 in
      record {
        level = prev_level;
        index_in_level =
            sub32 (sub32 sstable_num c.level_factor) (prev_level * c.level_factor % 2 ^ 32);
      }

-- The guard and the variable my_zero behind a spinning loop.
pub record Spun : Type 0 where
  pub guard : Guard
  pub my_zero : ℕ

-- while (!is_single_thread && !atomic_guard.compare_exchange_weak(my_zero, 1)); with fuel for each
-- exchange, which fails without a reason where `spurious` says so.
unfoldable pub spin : ℕ → (ℕ → Bool) → Guard → ℕ → Option Spun
spin zero spurious g expected = none
spin (suc fuel) spurious g expected =
    let x = compare_exchange_weak (spurious fuel) g.atomic_guard expected in
    let g' = record g { atomic_guard = x.value } in
    let rest = spin fuel spurious g' x.expected in
    if g.is_single_thread
    then some (record { guard = g; my_zero = expected })
    else if x.success
    then some (record { guard = g'; my_zero = x.expected })
    else rest

-- `if (!is_single_thread) { atomic_guard.store(1); my_zero = 0; }`
unfoldable pub release : Spun → Spun
release s =
    if s.guard.is_single_thread
    then s
    else record { guard = record s.guard { atomic_guard = 1 }; my_zero = 0 }
