-- ===== src/Startup.antt =====
-- initialize of lsm_tree.hpp: which levels and which wait queues are marked as used by one thread only. The
-- start of the threads and of the rings is not modelled.
pub mod Marks
pub mod Sharing
mod Tests
use ringdb.Prelude.{
  ℕ, zero, suc, ◌+◌, ◌-◌, ◌/◌, ◌%◌, ◌≡◌, Bool, true, Option, none, some, List, ◌>>=◌, get_elem?,
  store, ltb, ◌==◌, ◌&&◌, if◌then◌else◌, add32, sub32,
}
use ringdb.Config.{Config, worker_sstable_batch_size, num_sstable_levels}
use ringdb.Level.{Guarded, set_is_single_thread}

-- What is set of a level: its guards, and the flags of its sstables' wait queues,
-- sstable_infos[j].req_batch_wq.guard.is_single_thread.
pub record LevelFlags : Type 0 where
  pub guarded : Guarded
  pub queues : List Bool

module _ (c : Config) where
  -- for (j = 0; j < LEVEL_FACTOR - 1; ++j) or up to LEVEL_FACTOR, with the number of rounds.
  mark_queues : ℕ → List Bool → ℕ → Bool → Option (List Bool)
  mark_queues zero flags j is_single_thread = some flags
  mark_queues (suc rounds) flags j is_single_thread = do
    flags' ← store flags j is_single_thread
    mark_queues rounds flags' (j + 1) is_single_thread

  -- The first and the last level.
  pub mark_all : LevelFlags → Option LevelFlags
  unfolding mark_queues
  mark_all l = do
    flags ← mark_queues c.level_factor l.queues 0 true
    some (record { guarded = set_is_single_thread l.guarded true; queues = flags })

  -- level % (WORKER_SSTABLE_BATCH_SIZE / LEVEL_FACTOR): a division by zero is an error.
  pub location_of : ℕ → Option ℕ
  location_of level =
      let levels = worker_sstable_batch_size c / c.level_factor in
      if levels == 0 then none else some (level % levels)

  -- A level in between.
  pub mark_level : ℕ → LevelFlags → Option LevelFlags
  unfolding mark_queues location_of
  mark_level level l = do
    location ← location_of level
    let not_beginning = ltb 0 location
    let not_end = ltb location (sub32 c.level_factor 1)
    flags ← mark_queues (c.level_factor - 1) l.queues 0 not_beginning
    flags' ← store flags (c.level_factor - 1) not_end
    some (record {
      guarded = set_is_single_thread l.guarded (not_beginning && not_end);
      queues = flags';
    })

  -- level_infos[i] is changed in place.
  pub at_level : List LevelFlags → ℕ → (LevelFlags → Option LevelFlags) → Option (List LevelFlags)
  at_level ls i f = do l ← get_elem? ls i; l' ← f l; store ls i l'

  -- for (level = 1; level < NUM_SSTABLE_LEVELS - 1; ++level), with the number of rounds left.
  pub mark_levels : ℕ → List LevelFlags → ℕ → Option (List LevelFlags)
  mark_levels zero ls level = some ls
  mark_levels (suc rounds) ls level = do
    ls' ← at_level ls level (mark_level level)
    mark_levels rounds ls' (level + 1)

  -- The part of initialize that sets the flags. With one level the source's loop has no rounds; with none
  -- the first access is an error.
  pub mark_threads : List LevelFlags → Option (List LevelFlags)
  mark_threads ls = do
    ls' ← at_level ls 0 mark_all
    ls'' ← mark_levels (num_sstable_levels c - 2) ls' 1
    at_level ls'' (num_sstable_levels c - 1) mark_all
