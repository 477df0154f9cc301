-- ===== src/InsertIntoWqs/Compaction.antt =====
-- What becomes of a full table that the main thread gives to the first level of sstables.
use ringdb.Prelude.{ℕ, suc, ◌^◌, ◌≤◌, ◌<◌, ◌≡◌, Bool, true, List, length}
use ringdb.Config.{Config}
use ringdb.Memory.{Memory}
use ringdb.Requests.{ConnectionRequest}
use ringdb.ReadWritePool.{ReadWritePool}
use ringdb.WaitQueue.{WaitQueue}
use ringdb.Level.{BloomFilter}
use ringdb.Level.Compactions.{FirstEmpty}
use ringdb.InsertIntoWqs.Queues.{QueuesHold}
use ringdb.InsertIntoWqs.{Target}

module _ (c : Config) {F : Type 0} (bloom : BloomFilter F) (unset : ConnectionRequest)
    (unset_pool : ReadWritePool) (fuel : ℕ) (spurious : ℕ → Bool) (spurious_in : ℕ → ℕ → Bool) where
  -- A level of two or more tables, with a guard and queues of one thread each: its first empty table is table
  -- k, and its queues hold `bss`.
  pub record IsReadyAt (t : Target c bloom unset unset_pool (suc (suc fuel)) spurious spurious_in)
      (k : ℕ) (bss : List (List ℕ)) : Type 0 where
    pub single : t.guard.is_single_thread ≡ true
    pub filters : length t.level_info.filters ≡ c.level_factor
    pub first_empty : FirstEmpty c bloom unset unset_pool t.level_info.filters k
    pub inside : k < c.level_factor
    pub two : 2 ≤ c.level_factor
    pub small : c.level_factor < 2 ^ 31
    pub queues : length t.wait_queues ≡ c.level_factor
    pub hold : QueuesHold t.wait_queues bss
