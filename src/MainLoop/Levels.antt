-- ===== src/MainLoop/Levels.antt =====
-- A full table in memory that the main thread lays out as a tree and gives to the first level of sstables.
use ringdb.Prelude.{ℕ, suc, ◌<◌, ◌≡◌, Bool, Option, some, List, ◌>>=◌, get_elem?, arith}
use ringdb.Config.{Config}
use ringdb.Memory.{Memory}
use ringdb.Requests.{RequestType, ConnectionRequest}
use ringdb.ReadWritePool.{ReadWritePool}
use ringdb.SparseIndex.{SparseIndex, remove_table}
use ringdb.MemTable.{MemTable, empty_out}
use ringdb.Stack.{Stack}
use ringdb.RequestSegment.{insert_memtable}
use ringdb.Level.{BloomFilter, Heap, RequestBatch, Content, put}
use ringdb.InsertIntoWqs.{Target, insert_from_main, renew}

-- `batch` is the address of compaction_batch. `fuel` is for each of the loops, `unset` and `unset_pool` are
-- what new memory holds.
module _ (c : Config) {F : Type 0} (bloom : BloomFilter F) (unset : ConnectionRequest)
    (unset_pool : ReadWritePool) (fuel : ℕ) (spurious : ℕ → Bool) (spurious_in : ℕ → ℕ → Bool)
    (index : SparseIndex) (batch : ℕ) where
  -- The memory, the tables in memory, the first level of sstables, the stack of the batch's segment, and the
  -- address that the next `new char[MEMTABLE_SIZE]` gives.
  pub record Sending : Type 0 where
    pub memory : Memory
    pub memtables : List MemTable
    pub target : Target c bloom unset unset_pool fuel spurious spurious_in
    pub stack : Stack
    pub next_data : ℕ

  -- The table is taken from the index, laid out in the segment of the batch of compactions, emptied, and the
  -- batch is sent. `indices` is the unset array of insert_memtable, and `could_contend` that of
  -- insert_into_wqs; `after` is the address that is free next.
  pub send_table : ℕ → List ℕ → List Bool → ℕ → Sending → Option Sending
  send_table table_num indices could_contend after s = do
    t ← get_elem? s.memtables table_num
    b ←
        insert_memtable c s.next_data t.start fuel (remove_table c index s.memory table_num) s.stack
          indices
    let m = empty_out c b.memory t
    let filled : RequestBatch = record {
      req_type = RequestType.compaction;
      content = Content.req_seg s.next_data;
    }
    t' ←
        insert_from_main c bloom unset unset_pool fuel spurious spurious_in m
          (record s.target { heap = put s.target.heap batch filled }) batch could_contend
    some (record {
      memory = m;
      memtables = s.memtables;
      target = t';
      stack = b.stack;
      next_data = after;
    })

-- What the batch of compactions is made to hold.
abbrev pub filled_with : ℕ → RequestBatch
filled_with data_start = record {
  req_type = RequestType.compaction;
  content = Content.req_seg data_start;
}

module _ (c : Config) {F : Type 0} (bloom : BloomFilter F) (unset : ConnectionRequest)
    (unset_pool : ReadWritePool) (fuel : ℕ) (spurious : ℕ → Bool) (spurious_in : ℕ → ℕ → Bool)
    (index : SparseIndex) (batch : ℕ) where
  abbrev LevelZero : Type 0
  LevelZero = Target c bloom unset unset_pool (suc (suc fuel)) spurious spurious_in

  kept :
      (h : Heap)
      → batch < h.next_address
      → (b : RequestBatch)
      → (renew c bloom unset unset_pool
            (suc (suc fuel))
            spurious
            spurious_in
            (put h batch b)
            RequestType.compaction).batches
          batch
        ≡ some b
  unfolding renew
  kept h older b = ground arith
