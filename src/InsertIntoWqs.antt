-- ===== src/InsertIntoWqs.antt =====
-- insert_into_wqs of lsm_tree.hpp as a whole: the level's guard, the division of the batch (Level), the buffers
-- that are taken (Handover), the queueing of the parts (Dispatch), and the buffers that are given.
pub mod Queues
pub mod Compaction
pub mod Taking
mod Tests
use ringdb.Prelude.{
  ℕ, zero, suc, ◌+◌, ◌*◌, ◌≡◌, Bool, true, false, Option, none, some, List, [], ◌∷◌, ◌>>=◌,
  get_elem?, ◌==◌, not, if◌then◌else◌, map,
}
use ringdb.Config.{Config}
use ringdb.Memory.{Memory}
use ringdb.Requests.{RequestType, ConnectionRequest}
use ringdb.ReadWritePool.{ReadWritePool}
use ringdb.Guards.{Guard}
use ringdb.BufferQueue.{BufferQueue}
use ringdb.WaitQueue.{WaitQueue}
use ringdb.SstableInfo.{SstableInfo}
use ringdb.Level.{
  BloomFilter, Heap, RequestBatch, Content, Decomposition, LevelInfo, put, decompose, is_read,
}
use ringdb.Dispatch.{Slot, Queued, queue_all}
use ringdb.Handover.{Taken, Receiver, take_buffers, give_buffers, proportion_of}
use ringdb.Worker.{Spun, spin, release}

-- The sstable that the batch comes from, and its buffer queue.
pub record Giver : Type 0 where
  pub info : SstableInfo
  pub buffer_queue : BufferQueue
  pub guard : Guard

-- A part of the batch for each wait queue. `unset` are the elements of could_contend_with_consumer.
pub slots_of : List WaitQueue → List ℕ → List Bool → List Slot
slots_of (q ∷ qs) (b ∷ bs) (u ∷ us) =
    record { queue = q; batch = b; inserted = false; could_contend = u } ∷ slots_of qs bs us
slots_of qs bs us = []

-- proportions[i] = expected_sstable_sizes[i] / total_decomp_size
pub proportions_of : ℕ → List ℕ → Option (List ℕ)
proportions_of total [] = some []
proportions_of total (size ∷ sizes) = do
  p ← proportion_of size total
  ps ← proportions_of total sizes
  some (p ∷ ps)

-- The sstables of the level, as the ones that are given buffers.
pub receivers_of : List BufferQueue → List Guard → List ℕ → List ℕ → List Receiver
receivers_of (q ∷ qs) (g ∷ gs) (b ∷ bs) (p ∷ ps) =
    record { queue = q; guard = g; has_part = not (b == 0); proportion = p; given = false }
    ∷ receivers_of qs gs bs ps
receivers_of qs gs bs ps = []

abbrev queue_of : Slot → WaitQueue
queue_of s = s.queue

abbrev ring_of : Receiver → BufferQueue
ring_of r = r.queue

-- `fuel` is for each of the loops that wait. `unset` and `unset_pool` are what new memory holds.
module _ (c : Config) {F : Type 0} (bloom : BloomFilter F) (unset : ConnectionRequest)
    (unset_pool : ReadWritePool) (fuel : ℕ) (spurious : ℕ → Bool) (spurious_in : ℕ → ℕ → Bool) where
  -- A level: its filters and its index, its guard, and the queues of its sstables.
  pub record Target : Type 0 where
    pub heap : Heap
    pub level_info : LevelInfo c bloom unset unset_pool
    pub guard : Guard
    pub wait_queues : List WaitQueue
    pub buffer_queues : List BufferQueue
    pub buffer_guards : List Guard

  -- `if (!level) batch = new RequestBatch(req_type)`, whose address is the callee's own variable.
  unfoldable pub renew : Heap → RequestType → Heap
  renew h req_type =
      record (put h h.next_address
        (record { req_type = req_type; content = Content.readwrite_pool unset_pool })) {
          next_address = h.next_address + 1;
        }

  -- The queueing loop, over the wait queues of the level.
  pub queue_parts : List WaitQueue → Decomposition → List Bool → Option (List WaitQueue)
  unfolding slots_of
  queue_parts qs d could_contend = do
    extra ← get_elem? d.decomposition c.level_factor
    w ← queue_all spurious_in fuel d.num_req_batches (record {
      slots = slots_of qs d.decomposition could_contend;
      extra = extra;
      num_queued = 0;
    })
    some (map {A = Slot} {B = WaitQueue} queue_of w.slots)

  -- The branch `if (level)` in front of the queueing loop.
  pub take_from : Giver → ℕ → Option (Taken c × Spun)
  take_from g my_zero = do
    held ← spin fuel spurious g.guard my_zero
    t ← take_buffers c g.info g.buffer_queue
    some (t, release held)

  -- The part of the level that gets ready before the queueing loop: the batch divided, under the guard.
  pub divide : Memory → Target → ℕ → Option (Target × Decomposition × Spun)
  divide m t batch = do
    held ← spin fuel spurious t.guard 0
    (l, h, d) ← decompose c bloom unset unset_pool m t.level_info t.heap batch
    let freed = release held
    some (record t { heap = h; level_info = l; guard = freed.guard }, d, freed)

  -- Level 0, to which the main thread gives batches: no sstable gives buffers.
  pub insert_from_main : Memory → Target → ℕ → List Bool → Option Target
  unfolding divide renew queue_parts
  insert_from_main m t batch could_contend = do
    b ← t.heap.batches batch
    (t', d, freed) ← divide m t batch
    proportions ← proportions_of d.total_decomp_size d.expected_sstable_sizes
    qs ← queue_parts t'.wait_queues d could_contend
    some (record t' { heap = renew t'.heap b.req_type; wait_queues = qs })

  -- A lower level, to which the sstable of a worker thread gives a batch.
  pub insert_from_sstable : Memory → Target → Giver → ℕ → List Bool → Option (Target × Giver)
  unfolding divide take_from queue_parts
  insert_from_sstable m t g batch could_contend = do
    (t', d, freed) ← divide m t batch
    proportions ← proportions_of d.total_decomp_size d.expected_sstable_sizes
    (taken, own) ← take_from g freed.my_zero
    qs ← queue_parts t'.wait_queues d could_contend
    (info, rs) ←
        give_buffers c spurious_in fuel d.num_req_batches taken
          (receivers_of t'.buffer_queues t'.buffer_guards d.decomposition proportions)
    some (
      record t' {
        wait_queues = qs;
        buffer_queues = map {A = Receiver} {B = BufferQueue} ring_of rs;
      },
      record { info = info; buffer_queue = taken.buffer_queue; guard = own.guard },
    )
