-- ===== src/Worker/Service.antt =====
-- What a worker thread does in turn for an sstable that is not waiting for a read or a write: it takes a batch
-- from the sstable's queue and handles it, or leaves the turn to Upstream (lsm_tree.hpp, the branch on
-- waiting_on_io).
pub mod Passing
pub mod Writing
use ringdb.Prelude.{
  ℕ, zero, suc, ◌+◌, ◌-◌, ◌*◌, ◌/◌, ◌^◌, ◌≡◌, Bool, true, false, Option, none, some, List, [], ◌∷◌,
  ◌++◌, ◌>>=◌, map, ltb, ◌==◌, not, ◌&&◌, if◌then◌else◌, sub32,
}
use ringdb.Config.{Config, num_sstable_levels, memtable_size, entry_length}
use ringdb.Memory.{Memory}
use ringdb.Guards.{Guard}
use ringdb.ReadWritePool.{ReadWritePool}
use ringdb.Stack.{push_top}
use ringdb.WaitQueue.{WaitQueue, pop_front}
use ringdb.SstableInfo.{SstableInfo}
use ringdb.Level.{Heap, RequestBatch, Content, pool_of, segment_of, is_read}
use ringdb.Handover.{try_add_buffers_nonblockingly}
use ringdb.Traverse.{Reading, Next}
use ringdb.Traverse
use ringdb.Worker.{Call, Spun, spin}
use ringdb.Worker.Upstream.{Idle, idle_turn}

-- Memory and the batches, the batch in hand (nullptr is 0), the sstable with the buffer queues, the calls
-- made, and where the batch in hand is to go.
pub record Serving : Type 0 where
  pub memory : Memory
  pub heap : Heap
  pub req_batch : ℕ
  pub idle : Idle
  pub calls : List Call
  pub next : Next

abbrev pub with_info : Serving → SstableInfo → Serving
with_info s info = record s { idle = record s.idle { info = info } }

-- delete
pub free_batch : Heap → ℕ → Heap
free_batch h p = record h { batches = λ q. if p == q then none else h.batches q }

-- `fuel` is for the loops: the spinning ones, the one over the buffers that wait, and the traversal.
module _ (c : Config) (fuel : ℕ) (spurious : ℕ → Bool)
    (null_key buffer_size sstable_num level : ℕ) where
  -- The test whether there is a level below.
  abbrev pub has_next : Bool
  has_next = ltb level (sub32 (num_sstable_levels c) 1)

  -- insert_into_wqs(level + 1, …) is left to what comes behind; on the last level the batch goes back to the
  -- network thread.
  pub pass_on : Serving → Serving
  pass_on s = if has_next then record s { next = Next.to_next_level } else record s {
    next = Next.to_network;
    calls = s.calls ++ (Call.prep_msg_to_network s.req_batch ∷ []);
  }

  -- What comes after the traversal, by where the batch is to go.
  unfoldable pub after_loop : Serving → Reading → SstableInfo × Next → Serving
  unfolding pass_on
  after_loop s r (info, next) =
      let s' = record s {
        memory = r.memory;
        idle = record s.idle { info = info };
        calls = s.calls ++ map {A = Traverse.Call} {B = Call} Call.reading r.calls;
      } in
      elim next [ Next.stays_here ↦ s' | _ ↦ pass_on s' ]

  -- try_sstable_tree_read_in_memory
  unfoldable pub read_in_memory : Serving → Option Serving
  unfolding after_loop
  read_in_memory s = do
    r ←
        Traverse.loop c null_key buffer_size sstable_num fuel
          (record { memory = s.memory; info = s.idle.info; calls = [] })
    some (after_loop s r (Traverse.settle (num_sstable_levels c) r.info level))

  -- A batch of reads whose keys may be in the sstable.
  pub start_reading : Serving → ReadWritePool → Option Serving
  unfolding read_in_memory
  start_reading s pool = do
    (info, q) ←
        try_add_buffers_nonblockingly c fuel (spurious fuel) s.idle.info s.idle.guard
          s.idle.buffer_queue
    stack ← push_top info.stack 0 (pool.count / 2) 0 pool.count
    read_in_memory (record s {
      idle = record s.idle {
        info = record info { desired_sstable_offset = 0; stack = stack; requests = pool.entries };
        buffer_queue = q;
      };
    })

  -- The segment is written to the file, and the thread is told of it.
  pub write_segment : Serving → ℕ → Serving
  write_segment s data_start = record s {
    idle = record s.idle { info = record s.idle.info { waiting_on_io = true } };
    calls =
        s.calls
        ++ Call.prep_write sstable_num data_start (memtable_size c * entry_length c) 0
          ∷ Call.prep_msg_to_scheduler sstable_num
          ∷ Call.submit
          ∷ [];
  }

  handle_reads : Serving → RequestBatch → Option Serving
  unfolding pass_on start_reading
  handle_reads s b = do
    pool ← pool_of b
    if not (pool.present_in_level && s.idle.info.is_flushed_to)
        then some (pass_on s)
        else start_reading s pool

  handle_compaction : Serving → RequestBatch → Option Serving
  unfolding write_segment
  handle_compaction s b =
      if s.idle.info.is_flushed_to && has_next
      then some (record s { next = Next.to_next_level })
      else if not s.idle.info.is_flushed_to
      then (do data_start ← segment_of b; some (write_segment s data_start))
      else some (record s { heap = free_batch s.heap s.req_batch })

  -- The batch that was taken.
  pub handle_batch : Serving → RequestBatch → Option Serving
  unfolding handle_reads handle_compaction
  handle_batch s b = if is_read b.req_type then handle_reads s b else handle_compaction s b

  -- The batch in front of the sstable's queue, which is nullptr if there is none.
  pub take_batch : Serving → Option Serving
  take_batch s = do
    let q = s.idle.info.req_batch_wq
    let guard : Guard = record {
      atomic_guard = q.atomic_consumer_guard;
      is_single_thread = q.is_single_thread;
    }
    held ← spin fuel spurious guard s.idle.my_zero
    (b, q') ← pop_front (record q { atomic_consumer_guard = held.guard.atomic_guard })
    some (record s {
      req_batch = b;
      idle = record s.idle { info = record s.idle.info { req_batch_wq = q' }; my_zero = 0 };
      next = Next.stays_here;
    })

  pub serve_turn : Serving → Option Serving
  serve_turn s = if s.idle.info.waiting_on_io then some s else (do
    s' ← take_batch s
    if s'.req_batch == 0
        then (do i ← idle_turn c fuel spurious level s'.idle; some (record s' { idle = i }))
        else (do b ← s'.heap.batches s'.req_batch; handle_batch s' b))
