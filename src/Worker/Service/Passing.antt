-- ===== src/Worker/Service/Passing.antt =====
-- How a worker thread takes a batch from an sstable's queue.
use ringdb.Prelude.{ℕ, suc, ◌<◌, ◌≡◌, Bool, true, false, some, List, ◌∷◌, arith, ◌==◌}
use ringdb.Config.{Config}
use ringdb.WaitQueue.{WaitQueue, pop_front}
use ringdb.WaitQueue.Chain.{Holds}
use ringdb.WaitQueue.Single.{pop_front-Holds}
use ringdb.Level.{RequestBatch}
use ringdb.Traverse.{Next}
use ringdb.Worker.Spins.{spin_single}
use ringdb.Worker.Service.{Serving, handle_batch, take_batch, serve_turn}

-- An sstable that waits for nothing, with a queue of one thread whose front batch `b` is `batch`.
pub record HasBatch (s : Serving) (b : ℕ) (bs : List ℕ) (batch : RequestBatch) : Type 0 where
  pub not_waiting : s.idle.info.waiting_on_io ≡ false
  pub single : s.idle.info.req_batch_wq.is_single_thread ≡ true
  pub queued : Holds s.idle.info.req_batch_wq (b ∷ bs)
  pub not_null : 0 < b
  pub there : s.heap.batches b ≡ some batch

abbrev pub taken : Serving → ℕ → WaitQueue → Serving
taken s b q = record s {
  req_batch = b;
  idle = record s.idle { info = record s.idle.info { req_batch_wq = q }; my_zero = 0 };
  next = Next.stays_here;
}

module _ (c : Config) (fuel : ℕ) (spurious : ℕ → Bool)
    (null_key buffer_size sstable_num level : ℕ) where
  take_runs :
      (s : Serving) (b : ℕ) (q : WaitQueue)
      → s.idle.info.req_batch_wq.is_single_thread ≡ true
      → pop_front s.idle.info.req_batch_wq ≡ some (b, q)
      → take_batch c (suc fuel) spurious null_key buffer_size sstable_num level s
        ≡ some (taken s b q)
  unfolding take_batch
  take_runs s b q single run =
      let wq = s.idle.info.req_batch_wq in
      let spun =
        spin_single fuel spurious
          (record {
            atomic_guard = wq.atomic_consumer_guard;
            is_single_thread = wq.is_single_thread;
          })
          s.idle.my_zero single in
      rw (spun, run)

  turn_runs :
      (s t : Serving) (batch : RequestBatch)
      → s.idle.info.waiting_on_io ≡ false
      → take_batch c (suc fuel) spurious null_key buffer_size sstable_num level s ≡ some t
      → 0 < t.req_batch
      → t.heap.batches t.req_batch ≡ some batch
      → serve_turn c (suc fuel) spurious null_key buffer_size sstable_num level s
        ≡ handle_batch c (suc fuel) spurious null_key buffer_size sstable_num level t batch
  unfolding serve_turn
  turn_runs s t batch w run pos there =
      let not_null : (t.req_batch == 0) ≡ false = ground arith in rw (run, w, not_null, there)

  -- The turn of an sstable that has a batch handles that batch; the other batches stay in the queue.
  pub serve_turn-taken :
      (s : Serving) (b : ℕ) (bs : List ℕ) (batch : RequestBatch)
      → HasBatch s b bs batch
      → (q : WaitQueue) × (serve_turn c (suc fuel) spurious null_key buffer_size sstable_num level s
          ≡ handle_batch c
              (suc fuel)
              spurious
              null_key
              buffer_size
              sstable_num
              level
              (taken s b q)
              batch)
        × Holds q bs
        × (q.is_single_thread ≡ true)
  serve_turn-taken s b bs batch h =
      let (q, run, holds, single) =
        pop_front-Holds s.idle.info.req_batch_wq b bs h.single h.queued in
      (
        q,
        turn_runs s (taken s b q) batch h.not_waiting (take_runs s b q h.single run) h.not_null
            h.there,
        holds,
        single,
      )

  -- An sstable that waits for a read or a write is left alone.
  pub serve_turn-waiting :
      (s : Serving)
      → s.idle.info.waiting_on_io ≡ true
      → serve_turn c (suc fuel) spurious null_key buffer_size sstable_num level s ≡ some s
  unfolding serve_turn
  serve_turn-waiting s w = ground arith
