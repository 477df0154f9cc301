-- ===== src/Worker/Service/Writing.antt =====
-- What becomes of a batch of compactions that an sstable takes from its queue.
use ringdb.Prelude.{
  ℕ, suc, ◌*◌, ◌≡◌, inl, inr, refl, ◌∙◌, Bool, true, false, none, some, List, [], ◌∷◌, ◌++◌, arith,
  not, ◌&&◌, if◌then◌else◌, Bool-cases,
}
use ringdb.Config.{Config, memtable_size, entry_length}
use ringdb.WaitQueue.Chain.{Holds}
use ringdb.Level.{RequestBatch, segment_of, is_read}
use ringdb.Traverse.{Next}
use ringdb.Worker.{Call}
use ringdb.Worker.Service.{
  Serving, has_next, free_batch, write_segment, handle_compaction, handle_batch, serve_turn,
}
use ringdb.Worker.Service.Passing.{HasBatch, taken, serve_turn-taken}

module _ (c : Config) (fuel : ℕ) (spurious : ℕ → Bool)
    (null_key buffer_size sstable_num level : ℕ) where
  -- What a turn with a batch of compactions leaves. An sstable that was written to passes the batch on, or
  -- deletes it where there is no next level; one that was not has it written to its file, and waits.
  pub data Compacts (s t : Serving) (b data_start : ℕ) : Type 0 where
    passed :
        s.idle.info.is_flushed_to ≡ true
        → has_next c (suc fuel) spurious null_key buffer_size sstable_num level ≡ true
        → t.next ≡ Next.to_next_level
        → t.heap ≡ s.heap
        → t.calls ≡ s.calls
        → t.idle.info.waiting_on_io ≡ false
        → Compacts s t b data_start
    deleted :
        s.idle.info.is_flushed_to ≡ true
        → has_next c (suc fuel) spurious null_key buffer_size sstable_num level ≡ false
        → t.next ≡ Next.stays_here
        → t.heap.batches b ≡ none
        → t.calls ≡ s.calls
        → t.idle.info.waiting_on_io ≡ false
        → Compacts s t b data_start
    written :
        s.idle.info.is_flushed_to ≡ false
        → t.next ≡ Next.stays_here
        → t.heap ≡ s.heap
        → t.calls
          ≡ s.calls
            ++ Call.prep_write sstable_num data_start (memtable_size c * entry_length c) 0
              ∷ Call.prep_msg_to_scheduler sstable_num
              ∷ Call.submit
              ∷ []
        → t.idle.info.waiting_on_io ≡ true
        → Compacts s t b data_start

  compaction_runs :
      (t : Serving) (batch : RequestBatch) (data_start : ℕ)
      → is_read batch.req_type ≡ false
      → segment_of batch ≡ some data_start
      → handle_batch c (suc fuel) spurious null_key buffer_size sstable_num level t batch ≡ (
          if t.idle.info.is_flushed_to
            && has_next c (suc fuel) spurious null_key buffer_size sstable_num level
          then some (record t { next = Next.to_next_level })
          else if not t.idle.info.is_flushed_to
          then some (
              write_segment c
                (suc fuel)
                spurious
                null_key
                buffer_size
                sstable_num
                level
                t
                data_start)
          else some (record t { heap = free_batch t.heap t.req_batch }))
  unfolding handle_batch handle_compaction
  compaction_runs t batch data_start r d = rw (r, d) refl

  -- A batch of compactions is taken from the queue and handled in one of the three ways, by whether the
  -- sstable was written to and whether there is a next level.
  pub serve_turn-Compacts :
      (s : Serving) (b : ℕ) (bs : List ℕ) (batch : RequestBatch) (data_start : ℕ)
      → HasBatch s b bs batch
      → is_read batch.req_type ≡ false
      → segment_of batch ≡ some data_start
      → (t : Serving) × (serve_turn c (suc fuel) spurious null_key buffer_size sstable_num level s
          ≡ some t)
        × Holds t.idle.info.req_batch_wq bs
        × (t.idle.info.req_batch_wq.is_single_thread ≡ true)
        × Compacts s t b data_start
  unfolding write_segment free_batch
  serve_turn-Compacts s b bs batch data_start h r d =
      let (q, run, holds, single) =
        serve_turn-taken c fuel spurious null_key buffer_size sstable_num level s b bs batch h in
      let t = taken s b q in
      let run' = run ∙ compaction_runs t batch data_start r d in
      elim (Bool-cases s.idle.info.is_flushed_to) [
        | inl f ↦
            elim (Bool-cases
              (has_next c (suc fuel) spurious null_key buffer_size sstable_num level)) [
                | inl below ↦ (
                  record t { next = Next.to_next_level },
                  run' ∙ ground arith,
                  holds,
                  single,
                  passed f below refl refl refl h.not_waiting,
                )
                | inr last ↦ (
                  record t { heap = free_batch s.heap b },
                  run' ∙ ground arith,
                  holds,
                  single,
                  deleted f last refl (ground arith) refl h.not_waiting,
                )
              ]
        | inr f ↦ (
          write_segment c (suc fuel) spurious null_key buffer_size sstable_num level t data_start,
          run' ∙ ground arith,
          holds,
          single,
          written f refl refl refl refl,
        )
      ]
