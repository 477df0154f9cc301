-- ===== src/Worker/Completions/Starving.antt =====
-- What can happen to an sstable that waits, in any order: turns, batches that arrive, and writes that end.
use mathlib.Core.List.{append-nil, append_assoc}
use ringdb.Prelude.{ℕ, suc, ◌≡◌, refl, Bool, true, false, some, List, [], ◌∷◌, ◌++◌}
use ringdb.Config.{Config}
use ringdb.WaitQueue.{WaitQueue, try_push_back}
use ringdb.WaitQueue.Chain.{Holds}
use ringdb.WaitQueue.Single.{try_push_back-Holds}
use ringdb.Level.{RequestBatch, segment_of, is_read}
use ringdb.Worker.Service.{Serving, with_info, serve_turn}
use ringdb.Worker.Service.Passing.{HasBatch, serve_turn-waiting}
use ringdb.Worker.Service.Writing.{serve_turn-Compacts, passed, deleted, written}
use ringdb.Worker.Completions.{Completed, flushed, on_completion}

-- `u` still waits; it took none of the batches `bs` of its queue, read nothing and asked for nothing.
pub record Starved (s u : Serving) (bs : List ℕ) : Type 0 where
  pub waits : u.idle.info.waiting_on_io ≡ true
  pub single : u.idle.info.req_batch_wq.is_single_thread ≡ true
  pub held : Holds u.idle.info.req_batch_wq bs
  pub same_batch : u.req_batch ≡ s.req_batch
  pub same_memory : u.memory ≡ s.memory
  pub same_calls : u.calls ≡ s.calls

module _ (c : Config) (fuel : ℕ) (spurious : ℕ → Bool)
    (null_key buffer_size sstable_num level : ℕ) where
  -- From `s` on, with the batches that arrived. The sstable has no read on the way, so that a completion has no
  -- entries; batches come from another sstable of the same thread.
  pub data Steps (s : Serving) : List ℕ → Serving → Type 0 where
    here : Steps s [] s
    turn :
        (bs : List ℕ) (t u : Serving)
        → Steps s bs t
        → serve_turn c (suc fuel) spurious null_key buffer_size sstable_num level t ≡ some u
        → Steps s bs u
    arrives :
        (bs : List ℕ) (t : Serving) (b : ℕ) (could_contend : Bool) (q : WaitQueue)
        → Steps s bs t
        → try_push_back t.idle.info.req_batch_wq b could_contend ≡ some (true, q)
        → Steps s (bs ++ (b ∷ [])) (with_info t (record t.idle.info { req_batch_wq = q }))
    write_ended :
        (bs : List ℕ) (t : Serving) (full : Bool) (d : Completed)
        → Steps s bs t
        → on_completion c
            (suc fuel)
            spurious
            null_key
            buffer_size
            sstable_num
            level
            []
            (record { serving = t; is_practically_full = full })
          ≡ some d
        → Steps s bs d.serving

  turn_kept :
      (s t u : Serving) (bs : List ℕ)
      → Starved s t bs
      → serve_turn c (suc fuel) spurious null_key buffer_size sstable_num level t ≡ some u
      → Starved s u bs
  turn_kept s t u bs v run =
      let still =
        serve_turn-waiting c fuel spurious null_key buffer_size sstable_num level t v.waits in
      let e : u ≡ t = cc in rw e v

  arrival_kept :
      (s t : Serving) (bs : List ℕ) (b : ℕ) (could_contend : Bool) (q : WaitQueue)
      → Starved s t bs
      → try_push_back t.idle.info.req_batch_wq b could_contend ≡ some (true, q)
      → Starved s (with_info t (record t.idle.info { req_batch_wq = q })) (bs ++ (b ∷ []))
  arrival_kept s t bs b could_contend q v run =
      let (q', run', held, single) =
        try_push_back-Holds t.idle.info.req_batch_wq b could_contend bs v.single v.held in
      let e : q ≡ q' = cc in
      record {
        waits = v.waits;
        single = rw e single;
        held = rw e held;
        same_batch = v.same_batch;
        same_memory = v.same_memory;
        same_calls = v.same_calls;
      }

  write_kept :
      (s t : Serving) (bs : List ℕ) (full : Bool) (d : Completed)
      → Starved s t bs
      → on_completion c
          (suc fuel)
          spurious
          null_key
          buffer_size
          sstable_num
          level
          []
          (record { serving = t; is_practically_full = full })
        ≡ some d
      → Starved s d.serving bs
  unfolding on_completion flushed
  write_kept s t bs full d v run =
      let e : d
          ≡ flushed c (suc fuel) spurious null_key buffer_size sstable_num level
              (record { serving = t; is_practically_full = full }) =
        cc in
      rw e (record {
        waits = v.waits;
        single = v.single;
        held = v.held;
        same_batch = v.same_batch;
        same_memory = v.same_memory;
        same_calls = v.same_calls;
      })

  all_kept :
      (s u : Serving) (bs cs : List ℕ) → Starved s s bs → Steps s cs u → Starved s u (bs ++ cs)
  all_kept s u bs cs v here = rw (append-nil bs) v
  all_kept s u bs cs v (turn _ t _ h run) = turn_kept s t u (bs ++ cs) (all_kept s t bs cs v h) run
  all_kept s u bs cs v (arrives before t b could_contend q h run) =
      rw (← append_assoc bs before (b ∷ []))
        (arrival_kept s t (bs ++ before) b could_contend q (all_kept s t bs before v h) run)
  all_kept s u bs cs v (write_ended _ t full d h run) =
      write_kept s t (bs ++ cs) full d (all_kept s t bs cs v h) run

  -- An sstable to which nothing was written takes a batch of compactions. In whatever order its turns, batches
  -- that arrive and the end of the write follow, it waits from then on: no batch is taken from its queue,
  -- and it reads nothing and asks for nothing. Its queue is used by one thread.
  pub serve_turn-Starved :
      (s t u : Serving) (b : ℕ) (bs cs : List ℕ) (batch : RequestBatch) (data_start : ℕ)
      → HasBatch s b bs batch
      → is_read batch.req_type ≡ false
      → segment_of batch ≡ some data_start
      → s.idle.info.is_flushed_to ≡ false
      → serve_turn c (suc fuel) spurious null_key buffer_size sstable_num level s ≡ some t
      → Steps t cs u
      → Starved t u (bs ++ cs)
  serve_turn-Starved s t u b bs cs batch data_start h r e f run steps =
      let (t', run', held, single, k) =
        serve_turn-Compacts c fuel spurious null_key buffer_size sstable_num level s b bs batch
          data_start h r e in
      let w : t'.idle.info.waiting_on_io ≡ true = elim k [
        | passed g _ _ _ _ _ ↦ cc
        | deleted g _ _ _ _ _ ↦ cc
        | written _ _ _ _ w ↦ w
      ] in
      let same : t ≡ t' = cc in
      let start : Starved t t bs = rw same (record {
        waits = w;
        single = single;
        held = held;
        same_batch = refl;
        same_memory = refl;
        same_calls = refl;
      }) in
      all_kept t u bs cs start steps
