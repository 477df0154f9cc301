-- ===== src/Worker/Completions/Stuck.antt =====
-- How an sstable goes on after its reads or its write have ended.
use ringdb.Prelude.{
  ℕ, zero, suc, ◌≡◌, refl, ap, ◌∙◌, Bool, true, false, some, List, [], ◌∷◌, ◌++◌, ◌>>=◌, Option,
  map,
}
use ringdb.Config.{Config, num_sstable_levels}
use ringdb.Stack.{empty}
use ringdb.CacheHelper.{CacheHelper}
use ringdb.Traverse.{Reading, Next}
use ringdb.Traverse.Waiting.{loop-once, settle_more}
use ringdb.Traverse
use ringdb.Level.{RequestBatch, segment_of, is_read}
use ringdb.Worker.{Call}
use ringdb.Worker.Service.{Serving, with_info, serve_turn, after_loop, read_in_memory}
use ringdb.Worker.Service.Passing.{HasBatch, serve_turn-waiting}
use ringdb.Worker.Service.Writing.{serve_turn-Compacts, passed, deleted, written}
use ringdb.Worker.Completions.{Chunk, Completed, map_chunks, flushed, on_completion}

module _ (c : Config) (fuel : ℕ) (spurious : ℕ → Bool)
    (null_key buffer_size sstable_num level : ℕ) where
  -- A number of turns of one sstable, in each of which its thread does nothing else for it.
  pub serve_turns : ℕ → Serving → Option Serving
  serve_turns zero s = some s
  serve_turns (suc n) s = do
    t ← serve_turn c (suc fuel) spurious null_key buffer_size sstable_num level s
    serve_turns n t

  turns_while_waiting :
      (n : ℕ) (s : Serving) → s.idle.info.waiting_on_io ≡ true → serve_turns n s ≡ some s
  unfolding serve_turns
  turns_while_waiting zero s w = refl
  turns_while_waiting (suc n) s w =
      ap (λ o. o >>= serve_turns n)
        (serve_turn-waiting c fuel spurious null_key buffer_size sstable_num level s w)
      ∙ turns_while_waiting n s w

  -- An sstable to which nothing was written takes a batch of compactions: its segment is written to the file;
  -- after the write has ended the sstable counts as written to, but it still waits, and from then on no
  -- turn takes a batch or changes anything.
  serve_turns-stuck :
      (s : Serving) (b : ℕ) (bs : List ℕ) (batch : RequestBatch) (data_start : ℕ) (full : Bool)
      → HasBatch s b bs batch
      → is_read batch.req_type ≡ false
      → segment_of batch ≡ some data_start
      → s.idle.info.is_flushed_to ≡ false
      → (t : Serving) × (d : Completed) × (serve_turn c
            (suc fuel)
            spurious
            null_key
            buffer_size
            sstable_num
            level
            s
          ≡ some t)
        × (on_completion c
              (suc fuel)
              spurious
              null_key
              buffer_size
              sstable_num
              level
              []
              (record { serving = t; is_practically_full = full })
            ≡ some d)
        × (d.serving.idle.info.is_flushed_to ≡ true)
        × ((n : ℕ) → serve_turns n d.serving ≡ some d.serving)
  unfolding on_completion flushed
  serve_turns-stuck s b bs batch data_start full h r e f =
      let (t, run, _, _, k) =
        serve_turn-Compacts c fuel spurious null_key buffer_size sstable_num level s b bs batch
          data_start h r e in
      let w : t.idle.info.waiting_on_io ≡ true = elim k [
        | passed g _ _ _ _ _ ↦ cc
        | deleted g _ _ _ _ _ ↦ cc
        | written _ _ _ _ w ↦ w
      ] in
      let d =
        flushed c (suc fuel) spurious null_key buffer_size sstable_num level
          (record { serving = t; is_practically_full = full }) in
      (t, d, run, refl, refl, λ n. turns_while_waiting n d.serving w)

  reading : Completed → CacheHelper → Reading
  reading d h = record {
    memory = d.serving.memory;
    info = record d.serving.idle.info { cache_helper = h };
    calls = [];
  }

  settled : Serving → Reading → Serving
  settled s r = record s {
    memory = r.memory;
    idle = record s.idle { info = r.info };
    calls = s.calls ++ map {A = Traverse.Call} {B = Call} Call.reading r.calls;
  }

  read_runs :
      (s : Serving) (r : Reading)
      → Traverse.loop c null_key buffer_size sstable_num
          (suc fuel)
          (record { memory = s.memory; info = s.idle.info; calls = [] })
        ≡ some r
      → empty r.info.stack ≡ false
      → read_in_memory c (suc fuel) spurious null_key buffer_size sstable_num level s
        ≡ some (settled s r)
  unfolding read_in_memory after_loop settled
  read_runs s r e n = rw e (
      ap (λ p. some (after_loop c (suc fuel) spurious null_key buffer_size sstable_num level s r p))
        (settle_more (num_sstable_levels c) level r.info n))

  chunks_run :
      (d : Completed) (chunk : Chunk) (chunks : List Chunk) (h : CacheHelper) (s : Serving)
      → map_chunks c
          (suc fuel)
          spurious
          null_key
          buffer_size
          sstable_num
          level
          d.serving.idle.info.cache_helper
          0
          (chunk ∷ chunks)
        ≡ some h
      → read_in_memory c
          (suc fuel)
          spurious
          null_key
          buffer_size
          sstable_num
          level
          (with_info d.serving (record d.serving.idle.info { cache_helper = h }))
        ≡ some s
      → on_completion c
          (suc fuel)
          spurious
          null_key
          buffer_size
          sstable_num
          level
          (chunk ∷ chunks)
          d
        ≡ some (record d { serving = s })
  unfolding on_completion
  chunks_run d chunk chunks h s e r = rw (e, r)

  -- The reads of a waiting sstable have ended, and the buffers were mapped. Then the traversal makes one step
  -- only, whatever was read: unless that step leaves no request, the sstable still waits, and no turn
  -- does anything for it until another read of it ends.
  pub on_completion-one_step :
      (d : Completed) (chunk : Chunk) (chunks : List Chunk) (h : CacheHelper) (r : Reading)
      → d.serving.idle.info.waiting_on_io ≡ true
      → map_chunks c
          (suc fuel)
          spurious
          null_key
          buffer_size
          sstable_num
          level
          d.serving.idle.info.cache_helper
          0
          (chunk ∷ chunks)
        ≡ some h
      → Traverse.step c null_key buffer_size sstable_num (record {
        memory = d.serving.memory;
        info = record d.serving.idle.info { cache_helper = h };
        calls = [];
      })
        ≡ some r
      → empty r.info.stack ≡ false
      → (d' : Completed) × (on_completion c
            (suc fuel)
            spurious
            null_key
            buffer_size
            sstable_num
            level
            (chunk ∷ chunks)
            d
          ≡ some d')
        × (d'.serving.idle.info ≡ r.info)
        × (d'.serving.calls
            ≡ d.serving.calls ++ map {A = Traverse.Call} {B = Call} Call.reading r.calls)
        × ((n : ℕ) → serve_turns n d'.serving ≡ some d'.serving)
  unfolding settled reading
  on_completion-one_step d chunk chunks h r w mapped stepped more =
      let (run, w') = loop-once c null_key buffer_size sstable_num fuel (reading d h) r w stepped in
      let s = with_info d.serving (record d.serving.idle.info { cache_helper = h }) in
      (
        record d { serving = settled s r },
        chunks_run d chunk chunks h (settled s r) mapped (read_runs s r run more),
        refl,
        refl,
        λ n. turns_while_waiting n (settled s r) w',
      )
