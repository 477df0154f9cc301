-- ===== src/Worker/Runs.antt =====
-- The theorems on worker threads that read, write and serve, with the CMake constants.
use ringdb.Prelude.{
  ℕ, ◌+◌, ◌≡◌, inl, refl, Bool, true, false, none, some, [], ◌∷◌, arith, ◌==◌, if◌then◌else◌,
}
use ringdb.Config.{cmake}
use ringdb.Requests.{RequestType}
use ringdb.ReadWritePool.{ReadWritePool}
use ringdb.ReadWritePool.Order.{blank}
use ringdb.WaitQueue.Chain.{Holds, row}
use ringdb.CacheHelper.{CacheHelper, set_cur_min_invalid_offset, get_cur_min_invalid_offset}
use ringdb.Level.{BloomFilter, Heap, RequestBatch, Content, segment_of}
use ringdb.SstableInfo.{SstableInfo}
use ringdb.Stack.{StackEntry, top, pop_top, empty}
use ringdb.Traverse.{Next, Reading}
use ringdb.Traverse.Children.{move_down_to_children-root}
use ringdb.Traverse
use ringdb.Worker.Initial.{Initial, on_completion}
use ringdb.Worker.Initial.Reads.{Free, on_completion-Free}
use ringdb.Worker.Service.{Serving, with_info, serve_turn}
use ringdb.Worker.Service.Passing.{HasBatch}
use ringdb.Worker.Service.Writing.{Compacts, serve_turn-Compacts}
use ringdb.Worker.Completions
use ringdb.Worker.Completions.{Chunk, Completed}
use ringdb.Worker.Completions.Stuck.{serve_turns, on_completion-one_step}
use ringdb.Worker.Completions.Starving.{Starved, Steps, serve_turn-Starved}
use ringdb.WaitQueue.{WaitQueue, try_push_back}
use ringdb.WaitQueue.Single.{try_push_back-Holds}
use ringdb.Worker.Data.{ring, waited, one_batch, idle}

-- It counts its elements, and lets every key through.
abbrev counting : BloomFilter ℕ
counting = record {
  add_string = λ m f key. f + 1;
  check_string = λ m f key. true;
  elements_added = λ f. f;
}

abbrev no_requests : ReadWritePool
no_requests = record { entries = []; count = 0; num_sent = 0; present_in_level = false }

abbrev unread : Initial ℕ
unread = record {
  memory = λ p. 0;
  filter = 0;
  info = waited;
  num_read = 4;
  num_initialized_read = 0;
  calls = [];
}

elsewhere :
    Free cmake counting blank no_requests
      (record { index = 500; null_key = 50 })
      4096
      60
      3
      1
      (1000 ∷ 2000 ∷ 3000 ∷ [])
      3
      100
elsewhere = record {
  first = inl (omega arith);
  second = inl (omega arith);
  least = inl (omega arith);
  largest = inl (omega arith);
}

on_completion-Free_example :
    (s' : Initial ℕ) × (on_completion cmake counting blank no_requests
        (record { index = 500; null_key = 50 })
        4096
        60
        3
        1
        3
        (30 ∷ 0 ∷ [])
        9
        unread
      ≡ some s')
    × (s'.memory 100 ≡ 0)
    × (s'.info.min_key ≡ 100)
    × (s'.info.max_key ≡ 200)
    × (s'.num_read ≡ 6)
    × (s'.num_initialized_read ≡ 2)
on_completion-Free_example =
    on_completion-Free cmake counting blank no_requests (record { index = 500; null_key = 50 }) 4096
      60 3 1 3 30 0 9 100 unread (omega arith) elsewhere

abbrev reads : RequestBatch
reads = record { req_type = RequestType.read; content = Content.readwrite_pool no_requests }

abbrev segment : RequestBatch
segment = record { req_type = RequestType.compaction; content = Content.req_seg 9000 }

abbrev heap_of : RequestBatch → Heap
heap_of b = record { batches = λ p. if p == 70 then some b else none; next_address = 71 }

abbrev serving : RequestBatch → Bool → Serving
serving b is_flushed_to = record {
  memory = λ p. 0;
  heap = heap_of b;
  req_batch = 0;
  idle = record (idle (ring 0 0)) {
    info = record waited { req_batch_wq = one_batch; is_flushed_to = is_flushed_to };
  };
  calls = [];
  next = Next.stays_here;
}

has_batch : (b : RequestBatch) (flag : Bool) → HasBatch (serving b flag) 70 [] b
has_batch b flag = record {
  not_waiting = refl;
  single = refl;
  queued = row 70 [] (omega arith, refl, refl) (omega arith);
  not_null = omega arith;
  there = refl;
}

serve_turn-Compacts_example :
    (t : Serving) × (serve_turn cmake 1 (λ n. false) 50 4096 3 7 (serving segment false) ≡ some t)
    × Holds t.idle.info.req_batch_wq []
    × (t.idle.info.req_batch_wq.is_single_thread ≡ true)
    × Compacts cmake 0 (λ n. false) 50 4096 3 7 (serving segment false) t 70 9000
unfolding segment_of
serve_turn-Compacts_example =
    serve_turn-Compacts cmake 0 (λ n. false) 50 4096 3 7 (serving segment false) 70 [] segment 9000
      (has_batch segment false) refl refl

-- The segment of the batch 70 is being written.
begun :
    (t : Serving) × (serve_turn cmake 1 (λ n. false) 50 4096 3 7 (serving segment false) ≡ some t)
    × Holds t.idle.info.req_batch_wq []
    × (t.idle.info.req_batch_wq.is_single_thread ≡ true)
    × Compacts cmake 0 (λ n. false) 50 4096 3 7 (serving segment false) t 70 9000
unfolding segment_of
begun =
    serve_turn-Compacts cmake 0 (λ n. false) 50 4096 3 7 (serving segment false) 70 [] segment 9000
      (has_batch segment false) refl refl

-- Then the batch 71 arrives.
arrival :
    (q : WaitQueue) × (try_push_back begun.0.idle.info.req_batch_wq 71 false ≡ some (true, q))
    × Holds q (71 ∷ [])
    × (q.is_single_thread ≡ true)
arrival = try_push_back-Holds begun.0.idle.info.req_batch_wq 71 false [] begun.3 begun.2

abbrev arrived : Serving
arrived = with_info begun.0 (record begun.0.idle.info { req_batch_wq = arrival.0 })

abbrev ended : Completed
ended =
    Completions.flushed cmake 1 (λ n. false) 50 4096 3 7
      (record { serving = arrived; is_practically_full = false })

-- And then the write ends.
steps : Steps cmake 0 (λ n. false) 50 4096 3 7 begun.0 (71 ∷ []) ended.serving
unfolding Completions.on_completion
steps =
    Steps.write_ended (71 ∷ []) arrived false ended
      (Steps.arrives [] begun.0 71 false arrival.0 Steps.here arrival.1) refl

serve_turn-Starved_example : Starved begun.0 ended.serving (71 ∷ [])
unfolding segment_of
serve_turn-Starved_example =
    serve_turn-Starved cmake 0 (λ n. false) 50 4096 3 7 (serving segment false) begun.0
      ended.serving 70 [] (71 ∷ []) segment 9000 (has_batch segment false) refl refl refl begun.1
      steps

-- An entry of the stack for the root of a batch of one request.
abbrev root : StackEntry
root = record { word0 = 0; word1 = 0; word2 = 0; word3 = 1 }

-- Two entries are left, and nothing can be read.
abbrev beyond : CacheHelper
beyond = record waited.cache_helper { cur_min_invalid_offset = 0 }

abbrev two_left : SstableInfo
two_left = record waited {
  waiting_on_io = true;
  stack = record { back = 2; cells = root ∷ root ∷ root ∷ [] };
}

abbrev waiting : Completed
waiting = record {
  serving = record (serving reads true) { idle = record (idle (ring 0 0)) { info = two_left } };
  is_practically_full = false;
}

abbrev nothing_read : Chunk
nothing_read = record { res = 0; left_boundary = 0 }

mapped :
    Completions.map_chunks cmake 1
      (λ n. false)
      50
      4096
      3
      7
      two_left.cache_helper
      0
      (nothing_read ∷ [])
    ≡ some beyond
unfolding Completions.map_chunks set_cur_min_invalid_offset
mapped = refl

top-root : top two_left.stack ≡ some root
unfolding top
top-root = refl

abbrev one_left : Reading
one_left = record {
  memory = λ p. 0;
  info = record two_left { cache_helper = beyond; stack = pop_top two_left.stack };
  calls = [];
}

stepped :
    Traverse.step cmake 50 4096 3
      (record { memory = λ p. 0; info = record two_left { cache_helper = beyond }; calls = [] })
    ≡ some one_left
unfolding Traverse.step get_cur_min_invalid_offset
stepped =
    let down =
      move_down_to_children-root cmake 50 4096 3 (λ p. 0)
        (record two_left { cache_helper = beyond }) 1 (omega arith) top-root in
    rw down refl

not_done : empty one_left.info.stack ≡ false
unfolding empty pop_top
not_done = refl

on_completion-one_step_example :
    (d' : Completed) × (Completions.on_completion cmake 1
        (λ n. false)
        50
        4096
        3
        7
        (nothing_read ∷ [])
        waiting
      ≡ some d')
    × (d'.serving.idle.info ≡ one_left.info)
    × (d'.serving.calls ≡ [])
    × ((n : ℕ) → serve_turns cmake 0 (λ n. false) 50 4096 3 7 n d'.serving ≡ some d'.serving)
on_completion-one_step_example =
    on_completion-one_step cmake 0 (λ n. false) 50 4096 3 7 waiting nothing_read [] beyond one_left
      refl mapped stepped not_done
