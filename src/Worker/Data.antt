-- ===== src/Worker/Data.antt =====
-- Sstables at which the theorems on worker threads are applied, with the CMake constants.
use ringdb.Prelude.{ℕ, ◌==◌, if◌then◌else◌, Bool, true, false, none, some, [], ◌∷◌, replicate}
use ringdb.Guards.{Guard}
use ringdb.BufferQueue.{BufferQueue}
use ringdb.WaitQueue.{WaitQueue}
use ringdb.SstableInfo.{SstableInfo}
use ringdb.Worker.Upstream.{Idle}

-- A ring of 200 places with n new buffers and a stock of `stock`.
abbrev pub ring : ℕ → ℕ → BufferQueue
ring n stock = record {
  queue_front = 0;
  back = n;
  cur_num_buffers = stock;
  num_new_buffers = n;
  queue = 5 ∷ 6 ∷ 7 ∷ replicate 197 8;
}

abbrev pub no_batches : WaitQueue
no_batches = record {
  atomic_consumer_guard = 1;
  size = 0;
  atomic_producer_guard = 1;
  is_single_thread = true;
  front = 0;
  back = 0;
  nodes = λ p. none;
  next_address = 1;
}

-- A queue that holds the batch 70.
abbrev pub one_batch : WaitQueue
one_batch = record no_batches {
  front = 1;
  back = 1;
  nodes = λ p. if p == 1 then some (record { req_batch = 70; next = 0 }) else none;
  next_address = 2;
}

abbrev pub waited : SstableInfo
waited = record {
  req_batch_wq = no_batches;
  is_flushed_to = true;
  insert_buffers_from = 3;
  page_cache_buffers = 1000 ∷ 2000 ∷ 3000 ∷ [];
  min_key = 100;
  max_key = 200;
  cache_helper = record {
    cache_locations = [];
    sparse_buffer_index_locations = [];
    cur_min_invalid_offset = 9;
    id_of_most_recently_selected_buffer = 0;
    free_buffers_left = 3;
    id_of_least_recently_selected_buffer = 0;
  };
  stack = record { back = 0; cells = [] };
  requests = [];
  waiting_on_io = false;
  already_waited = true;
  desired_sstable_offset = 0;
}

abbrev pub guard : Bool → Guard
guard single = record { atomic_guard = 1; is_single_thread = single }

abbrev pub idle : BufferQueue → Idle
idle q = record {
  info = waited;
  buffer_queue = q;
  guard = guard true;
  prev_buffer_queue = ring 0 0;
  prev_guard = guard true;
  my_zero = 0;
}
