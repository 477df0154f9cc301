-- ===== src/InsertIntoWqs/Tests.antt =====
-- The theorems on a batch of a full table, at a level of three sstables whose first table is filled.
use ringdb.Prelude.{
  ℕ, ◌+◌, ◌≡◌, ◌==◌, if◌then◌else◌, refl, true, false, none, some, [], ◌∷◌, arith, minus_one,
  replicate,
}
use ringdb.Config.{Config, cmake}
use ringdb.Requests.{RequestType}
use ringdb.ReadWritePool.{ReadWritePool}
use ringdb.ReadWritePool.Order.{blank}
use ringdb.WaitQueue.{WaitQueue}
use ringdb.Level.{BloomFilter, RequestBatch, Content}
use ringdb.BufferQueue.{BufferQueue}
use ringdb.SstableInfo.{SstableInfo}
use ringdb.Memory.{memcpy}
use ringdb.SparseIndex.{SparseIndex, remove_table}
use ringdb.Stack
use ringdb.Stack.{StackEntry}
use ringdb.RequestSegment.{Building}
use ringdb.MainLoop.Levels.{Sending}
use ringdb.InsertIntoWqs.{Giver, Target, insert_from_sstable}
use ringdb.InsertIntoWqs.Taking.{insert_from_sstable-none}

abbrev three : Config
three = record cmake { level_factor = 3 }

-- It counts, and lets every key through.
abbrev counting : BloomFilter ℕ
counting = record {
  add_string = λ m f key. f + 1;
  check_string = λ m f key. true;
  elements_added = λ f. f;
}

abbrev no_requests : ReadWritePool
no_requests = record { entries = []; count = 0; num_sent = 0; present_in_level = false }

abbrev no_batches : WaitQueue
no_batches = record {
  atomic_consumer_guard = 1;
  size = 0;
  atomic_producer_guard = 1;
  is_single_thread = true;
  front = 0;
  back = 0;
  nodes = λ p. none;
  next_address = 1;
}

-- It holds the batch 70.
abbrev one_batch : WaitQueue
one_batch = record no_batches {
  front = 1;
  back = 1;
  nodes = λ p. if p == 1 then some (record { req_batch = 70; next = 0 }) else none;
  next_address = 2;
}

abbrev table : RequestBatch
table = record { req_type = RequestType.compaction; content = Content.req_seg 9000 }

abbrev first_level : Target three counting blank no_requests 2 (λ n. false) (λ n i. false)
first_level = record {
  heap = record { batches = λ p. if p == 80 then some table else none; next_address = 81 };
  level_info = record {
    filters = 4 ∷ 0 ∷ 0 ∷ [];
    sparse_index = record { index = 100; null_key = 50 };
  };
  guard = record { atomic_guard = 1; is_single_thread = true };
  wait_queues = no_batches ∷ no_batches ∷ one_batch ∷ [];
  buffer_queues = [];
  buffer_guards = [];
}

abbrev passing : SstableInfo
passing = record {
  req_batch_wq = no_batches;
  is_flushed_to = true;
  insert_buffers_from = 1;
  page_cache_buffers = 1000 ∷ 2000 ∷ [];
  min_key = 0;
  max_key = 0;
  cache_helper = record {
    cache_locations = [];
    sparse_buffer_index_locations = [];
    cur_min_invalid_offset = 9;
    id_of_most_recently_selected_buffer = minus_one;
    free_buffers_left = 1;
    id_of_least_recently_selected_buffer = minus_one;
  };
  stack = record { back = 0; cells = [] };
  requests = [];
  waiting_on_io = false;
  already_waited = false;
  desired_sstable_offset = 0;
}

abbrev no_new_buffers : BufferQueue
no_new_buffers = record {
  queue_front = 0;
  back = 0;
  cur_num_buffers = 0;
  num_new_buffers = 0;
  queue = replicate 200 5;
}

abbrev giver : Giver
giver = record {
  info = passing;
  buffer_queue = no_new_buffers;
  guard = record { atomic_guard = 1; is_single_thread = true };
}

insert_from_sstable-none_example :
    insert_from_sstable three counting blank no_requests 2
      (λ n. false)
      (λ n i. false)
      (λ p. 0)
      first_level
      giver
      80
      (false ∷ false ∷ false ∷ [])
    ≡ none
insert_from_sstable-none_example =
    insert_from_sstable-none three counting blank no_requests 1 (λ n. false) (λ n i. false) (λ p. 0)
      first_level giver 80 (false ∷ false ∷ false ∷ []) refl refl (omega arith) (omega arith)

abbrev zeros : StackEntry
zeros = record { word0 = 0; word1 = 0; word2 = 0; word3 = 0 }

abbrev place : SparseIndex
place = record { index = 100; null_key = 50 }

-- The batch 70 still waits in the last queue of the level.
abbrev sending : Sending three counting blank no_requests 2 (λ n. false) (λ n i. false) place 70
sending = record {
  memory = λ p. 7;
  memtables = record { start = 6000000; size = 2097152 } ∷ [];
  target = first_level;
  stack = record { back = 0; cells = zeros ∷ zeros ∷ zeros ∷ [] };
  next_data = 20000;
}

abbrev laid_out : Building
laid_out = record {
  memory = memcpy (remove_table three place (λ p. 7) 0) 20000 (6000000 + 1048576) 3;
  stack = record {
    back = 0;
    cells = record { word0 = 1048576; word1 = 0; word2 = 2097152; word3 = 0 } ∷ zeros ∷ zeros ∷ [];
  };
  top_tree_index = 0 ∷ 7 ∷ [];
  back = minus_one;
}
