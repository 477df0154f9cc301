-- ===== src/Config.antt =====
-- The macros that CMakeLists.txt defines, as a parameter of the model, and constinit_constants.hpp.
pub mod Powers
pub mod Sizes
mod Tests
use ringdb.Prelude.{ℕ, ◌+◌, ◌-◌, ◌*◌, ◌/◌, ◌^◌}

pub record Config : Type 0 where
  pub memtable_size_mb_bits : ℕ
  pub total_sstable_storage_space_mb : ℕ
  pub level_factor : ℕ
  pub num_sstable_worker_threads : ℕ
  pub key_length : ℕ
  pub value_length : ℕ
  pub page_size : ℕ
  pub block_size : ℕ
  pub align_no_false_sharing : ℕ
  pub max_simultaneous_connections : ℕ
  pub total_sstable_page_cache_size : ℕ

-- The values of CMakeLists.txt, the same in its test and its production branch.
abbrev pub cmake : Config
cmake = record {
  memtable_size_mb_bits = 1;
  total_sstable_storage_space_mb = 1000;
  level_factor = 10;
  num_sstable_worker_threads = 200;
  key_length = 1;
  value_length = 2;
  page_size = 4096;
  block_size = 4096;
  align_no_false_sharing = 64;
  max_simultaneous_connections = 100;
  total_sstable_page_cache_size = 1000;
}

module _ (c : Config) where
  abbrev pub num_sstables : ℕ
  num_sstables = c.total_sstable_storage_space_mb / 2 ^ c.memtable_size_mb_bits

  abbrev pub socket_buffer_length : ℕ
  socket_buffer_length = 5 + c.key_length + c.value_length

  abbrev pub batch_num_requests : ℕ
  batch_num_requests = c.page_size / socket_buffer_length

  abbrev pub max_sstable_height : ℕ
  max_sstable_height = c.memtable_size_mb_bits * 20

  abbrev pub max_buffer_set_size : ℕ
  max_buffer_set_size = max_sstable_height * c.level_factor

  -- The bytes of a MemTable's array.
  abbrev pub memtable_size : ℕ
  memtable_size = 2 ^ c.memtable_size_mb_bits * 2 ^ 20

  abbrev pub entry_length : ℕ
  entry_length = c.key_length + c.value_length

  -- The sstables that a worker thread handles: WORKER_SSTABLE_BATCH_SIZE.
  abbrev pub worker_sstable_batch_size : ℕ
  worker_sstable_batch_size = num_sstables / c.num_sstable_worker_threads

  abbrev pub num_sstable_levels : ℕ
  num_sstable_levels = num_sstables / c.level_factor

  -- The sstables and the server's socket.
  abbrev pub num_file_fds : ℕ
  num_file_fds = 1 + num_sstables
