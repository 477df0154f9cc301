-- ===== src/Level/Tests.antt =====
-- The theorems on a level of three tables, with filters that count their elements.
use ringdb.Prelude.{ℕ, ◌+◌, true, false, [], ◌∷◌}
use ringdb.Config.{Config, cmake}
use ringdb.ReadWritePool.{ReadWritePool}
use ringdb.ReadWritePool.Order.{blank}
use ringdb.Level.{BloomFilter, LevelInfo}

abbrev three : Config
three = record cmake { level_factor = 3 }

-- It counts, and lets every key through.
abbrev counting : BloomFilter ℕ
counting = record {
  add_string = λ m f key. f + 1;
  check_string = λ m f key. true;
  elements_added = λ f. f;
}

abbrev no_requests : ReadWritePool
no_requests = record { entries = []; count = 0; num_sent = 0; present_in_level = false }

abbrev level : LevelInfo three counting blank no_requests
level = record { filters = 4 ∷ 0 ∷ 0 ∷ []; sparse_index = record { index = 100; null_key = 50 } }
