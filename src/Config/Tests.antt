-- ===== src/Config/Tests.antt =====
-- The size of a page cache buffer, where the cache has a million bytes, and with the CMake constants.
use ringdb.Prelude.{ℕ, ◌≡◌, ◌⊎◌, some, arith, refl}
use ringdb.Config.{Config, cmake}
use ringdb.Config.Sizes.{
  lcm, lcm_from, page_cache_buffer_size, IsBufferSize, page_cache_buffer_size-IsBufferSize,
}

abbrev larger_cache : Config
larger_cache = record cmake { total_sstable_page_cache_size = 1000000 }

page_cache_buffer_size-IsBufferSize_example :
    (size : ℕ) × (page_cache_buffer_size larger_cache ≡ some size)
    × (((◌≡◌ {A = ℕ} 100 0) × (size ≡ 0)) ⊎ IsBufferSize 100 3 4096 size)
page_cache_buffer_size-IsBufferSize_example =
    page_cache_buffer_size-IsBufferSize larger_cache 100 refl (omega arith) (omega arith)
      (omega arith)

-- A buffer's share of the cache is less than a byte.
no_bytes : page_cache_buffer_size cmake ≡ some 0
unfolding page_cache_buffer_size lcm lcm_from
no_bytes = refl
