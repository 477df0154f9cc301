-- ===== src/CacheHelper/Tests.antt =====
-- The theorems on the cache index at an index of two cached blocks.
use ringdb.Prelude.{ℕ, zero, suc, ◌+◌, ◌<◌, ◌≤◌, ◌≡◌, ◌≢◌, refl, ◌⊎◌, none, some, [], ◌∷◌, arith}
use ringdb.Bisect.{bisect, Splits}
use ringdb.CacheHelper.{
  CacheLocation, CacheHelper, search, init, get_buffer_info, map_buffer_to_offset_boundary,
  remove_buffer_range,
}
use ringdb.CacheHelper.Lookup.{IsValid, Answer, before, location, get_buffer_info-Answer}
use ringdb.CacheHelper.Buffers.{Mapped, map_buffer_to_offset_boundary_lem}
use ringdb.CacheHelper.Remove.{InRange, Removed, remove_buffer_range-Removed}

abbrev block : ℕ → ℕ → ℕ → CacheLocation
block left right id = record { left_boundary = left; right_boundary = right; buffer_id = id }

-- Two blocks, and a free cell behind them.
abbrev two_blocks : CacheHelper
two_blocks = record {
  cache_locations = block 0 4096 0 ∷ block 4096 8192 1 ∷ block 0 0 0 ∷ [];
  sparse_buffer_index_locations = 0 ∷ 1 ∷ 2 ∷ [];
  cur_min_invalid_offset = 100000;
  id_of_most_recently_selected_buffer = 1;
  free_buffers_left = 1;
  id_of_least_recently_selected_buffer = 0;
}

two_blocks-ordered :
    (i : ℕ) → i < 2 → (location two_blocks i).left_boundary ≤ (location two_blocks i).right_boundary
two_blocks-ordered zero l = omega arith
two_blocks-ordered (suc zero) l = omega arith
two_blocks-ordered (suc (suc i)) l = absurd (omega arith)

two_blocks-IsValid : IsValid two_blocks
two_blocks-IsValid = record {
  within = omega arith;
  small = omega arith;
  ordered = λ i l. two_blocks-ordered i l;
  apart = λ i j h l.
      let e : i ≡ 0 = omega arith in let e' : j ≡ 1 = omega arith in rw (e, e') (omega arith);
}

get_buffer_info-Answer_example :
    (l : CacheLocation) × (get_buffer_info two_blocks 5000 ≡ some l) × Answer two_blocks 5000 l
get_buffer_info-Answer_example = get_buffer_info-Answer two_blocks 5000 two_blocks-IsValid

-- A block inside the last one: it takes that one's place.
map_buffer_to_offset_boundary_lem_example :
    (r : ℕ) × Splits (before two_blocks 5000) 0 2 r
    × ((r + 1 ≡ 2)
          × ((h' : CacheHelper) × (map_buffer_to_offset_boundary two_blocks 2 5000 9000 ≡ some h')
              × Mapped two_blocks h' 2 5000 9000 r)
        ⊎ (r + 1 ≢ 2) × (map_buffer_to_offset_boundary two_blocks 2 5000 9000 ≡ none))
map_buffer_to_offset_boundary_lem_example =
    map_buffer_to_offset_boundary_lem two_blocks 2 5000 9000 two_blocks-IsValid (omega arith)
      (omega arith)

two_blocks-InRange : InRange two_blocks 1 2
two_blocks-InRange = record {
  known = omega arith;
  placed = λ k g l. let e : k ≡ 1 = omega arith in rw e (omega arith);
}

remove_buffer_range-Removed_example :
    (h' : CacheHelper) × (remove_buffer_range two_blocks 1 2 ≡ some h') × Removed two_blocks h' 1 2
remove_buffer_range-Removed_example =
    remove_buffer_range-Removed two_blocks 1 2 (omega arith) two_blocks-InRange

-- No buffer can be mapped on a new index: the first attempt writes through an unset pointer.
map_on_new_index : map_buffer_to_offset_boundary (init (block 0 0 0 ∷ []) (0 ∷ [])) 0 0 4096 ≡ none
unfolding map_buffer_to_offset_boundary search init bisect
map_on_new_index = refl
