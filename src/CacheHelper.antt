-- ===== src/CacheHelper.antt =====
-- sstable/sstable_cache_helper: which page cache buffer holds which bytes of an sstable. Offsets are
-- 64-bit words, ids of buffers are 32-bit ones.
pub mod Lookup
pub mod Buffers
pub mod Remove
mod Tests
use ringdb.Prelude.{
  ℕ, zero, suc, ◌+◌, ◌-◌, ◌^◌, ◌≡◌, Bool, true, false, Option, none, some, List, ◌>>=◌, get_elem?,
  store, ltb, leb, ◌==◌, not, ◌&&◌, if◌then◌else◌, add32, sub32, minus_one,
}
use ringdb.Bisect.{Found, bisect}

-- cache_location.hpp
pub record CacheLocation : Type 0 where
  pub left_boundary : ℕ
  pub right_boundary : ℕ
  pub buffer_id : ℕ

-- sstable_cache_helper.hpp, with the fields of its sparse_buffer_index.
pub record CacheHelper : Type 0 where
  pub cache_locations : List CacheLocation
  pub sparse_buffer_index_locations : List ℕ
  pub cur_min_invalid_offset : ℕ
  pub id_of_most_recently_selected_buffer : ℕ
  pub free_buffers_left : ℕ
  pub id_of_least_recently_selected_buffer : ℕ

-- The largest std::size_t.
abbrev pub max_offset : ℕ
max_offset = 2 ^ 64 - 1

-- CacheLocation(-1, -1, 0)
abbrev pub not_found : CacheLocation
not_found = record { left_boundary = max_offset; right_boundary = max_offset; buffer_id = 0 }

-- The constructor, over arrays that are not set.
pub init : List CacheLocation → List ℕ → CacheHelper
init locations index_locations = record {
  cache_locations = locations;
  sparse_buffer_index_locations = index_locations;
  cur_min_invalid_offset = max_offset;
  id_of_most_recently_selected_buffer = minus_one;
  free_buffers_left = 0;
  id_of_least_recently_selected_buffer = minus_one;
}

unfoldable pub set_cur_min_invalid_offset : CacheHelper → ℕ → CacheHelper
set_cur_min_invalid_offset h invalid_sstable_offset = record h {
  cur_min_invalid_offset = invalid_sstable_offset;
}

unfoldable pub get_cur_min_invalid_offset : CacheHelper → ℕ
get_cur_min_invalid_offset h = h.cur_min_invalid_offset

pub get_id_of_most_recently_selected_buffer : CacheHelper → ℕ
get_id_of_most_recently_selected_buffer h = h.id_of_most_recently_selected_buffer

-- `id_of_most_recently_selected_buffer + 1`, the end of the part of cache_locations in use.
abbrev pub in_use : CacheHelper → ℕ
in_use h = add32 h.id_of_most_recently_selected_buffer 1

-- cache_locations[i].sstable_offset_boundary[1] < offset
unfoldable pub ends_before : CacheHelper → ℕ → ℕ → Option Bool
ends_before h offset i = do l ← get_elem? h.cache_locations i; some (ltb l.right_boundary offset)

unfoldable pub search : CacheHelper → ℕ → Option Found
search h offset = bisect (ends_before h offset) 1 (in_use h + 1) 0 (in_use h) 0

abbrev pub covers : CacheLocation → ℕ → Bool
covers l offset =
    leb l.left_boundary offset && leb offset l.right_boundary && not (l.buffer_id == minus_one)

unfoldable pub get_buffer_info : CacheHelper → ℕ → Option CacheLocation
get_buffer_info h desired_sstable_offset = do
  f ← search h desired_sstable_offset
  if f.left == in_use h then some not_found else (do
    l ← get_elem? h.cache_locations f.left
    some (if covers l desired_sstable_offset then l else not_found))

-- cache_locations[i].buffer_id = -1
pub forget : CacheHelper → ℕ → Option CacheHelper
forget h i = do
  l ← get_elem? h.cache_locations i
  d ← store h.cache_locations i (record l { buffer_id = minus_one })
  some (record h { cache_locations = d })

pub replenish_least_recently_selected_buffer : CacheHelper → Option CacheHelper
replenish_least_recently_selected_buffer h = do
  place ← get_elem? h.sparse_buffer_index_locations h.id_of_least_recently_selected_buffer
  h' ← forget h place
  some (record h' {
    free_buffers_left = add32 h.free_buffers_left 1;
    id_of_least_recently_selected_buffer = add32 h.id_of_least_recently_selected_buffer 1;
  })

unfoldable pub add_buffer : CacheHelper → CacheHelper
add_buffer h = record h { free_buffers_left = add32 h.free_buffers_left 1 }

-- Where the place found is not the last one the source writes through `location2`, a pointer that
-- was never set.
pub map_buffer_to_offset_boundary : CacheHelper → ℕ → ℕ → ℕ → Option CacheHelper
map_buffer_to_offset_boundary h buffer_id sstable_offset1 sstable_offset2 = do
  f ← search h sstable_offset1
  d ←
      if f.left == h.id_of_most_recently_selected_buffer
      then store h.cache_locations f.left (record {
        left_boundary = sstable_offset1;
        right_boundary = sstable_offset2;
        buffer_id = buffer_id;
      })
      else none
  places ← store h.sparse_buffer_index_locations buffer_id f.left
  some (record h {
    cache_locations = d;
    sparse_buffer_index_locations = places;
    id_of_most_recently_selected_buffer = add32 h.id_of_most_recently_selected_buffer 1;
    free_buffers_left = sub32 h.free_buffers_left 1;
  })

-- for (buffer_id = from; buffer_id <= last; ++buffer_id), with the number of rounds.
forget_range : ℕ → CacheHelper → ℕ → Option CacheHelper
forget_range zero h buffer_id = some h
forget_range (suc rounds) h buffer_id = do
  place ← get_elem? h.sparse_buffer_index_locations buffer_id
  h' ← forget h place
  forget_range rounds h' (buffer_id + 1)

-- std::max
abbrev pub larger : ℕ → ℕ → ℕ
larger a b = if ltb a b then b else a

pub remove_cached : CacheHelper → ℕ → ℕ → Option CacheHelper
unfolding forget_range
remove_cached h buffer_id1 last = do
  let from = larger buffer_id1 h.id_of_least_recently_selected_buffer
  h' ←
      forget_range (last + 1 - from)
        (record h { id_of_most_recently_selected_buffer = sub32 buffer_id1 1 }) from
  some (
      if ltb buffer_id1 h.id_of_least_recently_selected_buffer
      then record h' {
        id_of_least_recently_selected_buffer = minus_one;
        id_of_most_recently_selected_buffer = minus_one;
      }
      else h')

unfoldable pub remove_buffer_range : CacheHelper → ℕ → ℕ → Option CacheHelper
unfolding remove_cached
remove_buffer_range h buffer_id1 buffer_id2 =
    if leb buffer_id1 h.id_of_most_recently_selected_buffer
    then remove_cached h' buffer_id1 h.id_of_most_recently_selected_buffer
    else some h'
  where
    h' : CacheHelper
    h' = record h {
      free_buffers_left = sub32 h.free_buffers_left (add32 (sub32 buffer_id2 buffer_id1) 1);
    }
