-- ===== src/CacheHelper/Buffers.antt =====
-- map_buffer_to_offset_boundary and remove_buffer_range: what they do to the index.
use ringdb.Prelude.{
  ℕ, ◌+◌, ◌^◌, ◌<◌, ◌≡◌, ◌≢◌, refl, true, false, none, some, arith, length, get_or, ◌==◌, inl, inr,
  ◌⊎◌, ℕ_discrete, set, store_lem, get_or-set_self, get_or-set_ne, add32, sub32,
}
use ringdb.Bisect.{Found, Ends, Splits}
use ringdb.CacheHelper.{
  CacheLocation, CacheHelper, not_found, in_use, search, map_buffer_to_offset_boundary,
}
use ringdb.CacheHelper.Lookup.{location, IsValid, before, search-Ends}

-- The index after a buffer was put at place `r`.
pub record Mapped (h h' : CacheHelper) (buffer_id left right r : ℕ) : Type 0 where
  pub here :
      location h' r ≡ record { left_boundary = left; right_boundary = right; buffer_id = buffer_id }
  pub others : (i : ℕ) → r ≢ i → location h' i ≡ location h i
  pub place : get_or h'.sparse_buffer_index_locations buffer_id 0 ≡ r
  pub used : in_use h' ≡ in_use h + 1
  pub free : h'.free_buffers_left ≡ sub32 h.free_buffers_left 1

module _ (h : CacheHelper) (buffer_id left right : ℕ) (v : IsValid h)
    (room : buffer_id < length h.sparse_buffer_index_locations)
    (word : h.id_of_most_recently_selected_buffer < 2 ^ 32) (f : Found)
    (run : search h left ≡ some f) (ends : Ends (before h left) 0 (in_use h) 0 (in_use h) 0 f) where
  new : CacheLocation
  new = record { left_boundary = left; right_boundary = right; buffer_id = buffer_id }

  mapped : CacheHelper
  mapped = record h {
    cache_locations = set h.cache_locations f.left new;
    sparse_buffer_index_locations = set h.sparse_buffer_index_locations buffer_id f.left;
    id_of_most_recently_selected_buffer = add32 h.id_of_most_recently_selected_buffer 1;
    free_buffers_left = sub32 h.free_buffers_left 1;
  }

  at_last :
      f.left + 1 ≡ in_use h → map_buffer_to_offset_boundary h buffer_id left right ≡ some mapped
  unfolding map_buffer_to_offset_boundary mapped new
  at_last e =
      let here : (f.left == h.id_of_most_recently_selected_buffer) ≡ true = ground arith in
      let stored = store_lem h.cache_locations f.left new (omega (arith, v.within)) in
      let placed = store_lem h.sparse_buffer_index_locations buffer_id f.left room in
      rw run (ground (arith, here, stored, placed))

  elsewhere : f.left + 1 ≢ in_use h → map_buffer_to_offset_boundary h buffer_id left right ≡ none
  unfolding map_buffer_to_offset_boundary
  elsewhere ne =
      let there : (f.left == h.id_of_most_recently_selected_buffer) ≡ false = ground arith in
      rw run (ground (arith, there))

  mapped-Mapped : f.left + 1 ≡ in_use h → Mapped h mapped buffer_id left right f.left
  unfolding mapped new
  mapped-Mapped e = record {
    here = get_or-set_self h.cache_locations f.left new not_found (omega (arith, v.within));
    others = λ i ne. get_or-set_ne h.cache_locations f.left i new not_found ne;
    place = get_or-set_self h.sparse_buffer_index_locations buffer_id f.left 0 room;
    used = omega (arith, v.small);
    free = refl;
  }

-- With `r` the first place in use whose location does not end before the new one begins: a buffer is
-- mapped exactly if `r` is the last place in use, and it then takes that place over from the location
-- that was there. At any other place, past the end too, the code writes through an unset pointer.
pub map_buffer_to_offset_boundary_lem :
    (h : CacheHelper) (buffer_id left right : ℕ)
    → IsValid h
    → buffer_id < length h.sparse_buffer_index_locations
    → h.id_of_most_recently_selected_buffer < 2 ^ 32
    → (r : ℕ) × Splits (before h left) 0 (in_use h) r
      × ((r + 1 ≡ in_use h)
            × ((h' : CacheHelper) × (map_buffer_to_offset_boundary h buffer_id left right ≡ some h')
                × Mapped h h' buffer_id left right r)
          ⊎ (r + 1 ≢ in_use h) × (map_buffer_to_offset_boundary h buffer_id left right ≡ none))
map_buffer_to_offset_boundary_lem h buffer_id left right v room word =
    let (f, run, ends) = search-Ends h left v in
    (
      f.left,
      ends.splits,
      elim (ℕ_discrete (f.left + 1) (in_use h)) [
        | yes e ↦ inl (
          e,
          (
            mapped h buffer_id left right v room word f run ends,
            at_last h buffer_id left right v room word f run ends e,
            mapped-Mapped h buffer_id left right v room word f run ends e,
          ),
        )
        | no ne ↦ inr (ne, elsewhere h buffer_id left right v room word f run ends ne)
      ],
    )
