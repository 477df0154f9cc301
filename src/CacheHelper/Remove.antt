-- ===== src/CacheHelper/Remove.antt =====
-- remove_buffer_range: which locations lose their buffer.
use ringdb.Prelude.{
  ℕ, zero, suc, ◌+◌, ◌-◌, ◌≤◌, ◌<◌, ◌≡◌, ◌≢◌, refl, ◌∙◌, ap, true, false, some, arith, length,
  get_or, get_elem?-eq-get_or, ltb, ◌==◌, inl, if◌then◌else◌, minus_one, ◌⊎◌, dec_lt, ℕ_discrete,
  set, store_lem, length-set, get_or-set_self, get_or-set_ne, add32, sub32,
}
use ringdb.CacheHelper.{
  CacheHelper, not_found, forget, forget_range, larger, remove_cached, remove_buffer_range,
}
use ringdb.CacheHelper.Lookup.{location}

abbrev pub place_of : CacheHelper → ℕ → ℕ
place_of h buffer_id = get_or h.sparse_buffer_index_locations buffer_id 0

-- Every buffer of the range has a place in the index, and that lies in the array.
pub record InRange (h : CacheHelper) (from to : ℕ) : Type 0 where
  pub known : to ≤ length h.sparse_buffer_index_locations
  pub placed : (k : ℕ) → from ≤ k → k < to → place_of h k < length h.cache_locations

-- Between `h` and `h'` the locations of the buffers `from` to `to - 1` lost their buffer, every other location
-- keeps its own, and no interval changed.
pub record Forgot (h h' : CacheHelper) (from to : ℕ) : Type 0 where
  pub size : length h'.cache_locations ≡ length h.cache_locations
  pub places : h'.sparse_buffer_index_locations ≡ h.sparse_buffer_index_locations
  pub cleared : (k : ℕ) → from ≤ k → k < to → (location h' (place_of h k)).buffer_id ≡ minus_one
  pub kept :
      (i : ℕ)
      → ((location h' i).buffer_id ≡ (location h i).buffer_id)
        ⊎ ((location h' i).buffer_id ≡ minus_one)
  pub others :
      (i : ℕ)
      → ((k : ℕ) → from ≤ k → k < to → place_of h k ≢ i)
      → (location h' i).buffer_id ≡ (location h i).buffer_id
  pub same :
      (i : ℕ)
      → ((location h' i).left_boundary ≡ (location h i).left_boundary)
        × ((location h' i).right_boundary ≡ (location h i).right_boundary)

-- The loop leaves the scalar fields alone.
record Scalars (h h' : CacheHelper) : Type 0 where
  recent : h'.id_of_most_recently_selected_buffer ≡ h.id_of_most_recently_selected_buffer
  least : h'.id_of_least_recently_selected_buffer ≡ h.id_of_least_recently_selected_buffer
  free : h'.free_buffers_left ≡ h.free_buffers_left

forgotten : CacheHelper → ℕ → CacheHelper
forgotten h i = record h {
  cache_locations = set h.cache_locations i (record (location h i) { buffer_id = minus_one });
}

forget_lem :
    (h : CacheHelper) (i : ℕ) → i < length h.cache_locations → forget h i ≡ some (forgotten h i)
unfolding forget forgotten
forget_lem h i l = rw (
  get_elem?-eq-get_or h.cache_locations i not_found l,
  store_lem h.cache_locations i (record (location h i) { buffer_id = minus_one }) l,
)

location-forgotten :
    (h : CacheHelper) (i j : ℕ)
    → i < length h.cache_locations
    → location (forgotten h i) j
      ≡ (if i == j then record (location h i) { buffer_id = minus_one } else location h j)
unfolding forgotten
location-forgotten h i j l = elim (ℕ_discrete i j) [
  | yes e ↦
      let t : (i == j) ≡ true = ground arith in
      rw (t, ← e)
        (get_or-set_self h.cache_locations i (record (location h i) { buffer_id = minus_one })
          not_found l)
  | no ne ↦
      let t : (i == j) ≡ false = ground arith in
      rw t (
        get_or-set_ne h.cache_locations i j (record (location h i) { buffer_id = minus_one })
          not_found ne)
]

-- One round, and the rest of the loop.
Forgot-suc :
    (h h' : CacheHelper) (from to : ℕ)
    → place_of h from < length h.cache_locations
    → from < to
    → Forgot (forgotten h (place_of h from)) h' (from + 1) to
    → Forgot h h' from to
unfolding forgotten
Forgot-suc h h' from to l more f = record {
  size = f.size ∙ length-set h.cache_locations (place_of h from) _;
  places = f.places;
  cleared = λ k g b. elim (ℕ_discrete from k) [
    | yes e ↦ rw (← e) (
        ground (
          arith,
          f.kept (place_of h from),
          location-forgotten h (place_of h from) (place_of h from) l,
        ))
    | no ne ↦ f.cleared k (omega arith) b
  ];
  kept = λ i. ground (arith, f.kept i, location-forgotten h (place_of h from) i l);
  others = λ i o.
      f.others i (λ k g b. o k (omega arith) b)
      ∙ ground (arith, location-forgotten h (place_of h from) i l, o from (omega arith) more);
  same = λ i. ground (arith, f.same i, location-forgotten h (place_of h from) i l);
}

Forgot-refl : (h : CacheHelper) (from to : ℕ) → to ≤ from → Forgot h h from to
Forgot-refl h from to l = record {
  size = refl;
  places = refl;
  cleared = λ k g b. absurd (omega arith);
  kept = λ i. inl refl;
  others = λ i o. refl;
  same = λ i. (refl, refl);
}

InRange-forgotten :
    (h : CacheHelper) (i from to : ℕ) → InRange h from to → InRange (forgotten h i) (from + 1) to
unfolding forgotten
InRange-forgotten h i from to v = record {
  known = v.known;
  placed = λ k g l. omega (
    arith,
    v.placed k (omega arith) l,
    length-set h.cache_locations i (record (location h i) { buffer_id = minus_one }),
  );
}

forget_range-suc :
    (rounds : ℕ) (h : CacheHelper) (from to : ℕ)
    → from < to
    → InRange h from to
    → forget_range (suc rounds) h from
      ≡ forget_range rounds (forgotten h (place_of h from)) (from + 1)
unfolding forget_range
forget_range-suc rounds h from to l v = rw (
  get_elem?-eq-get_or h.sparse_buffer_index_locations from 0 (omega (arith, v.known)),
  forget_lem h (place_of h from) (v.placed from (omega arith) l),
)

forget_range-Forgot :
    (rounds : ℕ) (h : CacheHelper) (from to : ℕ)
    → from + rounds ≡ to
    → InRange h from to
    → (h' : CacheHelper) × (forget_range rounds h from ≡ some h')
      × Forgot h h' from to
      × Scalars h h'
unfolding forget_range forgotten
forget_range-Forgot zero h from to e v = (
  h,
  refl,
  Forgot-refl h from to (omega arith),
  record { recent = refl; least = refl; free = refl },
)
forget_range-Forgot (suc rounds) h from to e v =
    let (h', run, f, s) =
      forget_range-Forgot rounds (forgotten h (place_of h from)) (from + 1) to (omega arith)
        (InRange-forgotten h (place_of h from) from to v) in
    (
      h',
      forget_range-suc rounds h from to (omega arith) v ∙ run,
      Forgot-suc h h' from to (v.placed from (omega arith) (omega arith)) (omega arith) f,
      record { recent = s.recent; least = s.least; free = s.free },
    )

-- The first buffer whose location is cleared.
abbrev pub first_cleared : CacheHelper → ℕ → ℕ
first_cleared h buffer_id1 = larger buffer_id1 h.id_of_least_recently_selected_buffer

-- The index after the buffers from `buffer_id1` on were given away.
pub record Removed (h h' : CacheHelper) (buffer_id1 buffer_id2 : ℕ) : Type 0 where
  pub forgot : Forgot h h' (first_cleared h buffer_id1) (h.id_of_most_recently_selected_buffer + 1)
  pub recent : h'.id_of_most_recently_selected_buffer ≡ (
      if ltb buffer_id1 h.id_of_least_recently_selected_buffer
      then minus_one
      else sub32 buffer_id1 1)
  pub least : h'.id_of_least_recently_selected_buffer ≡ (
      if ltb buffer_id1 h.id_of_least_recently_selected_buffer
      then minus_one
      else h.id_of_least_recently_selected_buffer)
  pub free :
      h'.free_buffers_left ≡ sub32 h.free_buffers_left (add32 (sub32 buffer_id2 buffer_id1) 1)

module _ (h : CacheHelper) (buffer_id1 buffer_id2 : ℕ)
    (selected : buffer_id1 ≤ h.id_of_most_recently_selected_buffer) where
  last : ℕ
  last = h.id_of_most_recently_selected_buffer

  fewer : CacheHelper
  fewer = record h {
    id_of_most_recently_selected_buffer = sub32 buffer_id1 1;
    free_buffers_left = sub32 h.free_buffers_left (add32 (sub32 buffer_id2 buffer_id1) 1);
  }

  reset : CacheHelper → CacheHelper
  reset h' =
      if ltb buffer_id1 h.id_of_least_recently_selected_buffer
      then record h' {
        id_of_least_recently_selected_buffer = minus_one;
        id_of_most_recently_selected_buffer = minus_one;
      }
      else h'

  remove_runs :
      (h' : CacheHelper)
      → forget_range (last + 1 - first_cleared h buffer_id1) fewer (first_cleared h buffer_id1)
        ≡ some h'
      → remove_buffer_range h buffer_id1 buffer_id2 ≡ some (reset h')
  unfolding remove_buffer_range remove_cached last fewer reset
  remove_runs h' r = ground (arith, r)

  loop_lem :
      InRange h (first_cleared h buffer_id1) (last + 1)
      → (h' : CacheHelper) × (forget_range
            (last + 1 - first_cleared h buffer_id1)
            fewer
            (first_cleared h buffer_id1)
          ≡ some h')
        × Forgot fewer h' (first_cleared h buffer_id1) (last + 1)
        × Scalars fewer h'
  unfolding last fewer forget_range
  loop_lem v = elim (dec_lt (last + 1) (first_cleared h buffer_id1)) [
    | no le ↦
        forget_range-Forgot (last + 1 - first_cleared h buffer_id1) fewer
          (first_cleared h buffer_id1) (last + 1) (omega arith)
          (record { known = v.known; placed = v.placed })
    | yes none_left ↦
        let no_rounds : last + 1 - first_cleared h buffer_id1 ≡ 0 = omega arith in
        (
          fewer,
          ap (λ k. forget_range k fewer (first_cleared h buffer_id1)) no_rounds ∙ idle,
          Forgot-refl fewer (first_cleared h buffer_id1) (last + 1) (omega arith),
          record { recent = refl; least = refl; free = refl },
        )
  ]
    where
      idle : forget_range 0 fewer (first_cleared h buffer_id1) ≡ some fewer
      idle = refl

  reset-Removed :
      (h' : CacheHelper)
      → Forgot fewer h' (first_cleared h buffer_id1) (last + 1)
      → Scalars fewer h'
      → Removed h (reset h') buffer_id1 buffer_id2
  unfolding reset fewer last
  reset-Removed h' f s = record {
    forgot = record {
      size = ground (arith, f.size);
      places = ground (arith, f.places);
      cleared = λ k g l. ground (arith, f.cleared k g l);
      kept = λ i. ground (arith, f.kept i);
      others = λ i o. ground (arith, f.others i o);
      same = λ i. ground (arith, f.same i);
    };
    recent = ground (arith, s.recent);
    least = ground (arith, s.least);
    free = ground (arith, s.free);
  }

-- If a buffer from `buffer_id1` on holds cached data, the call clears the locations of all such
-- buffers that were selected least recently or later; every other location keeps its buffer, and
-- all keep their bounds. The newest cached buffer is then the one before `buffer_id1`, but none is left if even the oldest was given away. It does not
-- fault, where those buffers have places in the index.
pub remove_buffer_range-Removed :
    (h : CacheHelper) (buffer_id1 buffer_id2 : ℕ)
    → buffer_id1 ≤ h.id_of_most_recently_selected_buffer
    → InRange h (first_cleared h buffer_id1) (h.id_of_most_recently_selected_buffer + 1)
    → (h' : CacheHelper) × (remove_buffer_range h buffer_id1 buffer_id2 ≡ some h')
      × Removed h h' buffer_id1 buffer_id2
unfolding last
remove_buffer_range-Removed h buffer_id1 buffer_id2 sel v =
    let (h', run, f, s) = loop_lem h buffer_id1 buffer_id2 sel v in
    (
      reset h buffer_id1 buffer_id2 sel h',
      remove_runs h buffer_id1 buffer_id2 sel h' run,
      reset-Removed h buffer_id1 buffer_id2 sel h' f s,
    )
