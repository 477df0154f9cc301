-- ===== src/CacheHelper/Lookup.antt =====
-- get_buffer_info: what it finds.
use ringdb.Prelude.{
  ℕ, ◌+◌, ◌^◌, ◌≤◌, ◌<◌, ◌≡◌, ◌≢◌, ◌∙◌, ap, Bool, true, false, some, arith, length, get_or,
  get_elem?-eq-get_or, ltb, Bool-cases, inl, inr, if◌then◌else◌, minus_one, dec_lt, ℕ_discrete,
}
use ringdb.Bisect.{Found, Ends, bisect_lem}
use ringdb.CacheHelper.{
  CacheLocation, CacheHelper, not_found, in_use, ends_before, search, covers, get_buffer_info,
}

abbrev pub location : CacheHelper → ℕ → CacheLocation
location h i = get_or h.cache_locations i not_found

-- The locations in use lie in the array, and their intervals stand in order; two of
-- them may share a boundary.
pub record IsValid (h : CacheHelper) : Type 0 where
  pub within : in_use h ≤ length h.cache_locations
  pub small : in_use h ≤ 2 ^ 31
  pub ordered :
      (i : ℕ) → i < in_use h → (location h i).left_boundary ≤ (location h i).right_boundary
  pub apart :
      (i j : ℕ)
      → i < j
      → j < in_use h
      → (location h i).right_boundary ≤ (location h j).left_boundary

abbrev pub before : CacheHelper → ℕ → ℕ → Bool
before h offset i = ltb (location h i).right_boundary offset

ends_before_lem :
    (h : CacheHelper) (offset i : ℕ)
    → i < length h.cache_locations
    → ends_before h offset i ≡ some (before h offset i)
unfolding ends_before
ends_before_lem h offset i l = rw (get_elem?-eq-get_or h.cache_locations i not_found l)

before_mono :
    (h : CacheHelper) (offset i j : ℕ)
    → IsValid h
    → i ≤ j
    → j < in_use h
    → before h offset j ≡ true
    → before h offset i ≡ true
before_mono h offset i j v le l b = elim (ℕ_discrete i j) [
  | yes e ↦ rw e b
  | no ne ↦ ground (arith, v.apart i j, v.ordered j)
]

pub search-Ends :
    (h : CacheHelper) (offset : ℕ)
    → IsValid h
    → (f : Found) × (search h offset ≡ some f)
      × Ends (before h offset) 0 (in_use h) 0 (in_use h) 0 f
unfolding search
search-Ends h offset v =
    bisect_lem (ends_before h offset) (before h offset) 0 (in_use h) v.small
      (λ i l. ends_before_lem h offset i (omega (arith, v.within)))
      (λ i j. before_mono h offset i j v) (in_use h + 1) 0 (omega arith) (omega arith)

-- Location `i` is in use and covers the offset.
pub record Covers (h : CacheHelper) (offset i : ℕ) : Type 0 where
  pub used : i < in_use h
  pub from : (location h i).left_boundary ≤ offset
  pub to : offset ≤ (location h i).right_boundary
  pub live : (location h i).buffer_id ≢ minus_one

-- The location `i` begins where the one at `j` in front of it ends, which has lost its buffer.
pub record Hidden (h : CacheHelper) (offset i : ℕ) : Type 0 where
  pub j : ℕ
  pub in_front : j < i
  pub begins : (location h i).left_boundary ≡ offset
  pub ends : (location h j).right_boundary ≡ offset
  pub lost : (location h j).buffer_id ≡ minus_one

-- The answer of `get_buffer_info` for an offset: the first location that covers it; or "not found", where each
-- one that covers it is hidden.
pub data Answer (h : CacheHelper) (offset : ℕ) : CacheLocation → Type 0 where
  hit :
      (i : ℕ)
      → Covers h offset i
      → ((j : ℕ) → j < i → (location h j).right_boundary < offset)
      → Answer h offset (location h i)
  miss : ((i : ℕ) → Covers h offset i → Hidden h offset i) → Answer h offset not_found

covers_lem :
    (h : CacheHelper) (offset i : ℕ)
    → i < in_use h
    → covers (location h i) offset ≡ true
    → Covers h offset i
covers_lem h offset i l c = ground arith

lem-covers :
    (h : CacheHelper) (offset i : ℕ) → Covers h offset i → covers (location h i) offset ≡ true
lem-covers h offset i c = ground (arith, c.from, c.to, c.live)

module _ (h : CacheHelper) (offset : ℕ) (v : IsValid h) (f : Found) (run : search h offset ≡ some f)
    (ends : Ends (before h offset) 0 (in_use h) 0 (in_use h) 0 f) where
  past_end : f.left ≡ in_use h → get_buffer_info h offset ≡ some not_found
  unfolding get_buffer_info
  past_end e = rw run (ground arith)

  past_end-Answer : f.left ≡ in_use h → Answer h offset not_found
  past_end-Answer e = miss λ i c. absurd (ground (arith, ends.splits.below i, c.used, c.to))

  inside :
      f.left < in_use h
      → get_buffer_info h offset
        ≡ some (if covers (location h f.left) offset then location h f.left else not_found)
  unfolding get_buffer_info
  inside l =
      let e = get_elem?-eq-get_or h.cache_locations f.left not_found (omega (arith, v.within)) in
      rw run (ground (arith, e))

  lost_here :
      f.left < in_use h
      → covers (location h f.left) offset ≡ false
      → (location h f.left).right_boundary ≡ offset
      → (location h f.left).buffer_id ≡ minus_one
  lost_here l no_cover meets = ground (arith, v.ordered f.left)

  earlier_end : f.left < in_use h → (j : ℕ) → j < f.left → (location h j).right_boundary < offset
  earlier_end l j b = ground (arith, ends.splits.below j)

  missed :
      f.left < in_use h
      → covers (location h f.left) offset ≡ false
      → (i : ℕ) → Covers h offset i
      → Hidden h offset i
  missed l no_cover i c = elim (dec_lt i f.left) [
    | yes earlier ↦ absurd (ground (arith, ends.splits.below i, c.to))
    | no later ↦ elim (ℕ_discrete i f.left) [
      | yes e ↦ cc (lem-covers h offset i c)
      | no ne ↦
          let meets : (location h f.left).right_boundary ≡ offset =
            ground (arith, v.apart f.left i, ends.splits.above f.left, c.from, c.used) in
          record {
            j = f.left;
            in_front = omega arith;
            begins = ground (arith, v.apart f.left i, meets, c.from, c.used);
            ends = meets;
            lost = lost_here l no_cover meets;
          }
    ]
  ]

-- On a valid index the search does not fault. It returns the first location in use that covers the offset,
-- the ones in front of which all end before the offset; or the answer for "not found", and that only if
-- each location that covers the offset begins at it, just where one in front of it ends that has lost
-- its buffer.
pub get_buffer_info-Answer :
    (h : CacheHelper) (offset : ℕ)
    → IsValid h
    → (l : CacheLocation) × (get_buffer_info h offset ≡ some l) × Answer h offset l
get_buffer_info-Answer h offset v =
    let (f, run, ends) = search-Ends h offset v in
    elim (dec_lt f.left (in_use h)) [
      | no end ↦
          let e : f.left ≡ in_use h = omega (arith, ends.within) in
          (not_found, past_end h offset v f run ends e, past_end-Answer h offset v f run ends e)
      | yes l ↦ elim (Bool-cases (covers (location h f.left) offset)) [
        | inl c ↦ (
          location h f.left,
          inside h offset v f run ends l
              ∙ ap (λ b. some (if b then location h f.left else not_found)) c,
          hit f.left (covers_lem h offset f.left l c) (earlier_end h offset v f run ends l),
        )
        | inr n ↦ (
          not_found,
          inside h offset v f run ends l
              ∙ ap (λ b. some (if b then location h f.left else not_found)) n,
          miss (missed h offset v f run ends l n),
        )
      ]
    ]
