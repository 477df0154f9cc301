-- ===== src/SparseIndex/Tables.antt =====
-- get_table_num: it ends, and what its result says.
use ringdb.Prelude.{
  ℕ, zero, suc, ◌+◌, ◌*◌, ◌<◌, ◌≡◌, refl, ◌∙◌, true, false, some, arith, ltb, Bool-cases, inl, inr,
  minus_one, dec_lt, lt→ltb, ap,
}
use ringdb.Config.{Config}
use ringdb.Memory.{Memory, memcpy}
use ringdb.SparseIndex.{
  SparseIndex, TableNum, pair_length, get_table_min_key, in_range, is_null, settle, scan,
  get_table_num,
}

module _ (c : Config) (s : SparseIndex) (m : Memory) (key : ℕ) where
  -- A table is passed over: it has a least key, and the key is outside its range.
  pub record Passed (t : ℕ) : Type 0 where
    pub set : is_null c s m (get_table_min_key c s t) ≡ false
    pub outside : in_range c s m (get_table_min_key c s t) key ≡ false

  -- The three ways out of the loop. A hit at table `t` returns the byte offset of its pair of keys.
  pub data Result : TableNum → Type 0 where
    hit :
        (t : ℕ) (r : TableNum)
        → pair_length c s * t < c.level_factor
        → is_null c s m (get_table_min_key c s t) ≡ false
        → in_range c s m (get_table_min_key c s t) key ≡ true
        → ((u : ℕ) → u < t → Passed u)
        → r.num ≡ pair_length c s * t
        → Result r
    free :
        (t : ℕ) (r : TableNum)
        → pair_length c s * t < c.level_factor
        → is_null c s m (get_table_min_key c s t) ≡ true
        → ((u : ℕ) → u < t → Passed u)
        → r.num ≡ minus_one
        → Result r
    none_left :
        (r : TableNum)
        → ((u : ℕ) → pair_length c s * u < c.level_factor → Passed u)
        → r.num ≡ minus_one
        → r.memory ≡ m
        → Result r

  next_pair : (t : ℕ) → pair_length c s * t + pair_length c s ≡ pair_length c s * suc t
  next_pair t = grind arith

  scan_more :
      (fuel t : ℕ)
      → pair_length c s * t < c.level_factor
      → Passed t
      → scan c s (suc fuel) m key (pair_length c s * t)
        ≡ scan c s fuel m key (pair_length c s * suc t)
  unfolding scan
  scan_more fuel t l p =
      rw (lt→ltb _ _ l, p.set, p.outside) (ap (scan c s fuel m key) (next_pair t))

  extend-Passed : (t : ℕ) → Passed t → ((u : ℕ) → u < t → Passed u) → (u : ℕ) → u < suc t → Passed u
  extend-Passed t p before u l = elim (dec_lt u t) [
    | yes b ↦ before u b
    | no e ↦ let e' : u ≡ t = omega arith in rw e' p
  ]

  -- Every table in front of an end beyond the bound was passed.
  all-Passed :
      (t : ℕ)
      → ¬ (pair_length c s * t < c.level_factor)
      → ((u : ℕ) → u < t → Passed u)
      → (u : ℕ) → pair_length c s * u < c.level_factor
      → Passed u
  all-Passed t end before u l = elim (dec_lt u t) [
    | yes b ↦ before u b
    | no g ↦ absurd (end (grind arith))
  ]

  extend_bound :
      (t : ℕ)
      → pair_length c s * t < c.level_factor
      → ((u : ℕ) → u < t → pair_length c s * u < c.level_factor)
      → (u : ℕ) → u < suc t
      → pair_length c s * u < c.level_factor
  extend_bound t l before u b = elim (dec_lt u t) [
    | yes h ↦ before u h
    | no e ↦ let e' : u ≡ t = omega arith in rw e' l
  ]

  module _ (fuel t : ℕ) (before : (u : ℕ) → u < t → Passed u) where
    abbrev Here : Type 0
    Here = (r : TableNum) × (scan c s (suc fuel) m key (pair_length c s * t) ≡ some r) × Result r

    at_end : ¬ (pair_length c s * t < c.level_factor) → Here
    unfolding scan
    at_end end =
        let f : ltb (pair_length c s * t) c.level_factor ≡ false = ground arith in
        (
          record { num = minus_one; memory = m },
          rw f,
          none_left _ (all-Passed t end before) refl refl,
        )

    at_free :
        pair_length c s * t < c.level_factor → is_null c s m (get_table_min_key c s t) ≡ true → Here
    unfolding scan
    at_free l z = (
      record { num = minus_one; memory = memcpy m (get_table_min_key c s t) key c.key_length },
      rw (lt→ltb _ _ l, z),
      free t _ l z before refl,
    )

    at_hit :
        pair_length c s * t < c.level_factor
        → is_null c s m (get_table_min_key c s t) ≡ false
        → in_range c s m (get_table_min_key c s t) key ≡ true
        → Here
    unfolding scan
    at_hit l z i = (
      record { num = pair_length c s * t; memory = settle c s m (get_table_min_key c s t) key },
      rw (lt→ltb _ _ l, z, i),
      hit t _ l z i before refl,
    )

  scan-Result :
      (fuel t : ℕ)
      → 0 < c.key_length
      → fuel + t ≡ c.level_factor + 1
      → ((u : ℕ) → u < t → pair_length c s * u < c.level_factor)
      → ((u : ℕ) → u < t → Passed u)
      → (r : TableNum) × (scan c s fuel m key (pair_length c s * t) ≡ some r) × Result r
  scan-Result zero t k h in_bound before = absurd (grind (arith, in_bound c.level_factor))
  scan-Result (suc fuel) t k h in_bound before =
      elim (dec_lt (pair_length c s * t) c.level_factor) [
        | no end ↦ at_end fuel t before end
        | yes l ↦ elim (Bool-cases (is_null c s m (get_table_min_key c s t))) [
          | inl z ↦ at_free fuel t before l z
          | inr set ↦ elim (Bool-cases (in_range c s m (get_table_min_key c s t) key)) [
            | inl i ↦ at_hit fuel t before l set i
            | inr out ↦
                let p : Passed t = record { set = set; outside = out } in
                let (r, run, res) =
                  scan-Result fuel (suc t) k (omega arith) (extend_bound t l in_bound)
                    (extend-Passed t p before) in
                (r, scan_more fuel t l p ∙ run, res)
          ]
        ]
      ]

  -- Where the first table has no least key yet, the search sets that and returns -1.
  pub get_table_num-free :
      0 < c.level_factor
      → is_null c s m s.index ≡ true
      → get_table_num c s m key
        ≡ some (record { num = minus_one; memory = memcpy m s.index key c.key_length })
  unfolding get_table_num scan
  get_table_num-free pos z =
      let e : s.index + 0 ≡ s.index = omega arith in
      let fuel : c.level_factor + 1 ≡ suc c.level_factor = omega arith in
      rw (fuel, lt→ltb 0 c.level_factor pos, e, z)

  -- With keys of at least one byte the search ends. It finds the first table, among those whose pair of
  -- keys begins below LEVEL_FACTOR bytes into the index, that has no least key or has the key in its
  -- range. In the second case the result is not the table's number, but the number of bytes in front
  -- of its pair of keys; in the first, and if there is no such table, it is -1.
  pub get_table_num-Result :
      0 < c.key_length → (r : TableNum) × (get_table_num c s m key ≡ some r) × Result r
  unfolding get_table_num
  get_table_num-Result k =
      let (r, run, res) =
        scan-Result (c.level_factor + 1) 0 k (omega arith) (λ u l. absurd (omega arith))
          (λ u l. absurd (omega arith)) in
      (r, ap (scan c s (c.level_factor + 1) m key) (omega arith) ∙ run, res)
