-- ===== src/SparseIndex/Ranges.antt =====
-- insert_range and remove_table: what the pairs of keys hold afterwards.
use ringdb.Prelude.{ℕ, ◌+◌, ◌≤◌, ◌<◌, ◌≡◌, ◌≢◌, ◌∙◌, arith, dec_lt, ◌⊎◌}
use ringdb.Config.{Config}
use ringdb.Memory.{
  Memory, SameBytes, Apart, memcpy_inside, memcpy_outside, fill_inside, fill_outside,
}
use ringdb.SparseIndex.{
  SparseIndex, pair_length, get_table_min_key, get_table_max_key, insert_range, remove_table,
}

module _ (c : Config) (s : SparseIndex) where
  -- The byte `p` is no byte of table `t`'s pair of keys.
  abbrev Outside : ℕ → ℕ → Type 0
  Outside t p = (p < get_table_min_key c s t) ⊎ (get_table_min_key c s t + pair_length c s ≤ p)

  -- After `insert_range` the table's pair holds the two keys given, and every byte outside the pair
  -- is as before, provided that the larger key is not read from the place of the table's least key.
  insert_range_lem :
      (m : Memory) (min_key max_key t : ℕ)
      → Apart (get_table_min_key c s t) c.key_length max_key c.key_length
      → let m' = insert_range c s m min_key max_key t in
        SameBytes m' m (get_table_min_key c s t) min_key c.key_length
        × SameBytes m' m (get_table_max_key c s t) max_key c.key_length
        × ((p : ℕ) → Outside t p → m' p ≡ m p)
  unfolding insert_range
  insert_range_lem m min_key max_key t apart = (
    λ i l. memcpy_outside _ _ _ _ _ (omega arith) ∙ memcpy_inside m _ min_key c.key_length i l,
    λ i l. memcpy_inside _ _ max_key c.key_length i l ∙ memcpy_outside m _ _ _ _ (omega arith),
    λ p o. memcpy_outside _ _ _ _ p (omega arith) ∙ memcpy_outside m _ _ _ p (omega arith),
  )

  -- After `remove_table` the table's pair holds zeros, the null key, and no other byte has changed.
  remove_table_lem :
      (m : Memory) (t : ℕ)
      → let m' = remove_table c s m t in
        ((i : ℕ) → i < pair_length c s → m' (get_table_min_key c s t + i) ≡ 0)
        × ((p : ℕ) → Outside t p → m' p ≡ m p)
  unfolding remove_table
  remove_table_lem m t = (
    λ i l. elim (dec_lt i c.key_length) [
      | yes h ↦
          fill_outside _ _ _ _ _ (omega arith) ∙ fill_inside m _ _ 0 _ (omega arith) (omega arith)
      | no g ↦ fill_inside _ _ _ 0 _ (omega arith) (omega arith)
    ],
    λ p o. fill_outside _ _ _ _ p (omega arith) ∙ fill_outside m _ _ _ p (omega arith),
  )

  -- The pairs of keys of two tables lie apart.
  pairs_apart : (t u i : ℕ) → t ≢ u → i < pair_length c s → Outside t (get_table_min_key c s u + i)
  pairs_apart t u i ne l = elim (dec_lt t u) [ yes h ↦ grind arith | no g ↦ grind arith ]
