-- ===== src/SparseIndex.antt =====
-- level_info/sparse_index/sparse_index.hpp: the least and the largest key of each table of a level.
pub mod Ranges
pub mod Tables
mod Tests
use ringdb.Prelude.{
  ℕ, zero, suc, ◌+◌, ◌*◌, ◌≡◌, Bool, true, false, Option, none, some, ltb, not, ◌&&◌, if◌then◌else◌,
  add32, minus_one,
}
use ringdb.Config.{Config}
use ringdb.Memory.{Memory, memcmp, memcpy, fill, is_lt, is_gt, is_eq}

-- Where the structure's two arrays lie.
pub record SparseIndex : Type 0 where
  pub index : ℕ
  pub null_key : ℕ

pub record TableNum : Type 0 where
  pub num : ℕ
  pub memory : Memory

module _ (c : Config) (s : SparseIndex) where
  -- KEY_LENGTH << 1
  abbrev pub pair_length : ℕ
  pair_length = c.key_length * 2

  abbrev pub get_table_min_key : ℕ → ℕ
  get_table_min_key table_num = s.index + pair_length * table_num

  abbrev pub get_table_max_key : ℕ → ℕ
  get_table_max_key table_num = s.index + pair_length * table_num + c.key_length

  -- The constructor.
  pub construct : Memory → Memory
  construct m = fill (fill m s.index (pair_length * c.level_factor) 0) s.null_key c.key_length 0

  unfoldable pub insert_range : Memory → ℕ → ℕ → ℕ → Memory
  insert_range m min_key max_key table_num =
      memcpy (memcpy m (get_table_min_key table_num) min_key c.key_length)
        (get_table_max_key table_num) max_key c.key_length

  pub remove_table : Memory → ℕ → Memory
  remove_table m table_num =
      fill (fill m (get_table_min_key table_num) c.key_length 0) (get_table_max_key table_num)
        c.key_length 0

  unfoldable pub set_table_min_key : Memory → ℕ → ℕ → Memory
  set_table_min_key m table_num key = memcpy m (get_table_min_key table_num) key c.key_length

  unfoldable pub set_table_max_key : Memory → ℕ → ℕ → Memory
  set_table_max_key m table_num key = memcpy m (get_table_max_key table_num) key c.key_length

  -- Both comparisons of the second `if`.
  pub in_range : Memory → ℕ → ℕ → Bool
  in_range m offset_ptr key =
      not (is_gt (memcmp m offset_ptr key c.key_length))
      && not (is_lt (memcmp m (offset_ptr + c.key_length) key c.key_length))

  unfoldable pub is_null : Memory → ℕ → Bool
  is_null m p = is_eq (memcmp m p s.null_key c.key_length)

  -- What is left in memory by a hit at the pair of keys at `offset_ptr`.
  settle : Memory → ℕ → ℕ → Memory
  settle m offset_ptr key =
      if is_null m (offset_ptr + c.key_length)
      then memcpy m (offset_ptr + c.key_length) key c.key_length
      else m

  -- The loop from `i` on. It steps by the length of a pair of keys, bounded by the number of tables,
  -- and a hit returns `i`.
  scan : ℕ → Memory → ℕ → ℕ → Option TableNum
  scan zero m key i = none
  scan (suc fuel) m key i =
      let rest = scan fuel m key (i + pair_length) in
      if ltb i c.level_factor
      then (if is_null m (s.index + i)
          then some (record { num = minus_one; memory = memcpy m (s.index + i) key c.key_length })
          else if in_range m (s.index + i) key
          then some (record { num = i; memory = settle m (s.index + i) key })
          else rest)
      else some (record { num = minus_one; memory = m })

  -- With keys of at least one byte there are at most as many rounds as tables, and one for the test
  -- that ends the loop.
  pub get_table_num : Memory → ℕ → Option TableNum
  unfolding scan
  get_table_num m key = scan (c.level_factor + 1) m key 0
