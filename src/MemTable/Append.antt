-- ===== src/MemTable/Append.antt =====
-- A key written to a fresh table is not found in it: the branch that appends an entry copies its value
-- but not its key.
use ringdb.Prelude.{
  ℕ, ◌+◌, ◌^◌, ◌≤◌, ◌<◌, ◌≡◌, ◌≢◌, refl, ◌∙◌, ap, sym, Bool, true, false, some, arith, ltb,
}
use ringdb.Config.{Config, entry_length}
use ringdb.Memory.{Memory, memcmp, is_lt, memcmp_zeros, Apart, memcpy_outside}
use ringdb.Bisect.{Found, bisect}
use ringdb.Bisect.Step.{bisect_first}
use ringdb.SparseIndex.{SparseIndex, get_table_max_key, set_table_max_key}
use ringdb.MemTable.{MemTable, WriteResult, entry_below, search, read, write, append}

-- Where the key, the table and the index lie, as a write to a fresh table needs it.
pub record Layout (c : Config) (t : MemTable) (key table_num : ℕ) (s : SparseIndex) : Type 0 where
  pub key_off_entry : Apart key c.key_length t.start (entry_length c)
  pub key_off_index : Apart key c.key_length (get_table_max_key c s table_num) c.key_length
  pub entry_off_index : Apart t.start c.key_length (get_table_max_key c s table_num) c.key_length

module _ (c : Config) (m : Memory) (t : MemTable) (key value table_num : ℕ) (s : SparseIndex)
    (at : Layout c t key table_num s) (short : entry_length c ≤ 2 ^ 30)
    (some_key : 0 < c.key_length) (fresh : t.size ≡ 0)
    (zeros : (i : ℕ) → i < c.key_length → m (t.start + i) ≡ 0) (k : ℕ) (k_in : k < c.key_length)
    (not_null : m (key + k) ≢ 0) where
  after : WriteResult
  unfolding append
  after = append c m t 0 value table_num s

  written : write c m t key value table_num s ≡ some after
  unfolding write search after bisect
  written = ground arith

  -- The append copies the value and the index's key, and leaves the bytes that are to be compared.
  key_bytes : (i : ℕ) → i < c.key_length → after.memory (key + i) ≡ m (key + i)
  unfolding after set_table_max_key
  key_bytes i l =
      memcpy_outside _ _ _ _ _ (omega (arith, at.key_off_index))
      ∙ memcpy_outside m _ _ _ _ (omega (arith, at.key_off_entry))

  entry_bytes : (i : ℕ) → i < c.key_length → after.memory (t.start + i) ≡ 0
  unfolding after set_table_max_key
  entry_bytes i l =
      memcpy_outside _ _ _ _ _ (omega (arith, at.entry_off_index))
      ∙ memcpy_outside m _ _ _ _ (omega arith)
      ∙ zeros i l

  below : ℕ → Bool
  below mid = is_lt (memcmp after.memory (t.start + mid) key c.key_length)

  first_below : below 0 ≡ true
  unfolding below
  first_below =
      let e : t.start + 0 ≡ t.start = omega arith in
      rw (
        e,
        memcmp_zeros after.memory t.start key c.key_length k entry_bytes k_in
            (λ h. not_null (sym (key_bytes k k_in) ∙ h)),
      )

  size_after : after.table.size ≡ entry_length c
  unfolding after
  size_after = omega (arith, fresh, short)

  lies : after.table.start ≡ t.start
  unfolding after
  lies = refl

  reads : (i : ℕ) → entry_below c after.memory after.table key i ≡ some (below i)
  unfolding entry_below below
  reads i = ap (λ p. some (is_lt (memcmp after.memory (p + i) key c.key_length))) lies

  -- The search in the table of one entry ends behind it.
  searched :
      (f : Found) × (search c after.memory after.table key ≡ some f)
      × (ltb f.left after.table.size ≡ false)
  unfolding search
  searched =
      let (f, run, past) =
        bisect_first (entry_below c after.memory after.table key) (entry_length c) (omega arith)
          below short (λ i _. reads i) first_below (after.table.size + 1) after.table.size 0
          (omega (arith, size_after)) (omega (arith, size_after)) (omega arith) in
      (f, run, ground (arith, size_after))

  not_found :
      read c after.memory after.table key value
      ≡ some (record { found = false; memory = after.memory })
  unfolding read
  not_found = let (f, run, out) = searched in rw (run, out)

-- Written to a table of size 0 whose first key bytes are zeros, a key that is not null is not found by
-- the read that follows.
pub read-write :
    (c : Config) (m : Memory) (t : MemTable) (key value table_num : ℕ) (s : SparseIndex)
    → Layout c t key table_num s
    → entry_length c ≤ 2 ^ 30
    → 0 < c.key_length
    → t.size ≡ 0
    → ((i : ℕ) → i < c.key_length → m (t.start + i) ≡ 0)
    → (k : ℕ) → k < c.key_length
    → m (key + k) ≢ 0
    → (w : WriteResult) × (write c m t key value table_num s ≡ some w)
      × (w.table.size ≡ entry_length c)
      × (read c w.memory w.table key value ≡ some (record { found = false; memory = w.memory }))
read-write c m t key value n s at short pos fresh zeros k l ne = (
  after c m t key value n s at short pos fresh zeros k l ne,
  written c m t key value n s at short pos fresh zeros k l ne,
  size_after c m t key value n s at short pos fresh zeros k l ne,
  not_found c m t key value n s at short pos fresh zeros k l ne,
)
