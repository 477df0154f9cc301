-- ===== src/MemTable/Lifecycle.antt =====
-- MemTable::empty_out: the bytes go, the size stays.
use ringdb.Prelude.{ℕ, ◌+◌, ◌^◌, ◌≤◌, ◌<◌, ◌≡◌, ◌≢◌, ◌∙◌, sym, ap, true, some, arith}
use ringdb.Config.{Config, memtable_size, entry_length}
use ringdb.Memory.{Memory, is_lt, memcmp_zeros, Apart, fill_inside, fill_outside}
use ringdb.Bisect.{Found}
use ringdb.Bisect.Step.{bisect_all}
use ringdb.MemTable.{MemTable, entry_below, search, empty_out}

module _ (c : Config) (m : Memory) (t : MemTable) (key k : ℕ) (k_in : k < c.key_length)
    (not_null : m (key + k) ≢ 0) (off : Apart key c.key_length t.start (memtable_size c)) where
  -- Every place of an emptied array that holds a whole key is below the key.
  emptied_below :
      (i : ℕ)
      → i + c.key_length ≤ memtable_size c
      → entry_below c (empty_out c m t) t key i ≡ some true
  unfolding empty_out entry_below
  emptied_below i h =
      ap (λ o. some (is_lt o))
        (memcmp_zeros (empty_out c m t) (t.start + i) key c.key_length k
          (λ j l. fill_inside m t.start (memtable_size c) 0 _ (omega arith) (omega arith)) k_in
          (λ e.
            not_null (
              sym (fill_outside m t.start (memtable_size c) 0 (key + k) (omega (arith, off))) ∙ e)))

-- After empty_out, which does not reset the size, the search of read and write for a key that is not
-- null ends at or behind the end of the entries that were removed: their space is not used again.
empty_out-search :
    (c : Config) (m : Memory) (t : MemTable) (key k : ℕ)
    → k < c.key_length
    → m (key + k) ≢ 0
    → Apart key c.key_length t.start (memtable_size c)
    → t.size + c.key_length ≤ memtable_size c
    → t.size + entry_length c ≤ 2 ^ 31
    → 0 < entry_length c
    → (f : Found) × (search c (empty_out c m t) t key ≡ some f) × (t.size ≤ f.left)
unfolding search
empty_out-search c m t key k k_in ne off room small pos =
    bisect_all (entry_below c (empty_out c m t) t key) (entry_length c) pos t.size small
      (λ i l. emptied_below c m t key k k_in ne off i (omega arith)) (t.size + 1) 0 0 (omega arith)
