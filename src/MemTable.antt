-- ===== src/MemTable.antt =====
-- level_zero/memtable.hpp: the array of entries in memory, a key and a value each.
pub mod Append
pub mod Lifecycle
mod Tests
use ringdb.Prelude.{
  ℕ, zero, suc, ◌+◌, ◌-◌, ◌≡◌, Bool, true, false, Option, none, some, ◌>>=◌, ltb, ◌==◌, ◌&&◌,
  if◌then◌else◌, add32,
}
use ringdb.Config.{Config, memtable_size, entry_length}
use ringdb.Memory.{Memory, memcmp, memcpy, fill, is_lt, is_eq}
use ringdb.Bisect.{Found, bisect}
use ringdb.SparseIndex.{SparseIndex, set_table_min_key, set_table_max_key}

-- `start` is where the structure's array `data` lies. A state of memory goes through every operation.
pub record MemTable : Type 0 where
  pub start : ℕ
  pub size : ℕ

pub record ReadResult : Type 0 where
  pub found : Bool
  pub memory : Memory

pub record WriteResult : Type 0 where
  pub table : MemTable
  pub memory : Memory

-- What a local array holds.
abbrev pub Bytes : Type 0
Bytes = ℕ → ℕ

abbrev pub load : Memory → ℕ → Bytes
load m p i = m (p + i)

-- memcpy from a local array of n bytes.
pub put : Memory → ℕ → ℕ → Bytes → Memory
put m dst n b p = if ltb p dst then m p else if ltb p (dst + n) then b (p - dst) else m p

module _ (c : Config) where
  -- The constructor.
  pub construct : Memory → ℕ → WriteResult
  construct m start = record {
    table = record { start = start; size = 0 };
    memory = fill m start (memtable_size c) 0;
  }

  -- memcmp(data + mid, key, KEY_LENGTH) < 0
  pub entry_below : Memory → MemTable → ℕ → ℕ → Option Bool
  entry_below m t key mid = some (is_lt (memcmp m (t.start + mid) key c.key_length))

  -- The loop of both functions. Its bounds are bytes, and so is `mid`.
  pub search : Memory → MemTable → ℕ → Option Found
  search m t key = bisect (entry_below m t key) (entry_length c) (t.size + 1) 0 t.size 0

  pub read : Memory → MemTable → ℕ → ℕ → Option ReadResult
  read m t key value = do
    f ← search m t key
    let src = t.start + f.left
    some (
        if ltb f.left t.size && is_eq (memcmp m src key c.key_length)
        then record { found = true; memory = memcpy m value (src + c.key_length) c.value_length }
        else record { found = false; memory = m })

  -- An insertion at the end.
  append : Memory → MemTable → ℕ → ℕ → ℕ → SparseIndex → WriteResult
  append m t left value table_num memtable_sparse_index = record {
    table = record t { size = add32 t.size (entry_length c) };
    memory =
        set_table_max_key c memtable_sparse_index
          (memcpy m (t.start + left + c.key_length) value c.value_length) table_num value;
  }

  -- `buffer2`: the key, and behind it the value.
  entry : Memory → ℕ → ℕ → Bytes
  entry m key value i = if ltb i c.key_length then m (key + i) else m (value + (i - c.key_length))

  -- The loop over `i`, and the copy behind it.
  shift : ℕ → Memory → ℕ → Bytes → Memory
  shift zero m dest buffer2 = put m dest (entry_length c) buffer2
  shift (suc rounds) m dest buffer2 =
      shift rounds (put m dest (entry_length c) buffer2) (dest + entry_length c) (load m dest)

  insert_before : Memory → MemTable → ℕ → ℕ → ℕ → ℕ → SparseIndex → WriteResult
  insert_before m t left key value table_num memtable_sparse_index =
      let m' =
        if left == 0 then set_table_min_key c memtable_sparse_index m table_num value else m in
      record {
        table = record t { size = add32 t.size (entry_length c) };
        memory = shift (t.size - left) m' (t.start + left) (entry m' key value);
      }

  pub write : Memory → MemTable → ℕ → ℕ → ℕ → SparseIndex → Option WriteResult
  unfolding append
  write m t key value table_num memtable_sparse_index = do
    f ← search m t key
    some (
        if f.left == t.size
        then append m t f.left value table_num memtable_sparse_index
        else insert_before m t f.left key value table_num memtable_sparse_index)

  pub empty_out : Memory → MemTable → Memory
  empty_out m t = fill m t.start (memtable_size c) 0
