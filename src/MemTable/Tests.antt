-- ===== src/MemTable/Tests.antt =====
-- The theorems on the table in memory with the CMake constants: keys of one byte, values of two.
use ringdb.Prelude.{◌≡◌, ◌==◌, if◌then◌else◌, refl, false, some, arith, inl, inr}
use ringdb.Config.{cmake}
use ringdb.Memory.{Memory}
use ringdb.SparseIndex.{SparseIndex}
use ringdb.MemTable.{MemTable, WriteResult, write, read}
use ringdb.MemTable.Append.{Layout, read-write}

-- The key 7 lies at 10, the value 1, 2 at 11; the table starts at 1000.
abbrev memory : Memory
memory p = if p == 10 then 7 else if p == 11 then 1 else if p == 12 then 2 else 0

abbrev table : MemTable
table = record { start = 1000; size = 0 }

abbrev place : SparseIndex
place = record { index = 100; null_key = 50 }

layout : Layout cmake table 10 0 place
layout = record {
  key_off_entry = inl (omega arith);
  key_off_index = inl (omega arith);
  entry_off_index = inr (omega arith);
}

read-write_example :
    (w : WriteResult) × (write cmake memory table 10 11 0 place ≡ some w)
    × (w.table.size ≡ 3)
    × (read cmake w.memory w.table 10 11 ≡ some (record { found = false; memory = w.memory }))
read-write_example =
    read-write cmake memory table 10 11 0 place layout (omega arith) (omega arith) refl
      (λ i l. ground arith) 0 (omega arith) (ground arith)
