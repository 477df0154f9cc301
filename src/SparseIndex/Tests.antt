-- ===== src/SparseIndex/Tests.antt =====
-- The theorems on the sparse index at two tables, with the CMake constants: keys of one byte.
use ringdb.Prelude.{◌≡◌, refl, some, arith, ◌==◌, if◌then◌else◌}
use ringdb.Config.{cmake}
use ringdb.Memory.{Memory, memcmp}
use ringdb.SparseIndex.{SparseIndex, TableNum, get_table_num, scan, in_range, is_null, settle}
use ringdb.SparseIndex.Tables.{Result, get_table_num-Result}

-- The index lies at 100, the null key at 50.
abbrev place : SparseIndex
place = record { index = 100; null_key = 50 }

-- Table 0 holds the keys 5 to 9, table 1 the keys 20 to 30; the key at 60 is 25.
abbrev memory : Memory
memory p =
    if p == 100
    then 5
    else if p == 101
    then 9
    else if p == 102
    then 20
    else if p == 103
    then 30
    else if p == 60
    then 25
    else 0

get_table_num-Result_example :
    (r : TableNum) × (get_table_num cmake place memory 60 ≡ some r) × Result cmake place memory 60 r
get_table_num-Result_example = get_table_num-Result cmake place memory 60 (omega arith)

-- The key lies in table 1; the result is 2.
second_table : get_table_num cmake place memory 60 ≡ some (record { num = 2; memory = memory })
unfolding get_table_num scan in_range is_null settle memcmp
second_table = refl
