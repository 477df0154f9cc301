-- ===== src/Traverse/Children.antt =====
-- What move_down_to_children makes of the entry that a worker thread pushes for a batch.
use ringdb.Prelude.{ℕ, ◌/◌, ◌^◌, ◌<◌, ◌≡◌, none, some, arith}
use ringdb.Config.{Config}
use ringdb.Memory.{Memory}
use ringdb.Stack.{StackEntry, top, pop_top}
use ringdb.SstableInfo.{SstableInfo}
use ringdb.Traverse.{right_child, left_child, push_child, move_down_to_children}

module _ (c : Config) (null_key buffer_size sstable_num : ℕ) where
  move_runs :
      (m : Memory) (info : SstableInfo) (e : StackEntry)
      → top info.stack ≡ some e
      → right_child (record { cur_request = e.word0; left = e.word1; right = e.word2 }) ≡ none
      → left_child (record { cur_request = e.word0; left = e.word1; right = e.word2 }) ≡ none
      → move_down_to_children c null_key buffer_size sstable_num m info
        ≡ some (record info { stack = pop_top info.stack })
  unfolding move_down_to_children push_child
  move_runs m info e t r l = rw (t, r, l, push_child)

pub move_down_to_children-root :
    (c : Config) (null_key buffer_size sstable_num : ℕ) (m : Memory) (info : SstableInfo)
    (length : ℕ)
    → length < 2 ^ 31
    → top info.stack ≡ some (record { word0 = 0; word1 = length / 2; word2 = 0; word3 = length })
    → move_down_to_children c null_key buffer_size sstable_num m info
      ≡ some (record info { stack = pop_top info.stack })
unfolding right_child left_child
move_down_to_children-root c null_key buffer_size sstable_num m info length small t =
    move_runs c null_key buffer_size sstable_num m info
      (record { word0 = 0; word1 = length / 2; word2 = 0; word3 = length }) t (ground arith)
      (ground arith)
