-- ===== src/RequestSegment.antt =====
-- sstable/request_batch/request_segment.hpp: how a table in memory is laid out as a tree for an sstable.
pub mod Root
mod Tests
use ringdb.Prelude.{
  ℕ, zero, suc, ◌+◌, ◌*◌, ◌/◌, ◌%◌, ◌^◌, ◌≡◌, Bool, true, false, Option, none, some, List, ◌∷◌,
  ◌>>=◌, get_elem?, store, ltb, if◌then◌else◌, add32, sub32, midpoint,
}
use ringdb.Config.{Config, memtable_size, entry_length}
use ringdb.Memory.{Memory, memcpy}
use ringdb.Stack.{Stack, push_top, top, pop_top, empty}

-- The stack, and the local array of tree indices with its own `back`, an `int`.
pub record Building : Type 0 where
  pub memory : Memory
  pub stack : Stack
  pub top_tree_index : List ℕ
  pub back : ℕ

-- `data` is where the tree goes, `memtable_data` where the table lies.
module _ (c : Config) (data_start memtable_data : ℕ) where
  -- A child of the node with the tree base `base`, if its test holds: the next node of the stack, with
  -- the tree index base + place, and the entry at `from`.
  unfoldable pub add_child :
      Bool → Building → (child left right base place from : ℕ) → Option Building
  add_child false b child left right base place from = some b
  add_child true b child left right base place from = do
    s ← push_top b.stack child left right 0
    t ← store b.top_tree_index b.back (add32 base place)
    some (record b {
      memory =
          memcpy b.memory (data_start + add32 base place) (memtable_data + from) (entry_length c);
      stack = s;
      top_tree_index = t;
      back = add32 b.back 1;
    })

  -- The body of the loop. The first three words of the stack's entry are the node and its bounds.
  unfoldable pub build_step : Building → Option Building
  unfolding add_child
  build_step b = do
    e ← top b.stack
    i ← get_elem? b.top_tree_index b.back
    let left_child = midpoint e.word1 e.word0
    let right_child = midpoint e.word0 e.word2
    let base = i * 2 % 2 ^ 32
    b' ←
        add_child (ltb left_child e.word0)
          (record b { stack = pop_top b.stack; back = sub32 b.back 1 }) left_child e.word1 e.word0
          base 1 e.word1
    add_child (ltb e.word0 right_child) b' right_child e.word0 e.word2 base 2 e.word2

  unfoldable pub build : ℕ → Building → Option Building
  unfolding build_step
  build zero b = none
  build (suc fuel) b = if empty b.stack then some b else build_step b >>= build fuel

  -- `indices` is the local array, which is not set but for its first element.
  unfoldable pub insert_memtable : ℕ → Memory → Stack → List ℕ → Option Building
  unfolding build
  insert_memtable fuel m stack indices = do
    s ← push_top stack (memtable_size c / 2) 0 (memtable_size c) 0
    t ← store indices 0 0
    build fuel (record {
      memory = memcpy m data_start (memtable_data + memtable_size c / 2) (entry_length c);
      stack = s;
      top_tree_index = t;
      back = 0;
    })
