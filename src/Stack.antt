-- ===== src/Stack.antt =====
-- sstable/stack/stack.hpp: the stack of pending tree nodes, an array and the index `back`.
pub mod Top
mod Tests
use ringdb.Prelude.{
  ℕ, ◌+◌, ◌≡◌, Bool, Option, some, List, ◌>>=◌, length, get_elem?, store, ◌==◌, add32, sub32,
}

-- The four words of an entry. Where the stack serves RequestSegment the first three hold other
-- things, and are still the words 0, 1 and 2.
pub record StackEntry : Type 0 where
  pub word0 : ℕ
  pub word1 : ℕ
  pub word2 : ℕ
  pub word3 : ℕ

pub record Stack : Type 0 where
  pub back : ℕ
  pub cells : List StackEntry

unfoldable pub push_top : Stack → ℕ → ℕ → ℕ → ℕ → Option Stack
push_top s desired_sstable_offset cur_request left right = do
  d ←
      store s.cells s.back (record {
        word0 = desired_sstable_offset;
        word1 = cur_request;
        word2 = left;
        word3 = right;
      })
  some (record s { back = add32 s.back 1; cells = d })

-- The cell that the next push writes.
unfoldable pub top : Stack → Option StackEntry
top s = get_elem? s.cells s.back

unfoldable pub pop_top : Stack → Stack
pop_top s = record s { back = sub32 s.back 1 }

unfoldable pub empty : Stack → Bool
empty s = s.back == 0
