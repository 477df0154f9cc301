-- ===== src/Stack/Tests.antt =====
-- The theorem on the stack at a stack of three cells.
use ringdb.Prelude.{ℕ, ◌≡◌, false, some, [], ◌∷◌, arith}
use ringdb.Stack.{StackEntry, Stack, push_top, top, pop_top, empty}
use ringdb.Stack.Top.{IsValid, top-push_top}

abbrev cell : ℕ → StackEntry
cell k = record { word0 = k; word1 = k; word2 = k; word3 = k }

abbrev one_entry : Stack
one_entry = record { back = 1; cells = cell 5 ∷ cell 6 ∷ cell 7 ∷ [] }

top-push_top_example :
    (s' : Stack) × (push_top one_entry 0 4 0 8 ≡ some s')
    × IsValid s'
    × (empty s' ≡ false)
    × (top s' ≡ some (cell 7))
    × (top (pop_top s') ≡ some (record { word0 = 0; word1 = 4; word2 = 0; word3 = 8 }))
    × ((pop_top s').back ≡ 1)
top-push_top_example = top-push_top one_entry 0 4 0 8 (omega arith) (omega arith)
