-- ===== src/RequestSegment/Tests.antt =====
-- The theorem on an array of stack cells that are zeros.
use ringdb.Prelude.{◌+◌, ◌/◌, ◌≡◌, refl, none, some, [], ◌∷◌, ◌⊎◌, arith}
use ringdb.Config.{cmake, memtable_size, entry_length}
use ringdb.Memory.{memcpy}
use ringdb.Stack.{Stack, StackEntry}
use ringdb.RequestSegment.{Building, insert_memtable}
use ringdb.RequestSegment.Root.{insert_memtable-root}

abbrev zeros : StackEntry
zeros = record { word0 = 0; word1 = 0; word2 = 0; word3 = 0 }

abbrev stack : Stack
stack = record { back = 0; cells = zeros ∷ zeros ∷ zeros ∷ [] }

insert_memtable-root_example :
    (insert_memtable cmake 100 5000 9 (λ p. p) stack (7 ∷ 7 ∷ []) ≡ none)
    ⊎ ((b : Building) × (insert_memtable cmake 100 5000 9 (λ p. p) stack (7 ∷ 7 ∷ []) ≡ some b)
        × (b.memory ≡ memcpy (λ p. p) 100 (5000 + memtable_size cmake / 2) (entry_length cmake)))
insert_memtable-root_example =
    insert_memtable-root cmake 100 5000 7 (λ p. p) stack (7 ∷ 7 ∷ []) refl (omega arith)
