-- ===== src/WaitQueue/Tests.antt =====
-- The theorems on wait queues at an empty queue and at one of a single batch.
use ringdb.Prelude.{◌≡◌, refl, Bool, true, false, none, some, [], ◌∷◌, arith, ◌==◌, if◌then◌else◌}
use ringdb.WaitQueue.{WaitQueue, try_push_back, pop_front}
use ringdb.WaitQueue.Chain.{node, Holds, nothing, row}
use ringdb.WaitQueue.Single.{push, pop, run, fifo, run-fifo}
use ringdb.WaitQueue.Shared.{
  IsShared, try_push_back_shared-Holds, pop_front-IsShared, try_push_back_loses,
}

abbrev empty : Bool → WaitQueue
empty is_single_thread = record {
  atomic_consumer_guard = 1;
  size = 0;
  atomic_producer_guard = 1;
  is_single_thread = is_single_thread;
  front = 0;
  back = 0;
  nodes = λ p. none;
  next_address = 1;
}

-- Batch 70 in the node at 1.
abbrev single_batch : WaitQueue
single_batch = record (empty false) {
  size = 1;
  front = 1;
  back = 1;
  nodes = λ p. if p == 1 then node 70 0 else none;
  next_address = 2;
}

empty-Holds : (b : Bool) → Holds (empty b) []
empty-Holds b = nothing refl (omega arith)

single_batch-Holds : Holds single_batch (70 ∷ [])
single_batch-Holds = row 70 [] (omega arith, refl, refl) (omega arith)

run-fifo_example :
    run (empty true) (push 70 false ∷ push 71 true ∷ pop ∷ pop ∷ pop ∷ []) ≡ some (70 ∷ 71 ∷ 0 ∷ [])
unfolding fifo
run-fifo_example =
    run-fifo (push 70 false ∷ push 71 true ∷ pop ∷ pop ∷ pop ∷ []) (empty true) [] refl
      (empty-Holds true)

try_push_back_shared-Holds_example :
    (q' : WaitQueue) × (try_push_back (empty false) 70 false ≡ some (true, q'))
    × Holds q' (70 ∷ [])
    × (q'.size ≡ 1)
try_push_back_shared-Holds_example =
    try_push_back_shared-Holds (empty false) 70 [] (record { shared = refl; free = refl })
      (empty-Holds false) refl (omega arith) (omega arith)

pop_front-IsShared_example :
    (q' : WaitQueue) × (pop_front single_batch ≡ some (70, q'))
    × Holds q' []
    × IsShared q'
    × (q'.size ≡ 0)
pop_front-IsShared_example = pop_front-IsShared single_batch 70 [] refl single_batch-Holds

try_push_back_loses_example :
    (q' q'' : WaitQueue) × (try_push_back single_batch 71 false ≡ some (true, q'))
    × (try_push_back q' 72 false ≡ some (true, q''))
    × Holds q'' (70 ∷ 72 ∷ [])
    × (q''.size ≡ 3)
try_push_back_loses_example =
    try_push_back_loses single_batch 70 71 72 (record { shared = refl; free = refl })
      single_batch-Holds refl
