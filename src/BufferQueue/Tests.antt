-- ===== src/BufferQueue/Tests.antt =====
-- A ring of four cells: what three pushed buffers come out as.
use ringdb.Prelude.{ℕ, ◌≡◌, refl, some, List, [], ◌∷◌, arith}
use ringdb.BufferQueue.{BufferQueue, init, push_back, pop_front}
use ringdb.BufferQueue.Fifo.{
  IsValid, contents, push_back-contents, pop_front-contents, push_all, pop_all, pop_all-push_all,
}
use ringdb.Prelude.{◌+◌}

abbrev cells : List ℕ
cells = 90 ∷ 91 ∷ 92 ∷ 93 ∷ []

-- The first pop takes what the array's first cell held.
pop_all-push_all_example :
    (q q' : BufferQueue) × (push_all 4 (init 20 cells) (10 ∷ 11 ∷ 12 ∷ []) ≡ some q)
    × (pop_all 4 3 q ≡ some (90 ∷ 10 ∷ 11 ∷ [], q'))
pop_all-push_all_example =
    pop_all-push_all 4 20 3 cells (10 ∷ 11 ∷ 12 ∷ []) (omega arith) refl (omega arith) (omega arith)

-- The pointers under `queue_front` and behind it: the stale 91, and one pushed buffer.
abbrev turned : BufferQueue
turned = record {
  queue_front = 3;
  back = 0;
  cur_num_buffers = 6;
  num_new_buffers = 1;
  queue = 10 ∷ 92 ∷ 93 ∷ 91 ∷ [];
}

turned-IsValid : IsValid 4 turned
turned-IsValid = omega arith

push_back-contents_example :
    (q' : BufferQueue) × (push_back 4 turned 11 ≡ some q')
    × IsValid 4 q'
    × (contents 4 q' ≡ 91 ∷ 10 ∷ 11 ∷ [])
    × (q'.num_new_buffers ≡ 2)
    × (q'.queue_front ≡ 3)
push_back-contents_example = push_back-contents 4 turned 11 turned-IsValid (omega arith)

pop_front-contents_example :
    (x : ℕ) × (q' : BufferQueue) × (pop_front 4 turned ≡ some (x, q'))
    × IsValid 4 q'
    × (contents 4 turned ≡ x ∷ contents 4 q')
    × (q'.num_new_buffers + 1 ≡ 1)
pop_front-contents_example = pop_front-contents 4 turned turned-IsValid (omega arith)
