-- ===== src/Worker/Upstream/Transfer.antt =====
-- The new buffers that wait for an sstable go to the one above it.
use mathlib.Core.List.{reverse, reverse-append, reverse-cons}
use mathlib.Core.Path.{fun_ext}
use ringdb.Prelude.{
  ℕ, zero, suc, ◌+◌, ◌%◌, ◌≤◌, ◌<◌, ◌≡◌, refl, sym, ap, ◌∙◌, Bool, true, some, List, [], ◌∷◌, ◌++◌,
  ◌>>=◌, length, length-append, take, length-take, get_elem?, get_elem?-total, arith,
}
use ringdb.Config.{Config, max_sstable_height, max_buffer_set_size}
use ringdb.BufferQueue.{BufferQueue, push_back}
use ringdb.BufferQueue.Fifo.{IsValid, contents, held, push_all, push_all-contents}
use ringdb.Handover.{take_new, smaller}
use ringdb.Handover.Takes.{take_new-contents}
use ringdb.Worker.Spins.{spin_single}
use ringdb.Worker.{release}
use ringdb.Worker.Upstream.{Idle, push_down, transfer_new, idle_turn}

take-suc :
    (xs : List ℕ) (n x : ℕ) → get_elem? xs n ≡ some x → take (suc n) xs ≡ take n xs ++ (x ∷ [])
take-suc [] n x e = cc
take-suc (y ∷ xs) zero x e = ground (arith, e)
take-suc (y ∷ xs) (suc n) x e = ap (◌∷◌ y) (take-suc xs n x e)

take-take : (n : ℕ) (xs : List ℕ) → take n (take n xs) ≡ take n xs
take-take zero xs = refl
take-take (suc n) [] = refl
take-take (suc n) (x ∷ xs) = ap (◌∷◌ x) (take-take n xs)

length-held : (size : ℕ) (cells : List ℕ) (start n : ℕ) → length (held size cells start n) ≡ n
length-held size cells start zero = refl
length-held size cells start (suc n) = ap suc (length-held size cells ((start + 1) % size) n)

length-reverse : (xs : List ℕ) → length (reverse xs) ≡ length xs
length-reverse [] = refl
length-reverse (x ∷ xs) =
    ap length (reverse-cons x xs)
    ∙ omega (arith, length-append (reverse xs) (x ∷ []), length-reverse xs)

module _ (c : Config) (fuel : ℕ) (spurious : ℕ → Bool) where
  push_down-suc :
      (n : ℕ) (xs : List ℕ) (q : BufferQueue) (x : ℕ)
      → get_elem? xs n ≡ some x
      → push_down c (suc fuel) spurious (suc n) xs q
        ≡ (push_back (max_buffer_set_size c) q x >>= push_down c (suc fuel) spurious n xs)
  unfolding push_down
  push_down-suc n xs q x e = rw (push_down, e)

  -- The array is emptied from its end.
  push_down-push_all :
      (n : ℕ) (xs : List ℕ) (q : BufferQueue)
      → n ≤ length xs
      → push_down c (suc fuel) spurious n xs q
        ≡ push_all (max_buffer_set_size c) q (reverse (take n xs))
  unfolding push_down push_all reverse
  push_down-push_all zero xs q h = refl
  push_down-push_all (suc n) xs q h =
      let (x, e) = get_elem?-total xs n (omega arith) in
      let rev : reverse (take (suc n) xs) ≡ x ∷ reverse (take n xs) =
        ap reverse (take-suc xs n x e) ∙ reverse-append (take n xs) (x ∷ []) in
      push_down-suc n xs q x e
      ∙ ap (λ f. push_back (max_buffer_set_size c) q x >>= f)
          (fun_ext λ q'. push_down-push_all n xs q' (omega arith))
      ∙ ap (push_all (max_buffer_set_size c) q) (sym rev)

  transfer_runs :
      (s : Idle) (n : ℕ) (xs : List ℕ) (q prev : BufferQueue)
      → s.guard.is_single_thread ≡ true
      → s.prev_guard.is_single_thread ≡ true
      → smaller (max_sstable_height c) s.buffer_queue.num_new_buffers ≡ n
      → take_new c n s.buffer_queue ≡ some (xs, q)
      → push_down c (suc fuel) spurious n xs s.prev_buffer_queue ≡ some prev
      → transfer_new c (suc fuel) spurious s
        ≡ some (record s { buffer_queue = q; prev_buffer_queue = prev })
  unfolding transfer_new release
  transfer_runs s n xs q prev own above count r r' =
      let spun = spin_single fuel spurious s.prev_guard s.my_zero above in
      rw (count, r, own, spun, r', above)

  idle_runs :
      (level : ℕ) (s : Idle)
      → 0 < level
      → s.info.already_waited ≡ true
      → s.guard.is_single_thread ≡ true
      → 0 < s.buffer_queue.num_new_buffers
      → idle_turn c (suc fuel) spurious level s ≡ transfer_new c (suc fuel) spurious s
  unfolding idle_turn
  idle_runs level s below waited own new = ground arith

  -- An sstable that has waited a turn already, below the first level, with buffers that are new: of the pointers
  -- that clients would take next from its queue, the first ones leave it, as many as there are new
  -- buffers and at most the fair number, and the others stay in order. Those that left are what clients
  -- take last from the queue of the sstable above, in the opposite order. As a queue lags by one place,
  -- the first of them is the one that was left over before the new buffers came. Nothing else changes.
  -- Both queues are used by one thread, and the upper one has room.
  pub idle_turn-transfers :
      (level : ℕ) (s : Idle)
      → 0 < level
      → s.info.already_waited ≡ true
      → s.guard.is_single_thread ≡ true
      → s.prev_guard.is_single_thread ≡ true
      → IsValid (max_buffer_set_size c) s.buffer_queue
      → IsValid (max_buffer_set_size c) s.prev_buffer_queue
      → 0 < s.buffer_queue.num_new_buffers
      → s.prev_buffer_queue.num_new_buffers
          + smaller (max_sstable_height c) s.buffer_queue.num_new_buffers
        < max_buffer_set_size c
      → (q prev : BufferQueue) × (idle_turn c (suc fuel) spurious level s
          ≡ some (record s { buffer_queue = q; prev_buffer_queue = prev }))
        × IsValid (max_buffer_set_size c) q
        × IsValid (max_buffer_set_size c) prev
        × (q.num_new_buffers + smaller (max_sstable_height c) s.buffer_queue.num_new_buffers
            ≡ s.buffer_queue.num_new_buffers)
        × (contents (max_buffer_set_size c) s.buffer_queue
            ≡ take
                (smaller (max_sstable_height c) s.buffer_queue.num_new_buffers)
                (contents (max_buffer_set_size c) s.buffer_queue)
              ++ contents (max_buffer_set_size c) q)
        × (contents (max_buffer_set_size c) prev
            ≡ contents (max_buffer_set_size c) s.prev_buffer_queue
              ++ reverse (
                  take
                    (smaller (max_sstable_height c) s.buffer_queue.num_new_buffers)
                    (contents (max_buffer_set_size c) s.buffer_queue)))
  idle_turn-transfers level s below waited own above v v' new room =
      let n = smaller (max_sstable_height c) s.buffer_queue.num_new_buffers in
      let size = max_buffer_set_size c in
      let l = contents size s.buffer_queue in
      let fewer : n ≤ s.buffer_queue.num_new_buffers = ground arith in
      let full : length l ≡ suc s.buffer_queue.num_new_buffers =
        length-held size s.buffer_queue.queue s.buffer_queue.queue_front
          (suc s.buffer_queue.num_new_buffers) in
      let whole : length (take n l) ≡ n = omega (arith, length-take n l, full) in
      let (q, run, valid, left, rest) = take_new-contents c n s.buffer_queue v fewer in
      let (prev, run', valid', more, _) =
        push_all-contents size (reverse (take n l)) s.prev_buffer_queue v'
          (omega (arith, length-reverse (take n l), whole)) in
      (
        q,
        prev,
        idle_runs level s below waited own new
            ∙ transfer_runs s n (take n l) q prev own above refl run (
                push_down-push_all n (take n l) s.prev_buffer_queue (omega (arith, whole))
                ∙ ap (λ xs. push_all size s.prev_buffer_queue (reverse xs)) (take-take n l)
                ∙ run'),
        valid,
        valid',
        left,
        rest,
        more,
      )
