-- ===== src/WaitQueue/Shared.antt =====
-- A queue between two threads, whose operations branch on the counted size.
use ringdb.Prelude.{
  ℕ, ◌+◌, ◌^◌, ◌<◌, ◌≡◌, ◌≢◌, refl, ◌∙◌, true, false, none, some, List, [], ◌∷◌, ◌++◌, arith,
  length, sub32,
}
use ringdb.WaitQueue.{
  WaitQueue, update, link, extend, first, count_one, release, push_by_size, try_push_back, unlink,
  pop_shared, pop_front,
}
use ringdb.WaitQueue.Chain.{node, Holds, nothing, row}
use ringdb.WaitQueue.Single.{extended, extend_lem, extend-Holds, first-Holds, unlink-Holds}

-- The consumer is not at work, nothing lies at nullptr, and two threads use the queue.
pub record IsShared (q : WaitQueue) : Type 0 where
  pub shared : q.is_single_thread ≡ false
  pub free : q.atomic_consumer_guard ≡ 1

count_one-Holds : (q : WaitQueue) (bs : List ℕ) → Holds q bs → Holds (count_one q) bs
count_one-Holds q [] (nothing e h) = nothing e h
count_one-Holds q (b ∷ bs) (row _ _ r h) = row b bs r h

release-Holds : (q : WaitQueue) (bs : List ℕ) → Holds q bs → Holds (release q) bs
release-Holds q [] (nothing e h) = nothing e h
release-Holds q (b ∷ bs) (row _ _ r h) = row b bs r h

push_long :
    (q q' : WaitQueue) (x : ℕ)
    → IsShared q
    → 1 < q.size
    → q.size < 2 ^ 31
    → extend q x ≡ some q'
    → try_push_back q x false ≡ some (true, count_one q')
unfolding try_push_back push_by_size
push_long q q' x s l u e = ground (arith, s.shared)

push_none :
    (q : WaitQueue) (x : ℕ)
    → IsShared q
    → q.size ≡ 0
    → try_push_back q x false ≡ some (true, count_one (first q x))
unfolding try_push_back push_by_size
push_none q x s e = ground (arith, s.shared, s.free)

push_one :
    (q q' : WaitQueue) (x : ℕ)
    → IsShared q
    → q.size ≡ 1
    → link q x ≡ some q'
    → try_push_back q x false ≡ some (true, count_one q')
unfolding try_push_back push_by_size
push_one q q' x s e r = ground (arith, s.shared, s.free)

-- On a shared queue whose counted size is the number of its batches, and is not one, a push that could not
-- contend with the consumer, and finds the consumer's guard free, appends the batch and counts it.
pub try_push_back_shared-Holds :
    (q : WaitQueue) (x : ℕ) (bs : List ℕ)
    → IsShared q
    → Holds q bs
    → q.size ≡ length bs
    → q.size < 2 ^ 31
    → q.size ≢ 1
    → (q' : WaitQueue) × (try_push_back q x false ≡ some (true, q'))
      × Holds q' (bs ++ (x ∷ []))
      × (q'.size ≡ length bs + 1)
try_push_back_shared-Holds q x [] s h e u ne = (
  count_one (first q x),
  push_none q x s e,
  count_one-Holds (first q x) (x ∷ []) (first-Holds q x h),
  omega arith,
)
try_push_back_shared-Holds q x (b ∷ bs) s h e u ne =
    let (q', run, h', _, size) = extend-Holds q x b bs h in
    (
      count_one q',
      push_long q q' x s (omega arith) u run,
      count_one-Holds q' (b ∷ (bs ++ (x ∷ []))) h',
      omega (arith, size),
    )

recount-Holds :
    (q : WaitQueue) (b : ℕ) (bs : List ℕ)
    → Holds q (b ∷ bs)
    → Holds (record q { size = sub32 q.size 1 }) (b ∷ bs)
recount-Holds q b bs (row _ _ r h) = row b bs r h

pop_runs :
    (q q' : WaitQueue) (b : ℕ)
    → q.is_single_thread ≡ false
    → unlink (record q { size = sub32 q.size 1 }) ≡ some (b, q')
    → pop_front q ≡ some (b, release q')
unfolding pop_front pop_shared
pop_runs q q' b s r = ground arith

-- A shared pop of a queue that holds something takes the front batch, and counts one less.
pub pop_front-IsShared :
    (q : WaitQueue) (b : ℕ) (bs : List ℕ)
    → q.is_single_thread ≡ false
    → Holds q (b ∷ bs)
    → (q' : WaitQueue) × (pop_front q ≡ some (b, q'))
      × Holds q' bs
      × IsShared q'
      × (q'.size ≡ sub32 q.size 1)
pop_front-IsShared q b bs s h =
    let (q', run, h', same, size) =
      unlink-Holds (record q { size = sub32 q.size 1 }) b bs (recount-Holds q b bs h) in
    (
      release q',
      pop_runs q q' b s run,
      release-Holds q' bs h',
      record { shared = same ∙ s; free = refl },
      size,
    )

-- A shared pop of an empty queue reads through nullptr, whatever the counted size: the test for a
-- negative size compares an unsigned number.
pop_front_empty_shared :
    (q : WaitQueue)
    → q.is_single_thread ≡ false
    → Holds q []
    → q.nodes 0 ≡ none
    → pop_front q ≡ none
unfolding pop_front pop_shared unlink
pop_front_empty_shared q s (nothing e h) z = ground arith

-- What `link` leaves on a queue whose last node holds `y`.
abbrev linked : WaitQueue → ℕ → ℕ → WaitQueue
linked q x y = record q {
  nodes = update (update q.nodes q.next_address (node x 0)) q.back (node y q.next_address);
  next_address = q.next_address + 1;
}

link_lem :
    (q : WaitQueue) (x y z : ℕ)
    → q.back < q.next_address
    → q.nodes q.back ≡ node y z
    → link q x ≡ some (linked q x y)
unfolding link
link_lem q x y z h e =
    let old : update q.nodes q.next_address (node x 0) q.back ≡ node y z = ground arith in rw old

-- A push at a size of one links the new node in but leaves `back` where it was, and so the push after
-- it overwrites that link: the first of the two batches is lost, and is still counted.
pub try_push_back_loses :
    (q : WaitQueue) (a b c : ℕ)
    → IsShared q
    → Holds q (a ∷ [])
    → q.size ≡ 1
    → (q' q'' : WaitQueue) × (try_push_back q b false ≡ some (true, q'))
      × (try_push_back q' c false ≡ some (true, q''))
      × Holds q'' (a ∷ c ∷ [])
      × (q''.size ≡ 3)
try_push_back_loses q a b c s (row _ _ (pos, at, end) h) e =
    let q1 = count_one (linked q b a) in
    (
      q1,
      count_one (extended q1 c a),
      push_one q (linked q b a) b s e (link_lem q b a 0 h (ground arith)),
      push_long q1 (extended q1 c a) c (record { shared = s.shared; free = s.free }) (omega arith)
          (omega arith) (extend_lem q1 c a q.next_address (omega arith) (ground arith)),
      row a (c ∷ [])
          (q.next_address + 1, pos, ground arith, omega arith, (omega arith, ground arith, refl))
          (omega arith),
      omega arith,
    )
