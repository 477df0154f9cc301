-- ===== src/WaitQueue.antt =====
-- sstable/request_batch/request_batch_wait_queue.hpp: the list of request batches that wait for an
-- sstable. Its nodes live on a heap of their own, whose allocator never gives an address twice. An
-- operation is one step: what two threads do within one another's operations is not modelled.
pub mod Chain
pub mod Single
pub mod Shared
mod Tests
use ringdb.Prelude.{
  ℕ, ◌+◌, ◌^◌, ◌≡◌, Bool, true, false, Option, none, some, ◌>>=◌, ltb, leb, ◌==◌, not, ◌&&◌,
  if◌then◌else◌, add32, sub32,
}

-- RequestBatchWaitQueueNode. A batch is its address, and nullptr is 0.
pub record Node : Type 0 where
  pub req_batch : ℕ
  pub next : ℕ

pub record WaitQueue : Type 0 where
  pub atomic_consumer_guard : ℕ
  pub size : ℕ
  pub atomic_producer_guard : ℕ
  pub is_single_thread : Bool
  pub front : ℕ
  pub back : ℕ
  pub nodes : ℕ → Option Node
  pub next_address : ℕ

abbrev pub update : (ℕ → Option Node) → ℕ → Option Node → ℕ → Option Node
update nodes p n q = if p == q then n else nodes q

-- new Node(req_batch): the node at the next address.
abbrev pub allocate : WaitQueue → ℕ → WaitQueue
allocate q req_batch = record q {
  nodes = update q.nodes q.next_address (some (record { req_batch = req_batch; next = 0 }));
  next_address = q.next_address + 1;
}

-- back->next = new Node(req_batch); `back` itself stays.
pub link : WaitQueue → ℕ → Option WaitQueue
link q req_batch = do
  let q' = allocate q req_batch
  last ← q'.nodes q.back
  some (record q' { nodes = update q'.nodes q.back (some (record last { next = q.next_address })) })

-- front = back = new Node(req_batch)
abbrev pub first : WaitQueue → ℕ → WaitQueue
first q req_batch = record (allocate q req_batch) { front = q.next_address; back = q.next_address }

-- back = back->next = new Node(req_batch)
pub extend : WaitQueue → ℕ → Option WaitQueue
unfolding link
extend q req_batch = do q' ← link q req_batch; some (record q' { back = q.next_address })

abbrev pub count_one : WaitQueue → WaitQueue
count_one q = record q { size = add32 q.size 1 }

pub standard_push_back : WaitQueue → ℕ → Option WaitQueue
unfolding extend
standard_push_back q req_batch = do
  q' ← if q.front == 0 then some (first q req_batch) else extend q req_batch
  some (if q'.is_single_thread then q' else count_one q')

abbrev pub done : Option WaitQueue → Option (Bool × WaitQueue)
done m = m >>= λ q. some (true, q)

-- The branches on the size that was loaded, as an `int`.
pub push_by_size : WaitQueue → ℕ → Option (Bool × WaitQueue)
unfolding extend
push_by_size q req_batch =
    if ltb 1 q.size && ltb q.size (2 ^ 31)
    then done (extend q req_batch >>= λ q'. some (count_one q'))
    else if q.size == 0
    then (if q.atomic_consumer_guard == 0
        then some (false, q)
        else some (true, count_one (first q req_batch)))
    else if q.size == 1
    then (if q.atomic_consumer_guard == 0
        then some (false, q)
        else done (link q req_batch >>= λ q'. some (count_one q')))
    else some (true, count_one (first q req_batch))

-- False: the batch was not taken in.
pub try_push_back : WaitQueue → ℕ → Bool → Option (Bool × WaitQueue)
unfolding standard_push_back push_by_size
try_push_back q req_batch could_contend_with_consumer =
    if q.is_single_thread
    then done (standard_push_back q req_batch)
    else if could_contend_with_consumer
    then (if q.atomic_consumer_guard == 0
        then some (false, q)
        else done (standard_push_back q req_batch))
    else push_by_size q req_batch

-- Takes the node in front off and deletes it.
pub unlink : WaitQueue → Option (ℕ × WaitQueue)
unlink q = do
  n ← q.nodes q.front
  some (n.req_batch, record q { front = n.next; nodes = update q.nodes q.front none })

abbrev pub release : WaitQueue → WaitQueue
release q = record q { atomic_consumer_guard = 1 }

-- The size is unsigned, so that the test `fetch_sub(1) - 1 >= 0` compares an unsigned number with 0.
pub pop_shared : WaitQueue → Option (ℕ × WaitQueue)
unfolding unlink
pop_shared q =
    let taken = unlink (record q { size = sub32 q.size 1 }) in
    if leb 0 (sub32 q.size 1) then (taken >>= λ r. some (r.0, release r.1)) else some (0, release q)

-- The batch taken, or nullptr.
pub pop_front : WaitQueue → Option (ℕ × WaitQueue)
unfolding pop_shared unlink
pop_front q =
    if q.is_single_thread then (if q.front == 0 then some (0, q) else unlink q) else pop_shared q
