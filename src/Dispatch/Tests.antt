-- ===== src/Dispatch/Tests.antt =====
-- The theorems on a level of two sstables.
use ringdb.Prelude.{ℕ, ◌<◌, ◌≡◌, refl, true, false, none, some, List, [], ◌∷◌, arith}
use ringdb.WaitQueue.{WaitQueue}
use ringdb.WaitQueue.Chain.{nothing}
use ringdb.Dispatch.{Slot, Queued, queue_all}
use ringdb.Dispatch.Single.{Ready, Served, with_parts, num_parts, extra_after, queue_all-Served}

abbrev queue : WaitQueue
queue = record {
  atomic_consumer_guard = 1;
  size = 0;
  atomic_producer_guard = 1;
  is_single_thread = true;
  front = 0;
  back = 0;
  nodes = λ p. none;
  next_address = 1;
}

abbrev slot : ℕ → Slot
slot batch = record { queue = queue; batch = batch; inserted = false; could_contend = false }

abbrev two : List Slot
two = slot 7 ∷ slot 8 ∷ []

two-Ready : Ready two ([] ∷ [] ∷ [])
two-Ready =
    Ready.next (slot 7) (slot 8 ∷ []) [] ([] ∷ [])
      (record { single = refl; holds = nothing refl (omega arith) }) refl
      (Ready.next (slot 8) [] [] [] (record { single = refl; holds = nothing refl (omega arith) })
        refl Ready.none_left)

some_part : 0 < num_parts two 9
unfolding num_parts
some_part = omega arith

queue_all-Served_example :
    (w : Queued) × (queue_all
        (λ n i. false)
        2
        (num_parts two 9)
        (record { slots = two; extra = 9; num_queued = 0 })
      ≡ some w)
    × Served w.slots (with_parts two 9 ([] ∷ [] ∷ []))
    × (w.extra ≡ extra_after two 9)
    × (w.num_queued ≡ num_parts two 9)
queue_all-Served_example =
    queue_all-Served (λ n i. false) 0 two ([] ∷ [] ∷ []) 9 two-Ready (omega arith) some_part
