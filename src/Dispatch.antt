-- ===== src/Dispatch.antt =====
-- The loop of insert_into_wqs in lsm_tree.hpp that puts the parts of a divided batch into the wait
-- queues of a level's sstables.
pub mod Single
pub mod Leftover
mod Tests
use ringdb.Prelude.{
  ℕ, zero, suc, ◌+◌, ◌≡◌, Bool, true, false, Option, none, some, List, [], ◌∷◌, ◌>>=◌, ltb, ◌==◌,
  not, ◌&&◌, ◌||◌, if◌then◌else◌, add32,
}
use ringdb.Guards.{compare_exchange_weak}
use ringdb.WaitQueue.{WaitQueue, try_push_back, standard_push_back}

-- What the loop keeps of one sstable: its queue, its part of the batch (0 if it has none), and its
-- elements of the arrays `inserted` and `could_contend_with_consumer`. The source clears the latter
-- array at one place behind its end only, so that its elements start unset: they are given.
pub record Slot : Type 0 where
  pub queue : WaitQueue
  pub batch : ℕ
  pub inserted : Bool
  pub could_contend : Bool

-- `extra` is batches[LEVEL_FACTOR], the part for the next level.
pub record Queued : Type 0 where
  pub slots : List Slot
  pub extra : ℕ
  pub num_queued : ℕ

-- The trylock on the producers' guard. `spurious`: the exchange fails without a reason.
pub try_producer : Bool → WaitQueue → Bool
try_producer spurious q =
    q.is_single_thread || (compare_exchange_weak spurious q.atomic_producer_guard 0).success

abbrev release_producer : WaitQueue → WaitQueue
release_producer q = if q.is_single_thread then q else record q { atomic_producer_guard = 1 }

-- What one turn leaves of the slot, of `extra` and of the count.
pub record Turn : Type 0 where
  pub slot : Slot
  pub extra : ℕ
  pub num_queued : ℕ

-- The part was taken in: the part for the next level goes behind it.
pub push_extra : Slot → WaitQueue → ℕ → ℕ → Option Turn
push_extra s q extra num_queued =
    if extra == 0
    then some (record {
      slot = record s { queue = release_producer q; inserted = true; could_contend = false };
      extra = 0;
      num_queued = add32 num_queued 1;
    })
    else (do
      q' ← standard_push_back q extra
      some (record {
        slot = record s { queue = release_producer q'; inserted = true; could_contend = false };
        extra = 0;
        num_queued = add32 (add32 num_queued 1) 1;
      }))

-- The body of the inner loop.
pub serve : Bool → Slot → ℕ → ℕ → Option Turn
unfolding push_extra
serve spurious s extra num_queued =
    if not (s.batch == 0) && (not s.inserted && try_producer spurious s.queue)
    then (do
      (ok, q) ← try_push_back s.queue s.batch s.could_contend
      if ok
          then push_extra s q extra num_queued
          else some (record {
            slot = record s { queue = release_producer q; could_contend = true };
            extra = extra;
            num_queued = num_queued;
          }))
    else some (record { slot = s; extra = extra; num_queued = num_queued })

-- The inner loop, from sstable `i` on.
pub pass : (ℕ → Bool) → ℕ → List Slot → ℕ → ℕ → Option Queued
pass spurious i [] extra num_queued =
    some (record { slots = []; extra = extra; num_queued = num_queued })
pass spurious i (s ∷ ss) extra num_queued = do
  t ← serve (spurious i) s extra num_queued
  r ← pass spurious (i + 1) ss t.extra t.num_queued
  some (record r { slots = t.slot ∷ r.slots })

-- while (num_queued < decomp.num_req_batches), with fuel for each pass, which has exchanges of its own.
pub queue_all : (ℕ → ℕ → Bool) → ℕ → ℕ → Queued → Option Queued
queue_all spurious zero num_req_batches w = none
queue_all spurious (suc fuel) num_req_batches w =
    let next =
      pass (spurious fuel) 0 w.slots w.extra w.num_queued
      >>= queue_all spurious fuel num_req_batches in
    if ltb w.num_queued num_req_batches then next else some w
