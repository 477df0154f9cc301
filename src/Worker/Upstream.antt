-- ===== src/Worker/Upstream.antt =====
-- What a worker thread does for an sstable that has waited a turn for a batch in vain: it gives page cache
-- buffers to the sstable at the same place of the level above (lsm_tree.hpp, the branch behind
-- `already_waited`).
pub mod Transfer
pub mod Giving
use ringdb.Prelude.{
  ℕ, zero, suc, ◌+◌, ◌-◌, ◌*◌, ◌/◌, ◌≡◌, Bool, true, false, Option, none, some, List, [], ◌∷◌,
  ◌>>=◌, get_elem?, ltb, ◌==◌, not, ◌&&◌, ◌||◌, if◌then◌else◌, add32, sub32,
}
use ringdb.Config.{Config, max_sstable_height, max_buffer_set_size}
use ringdb.Guards.{Guard, Exchange, compare_exchange_weak}
use ringdb.BufferQueue.{BufferQueue, push_back}
use ringdb.CacheHelper.{CacheHelper, remove_buffer_range}
use ringdb.SstableInfo.{SstableInfo}
use ringdb.Handover.{take_new, larger, smaller}
use ringdb.Worker.{Spun, spin, release}

-- The sstable, its buffer queue, that of the level above, and the thread's variable my_zero.
pub record Idle : Type 0 where
  pub info : SstableInfo
  pub buffer_queue : BufferQueue
  pub guard : Guard
  pub prev_buffer_queue : BufferQueue
  pub prev_guard : Guard
  pub my_zero : ℕ

-- `spurious` are the failures without a reason, and `fuel` is for the spinning loop.
module _ (c : Config) (fuel : ℕ) (spurious : ℕ → Bool) where
  -- while (num_new_buffers--) prev_buffer_queue->push_back(new_buffers[num_new_buffers]);
  pub push_down : ℕ → List ℕ → BufferQueue → Option BufferQueue
  push_down zero new_buffers q = some q
  push_down (suc n) new_buffers q = do
    x ← get_elem? new_buffers n
    q' ← push_back (max_buffer_set_size c) q x
    push_down n new_buffers q'

  -- The new buffers that wait, at most the fair number of them.
  pub transfer_new : Idle → Option Idle
  unfolding push_down
  transfer_new s = do
    let at_most_fair = smaller (max_sstable_height c) s.buffer_queue.num_new_buffers
    (new_buffers, q) ← take_new c at_most_fair s.buffer_queue
    let own = release (record { guard = s.guard; my_zero = s.my_zero })
    held ← spin fuel spurious s.prev_guard own.my_zero
    prev ← push_down at_most_fair new_buffers s.prev_buffer_queue
    let freed = release held
    some (record s {
      buffer_queue = q;
      guard = own.guard;
      prev_buffer_queue = prev;
      prev_guard = freed.guard;
      my_zero = freed.my_zero;
    })

  -- The part of the stock that is given.
  unfoldable pub to_give : BufferQueue → ℕ
  to_give q =
      if q.cur_num_buffers == 0
      then 0
      else larger (smaller q.cur_num_buffers (max_sstable_height c) / c.level_factor) 1

  -- for (i = 0; i < to_give; ++i) prev_buffer_queue->push_back(page_cache_buffers[--insert_buffers_from]);
  pub push_stock : ℕ → SstableInfo → BufferQueue → Option (SstableInfo × BufferQueue)
  push_stock zero info q = some (info, q)
  push_stock (suc n) info q = do
    let from = sub32 info.insert_buffers_from 1
    x ← get_elem? info.page_cache_buffers from
    q' ← push_back (max_buffer_set_size c) q x
    push_stock n (record info { insert_buffers_from = from }) q'

  -- The sstable's own buffers are given. The guard is freed here only.
  pub give_stock : Idle → ℕ → Option Idle
  unfolding push_stock
  give_stock s n = do
    let own = release (record { guard = s.guard; my_zero = s.my_zero })
    held ← spin fuel spurious s.prev_guard own.my_zero
    (info, prev) ← push_stock n s.info s.prev_buffer_queue
    let freed = release held
    let from = add32 info.insert_buffers_from 1
    h ← remove_buffer_range info.cache_helper from s.info.insert_buffers_from
    some (record {
      info = record info { insert_buffers_from = from; cache_helper = h };
      buffer_queue = record s.buffer_queue {
        cur_num_buffers = sub32 s.buffer_queue.cur_num_buffers n;
      };
      guard = own.guard;
      prev_buffer_queue = prev;
      prev_guard = freed.guard;
      my_zero = freed.my_zero;
    })

  -- No new buffers wait.
  pub give_some : Idle → Option Idle
  unfolding to_give give_stock
  give_some s =
      let s' = record s { info = record s.info { already_waited = false } } in
      if to_give s.buffer_queue == 0 then some s' else give_stock s' (to_give s.buffer_queue)

  -- The trylock is tried where the queue is shared. Where it fails, my_zero keeps the value that it found.
  pub idle_turn : ℕ → Idle → Option Idle
  unfolding transfer_new give_some
  idle_turn level s =
      let x = compare_exchange_weak (spurious fuel) s.guard.atomic_guard s.my_zero in
      let tried = record s {
        guard = record s.guard { atomic_guard = x.value };
        my_zero = x.expected;
      } in
      let s' = if s.guard.is_single_thread then s else tried in
      if not s.info.already_waited
      then some (record s { info = record s.info { already_waited = true } })
      else if level == 0
      then some s
      else if not s.guard.is_single_thread && not x.success
      then some s'
      else if not (s.buffer_queue.num_new_buffers == 0)
      then transfer_new s'
      else give_some s'
