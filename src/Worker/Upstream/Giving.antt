-- ===== src/Worker/Upstream/Giving.antt =====
-- No new buffers wait for an sstable: part of its stock goes to the one above it.
use native.Mathlib.Nat.{div-lt_self, div-le_self}
use ringdb.Prelude.{
  ℕ, zero, suc, ◌+◌, ◌-◌, ◌^◌, ◌≤◌, ◌<◌, ◌≡◌, ◌↔◌, refl, ap, ap₂, ◌∙◌, Bool, true, false, some,
  List, [], ◌∷◌, ◌++◌, >>=-eq-some, length, get_or, get_elem?-eq-get_or, arith, add32, sub32,
}
use ringdb.Config.{Config, max_sstable_height, max_buffer_set_size}
use ringdb.BufferQueue.{BufferQueue, push_back}
use ringdb.BufferQueue.Fifo.{IsValid, contents, push_all, push_all-contents}
use ringdb.CacheHelper.{CacheHelper, remove_buffer_range}
use ringdb.SstableInfo.{SstableInfo}
use ringdb.Handover.{smaller}
use ringdb.Worker.{release}
use ringdb.Worker.Upstream.{Idle, push_stock, to_give, give_stock, give_some, idle_turn}
use ringdb.Worker.Spins.{spin_single}

-- The n buffers in front of place `from`, the last one first.
abbrev pub last_buffers : List ℕ → ℕ → ℕ → List ℕ
last_buffers buffers from zero = []
last_buffers buffers from (suc n) = get_or buffers (from - 1) 0 ∷ last_buffers buffers (from - 1) n

length-last_buffers : (buffers : List ℕ) (from n : ℕ) → length (last_buffers buffers from n) ≡ n
length-last_buffers buffers from zero = refl
length-last_buffers buffers from (suc n) = ap suc (length-last_buffers buffers (from - 1) n)

module _ (c : Config) (fuel : ℕ) (spurious : ℕ → Bool) where
  -- With at least two sstables to a level, an sstable that has buffers in stock gives at least one and never
  -- more than it has; it gives all of them exactly if it has one.
  to_give_bounds :
      (q : BufferQueue)
      → 2 ≤ c.level_factor
      → 0 < q.cur_num_buffers
      → (1 ≤ to_give c (suc fuel) spurious q)
        × (to_give c (suc fuel) spurious q ≤ q.cur_num_buffers)
        × ((to_give c (suc fuel) spurious q ≡ q.cur_num_buffers) ↔ (q.cur_num_buffers ≡ 1))
  unfolding to_give
  to_give_bounds q two h =
      let m = smaller q.cur_num_buffers (max_sstable_height c) in
      let small : m ≤ q.cur_num_buffers = ground arith in
      ground (arith, div-le_self m c.level_factor, div-lt_self {n = m} {k = c.level_factor}, small)

  push_stock-suc :
      (n : ℕ) (info : SstableInfo) (q q' : BufferQueue) (from x : ℕ)
      → sub32 info.insert_buffers_from 1 ≡ from
      → push_back (max_buffer_set_size c) q x ≡ some q'
      → from < length info.page_cache_buffers
      → get_or info.page_cache_buffers from 0 ≡ x
      → push_stock c (suc fuel) spurious (suc n) info q
        ≡ push_stock c (suc fuel) spurious n (record info { insert_buffers_from = from }) q'
  unfolding push_stock
  push_stock-suc n info q q' from x e r l o =
      let at = get_elem?-eq-get_or info.page_cache_buffers from 0 l in rw (push_stock, e, at, o, r)

  push_stock_lem :
      (n : ℕ) (info : SstableInfo) (q q' : BufferQueue) (from : ℕ)
      → info.insert_buffers_from ≡ from
      → n ≤ from
      → from ≤ length info.page_cache_buffers
      → from < 2 ^ 32
      → push_all (max_buffer_set_size c) q (last_buffers info.page_cache_buffers from n) ≡ some q'
      → push_stock c (suc fuel) spurious n info q
        ≡ some (record info { insert_buffers_from = from - n }, q')
  unfolding push_stock push_all
  push_stock_lem zero info q q' from e h l w r = ground arith
  push_stock_lem (suc n) info q q' from e h l w r =
      let x = get_or info.page_cache_buffers (from - 1) 0 in
      let rest = last_buffers info.page_cache_buffers (from - 1) n in
      let (q1, one, more) =
        >>=-eq-some (push_back (max_buffer_set_size c) q x)
          (λ k. push_all (max_buffer_set_size c) k rest) r in
      let less : from - 1 - n ≡ from - suc n = omega arith in
      push_stock-suc n info q q1 (from - 1) x (rw e (omega arith)) one (omega arith) refl
      ∙ push_stock_lem n (record info { insert_buffers_from = from - 1 }) q1 q' (from - 1) refl
          (omega arith) (omega arith) (omega arith) more
      ∙ ap (λ k. some (record info { insert_buffers_from = k }, q')) less

  give_runs :
      (s : Idle) (n : ℕ) (info : SstableInfo) (prev : BufferQueue) (h : CacheHelper)
      → s.guard.is_single_thread ≡ true
      → s.prev_guard.is_single_thread ≡ true
      → push_stock c (suc fuel) spurious n s.info s.prev_buffer_queue ≡ some (info, prev)
      → remove_buffer_range info.cache_helper
          (add32 info.insert_buffers_from 1)
          s.info.insert_buffers_from
        ≡ some h
      → give_stock c (suc fuel) spurious s n
        ≡ some (record s {
          info = record info {
            insert_buffers_from = add32 info.insert_buffers_from 1;
            cache_helper = h;
          };
          buffer_queue = record s.buffer_queue {
            cur_num_buffers = sub32 s.buffer_queue.cur_num_buffers n;
          };
          prev_buffer_queue = prev;
        })
  unfolding give_stock release
  give_runs s n info prev h own above r r' =
      let spun = spin_single fuel spurious s.prev_guard s.my_zero above in
      rw (own, spun, r, above, r')

  idle_runs :
      (level : ℕ) (s : Idle)
      → 0 < level
      → s.info.already_waited ≡ true
      → s.guard.is_single_thread ≡ true
      → s.buffer_queue.num_new_buffers ≡ 0
      → idle_turn c (suc fuel) spurious level s ≡ give_some c (suc fuel) spurious s
  unfolding idle_turn
  idle_runs level s below waited own none_new = ground arith

  some_runs :
      (s : Idle)
      → 0 < to_give c (suc fuel) spurious s.buffer_queue
      → give_some c (suc fuel) spurious s
        ≡ give_stock c
            (suc fuel)
            spurious
            (record s { info = record s.info { already_waited = false } })
            (to_give c (suc fuel) spurious s.buffer_queue)
  unfolding give_some
  some_runs s h = ground arith

  -- An sstable that has waited a turn already, below the first level, with buffers in stock but none that is
  -- new. The `to_give` last buffers of its array go to the queue of the sstable above it, the last one
  -- first, and no longer count in its own queue. Its array ends one place behind those that are left,
  -- and cached data is removed from that place on: the first buffer that was given is still one of the
  -- sstable's. Both queues are used by one thread, the upper one has room, the array holds what is
  -- given, and the removal does not fault.
  pub idle_turn-gives :
      (level : ℕ) (s : Idle) (from n : ℕ) (h : CacheHelper)
      → 0 < level
      → s.info.already_waited ≡ true
      → s.guard.is_single_thread ≡ true
      → s.prev_guard.is_single_thread ≡ true
      → s.buffer_queue.num_new_buffers ≡ 0
      → to_give c (suc fuel) spurious s.buffer_queue ≡ n
      → 0 < n
      → s.info.insert_buffers_from ≡ from
      → n ≤ from
      → from ≤ length s.info.page_cache_buffers
      → from < 2 ^ 32
      → IsValid (max_buffer_set_size c) s.prev_buffer_queue
      → s.prev_buffer_queue.num_new_buffers + n < max_buffer_set_size c
      → remove_buffer_range s.info.cache_helper (from - n + 1) from ≡ some h
      → (prev : BufferQueue) × (idle_turn c (suc fuel) spurious level s
          ≡ some (record s {
            info = record s.info {
              insert_buffers_from = from - n + 1;
              cache_helper = h;
              already_waited = false;
            };
            buffer_queue = record s.buffer_queue {
              cur_num_buffers = sub32 s.buffer_queue.cur_num_buffers n;
            };
            prev_buffer_queue = prev;
          }))
        × (contents (max_buffer_set_size c) prev
            ≡ contents (max_buffer_set_size c) s.prev_buffer_queue
              ++ last_buffers s.info.page_cache_buffers from n)
  idle_turn-gives level s from n h below waited own above none_new give pos at le fits word v room
        r =
      let info = record s.info { already_waited = false } in
      let info' = record info { insert_buffers_from = from - n } in
      let gone = last_buffers s.info.page_cache_buffers from n in
      let (prev, run, _, more, _) =
        push_all-contents (max_buffer_set_size c) gone s.prev_buffer_queue v
          (omega (arith, length-last_buffers s.info.page_cache_buffers from n)) in
      let place : add32 (from - n) 1 ≡ from - n + 1 = omega arith in
      let given = push_stock_lem n info s.prev_buffer_queue prev from at le fits word run in
      (
        prev,
        idle_runs level s below waited own none_new
            ∙ some_runs s (rw give pos)
            ∙ ap (give_stock c (suc fuel) spurious (record s { info = info })) give
            ∙ give_runs (record s { info = info }) n info' prev h own above given
                (ap₂ (remove_buffer_range info.cache_helper) place at ∙ r)
            ∙ ap
                (λ k. some (record s {
                  info = record info { insert_buffers_from = k; cache_helper = h };
                  buffer_queue = record s.buffer_queue {
                    cur_num_buffers = sub32 s.buffer_queue.cur_num_buffers n;
                  };
                  prev_buffer_queue = prev;
                }))
                place,
        more,
      )
