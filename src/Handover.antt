-- ===== src/Handover.antt =====
-- How page cache buffers go from an sstable to those of the next level: the two parts of insert_into_wqs
-- in lsm_tree.hpp around its queueing loop, and try_add_buffers_nonblockingly.
pub mod Takes
pub mod Gives
use ringdb.Prelude.{
  ℕ, zero, suc, ◌+◌, ◌-◌, ◌*◌, ◌/◌, ◌^◌, ◌≡◌, Bool, true, false, Option, none, some, List, [], ◌∷◌,
  ◌>>=◌, get_elem?, store, ltb, leb, ◌==◌, not, ◌&&◌, ◌||◌, if◌then◌else◌, add32, sub32,
}
use ringdb.Config.{Config, max_sstable_height, max_buffer_set_size}
use ringdb.Guards.{Guard, try_lock}
use ringdb.BufferQueue.{BufferQueue, push_back, pop_front, front}
use ringdb.CacheHelper.{CacheHelper, add_buffer, remove_buffer_range}
use ringdb.SstableInfo.{SstableInfo}

abbrev pub larger : ℕ → ℕ → ℕ
larger a b = if ltb a b then b else a

abbrev pub smaller : ℕ → ℕ → ℕ
smaller a b = if ltb a b then a else b

-- A page cache buffer goes to the sstable.
pub keep_buffer : SstableInfo → ℕ → Option SstableInfo
keep_buffer info buffer = do
  d ← store info.page_cache_buffers info.insert_buffers_from buffer
  some (record info {
    page_cache_buffers = d;
    insert_buffers_from = add32 info.insert_buffers_from 1;
    cache_helper = add_buffer info.cache_helper;
  })

module _ (c : Config) where
  -- old_num_old_buffers is an `int`; a negative one gives 1.
  pub old_buffer_limit : BufferQueue → ℕ
  old_buffer_limit q =
      let old = sub32 q.cur_num_buffers q.num_new_buffers in
      if old == 0 then 0 else if leb (2 ^ 31) old then 1 else larger (old / c.level_factor) 1

  -- The conditional without a middle operand is its own test where that is not 0.
  pub new_buffer_limit : BufferQueue → ℕ
  new_buffer_limit q =
      if q.num_new_buffers == 0
      then larger (smaller (max_sstable_height c) (q.num_new_buffers / c.level_factor)) 1
      else q.num_new_buffers

  -- The loop that fills the array `new_buffers`.
  pub take_new : ℕ → BufferQueue → Option (List ℕ × BufferQueue)
  take_new zero q = some ([], q)
  take_new (suc rounds) q = do
    (x, q') ← pop_front (max_buffer_set_size c) q
    (xs, q'') ← take_new rounds q'
    some (x ∷ xs, q'')

  -- while (buffer_queue.num_new_buffers): a round for each, as each takes one off the count.
  pub keep_rest : ℕ → SstableInfo → BufferQueue → Option (SstableInfo × BufferQueue)
  keep_rest zero info q = some (info, q)
  keep_rest (suc rounds) info q = do
    (x, q') ← pop_front (max_buffer_set_size c) q
    info' ← keep_buffer info x
    keep_rest rounds info' q'

  -- What is known before the queueing loop. The loop over `num_new_buffers` has a variable of its own
  -- of that name, so the outer one stays 0.
  pub record Taken : Type 0 where
    pub info : SstableInfo
    pub buffer_queue : BufferQueue
    pub new_buffers : List ℕ
    pub num_new_buffers : ℕ
    pub old_limit : ℕ

  pub take_buffers : SstableInfo → BufferQueue → Option Taken
  unfolding take_new keep_rest
  take_buffers info q = do
    (xs, q') ← take_new (new_buffer_limit q) q
    (info', q'') ← keep_rest q'.num_new_buffers info q'
    some (record {
      info = info';
      buffer_queue = q'';
      new_buffers = xs;
      num_new_buffers = 0;
      old_limit = old_buffer_limit q;
    })

  -- try_add_buffers_nonblockingly, with fuel for its loop, whose test is that the pointer at the front is
  -- not null. `insert_buffers_from` stays.
  pub add_while : ℕ → SstableInfo → BufferQueue → Option (SstableInfo × BufferQueue)
  add_while zero info q = none
  add_while (suc fuel) info q = do
    f ← front q
    if f == 0 then some (info, q) else (do
      (x, q') ← pop_front (max_buffer_set_size c) q
      d ← store info.page_cache_buffers info.insert_buffers_from x
      add_while fuel
          (record info { page_cache_buffers = d; cache_helper = add_buffer info.cache_helper }) q')

  pub try_add_buffers_nonblockingly :
      ℕ → Bool → SstableInfo → Guard → BufferQueue → Option (SstableInfo × BufferQueue)
  unfolding add_while
  try_add_buffers_nonblockingly fuel spurious info g q =
      if try_lock spurious g then add_while fuel info q else some (info, q)

-- What the second part keeps of an sstable of the next level: its queue, its guard, whether it has a part
-- of the batch, the proportion of the buffers that it is to get, and its element of `given_buffers`.
pub record Receiver : Type 0 where
  pub queue : BufferQueue
  pub guard : Guard
  pub has_part : Bool
  pub proportion : ℕ
  pub given : Bool

-- The division of two unsigned numbers, before it is made a double.
unfoldable pub proportion_of : ℕ → ℕ → Option ℕ
proportion_of expected_size total_decomp_size =
    if total_decomp_size == 0 then none else some (expected_size / total_decomp_size)

-- The giver and the counts. The array of new buffers is not used, as their number is 0.
pub record Giving : Type 0 where
  pub info : SstableInfo
  pub num_given : ℕ
  pub num_old_buffers_given : ℕ

module _ (c : Config) where
  -- The loop over `j` for the old buffers; `quantity` is what is left of the proportion.
  pub give_old : ℕ → ℕ → Giving → BufferQueue → Option (Giving × BufferQueue)
  give_old zero old_limit g q = some (g, q)
  give_old (suc quantity) old_limit g q =
      let from = sub32 g.info.insert_buffers_from 1 in
      let given = (do
        x ← get_elem? g.info.page_cache_buffers from
        push_back (max_buffer_set_size c) q x) in
      let rest : BufferQueue → Option (Giving × BufferQueue) =
        give_old quantity old_limit (record g {
          info = record g.info { insert_buffers_from = from };
          num_old_buffers_given = add32 g.num_old_buffers_given 1;
        }) in
      if ltb g.num_old_buffers_given old_limit then given >>= rest else some (g, q)

  -- The body of the inner loop for one sstable of the next level.
  pub give_one : Bool → ℕ → Giving → Receiver → Option (Giving × Receiver)
  unfolding give_old
  give_one spurious old_limit g r =
      if r.has_part && (not r.given && try_lock spurious r.guard)
      then (do
        let g' = record g { num_given = add32 g.num_given 1 }
        (g'', q) ←
            if ltb r.queue.cur_num_buffers (max_sstable_height c)
            then give_old (r.proportion * old_limit) old_limit g' r.queue
            else some (g', r.queue)
        some (g'', record r { queue = q; given = true }))
      else some (g, r)

  pub give_pass : (ℕ → Bool) → ℕ → ℕ → Giving → List Receiver → Option (Giving × List Receiver)
  give_pass spurious i old_limit g [] = some (g, [])
  give_pass spurious i old_limit g (r ∷ rs) = do
    (g', r') ← give_one (spurious i) old_limit g r
    (g'', rs') ← give_pass spurious (i + 1) old_limit g' rs
    some (g'', r' ∷ rs')

  -- while (num_given < decomp.num_req_batches), with fuel for each pass.
  pub give_all :
      (ℕ → ℕ → Bool) → ℕ → ℕ → ℕ → Giving → List Receiver → Option (Giving × List Receiver)
  give_all spurious zero num_req_batches old_limit g rs = none
  give_all spurious (suc fuel) num_req_batches old_limit g rs =
      let next = give_pass (spurious fuel) 0 old_limit g rs >>= λ p.
      give_all spurious fuel num_req_batches old_limit p.0 p.1 in
      if ltb g.num_given num_req_batches then next else some (g, rs)

  -- The part behind the queueing loop.
  pub give_buffers :
      (ℕ → ℕ → Bool) → ℕ → ℕ → Taken c → List Receiver → Option (SstableInfo × List Receiver)
  unfolding give_all
  give_buffers spurious fuel num_req_batches t rs =
      if t.old_limit == 0 && t.num_new_buffers == 0 then some (t.info, rs) else (do
        (g, rs') ←
            give_all spurious fuel num_req_batches t.old_limit
              (record { info = t.info; num_given = 0; num_old_buffers_given = 0 }) rs
        if g.num_old_buffers_given == 0 then some (g.info, rs') else (do
          let from = add32 g.info.insert_buffers_from 1
          h ← remove_buffer_range g.info.cache_helper from t.info.insert_buffers_from
          some (record g.info { insert_buffers_from = from; cache_helper = h }, rs')))
