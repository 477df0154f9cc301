-- ===== src/Handover/Takes.antt =====
-- What take_buffers does with the new buffers of an sstable.
use ringdb.Prelude.{
  ℕ, zero, suc, ◌+◌, ◌%◌, ◌^◌, ◌≤◌, ◌<◌, ◌≡◌, refl, sym, ap, ◌∙◌, none, some, List, [], ◌∷◌, ◌++◌,
  length, take, get_elem?, set, store_lem, length-set, store-none, arith, add32, sub32,
  Option-cases, dec_lt, inl, inr,
}
use native.Mathlib.Nat.{zero-div}
use ringdb.Config.{Config, max_buffer_set_size}
use ringdb.BufferQueue.{BufferQueue, pop_front}
use ringdb.BufferQueue.Fifo.{IsValid, contents, pop_front-contents}
use ringdb.CacheHelper.{add_buffer}
use ringdb.SstableInfo.{SstableInfo}
use ringdb.Handover.{
  Taken, take_buffers, take_new, keep_rest, keep_buffer, new_buffer_limit, old_buffer_limit,
}

module _ (c : Config) where
  take_new-suc :
      (n : ℕ) (q q' q'' : BufferQueue) (x : ℕ) (xs : List ℕ)
      → pop_front (max_buffer_set_size c) q ≡ some (x, q')
      → take_new c n q' ≡ some (xs, q'')
      → take_new c (suc n) q ≡ some (x ∷ xs, q'')
  unfolding take_new
  take_new-suc n q q' q'' x xs r k = rw (take_new, r, k)

  -- Pops of at most the new buffers give the pointers in front, in order.
  pub take_new-contents :
      (n : ℕ) (q : BufferQueue)
      → IsValid (max_buffer_set_size c) q
      → n ≤ q.num_new_buffers
      → (q' : BufferQueue) × (take_new c n q
          ≡ some (take n (contents (max_buffer_set_size c) q), q'))
        × IsValid (max_buffer_set_size c) q'
        × (q'.num_new_buffers + n ≡ q.num_new_buffers)
        × (contents (max_buffer_set_size c) q
            ≡ take n (contents (max_buffer_set_size c) q) ++ contents (max_buffer_set_size c) q')
  unfolding take_new
  take_new-contents zero q v e = (q, refl, v, omega arith, refl)
  take_new-contents (suc n) q v e =
      let (x, q', run, v', held, count) =
        pop_front-contents (max_buffer_set_size c) q v (omega arith) in
      let (q'', run', v'', left, rest) = take_new-contents n q' v' (omega (arith, count)) in
      (
        q'',
        take_new-suc n q q' q'' x (take n (contents (max_buffer_set_size c) q')) run run'
            ∙ ap (λ l. some (take (suc n) l, q'')) (sym held),
        v'',
        omega (arith, left, count),
        held
            ∙ ap (◌∷◌ x) rest
            ∙ ap (λ l. take (suc n) l ++ contents (max_buffer_set_size c) q'') (sym held),
      )

  take_runs :
      (info : SstableInfo) (q q' q'' : BufferQueue) (xs : List ℕ) (n : ℕ) (info' : SstableInfo)
      → new_buffer_limit c q ≡ n
      → take_new c n q ≡ some (xs, q')
      → keep_rest c q'.num_new_buffers info q' ≡ some (info', q'')
      → take_buffers c info q
        ≡ some (record {
          info = info';
          buffer_queue = q'';
          new_buffers = xs;
          num_new_buffers = 0;
          old_limit = old_buffer_limit c q;
        })
  unfolding take_buffers
  take_runs info q q' q'' xs n info' e r r' = rw (e, r, r')

  take_faults :
      (info : SstableInfo) (q q' : BufferQueue) (xs : List ℕ) (n : ℕ)
      → new_buffer_limit c q ≡ n
      → take_new c n q ≡ some (xs, q')
      → keep_rest c q'.num_new_buffers info q' ≡ none
      → take_buffers c info q ≡ none
  unfolding take_buffers
  take_faults info q q' xs n e r r' = rw (e, r, r')

  abbrev kept : SstableInfo → ℕ → SstableInfo
  kept info x = record info {
    page_cache_buffers = set info.page_cache_buffers info.insert_buffers_from x;
    insert_buffers_from = add32 info.insert_buffers_from 1;
    cache_helper = add_buffer info.cache_helper;
  }

  keep_rest-suc :
      (rounds : ℕ) (info : SstableInfo) (q q' : BufferQueue) (x : ℕ)
      → pop_front (max_buffer_set_size c) q ≡ some (x, q')
      → info.insert_buffers_from < length info.page_cache_buffers
      → keep_rest c (suc rounds) info q ≡ keep_rest c rounds (kept info x) q'
  unfolding keep_rest keep_buffer
  keep_rest-suc rounds info q q' x e l =
      rw (keep_rest, e, keep_buffer, store_lem info.page_cache_buffers info.insert_buffers_from x l)

  -- After more buffers than there is room for, the sstable's array is written past its end.
  keep_rest-none :
      (rounds : ℕ) (info : SstableInfo) (q : BufferQueue)
      → length info.page_cache_buffers < info.insert_buffers_from + rounds
      → length info.page_cache_buffers < 2 ^ 31
      → info.insert_buffers_from ≤ length info.page_cache_buffers
      → keep_rest c rounds info q ≡ none
  unfolding keep_rest keep_buffer
  keep_rest-none zero info q h small le = absurd (omega arith)
  keep_rest-none (suc rounds) info q h small le =
      elim (Option-cases (pop_front (max_buffer_set_size c) q)) [
        | inl e ↦ rw (keep_rest, e)
        | inr ((x, q'), e) ↦
            elim (dec_lt info.insert_buffers_from (length info.page_cache_buffers)) [
              | yes l ↦
                  let size = length-set info.page_cache_buffers info.insert_buffers_from x in
                  keep_rest-suc rounds info q q' x e l
                  ∙ keep_rest-none rounds (kept info x) q' (omega (arith, size))
                      (omega (arith, size)) (omega (arith, size))
              | no full ↦ rw (
                keep_rest,
                e,
                keep_buffer,
                store-none info.page_cache_buffers info.insert_buffers_from x (omega arith),
              )
            ]
      ]

-- When an sstable has new buffers, all of them end in the local array of new buffers, in order, while the
-- count that goes with the array stays 0, so that no later loop hands them on; the sstable itself
-- gets none of them, and its queue is left without any.
take_buffers-lost :
    (c : Config) (info : SstableInfo) (q : BufferQueue)
    → IsValid (max_buffer_set_size c) q
    → 0 < q.num_new_buffers
    → (t : Taken c) × (take_buffers c info q ≡ some t)
      × (t.new_buffers ≡ take q.num_new_buffers (contents (max_buffer_set_size c) q))
      × (t.num_new_buffers ≡ 0)
      × (t.info ≡ info)
      × (t.buffer_queue.num_new_buffers ≡ 0)
unfolding new_buffer_limit keep_rest
take_buffers-lost c info q v pos =
    let n = q.num_new_buffers in
    let (q', run, _, left, _) = take_new-contents c n q v (omega arith) in
    let empty : q'.num_new_buffers ≡ 0 = omega (arith, left) in
    let limit : new_buffer_limit c q ≡ n = ground arith in
    let rest : keep_rest c q'.num_new_buffers info q' ≡ some (info, q') =
      ap (λ k. keep_rest c k info q') empty in
    (
      record {
        info = info;
        buffer_queue = q';
        new_buffers = take n (contents (max_buffer_set_size c) q);
        num_new_buffers = 0;
        old_limit = old_buffer_limit c q;
      },
      take_runs c info q q' q' (take n (contents (max_buffer_set_size c) q)) n info limit run rest,
      refl,
      refl,
      refl,
      empty,
    )

module _ (c : Config) (info : SstableInfo) (q : BufferQueue) (e : q.num_new_buffers ≡ 0)
    (small : length info.page_cache_buffers < 2 ^ 31)
    (le : info.insert_buffers_from ≤ length info.page_cache_buffers) where
  limit_one : new_buffer_limit c q ≡ 1
  unfolding new_buffer_limit
  limit_one = rw (e, zero-div c.level_factor) (ground arith)

  -- The queue after one pop too many.
  popped : BufferQueue
  popped = record q {
    queue_front = add32 q.queue_front 1 % max_buffer_set_size c;
    cur_num_buffers = sub32 q.cur_num_buffers 1;
    num_new_buffers = sub32 q.num_new_buffers 1;
  }

  pop_runs :
      (x : ℕ) → get_elem? q.queue q.queue_front ≡ some x → take_new c 1 q ≡ some (x ∷ [], popped)
  unfolding take_new pop_front popped
  pop_runs x f = rw f

  pop_faults : get_elem? q.queue q.queue_front ≡ none → take_new c 1 q ≡ none
  unfolding take_new pop_front
  pop_faults f = rw f

  wrapped : length info.page_cache_buffers < info.insert_buffers_from + popped.num_new_buffers
  unfolding popped
  wrapped = omega (arith, e, small)

  no_buffers : take_buffers c info q ≡ none
  unfolding take_buffers
  no_buffers = elim (Option-cases (get_elem? q.queue q.queue_front)) [
    | inl f ↦ rw (limit_one, pop_faults f)
    | inr (x, f) ↦
        take_faults c info q popped (x ∷ []) 1 limit_one (pop_runs x f)
          (keep_rest-none c popped.num_new_buffers info popped wrapped small le)
  ]

-- When an sstable has no new buffers, one is taken all the same: the count of new buffers wraps, and the
-- loop over the others writes past the end of the sstable's array.
pub take_buffers-none :
    (c : Config) (info : SstableInfo) (q : BufferQueue)
    → q.num_new_buffers ≡ 0
    → length info.page_cache_buffers < 2 ^ 31
    → info.insert_buffers_from ≤ length info.page_cache_buffers
    → take_buffers c info q ≡ none
take_buffers-none c info q e small le = no_buffers c info q e small le
