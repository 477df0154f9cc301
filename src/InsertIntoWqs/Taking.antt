-- ===== src/InsertIntoWqs/Taking.antt =====
-- A batch that an sstable without new buffers passes on.
use ringdb.Prelude.{
  ℕ, suc, ◌≤◌, ◌<◌, ◌≡◌, refl, Bool, true, none, some, List, length, ◌>>=◌, Option, ◌^◌,
}
use ringdb.Config.{Config}
use ringdb.Memory.{Memory}
use ringdb.Requests.{ConnectionRequest}
use ringdb.ReadWritePool.{ReadWritePool}
use ringdb.Level.{BloomFilter}
use ringdb.Handover.{take_buffers}
use ringdb.Handover.Takes.{take_buffers-none}
use ringdb.Worker.Spins.{spin_single}
use ringdb.InsertIntoWqs.{Giver, Target, divide, proportions_of, take_from, insert_from_sstable}

bind_none {ℓ κ} :
    {A : Type ℓ} {B : Type κ} (o : Option A) (f : A → Option B)
    → ((a : A) → f a ≡ none)
    → (o >>= f) ≡ none
bind_none none f k = refl
bind_none (some a) f k = k a

module _ (c : Config) {F : Type 0} (bloom : BloomFilter F) (unset : ConnectionRequest)
    (unset_pool : ReadWritePool) (fuel : ℕ) (spurious : ℕ → Bool) (spurious_in : ℕ → ℕ → Bool) where
  take_none :
      (g : Giver) (my_zero : ℕ)
      → g.guard.is_single_thread ≡ true
      → take_buffers c g.info g.buffer_queue ≡ none
      → take_from c bloom unset unset_pool (suc fuel) spurious spurious_in g my_zero ≡ none
  unfolding take_from
  take_none g my_zero s e = rw (spin_single fuel spurious g.guard my_zero s, e)

  -- An sstable without new buffers cannot pass a batch on, whatever the batch and the level are: insert_into_wqs
  -- has no result, as it writes past the end of the sstable's array of page cache buffers if nothing fails
  -- before. The buffer queue of the sstable is used by one thread, and the array has fewer than 2^31 places.
  pub insert_from_sstable-none :
      (m : Memory) (t : Target c bloom unset unset_pool (suc fuel) spurious spurious_in) (g : Giver)
      (batch : ℕ) (us : List Bool)
      → g.guard.is_single_thread ≡ true
      → g.buffer_queue.num_new_buffers ≡ 0
      → length g.info.page_cache_buffers < 2 ^ 31
      → g.info.insert_buffers_from ≤ length g.info.page_cache_buffers
      → insert_from_sstable c bloom unset unset_pool (suc fuel) spurious spurious_in m t g batch us
        ≡ none
  unfolding insert_from_sstable
  insert_from_sstable-none m t g batch us s e small le =
      let empty_handed = take_buffers-none c g.info g.buffer_queue e small le in
      bind_none (divide c bloom unset unset_pool (suc fuel) spurious spurious_in m t batch) _
        (λ (t', d, freed).
          bind_none (proportions_of d.total_decomp_size d.expected_sstable_sizes) _
            (λ ps. rw (take_none g freed.my_zero s empty_handed)))
