-- ===== src/Worker/Initial.antt =====
-- What a worker thread does with the completions of its first loop (lsm_tree.hpp): a file was opened, or the
-- two reads of an sstable's file have ended.
pub mod Reads
use ringdb.Prelude.{
  ℕ, zero, suc, ◌+◌, ◌-◌, ◌*◌, ◌/◌, ◌%◌, ◌^◌, ◌≡◌, Bool, true, false, Option, none, some, List, [],
  ◌∷◌, ◌++◌, ◌>>=◌, get_elem?, ltb, ◌==◌, not, if◌then◌else◌, add32, is_positive,
}
use ringdb.Config.{Config, entry_length}
use ringdb.Memory.{Memory, memcmp, memcpy, is_lt, is_gt, is_eq}
use ringdb.Requests.{ConnectionRequest}
use ringdb.ReadWritePool.{ReadWritePool}
use ringdb.SparseIndex.{SparseIndex, insert_range}
use ringdb.Level.{BloomFilter, insert_key}
use ringdb.SstableInfo.{SstableInfo}
use ringdb.Traverse.{entry_at}
use ringdb.Traverse
use ringdb.Worker.{Call}

-- Memory, the sstable's filter, what is kept of the sstable, the number of sstables that were read, that of
-- the whole program and that of this thread, and the calls made.
pub record Initial (F : Type 0) : Type 0 where
  pub memory : Memory
  pub filter : F
  pub info : SstableInfo
  pub num_read : ℕ
  pub num_initialized_read : ℕ
  pub calls : List Call

module _ (c : Config) {F : Type 0} (bloom : BloomFilter F) (unset : ConnectionRequest)
    (unset_pool : ReadWritePool) (sparse_index : SparseIndex)
    (buffer_size tombstone_value sstable_num index_in_level : ℕ) where
  -- schedule_initialization_read
  pub schedule_initialization_read : Initial F → Option (Initial F)
  schedule_initialization_read s = do
    first ← get_elem? s.info.page_cache_buffers 0
    second ← get_elem? s.info.page_cache_buffers 1
    let offset = s.info.desired_sstable_offset
    some (record s {
      calls =
          s.calls
          ++ Call.reading (Traverse.Call.prep_read sstable_num first buffer_size offset)
            ∷ Call.reading (
                Traverse.Call.prep_read sstable_num second buffer_size
                  ((offset + buffer_size) % 2 ^ 64))
            ∷ Call.prep_msg_to_scheduler sstable_num
            ∷ Call.submit
            ∷ [];
    })

  -- The body of the loop over the entries of a buffer, which takes the entry at the number `i` of the
  -- thread's loop over its sstables. The first argument of memcpy is the destination.
  pub fit_entry : ℕ → ℕ → Initial F → Initial F
  fit_entry buffer i s =
      let key = entry_at c buffer i in
      let below = is_lt (memcmp s.memory key s.info.min_key c.key_length) in
      let above = is_gt (memcmp s.memory key s.info.max_key c.key_length) in
      let m = if below then memcpy s.memory key s.info.min_key c.key_length else s.memory in
      let m' = if above then memcpy m key s.info.max_key c.key_length else m in
      if is_eq (memcmp s.memory (key + c.key_length) tombstone_value c.value_length)
      then s
      else record s { memory = m'; filter = insert_key c bloom unset unset_pool m' s.filter key }

  -- for (k = 0; k < num_entries; ++k), with the number of rounds.
  pub fit_entries : ℕ → ℕ → ℕ → Initial F → Initial F
  fit_entries zero buffer i s = s
  fit_entries (suc rounds) buffer i s = fit_entries rounds buffer i (fit_entry buffer i s)

  -- Bytes were read.
  pub take_bytes : ℕ → ℕ → ℕ → Initial F → Initial F
  unfolding fit_entries fit_entry
  take_bytes buffer i res s = fit_entries (res / entry_length c) buffer i (record s {
    info = record s.info {
      desired_sstable_offset = (s.info.desired_sstable_offset + res) % 2 ^ 64;
      is_flushed_to = true;
    };
  })

  -- The file has ended.
  pub finish : Initial F → Initial F
  finish s = record s {
    memory = insert_range c sparse_index s.memory s.info.min_key s.info.max_key index_in_level;
    info = record s.info { desired_sstable_offset = 2 ^ 64 - 1; waiting_on_io = false };
    num_read = add32 s.num_read 1;
    num_initialized_read = add32 s.num_initialized_read 1;
  }

  -- The body of the loop over the two completions. `res` is an int that is compared as an unsigned one.
  pub on_read : ℕ → ℕ → ℕ → Initial F → Option (Initial F)
  unfolding take_bytes finish schedule_initialization_read
  on_read i j res s = do
    s' ←
        if is_positive res
        then (do buffer ← get_elem? s.info.page_cache_buffers j; some (take_bytes buffer i res s))
        else some s
    if ltb res buffer_size
        then some (finish s')
        else if j == 1
        then schedule_initialization_read s'
        else some s'

  -- What the sstable's ring holds when the thread is told of it.
  pub on_completion : ℕ → List ℕ → ℕ → Initial F → Option (Initial F)
  unfolding on_read schedule_initialization_read
  on_completion i (first ∷ second ∷ []) fd s = do s' ← on_read i 0 first s; on_read i 1 second s'
  on_completion i other fd s = schedule_initialization_read (record s {
    info = record s.info { desired_sstable_offset = 0 };
    calls = s.calls ++ (Call.register_file sstable_num fd ∷ []);
  })
