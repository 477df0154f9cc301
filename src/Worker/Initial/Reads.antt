-- ===== src/Worker/Initial/Reads.antt =====
-- What the two first reads of an sstable's file leave.
use ringdb.Prelude.{
  ℕ, zero, suc, ◌+◌, ◌/◌, ◌%◌, ◌^◌, ◌≤◌, ◌<◌, ◌≡◌, ◌⊎◌, inl, inr, refl, ap, ◌∙◌, true, some, List,
  [], ◌∷◌, ◌++◌, length, get_or, get_elem?-eq-get_or, Bool-cases, ltb, arith, add32, is_positive,
  if◌then◌else◌, ◌==◌,
}
use ringdb.Config.{Config, entry_length}
use ringdb.Memory.{memcpy, memcpy_outside}
use ringdb.Requests.{ConnectionRequest}
use ringdb.ReadWritePool.{ReadWritePool}
use ringdb.SparseIndex.{SparseIndex, insert_range, get_table_min_key, get_table_max_key}
use ringdb.Level.{BloomFilter}
use ringdb.Traverse.{entry_at}
use ringdb.Traverse
use ringdb.Worker.{Call}
use ringdb.Worker.Initial.{
  Initial, fit_entry, fit_entries, take_bytes, finish, schedule_initialization_read, on_read,
  on_completion,
}

module _ (c : Config) {F : Type 0} (bloom : BloomFilter F) (unset : ConnectionRequest)
    (unset_pool : ReadWritePool) (sparse_index : SparseIndex)
    (buffer_size tombstone_value sstable_num index_in_level : ℕ) where
  -- A count after a completed read: one more if the read ended short, which is the end of the file.
  abbrev pub counted : ℕ → ℕ → ℕ
  counted res n = if ltb res buffer_size then add32 n 1 else n

  -- A byte that is not one of a run of `n`.
  abbrev pub Elsewhere : ℕ → ℕ → ℕ → Type 0
  Elsewhere start n p = (p < start) ⊎ (start + n ≤ p)

  -- A byte that is neither of the two keys of the sstable's table in the sparse index, nor of the key of entry
  -- i of one of the two buffers.
  pub record Free (buffers : List ℕ) (i p : ℕ) : Type 0 where
    pub first : Elsewhere (entry_at c (get_or buffers 0 0) i) c.key_length p
    pub second : Elsewhere (entry_at c (get_or buffers 1 0) i) c.key_length p
    pub least : Elsewhere (get_table_min_key c sparse_index index_in_level) c.key_length p
    pub largest : Elsewhere (get_table_max_key c sparse_index index_in_level) c.key_length p

  -- The byte at `p`, what is kept of the sstable and the counts are the same.
  record Unchanged (p : ℕ) (s s' : Initial F) : Type 0 where
    byte : s'.memory p ≡ s.memory p
    info : s'.info ≡ s.info
    all : s'.num_read ≡ s.num_read
    own : s'.num_initialized_read ≡ s.num_initialized_read

  fit_entry-Unchanged :
      (buffer i p : ℕ) (s : Initial F)
      → Elsewhere (entry_at c buffer i) c.key_length p
      → Unchanged p s (
          fit_entry c bloom unset unset_pool sparse_index buffer_size tombstone_value sstable_num
            index_in_level buffer i s)
  unfolding fit_entry
  fit_entry-Unchanged buffer i p s o =
      let key = entry_at c buffer i in
      let m = memcpy s.memory key s.info.min_key c.key_length in
      let low : m p ≡ s.memory p = memcpy_outside s.memory key s.info.min_key c.key_length p o in
      let high : memcpy s.memory key s.info.max_key c.key_length p ≡ s.memory p =
        memcpy_outside s.memory key s.info.max_key c.key_length p o in
      let both : memcpy m key s.info.max_key c.key_length p ≡ m p =
        memcpy_outside m key s.info.max_key c.key_length p o in
      record {
        byte = ground (arith, low, high, both);
        info = ground arith;
        all = ground arith;
        own = ground arith;
      }

  fit_entries-Unchanged :
      (rounds buffer i p : ℕ) (s : Initial F)
      → Elsewhere (entry_at c buffer i) c.key_length p
      → Unchanged p s (
          fit_entries c bloom unset unset_pool sparse_index buffer_size tombstone_value sstable_num
            index_in_level rounds buffer i s)
  unfolding fit_entries
  fit_entries-Unchanged zero buffer i p s o = record {
    byte = refl;
    info = refl;
    all = refl;
    own = refl;
  }
  fit_entries-Unchanged (suc rounds) buffer i p s o =
      let one = fit_entry-Unchanged buffer i p s o in
      let rest =
        fit_entries-Unchanged rounds buffer i p
          (fit_entry c bloom unset unset_pool sparse_index buffer_size tombstone_value sstable_num
            index_in_level buffer i s)
          o in
      record {
        byte = rest.byte ∙ one.byte;
        info = rest.info ∙ one.info;
        all = rest.all ∙ one.all;
        own = rest.own ∙ one.own;
      }

  -- What one completed read does to the byte at `p` and to the counts.
  record Counted (p res : ℕ) (s s' : Initial F) : Type 0 where
    byte : s'.memory p ≡ s.memory p
    buffers : s'.info.page_cache_buffers ≡ s.info.page_cache_buffers
    least : s'.info.min_key ≡ s.info.min_key
    largest : s'.info.max_key ≡ s.info.max_key
    all : s'.num_read ≡ counted res s.num_read
    own : s'.num_initialized_read ≡ counted res s.num_initialized_read

  taken : ℕ → ℕ → ℕ → Initial F → Initial F
  taken buffer i res s =
      if is_positive res
      then take_bytes c bloom unset unset_pool sparse_index buffer_size tombstone_value sstable_num
          index_in_level buffer i res s
      else s

  taken-Unchanged :
      (buffer i res p : ℕ) (s : Initial F)
      → Elsewhere (entry_at c buffer i) c.key_length p
      → ((taken buffer i res s).memory p ≡ s.memory p)
        × ((taken buffer i res s).info.page_cache_buffers ≡ s.info.page_cache_buffers)
        × ((taken buffer i res s).info.min_key ≡ s.info.min_key)
        × ((taken buffer i res s).info.max_key ≡ s.info.max_key)
        × ((taken buffer i res s).num_read ≡ s.num_read)
        × ((taken buffer i res s).num_initialized_read ≡ s.num_initialized_read)
  unfolding taken take_bytes
  taken-Unchanged buffer i res p s o = elim (Bool-cases (is_positive res)) [
    | inl yes_read ↦
        let start : Initial F = record s {
          info = record s.info {
            desired_sstable_offset = (s.info.desired_sstable_offset + res) % 2 ^ 64;
            is_flushed_to = true;
          };
        } in
        let u = fit_entries-Unchanged (res / entry_length c) buffer i p start o in
        rw yes_read (
          u.byte,
          ap (λ x. x.page_cache_buffers) u.info,
          ap (λ x. x.min_key) u.info,
          ap (λ x. x.max_key) u.info,
          u.all,
          u.own,
        )
    | inr nothing ↦ rw nothing (refl, refl, refl, refl, refl, refl)
  ]

  finish-byte :
      (p : ℕ) (s : Initial F)
      → Elsewhere (get_table_min_key c sparse_index index_in_level) c.key_length p
      → Elsewhere (get_table_max_key c sparse_index index_in_level) c.key_length p
      → (finish c bloom unset unset_pool sparse_index buffer_size tombstone_value sstable_num
            index_in_level s).memory
          p
        ≡ s.memory p
  unfolding finish insert_range
  finish-byte p s o o' =
      memcpy_outside
        (memcpy s.memory (get_table_min_key c sparse_index index_in_level) s.info.min_key
          c.key_length)
        (get_table_max_key c sparse_index index_in_level) s.info.max_key c.key_length p o'
      ∙ memcpy_outside s.memory (get_table_min_key c sparse_index index_in_level) s.info.min_key
          c.key_length p o

  schedule_lem :
      (s : Initial F)
      → 2 ≤ length s.info.page_cache_buffers
      → (s' : Initial F) × (schedule_initialization_read c bloom unset unset_pool sparse_index
            buffer_size tombstone_value sstable_num index_in_level s
          ≡ some s')
        × (s'.memory ≡ s.memory)
        × (s'.info ≡ s.info)
        × (s'.num_read ≡ s.num_read)
        × (s'.num_initialized_read ≡ s.num_initialized_read)
  unfolding schedule_initialization_read
  schedule_lem s h =
      let first = get_elem?-eq-get_or s.info.page_cache_buffers 0 0 (omega arith) in
      let second = get_elem?-eq-get_or s.info.page_cache_buffers 1 0 (omega arith) in
      let offset = s.info.desired_sstable_offset in
      let buffers = s.info.page_cache_buffers in
      (
        record s {
          calls =
              s.calls
              ++ Call.reading
                  (Traverse.Call.prep_read sstable_num (get_or buffers 0 0) buffer_size offset)
                ∷ Call.reading (
                    Traverse.Call.prep_read sstable_num (get_or buffers 1 0) buffer_size
                      ((offset + buffer_size) % 2 ^ 64))
                ∷ Call.prep_msg_to_scheduler sstable_num
                ∷ Call.submit
                ∷ [];
        },
        rw (first, second),
        refl,
        refl,
        refl,
        refl,
      )

  on_read_runs :
      (i j res : ℕ) (s : Initial F)
      → j < length s.info.page_cache_buffers
      → on_read c bloom unset unset_pool sparse_index buffer_size tombstone_value sstable_num
          index_in_level i j res s
        ≡ (if ltb res buffer_size
            then some (
                finish c bloom unset unset_pool sparse_index buffer_size tombstone_value sstable_num
                  index_in_level
                  (taken (get_or s.info.page_cache_buffers j 0) i res s))
            else if j == 1
            then schedule_initialization_read c bloom unset unset_pool sparse_index buffer_size
                tombstone_value sstable_num index_in_level
                (taken (get_or s.info.page_cache_buffers j 0) i res s)
            else some (taken (get_or s.info.page_cache_buffers j 0) i res s))
  unfolding on_read taken
  on_read_runs i j res s h = ground (arith, get_elem?-eq-get_or s.info.page_cache_buffers j 0 h)

  on_read-Counted :
      (i j res p : ℕ) (s : Initial F)
      → j < 2
      → 2 ≤ length s.info.page_cache_buffers
      → Elsewhere (entry_at c (get_or s.info.page_cache_buffers j 0) i) c.key_length p
      → Elsewhere (get_table_min_key c sparse_index index_in_level) c.key_length p
      → Elsewhere (get_table_max_key c sparse_index index_in_level) c.key_length p
      → (s' : Initial F) × (on_read c bloom unset unset_pool sparse_index buffer_size
            tombstone_value sstable_num index_in_level i j res s
          ≡ some s')
        × Counted p res s s'
  unfolding finish
  on_read-Counted i j res p s two h o o' o'' =
      let t = taken (get_or s.info.page_cache_buffers j 0) i res s in
      let (byte, buffers, least, largest, all, own) =
        taken-Unchanged (get_or s.info.page_cache_buffers j 0) i res p s o in
      let run = on_read_runs i j res s (omega arith) in
      elim (Bool-cases (ltb res buffer_size)) [
        | inl ended ↦ (
          finish c bloom unset unset_pool sparse_index buffer_size tombstone_value sstable_num
              index_in_level t,
          run ∙ rw ended refl,
          record {
            byte = finish-byte p t o' o'' ∙ byte;
            buffers = buffers;
            least = least;
            largest = largest;
            all = rw ended (ap (λ n. add32 n 1) all);
            own = rw ended (ap (λ n. add32 n 1) own);
          },
        )
        | inr more ↦ elim (Bool-cases (j == 1)) [
          | inl again ↦
              let (s', run', memory, info, all', own') = schedule_lem t (rw buffers h) in
              (
                s',
                run ∙ rw (more, again) run',
                record {
                  byte = ap (λ (m : ℕ → ℕ). m p) memory ∙ byte;
                  buffers = ap (λ x. x.page_cache_buffers) info ∙ buffers;
                  least = ap (λ x. x.min_key) info ∙ least;
                  largest = ap (λ x. x.max_key) info ∙ largest;
                  all = rw more (all' ∙ all);
                  own = rw more (own' ∙ own);
                },
              )
          | inr first ↦ (
            t,
            run ∙ rw (more, first) refl,
            record {
              byte = byte;
              buffers = buffers;
              least = least;
              largest = largest;
              all = rw more all;
              own = rw more own;
            },
          )
        ]
      ]

  both_run :
      (i first second fd : ℕ) (s s' s'' : Initial F)
      → on_read c bloom unset unset_pool sparse_index buffer_size tombstone_value sstable_num
          index_in_level i 0 first s
        ≡ some s'
      → on_read c bloom unset unset_pool sparse_index buffer_size tombstone_value sstable_num
          index_in_level i 1 second s'
        ≡ some s''
      → on_completion c bloom unset unset_pool sparse_index buffer_size tombstone_value sstable_num
          index_in_level i
          (first ∷ second ∷ [])
          fd
          s
        ≡ some s''
  unfolding on_completion
  both_run i first second fd s s' s'' r r' = rw r r'

  -- The two reads of a file, into the first two buffers, have ended. Whatever they read, the thread goes on; of all bytes it changes no
  -- other than those of the key of one entry in each buffer and of the sstable's table in the sparse
  -- index, so that the least and the largest key, where they lie elsewhere, stay what they were; and
  -- each of the two reads that ended short counts as an sstable that was read, for the thread and for
  -- the program: two where both did.
  pub on_completion-Free :
      (i first second fd p : ℕ) (s : Initial F)
      → 2 ≤ length s.info.page_cache_buffers
      → Free s.info.page_cache_buffers i p
      → (s' : Initial F) × (on_completion c bloom unset unset_pool sparse_index buffer_size
            tombstone_value sstable_num index_in_level i
            (first ∷ second ∷ [])
            fd
            s
          ≡ some s')
        × (s'.memory p ≡ s.memory p)
        × (s'.info.min_key ≡ s.info.min_key)
        × (s'.info.max_key ≡ s.info.max_key)
        × (s'.num_read ≡ counted second (counted first s.num_read))
        × (s'.num_initialized_read ≡ counted second (counted first s.num_initialized_read))
  on_completion-Free i first second fd p s h free =
      let (s', run, k) =
        on_read-Counted i 0 first p s (omega arith) h free.first free.least free.largest in
      let (s'', run', k') =
        on_read-Counted i 1 second p s' (omega arith) (rw k.buffers h) (rw k.buffers free.second)
          free.least free.largest in
      (
        s'',
        both_run i first second fd s s' s'' run run',
        k'.byte ∙ k.byte,
        k'.least ∙ k.least,
        k'.largest ∙ k.largest,
        k'.all ∙ ap (counted second) k.all,
        k'.own ∙ ap (counted second) k.own,
      )
