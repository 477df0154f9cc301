-- ===== src/Level/Compactions.antt =====
-- Where a compaction goes.
use ringdb.Prelude.{
  ℕ, zero, suc, ◌+◌, ◌≤◌, ◌<◌, ◌≡◌, ◌≢◌, refl, true, false, some, List, get_elem?, get_or,
  get_elem?-eq-get_or, set, store_lem, length, length-replicate, replicate, ltb, if◌then◌else◌,
  arith, Bool-cases, inl, inr, ℕ_discrete, get_elem?-set_ne,
}
use ringdb.Config.{Config, memtable_size}
use ringdb.Memory.{Memory}
use ringdb.Requests.{ConnectionRequest}
use ringdb.ReadWritePool.{ReadWritePool}
use ringdb.Level.{
  BloomFilter, Decomposition, LevelInfo, empty, skip_filled, insert_keys, rounds_of, choose_table,
  decompose_compaction, blank_decomposition, Heap, RequestBatch, is_read, segment_of, decompose,
}

module _ (c : Config) {F : Type 0} (bloom : BloomFilter F) (unset : ConnectionRequest)
    (unset_pool : ReadWritePool) where
  -- The filters in front of `k` have elements, and the one at `k` has none.
  pub record FirstEmpty (fs : List F) (k : ℕ) : Type 0 where
    pub filled :
        (j : ℕ)
        → j < k
        → (f : F) × (get_elem? fs j ≡ some f) × (empty c bloom unset unset_pool f ≡ false)
    pub free : F
    pub at : get_elem? fs k ≡ some free
    pub is_free : empty c bloom unset unset_pool free ≡ true

  skip_filled-FirstEmpty :
      (left : ℕ) (fs : List F) (k i : ℕ)
      → FirstEmpty fs k
      → i ≤ k
      → k < i + left
      → skip_filled c bloom unset unset_pool left fs i ≡ some (k + 1)
  unfolding skip_filled
  skip_filled-FirstEmpty zero fs k i v h l = absurd (omega arith)
  skip_filled-FirstEmpty (suc left) fs k i v h l = elim (ℕ_discrete i k) [
    | yes e ↦ rw (skip_filled, e, v.at, v.is_free)
    | no ne ↦
        let (f, e, filled) = v.filled i (omega arith) in
        rw (skip_filled, e, filled)
          (skip_filled-FirstEmpty left fs k (i + 1) v (omega arith) (omega arith))
  ]

-- The next table, or the first one behind the last.
abbrev pub table_behind : Config → ℕ → ℕ
table_behind c k = if ltb (k + 1) c.level_factor then k + 1 else 0

-- What becomes of a compaction whose level has its first empty table at `k`.
pub record Placed (c : Config) {F : Type 0} (bloom : BloomFilter F) (unset : ConnectionRequest)
    (unset_pool : ReadWritePool) (l l' : LevelInfo c bloom unset unset_pool) (d : Decomposition)
    (k batch : ℕ) : Type 0 where
  pub elsewhere : table_behind c k ≢ k
  pub placed : get_elem? d.decomposition (table_behind c k) ≡ some batch
  pub sized : get_elem? d.expected_sstable_sizes (table_behind c k) ≡ some (memtable_size c)
  pub not_here : get_elem? d.decomposition k ≡ some 0
  pub one : d.num_req_batches ≡ 1
  pub still_empty : get_elem? l'.filters k ≡ get_elem? l.filters k

module _ (c : Config) {F : Type 0} (bloom : BloomFilter F) (unset : ConnectionRequest)
    (unset_pool : ReadWritePool) (m : Memory) (l : LevelInfo c bloom unset unset_pool)
    (k data_start : ℕ) where
  choose_table-behind :
      length l.filters ≡ c.level_factor
      → k < c.level_factor
      → FirstEmpty c bloom unset unset_pool l.filters k
      → 2 ≤ c.level_factor
      → (fs : List F) × (choose_table c bloom unset unset_pool m l data_start
          ≡ some (table_behind c k, fs))
        × (get_elem? fs k ≡ get_elem? l.filters k)
  unfolding choose_table
  choose_table-behind size h v two =
      let skipped =
        skip_filled-FirstEmpty c bloom unset unset_pool c.level_factor l.filters k 0 v (omega arith)
          (omega arith) in
      elim (Bool-cases (ltb (k + 1) c.level_factor)) [
        | inl t ↦
            let n : k + 1 < c.level_factor = ground arith in
            let f = get_or l.filters (k + 1) v.free in
            let f' =
              insert_keys c bloom unset unset_pool
                (rounds_of c bloom unset unset_pool (memtable_size c)) m f data_start 0 in
            (
              set l.filters (k + 1) f',
              rw (
                skipped,
                t,
                get_elem?-eq-get_or l.filters (k + 1) v.free (omega (arith, size)),
                store_lem l.filters (k + 1) f' (omega (arith, size)),
              ),
              get_elem?-set_ne l.filters {i = k + 1} {j = k} f' (λ e. absurd (omega (arith, e))),
            )
        | inr t ↦ (l.filters, rw (skipped, t), refl)
      ]

  decompose_runs :
      (i : ℕ) (fs : List F)
      → choose_table c bloom unset unset_pool m l data_start ≡ some (i, fs)
      → i < c.level_factor
      → (batch : ℕ)
      → decompose_compaction c bloom unset unset_pool m l batch data_start
        ≡ some (
          record l { filters = fs },
          record {
            decomposition = set (replicate (c.level_factor + 1) 0) i batch;
            expected_sstable_sizes = set (replicate c.level_factor 0) i (memtable_size c);
            num_req_batches = 1;
            total_decomp_size = memtable_size c;
          },
        )
  unfolding decompose_compaction blank_decomposition
  decompose_runs i fs e h batch = rw (
    e,
    store_lem (replicate (c.level_factor + 1) 0) i batch
        (omega (arith, length-replicate {A = ℕ} (c.level_factor + 1) 0)),
    store_lem (replicate c.level_factor 0) i (memtable_size c)
        (omega (arith, length-replicate {A = ℕ} c.level_factor 0)),
  )

-- The parts themselves: the batch for the table behind the first empty one, and no other.
pub decompose_compaction-parts :
    (c : Config) {F : Type 0} (bloom : BloomFilter F) (unset : ConnectionRequest)
    (unset_pool : ReadWritePool) (m : Memory) (l : LevelInfo c bloom unset unset_pool)
    (k batch data_start : ℕ)
    → length l.filters ≡ c.level_factor
    → k < c.level_factor
    → FirstEmpty c bloom unset unset_pool l.filters k
    → 2 ≤ c.level_factor
    → (l' : LevelInfo c bloom unset unset_pool) × (decompose_compaction c bloom unset unset_pool m l
          batch data_start
        ≡ some (
          l',
          record {
            decomposition = set (replicate (c.level_factor + 1) 0) (table_behind c k) batch;
            expected_sstable_sizes =
                set (replicate c.level_factor 0) (table_behind c k) (memtable_size c);
            num_req_batches = 1;
            total_decomp_size = memtable_size c;
          },
        ))
decompose_compaction-parts c bloom unset unset_pool m l k batch data_start size h v two =
    let (fs, run, _) = choose_table-behind c bloom unset unset_pool m l k data_start size h v two in
    (
      record l { filters = fs },
      decompose_runs c bloom unset unset_pool m l k data_start (table_behind c k) fs run
          (ground arith) batch,
    )

-- What decompose does with a batch of compactions.
pub decompose-compaction :
    (c : Config) {F : Type 0} (bloom : BloomFilter F) (unset : ConnectionRequest)
    (unset_pool : ReadWritePool) (m : Memory) (l l' : LevelInfo c bloom unset unset_pool) (h : Heap)
    (batch data_start : ℕ) (b : RequestBatch) (d : Decomposition)
    → h.batches batch ≡ some b
    → is_read b.req_type ≡ false
    → segment_of b ≡ some data_start
    → decompose_compaction c bloom unset unset_pool m l batch data_start ≡ some (l', d)
    → decompose c bloom unset unset_pool m l h batch ≡ some (l', h, d)
unfolding decompose
decompose-compaction c bloom unset unset_pool m l l' h batch data_start b d there r e run =
    rw (there, r, e, run) refl
