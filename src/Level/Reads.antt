-- ===== src/Level/Reads.antt =====
-- Dividing a batch of reads.
use ringdb.Prelude.{
  get_elem?-replicate, ℕ, zero, suc, ◌+◌, ◌-◌, ◌≤◌, ◌<◌, ◌≡◌, ◌≢◌, refl, ap, ◌∙◌, false, Option,
  none, some, List, ◌>>=◌, get_elem?, store, length, replicate, ◌==◌, if◌then◌else◌, arith,
  minus_one, Bool-cases, Option-cases, bind_split, bind_some, if_split, set, store_lem,
  length-replicate, get_elem?-set_ne, ◌⊎◌, inl, inr,
}
use ringdb.Config.{Config}
use ringdb.Memory.{Memory}
use ringdb.Requests.{RequestType, ConnectionRequest, key_of}
use ringdb.SparseIndex.{get_table_min_key, get_table_max_key}
use ringdb.ReadWritePool.{ReadWritePool, find_index_starting_from}
use ringdb.Level.{
  BloomFilter, Heap, RequestBatch, Content, Decomposition, LevelInfo, Dividing, put, insert_into,
  new_batch, set_present, to_table, to_next_level, divide_range, divide_tables, divide_rest,
  decompose_reads, empty, prob_contains_key, blank_decomposition,
}

-- Nothing lies at the null pointer.
pub record HasNull (h : Heap) : Type 0 where
  pub null : h.batches 0 ≡ none
  pub next : 0 < h.next_address

module _ (c : Config) {F : Type 0} (bloom : BloomFilter F) (unset : ConnectionRequest)
    (unset_pool : ReadWritePool) (m : Memory) where
  -- No part has a batch yet.
  record IsFresh (s : Dividing c bloom unset unset_pool) : Type 0 where
    heap : HasNull s.heap
    nulls : s.decomp.decomposition ≡ replicate (c.level_factor + 1) 0

  to_table-none :
      (s : Dividing c bloom unset unset_pool) (i : ℕ) (r : ConnectionRequest)
      → IsFresh s
      → i ≤ c.level_factor
      → to_table c bloom unset unset_pool m s i r ≡ none
  unfolding to_table insert_into
  to_table-none s i r f h =
      let e : get_elem? s.decomp.decomposition i ≡ some 0 =
        rw f.nulls (get_elem?-replicate (c.level_factor + 1) i 0 (omega arith)) in
      rw (e, e, insert_into, f.heap.null)

  null_at :
      (s : Dividing c bloom unset unset_pool) (i : ℕ)
      → IsFresh s
      → i ≤ c.level_factor
      → get_elem? s.decomp.decomposition i ≡ some 0
  null_at s i f h = rw f.nulls (get_elem?-replicate (c.level_factor + 1) i 0 (omega arith))

  -- A null pointer stays one when a batch is made elsewhere.
  set_present-none :
      (h : Heap) (d : Decomposition) (i : ℕ) (b : RequestBatch) (l : List ℕ)
      → HasNull h
      → get_elem? l i ≡ some 0
      → set_present c bloom unset unset_pool
          (record (put h h.next_address b) { next_address = h.next_address + 1 })
          (record d { decomposition = l })
          i
          false
        ≡ none
  unfolding set_present
  set_present-none h d i b l v e =
      let ne : (h.next_address == 0) ≡ false = ground (arith, v.next) in rw (e, ne, v.null)

  to_next_level-none :
      (s : Dividing c bloom unset unset_pool) (i : ℕ) (r : ConnectionRequest)
      → IsFresh s
      → i < c.level_factor
      → to_next_level c bloom unset unset_pool m s i r ≡ none
  unfolding to_next_level new_batch
  to_next_level-none s i r f h =
      let l = set s.decomp.decomposition c.level_factor s.heap.next_address in
      let st : store s.decomp.decomposition c.level_factor s.heap.next_address ≡ some l =
        store_lem s.decomp.decomposition c.level_factor s.heap.next_address
          (omega (arith, ap length f.nulls, length-replicate {A = ℕ} (c.level_factor + 1) 0)) in
      let at_i : get_elem? l i ≡ some 0 =
        get_elem?-set_ne s.decomp.decomposition {i = c.level_factor} {j = i} s.heap.next_address
          (λ e. absurd (omega (arith, e)))
        ∙ null_at s i f (omega arith) in
      let b : RequestBatch = record {
        req_type = RequestType.read;
        content = Content.readwrite_pool unset_pool;
      } in
      rw (
        null_at s c.level_factor f (omega arith),
        st,
        set_present-none s.heap s.decomp i b l f.heap at_i,
      )

  divide_range-none :
      (rounds : ℕ) (filter : F) (i : ℕ) (s : Dividing c bloom unset unset_pool) (j : ℕ)
      → IsFresh s
      → i < c.level_factor
      → (divide_range c bloom unset unset_pool rounds m filter i s j ≡ none)
        ⊎ (divide_range c bloom unset unset_pool rounds m filter i s j ≡ some s)
  unfolding divide_range
  divide_range-none zero filter i s j f h = inr refl
  divide_range-none (suc rounds) filter i s j f h =
      inl (elim (Option-cases (get_elem? s.pool.entries j)) [
        | inl e ↦ rw (e, divide_range)
        | inr (r, e) ↦
            elim (Bool-cases (prob_contains_key c bloom unset unset_pool m filter (key_of r))) [
              | inl t ↦ rw (e, divide_range, t, to_table-none s i r f (omega arith))
              | inr t ↦ rw (e, divide_range, t, to_next_level-none s i r f h)
            ]
      ])

  divide_tables-none :
      (left : ℕ) (l : LevelInfo c bloom unset unset_pool) (s : Dividing c bloom unset unset_pool)
      (i : ℕ)
      → IsFresh s
      → i + left ≤ c.level_factor
      → (divide_tables c bloom unset unset_pool left m l s i ≡ none)
        ⊎ (divide_tables c bloom unset unset_pool left m l s i ≡ some s)
  unfolding divide_tables
  divide_tables-none zero l s i f h = inr refl
  divide_tables-none (suc left) l s i f h =
      let least = find_index_starting_from c m s.pool 0 (get_table_min_key c l.sparse_index i) in
      let most : ℕ → Option ℕ =
        λ a. find_index_starting_from c m s.pool a (get_table_max_key c l.sparse_index i) in
      let range : F → ℕ → ℕ → Option (Dividing c bloom unset unset_pool) =
        λ filter a b. divide_range c bloom unset unset_pool (b - a) m filter i s a in
      let rest : Dividing c bloom unset unset_pool → Option (Dividing c bloom unset unset_pool) =
        λ d. divide_tables c bloom unset unset_pool left m l d (i + 1) in
      bind_split (get_elem? l.filters i)
        (λ filter.
          if empty c bloom unset unset_pool filter
          then some s
          else (least >>= λ a. most a >>= λ b. range filter a b >>= rest))
        (some s)
        (λ filter.
          if_split (empty c bloom unset unset_pool filter) (some s)
            (least >>= λ a. most a >>= λ b. range filter a b >>= rest) (some s) (inr refl)
            (bind_split least (λ a. most a >>= λ b. range filter a b >>= rest) (some s)
              (λ a.
                bind_split (most a) (λ b. range filter a b >>= rest) (some s)
                  (λ b.
                    bind_some (range filter a b) s rest (some s)
                      (divide_range-none (b - a) filter i s a f (omega arith))
                      (divide_tables-none left l s (i + 1) f (omega arith))))))

  -- The last loop stops at the first request if that is still there.
  divide_rest-none :
      (n : ℕ) (s : Dividing c bloom unset unset_pool) (r : ConnectionRequest)
      → IsFresh s
      → 0 < c.level_factor
      → 0 < n
      → get_elem? s.pool.entries 0 ≡ some r
      → r.client_sock_fd ≢ minus_one
      → divide_rest c bloom unset unset_pool n m s 0 ≡ none
  unfolding divide_rest
  divide_rest-none zero s r f pos h e ne = absurd (omega arith)
  divide_rest-none (suc n) s r f pos h e ne =
      let t : (r.client_sock_fd == minus_one) ≡ false = ground arith in
      rw (divide_rest, e, t, to_next_level-none s 0 r f pos)

-- Once a batch of reads comes to a level of sstables whose first request is not removed, dividing it
-- reads through a null pointer, whatever the filters and the sparse index hold.
decompose_reads-none :
    (c : Config) {F : Type 0} (bloom : BloomFilter F) (unset : ConnectionRequest)
    (unset_pool : ReadWritePool) (m : Memory) (l : LevelInfo c bloom unset unset_pool) (h : Heap)
    (pool : ReadWritePool) (r : ConnectionRequest)
    → HasNull h
    → 0 < c.level_factor
    → 0 < pool.count
    → get_elem? pool.entries 0 ≡ some r
    → r.client_sock_fd ≢ minus_one
    → decompose_reads c bloom unset unset_pool m l h pool ≡ none
unfolding decompose_reads blank_decomposition
decompose_reads-none c bloom unset unset_pool m l h pool r v pos some_request e ne =
    let s : Dividing c bloom unset unset_pool = record {
      heap = h;
      decomp = blank_decomposition c bloom unset unset_pool pool.count;
      pool = pool;
    } in
    let f : IsFresh c bloom unset unset_pool m s = record { heap = v; nulls = refl } in
    elim (divide_tables-none c bloom unset unset_pool m c.level_factor l s 0 f (omega arith)) [
      | inl none_left ↦ rw none_left
      | inr divided ↦ rw (
        divided,
        divide_rest-none c bloom unset unset_pool m pool.count s r f pos some_request e ne,
      )
    ]
