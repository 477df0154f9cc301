-- ===== src/MainLoop/FirstWrite.antt =====
-- Writes to a database without entries.
use ringdb.Prelude.{
  ℕ, ◌+◌, ◌^◌, ◌<◌, ◌≡◌, ◌≢◌, sym, ◌∙◌, true, false, none, some, length, get_elem?, get_elem?-none,
  Ordering, minus_one, arith,
}
use ringdb.Config.{Config}
use ringdb.Memory.{memcmp, memcpy, is_eq, memcmp-swap, memcmp_zeros, memcpy_outside, Apart}
use ringdb.Requests.{RequestType, ConnectionRequest, key_of}
use ringdb.SparseIndex.{SparseIndex, TableNum, get_table_num, is_null}
use ringdb.SparseIndex.Tables.{get_table_num-free}
use ringdb.ReadWritePool.{ReadWritePool}
use ringdb.MainLoop.{Main, serve, serve_with, serve_write}

module _ (c : Config) (unset : ConnectionRequest) (index : SparseIndex) (null_key ref : ℕ)
    (after_sent : ReadWritePool → ReadWritePool) where
  serve_runs :
      (s : Main) (pool : ReadWritePool) (i : ℕ) (r : ConnectionRequest) (n : TableNum)
      → get_elem? pool.entries i ≡ some r
      → get_table_num c index s.memory (key_of r) ≡ some n
      → serve c unset index null_key ref after_sent s pool i
        ≡ serve_with c unset index null_key ref after_sent
            (record s { memory = n.memory })
            pool
            i
            r
            n.num
  unfolding serve
  serve_runs s pool i r n e k = rw (e, k)

  write_faults :
      (s : Main) (pool : ReadWritePool) (i : ℕ) (r : ConnectionRequest)
      → is_eq (memcmp s.memory (key_of r) null_key c.key_length) ≡ false
      → r.req_type ≡ RequestType.write
      → length s.memtables < 2 ^ 31
      → serve_with c unset index null_key ref after_sent s pool i r minus_one ≡ none
  unfolding serve_with serve_write
  write_faults s pool i r k t small =
      let out : get_elem? s.memtables minus_one ≡ none =
        get_elem?-none s.memtables minus_one (omega arith) in
      rw (k, t, serve_write, out)

-- In a database whose sparse index has no key yet, a request to write a key that is not null leads to a
-- write to memtables[-1]: the index only notes the key, and returns -1 for it.
pub serve-first_write :
    (c : Config) (unset : ConnectionRequest) (index : SparseIndex) (null_key ref : ℕ)
    (after_sent : ReadWritePool → ReadWritePool) (s : Main) (pool : ReadWritePool) (i : ℕ)
    (r : ConnectionRequest) (k : ℕ)
    → get_elem? pool.entries i ≡ some r
    → r.req_type ≡ RequestType.write
    → 0 < c.level_factor
    → is_null c index s.memory index.index ≡ true
    → length s.memtables < 2 ^ 31
    → k < c.key_length
    → s.memory (key_of r + k) ≢ 0
    → ((j : ℕ) → j < c.key_length → s.memory (null_key + j) ≡ 0)
    → Apart (key_of r) c.key_length index.index c.key_length
    → Apart null_key c.key_length index.index c.key_length
    → serve c unset index null_key ref after_sent s pool i ≡ none
serve-first_write c unset index null_key ref after_sent s pool i r k e t pos free small l ne zeros
      apart apart' =
    let m' = memcpy s.memory index.index (key_of r) c.key_length in
    let null : (j : ℕ) → j < c.key_length → m' (null_key + j) ≡ 0 = λ j b.
      memcpy_outside s.memory index.index (key_of r) c.key_length (null_key + j)
        (omega (arith, apart'))
      ∙ zeros j b in
    let key : m' (key_of r + k) ≡ s.memory (key_of r + k) =
      memcpy_outside s.memory index.index (key_of r) c.key_length (key_of r + k)
        (omega (arith, apart)) in
    let below : memcmp m' null_key (key_of r) c.key_length ≡ Ordering.lt =
      memcmp_zeros m' null_key (key_of r) c.key_length k null l (λ h. ne (sym key ∙ h)) in
    let differs : is_eq (memcmp m' (key_of r) null_key c.key_length) ≡ false =
      ground (arith, memcmp-swap m' null_key (key_of r) c.key_length) in
    serve_runs c unset index null_key ref after_sent s pool i r
      (record { num = minus_one; memory = m' }) e
      (get_table_num-free c index s.memory (key_of r) pos free)
    ∙ write_faults c unset index null_key ref after_sent (record s { memory = m' }) pool i r differs
        t small
