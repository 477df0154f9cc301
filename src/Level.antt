-- ===== src/Level.antt =====
-- level_info/level_info.hpp, filter/filter.hpp and decomposition/decomposition.hpp: how a batch that comes
-- to a level is divided among the level's sstables. The Bloom filter library is a parameter.
pub mod Reads
pub mod Compactions
mod Tests
use ringdb.Prelude.{
  ℕ, zero, suc, ◌+◌, ◌-◌, ◌*◌, ◌/◌, ◌^◌, ◌≡◌, Bool, true, false, Option, none, some, List, [], ◌∷◌,
  ◌>>=◌, get_elem?, store, replicate, ltb, ◌==◌, not, ◌&&◌, if◌then◌else◌, add32, sub32, minus_one,
  map,
}
use ringdb.Config.{Config, memtable_size, entry_length}
use ringdb.Memory.{Memory}
use ringdb.Requests.{RequestType, ConnectionRequest, key_of}
use ringdb.Guards.{Guard}
use ringdb.SparseIndex.{SparseIndex, get_table_min_key, get_table_max_key}
use ringdb.ReadWritePool.{ReadWritePool, insert_read_write, find_index_starting_from}

-- bloom_filter_add_string, bloom_filter_check_string != BLOOM_FAILURE, and the field elements_added.
pub record BloomFilter (F : Type 0) : Type 0 where
  pub add_string : Memory → F → ℕ → F
  pub check_string : Memory → F → ℕ → Bool
  pub elements_added : F → ℕ

-- A batch's union, and the batch.
pub data Content : Type 0 where
  readwrite_pool : ReadWritePool → Content
  req_seg : (data_start : ℕ) → Content

pub record RequestBatch : Type 0 where
  pub req_type : RequestType
  pub content : Content

-- Batches by their addresses; 0 is nullptr.
pub record Heap : Type 0 where
  pub batches : ℕ → Option RequestBatch
  pub next_address : ℕ

abbrev pub put : Heap → ℕ → RequestBatch → Heap
put h p b = record h { batches = λ q. if p == q then some b else h.batches q }

-- decomposition.hpp
pub record Decomposition : Type 0 where
  pub decomposition : List ℕ
  pub expected_sstable_sizes : List ℕ
  pub num_req_batches : ℕ
  pub total_decomp_size : ℕ

unfoldable pub pool_of : RequestBatch → Option ReadWritePool
pool_of b = elim b.content [ readwrite_pool p ↦ some p | req_seg d ↦ none ]

unfoldable pub segment_of : RequestBatch → Option ℕ
segment_of b = elim b.content [ readwrite_pool p ↦ none | req_seg d ↦ some d ]

abbrev pub is_read : RequestType → Bool
is_read RequestType.read = true
is_read _ = false

-- The part of LevelInfo that has guards: its own and those of its buffer queues.
pub record Guarded : Type 0 where
  pub guard : Guard
  pub buffer_queue_guards : List Guard

-- `is_single_thread = is_single_thread` sets the parameter to itself.
pub set_is_single_thread : Guarded → Bool → Guarded
set_is_single_thread l is_single_thread = record l {
  buffer_queue_guards =
      map {A = Guard} {B = Guard} (λ g. record g { is_single_thread = is_single_thread })
        l.buffer_queue_guards;
}

module _ (c : Config) {F : Type 0} (bloom : BloomFilter F) (unset : ConnectionRequest)
    (unset_pool : ReadWritePool) where
  pub record LevelInfo : Type 0 where
    pub filters : List F
    pub sparse_index : SparseIndex

  -- Filter
  pub insert_key : Memory → F → ℕ → F
  insert_key m f key = bloom.add_string m f key

  pub prob_contains_key : Memory → F → ℕ → Bool
  prob_contains_key m f key = bloom.check_string m f key

  unfoldable pub empty : F → Bool
  empty f = bloom.elements_added f == 0

  -- RequestBatch::insert_read_write on the batch at `p`; a null pointer leads to none.
  pub insert_into : Memory → Heap → ℕ → ConnectionRequest → Option Heap
  insert_into m h p r = do
    b ← h.batches p
    pool ← pool_of b
    pool' ← insert_read_write c m unset pool r.buffer r.client_sock_fd r.req_type p
    some (put h p (record b { content = Content.readwrite_pool pool' }))

  -- decomposition[i] = new RequestBatch(READ)
  pub new_batch : Heap → Decomposition → ℕ → Option (Heap × Decomposition)
  new_batch h d i = do
    l ← store d.decomposition i h.next_address
    let b : RequestBatch = record {
      req_type = RequestType.read;
      content = Content.readwrite_pool unset_pool;
    }
    some (
      record (put h h.next_address b) { next_address = h.next_address + 1 },
      record d { decomposition = l },
    )

  -- decomposition[i]->content.readwrite_pool.present_in_level = value
  pub set_present : Heap → Decomposition → ℕ → Bool → Option Heap
  set_present h d i value = do
    p ← get_elem? d.decomposition i
    b ← h.batches p
    pool ← pool_of b
    some (
        put h p (record b {
          content = Content.readwrite_pool (record pool { present_in_level = value });
        }))

  -- What the loops hand on: the batch's requests, whose descriptors they clear.
  pub record Dividing : Type 0 where
    pub heap : Heap
    pub decomp : Decomposition
    pub pool : ReadWritePool

  -- conn_req->client_sock_fd = -1
  pub clear : ReadWritePool → ℕ → Option ReadWritePool
  clear p j = do
    r ← get_elem? p.entries j
    d ← store p.entries j (record r { client_sock_fd = minus_one })
    some (record p { entries = d })

  -- A request that the filter of table `i` lets through. The null test is the wrong way round.
  pub to_table : Memory → Dividing → ℕ → ConnectionRequest → Option Dividing
  to_table m s i r = do
    p ← get_elem? s.decomp.decomposition i
    (h, d) ←
        if p == 0
        then some (s.heap, s.decomp)
        else (do (h, d) ← new_batch s.heap s.decomp i; h' ← set_present h d i true; some (h', d))
    q ← get_elem? d.decomposition i
    h' ← insert_into m h q r
    n ← get_elem? d.expected_sstable_sizes i
    sizes ← store d.expected_sstable_sizes i (add32 n 1)
    some (record s { heap = h'; decomp = record d { expected_sstable_sizes = sizes } })

  -- A request for the next level; `i` is what the source's variable `i` is at that place.
  pub to_next_level : Memory → Dividing → ℕ → ConnectionRequest → Option Dividing
  to_next_level m s i r = do
    p ← get_elem? s.decomp.decomposition c.level_factor
    (h, d) ← if not (p == 0) then some (s.heap, s.decomp) else (do
      (h, d) ← new_batch s.heap s.decomp c.level_factor
      h' ← set_present h d i false
      some (h', d))
    q ← get_elem? d.decomposition c.level_factor
    h' ← insert_into m h q r
    some (record s { heap = h'; decomp = d })

  -- The loop over `j`, with the number of its rounds.
  pub divide_range : ℕ → Memory → F → ℕ → Dividing → ℕ → Option Dividing
  divide_range zero m filter i s j = some s
  divide_range (suc rounds) m filter i s j = do
    r ← get_elem? s.pool.entries j
    s' ← if prob_contains_key m filter (key_of r) then to_table m s i r else to_next_level m s i r
    pool ← clear s'.pool j
    divide_range rounds m filter i (record s' { pool = pool }) (j + 1)

  -- The loop over the tables, from `i` on, with the number of tables left.
  pub divide_tables : ℕ → Memory → LevelInfo → Dividing → ℕ → Option Dividing
  unfolding divide_range
  divide_tables zero m l s i = some s
  divide_tables (suc left) m l s i = do
    filter ← get_elem? l.filters i
    if empty filter then some s else (do
      left_index ← find_index_starting_from c m s.pool 0 (get_table_min_key c l.sparse_index i)
      right_index ←
          find_index_starting_from c m s.pool left_index (get_table_max_key c l.sparse_index i)
      s' ← divide_range (right_index - left_index) m filter i s left_index
      divide_tables left m l s' (i + 1))

  -- The loop over the requests that are left.
  pub divide_rest : ℕ → Memory → Dividing → ℕ → Option Dividing
  unfolding to_next_level
  divide_rest zero m s i = some s
  divide_rest (suc left) m s i = do
    r ← get_elem? s.pool.entries i
    s' ← if r.client_sock_fd == minus_one then some s else to_next_level m s i r
    divide_rest left m s' (i + 1)

  pub count_batches : List ℕ → ℕ
  count_batches [] = 0
  count_batches (p ∷ ps) = if p == 0 then count_batches ps else suc (count_batches ps)

  -- Nothing divided yet.
  pub blank_decomposition : ℕ → Decomposition
  blank_decomposition total = record {
    decomposition = replicate (c.level_factor + 1) 0;
    expected_sstable_sizes = replicate c.level_factor 0;
    num_req_batches = 0;
    total_decomp_size = total;
  }

  pub decompose_reads :
      Memory → LevelInfo → Heap → ReadWritePool → Option (Heap × ReadWritePool × Decomposition)
  unfolding divide_tables divide_rest count_batches blank_decomposition
  decompose_reads m l h pool = do
    s ←
        divide_tables c.level_factor m l
          (record { heap = h; decomp = blank_decomposition pool.count; pool = pool }) 0
    s' ← divide_rest s.pool.count m s 0
    some (
      s'.heap,
      s'.pool,
      record s'.decomp { num_req_batches = count_batches s'.decomp.decomposition },
    )

  -- while (i < LEVEL_FACTOR && !filters[i++].empty());
  pub skip_filled : ℕ → List F → ℕ → Option ℕ
  skip_filled zero fs i = some i
  skip_filled (suc left) fs i = do
    f ← get_elem? fs i
    let rest = skip_filled left fs (i + 1)
    if empty f then some (i + 1) else rest

  -- The loop over `j`, which goes by the length of an entry; `key` goes by `j`.
  pub insert_keys : ℕ → Memory → F → ℕ → ℕ → F
  insert_keys zero m f key j = f
  insert_keys (suc rounds) m f key j =
      insert_keys rounds m (insert_key m f (key + j)) (key + j) (j + entry_length c)

  -- The rounds of that loop: as many steps as reach `size`.
  abbrev rounds_of : ℕ → ℕ
  rounds_of size = (size + (entry_length c - 1)) / entry_length c

  -- The table that is given the batch, and the filters after it.
  pub choose_table : Memory → LevelInfo → ℕ → Option (ℕ × List F)
  unfolding skip_filled insert_keys
  choose_table m l data_start = do
    i ← skip_filled c.level_factor l.filters 0
    if ltb i c.level_factor
        then (do
          f ← get_elem? l.filters i
          fs ← store l.filters i (insert_keys (rounds_of (memtable_size c)) m f data_start 0)
          some (i, fs))
        else some (0, l.filters)

  pub decompose_compaction : Memory → LevelInfo → ℕ → ℕ → Option (LevelInfo × Decomposition)
  unfolding choose_table blank_decomposition
  decompose_compaction m l batch data_start = do
    (i, fs) ← choose_table m l data_start
    let d = blank_decomposition (memtable_size c)
    batches ← store d.decomposition i batch
    sizes ← store d.expected_sstable_sizes i (memtable_size c)
    some (
      record l { filters = fs },
      record d { decomposition = batches; expected_sstable_sizes = sizes; num_req_batches = 1 },
    )

  -- decompose: the level, the heap and the parts.
  pub decompose : Memory → LevelInfo → Heap → ℕ → Option (LevelInfo × Heap × Decomposition)
  unfolding decompose_reads decompose_compaction
  decompose m l h batch = do
    b ← h.batches batch
    if is_read b.req_type
        then (do
          pool ← pool_of b
          (h', pool', d) ← decompose_reads m l h pool
          some (l, put h' batch (record b { content = Content.readwrite_pool pool' }), d))
        else (do
          data_start ← segment_of b
          (l', d) ← decompose_compaction m l batch data_start
          some (l', h, d))
