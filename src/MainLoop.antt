-- ===== src/MainLoop.antt =====
-- start_ringdb of lsm_tree.hpp: what the main thread does with each request of a batch that the network
-- thread hands it.
pub mod FirstWrite
pub mod FullBatch
pub mod Levels
mod Tests
use ringdb.Prelude.{
  ℕ, zero, suc, ◌+◌, ◌-◌, ◌≡◌, Bool, true, false, Option, none, some, List, [], ◌∷◌, ◌++◌, ◌>>=◌,
  get_elem?, store, ltb, ◌==◌, not, if◌then◌else◌, minus_one,
}
use ringdb.Config.{Config, batch_num_requests, socket_buffer_length, memtable_size}
use ringdb.Memory.{Memory, memcmp, fill, is_eq}
use ringdb.Requests.{RequestType, ConnectionRequest, key_of}
use ringdb.SparseIndex.{SparseIndex, get_table_num, remove_table}
use ringdb.ReadWritePool.{ReadWritePool, insert_read_write, remove_via_index}
use ringdb.MemTable.{MemTable, read, write, empty_out}

-- What goes to level 1, and how: a batch of reads, or the data of a table.
pub data Sent : Type 0 where
  reads : ReadWritePool → Sent
  compaction : (table_num : ℕ) → Sent

-- The batches that were sent, the oldest first. The batch of compactions is not kept.
pub record Main : Type 0 where
  pub memory : Memory
  pub memtables : List MemTable
  pub read_batch : ReadWritePool
  pub sent : List Sent

-- The state, and the batch whose requests are served.
pub record Served : Type 0 where
  pub main : Main
  pub rw_pool : ReadWritePool

abbrev pub is_read_type : RequestType → Bool
is_read_type RequestType.read = true
is_read_type _ = false

-- `null_key` is the address of a null key, `ref` that of the batch of reads. `after_sent` is what
-- insert_into_wqs leaves of that batch: it is the same object, as the function replaces its own
-- copy of the pointer only.
module _ (c : Config) (unset : ConnectionRequest) (index : SparseIndex) (null_key ref : ℕ)
    (after_sent : ReadWritePool → ReadWritePool) where
  -- table_num != -1 && memtables[table_num].read(key, value)
  pub look_up : Main → ℕ → ℕ → Option (Bool × Memory)
  look_up s table_num key = if table_num == minus_one then some (false, s.memory) else (do
    t ← get_elem? s.memtables table_num
    r ← read c s.memory t key (key + c.key_length)
    some (r.found, r.memory))

  -- A read that the tables in memory do not answer.
  pub hand_on : Main → ReadWritePool → ℕ → ConnectionRequest → Option Served
  hand_on s rw_pool i r = do
    b ←
        insert_read_write c s.memory unset s.read_batch r.buffer r.client_sock_fd RequestType.read
          ref
    p ← remove_via_index rw_pool i
    some (record {
      main =
          if b.count == batch_num_requests c
          then record s { read_batch = after_sent b; sent = s.sent ++ Sent.reads b ∷ [] }
          else record s { read_batch = b };
      rw_pool = p;
    })

  pub serve_read : Main → ReadWritePool → ℕ → ConnectionRequest → ℕ → Option Served
  unfolding look_up hand_on
  serve_read s rw_pool i r table_num = do
    (found, m) ← look_up s table_num (key_of r)
    if found
        then some (record { main = record s { memory = m }; rw_pool = rw_pool })
        else hand_on (record s { memory = m }) rw_pool i r

  write_to : Main → ℕ → ConnectionRequest → MemTable → Option Main
  write_to s table_num r t = do
    w ← write c s.memory t (key_of r) (key_of r + c.key_length) table_num index
    d ← store s.memtables table_num w.table
    some (record s { memory = w.memory; memtables = d })

  -- The table is full: it is sent off and emptied, and then written to. The copy that is made if the
  -- database is practically full has no length.
  compact_and_write : Main → ℕ → ConnectionRequest → MemTable → Option Main
  unfolding write_to
  compact_and_write s table_num r t =
      write_to
        (record s {
          memory = empty_out c (remove_table c index s.memory table_num) t;
          sent = s.sent ++ Sent.compaction table_num ∷ [];
        })
        table_num r t

  pub serve_write : Main → ℕ → ConnectionRequest → Option Main
  unfolding compact_and_write
  serve_write s table_num r = do
    t ← get_elem? s.memtables table_num
    if ltb t.size (memtable_size c)
        then write_to s table_num r t
        else compact_and_write s table_num r t

  -- The branches on the key and the type.
  pub serve_with : Main → ReadWritePool → ℕ → ConnectionRequest → ℕ → Option Served
  unfolding serve_read serve_write
  serve_with s rw_pool i r table_num =
      if is_eq (memcmp s.memory (key_of r) null_key c.key_length)
      then some (record {
        main = record s { memory = fill s.memory r.buffer (socket_buffer_length c) 0 };
        rw_pool = rw_pool;
      })
      else if is_read_type r.req_type
      then serve_read s rw_pool i r table_num
      else (do s' ← serve_write s table_num r; some (record { main = s'; rw_pool = rw_pool }))

  -- The body of the loop.
  pub serve : Main → ReadWritePool → ℕ → Option Served
  unfolding serve_with
  serve s rw_pool i = do
    r ← get_elem? rw_pool.entries i
    n ← get_table_num c index s.memory (key_of r)
    serve_with (record s { memory = n.memory }) rw_pool i r n.num

  -- The loop, from request `i` on.
  pub serve_all : ℕ → Main → ReadWritePool → ℕ → Option Served
  serve_all zero s rw_pool i = some (record { main = s; rw_pool = rw_pool })
  serve_all (suc left) s rw_pool i = do
    d ← serve s rw_pool i
    serve_all left d.main d.rw_pool (i + 1)
