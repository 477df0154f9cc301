-- ===== src/Lib.antt =====
-- RingDB, a key-value store built as an LSM tree over io_uring.
--
-- The program has a network thread, a main thread and worker threads. The network thread
-- (network_thread_routine in lsm_tree.hpp) collects requests into batches and hands full ones to the main
-- thread; the main thread (start_ringdb) answers them from the tables in memory, and hands reads
-- that it cannot answer, and full tables, to the first level of sstables (insert_into_wqs); a worker
-- thread reads a batch from its sstable (try_sstable_tree_read_in_memory) and hands it on, level by level,
-- until the last one gives it back to the network thread.
--
-- The data structures are under aux_data_structures/aux_data_structures_impls:
--   ReadWritePool    connection_pool/readwrite_pool: the requests of a batch, sorted by key
--   ConnectionPool   connection_pool: the open connections and their buffers
--   MemTable         level_zero/memtable.hpp: a table in memory
--   SparseIndex      level_info/sparse_index: the least and the largest key of each table
--   BufferQueue      level_info/buffer_queue: page cache buffers that levels hand on
--   Level            level_info/level_info.hpp, filter and decomposition: dividing a batch among sstables
--   WaitQueue        sstable/request_batch/request_batch_wait_queue.hpp: the batches that wait
--   RequestSegment   sstable/request_batch/request_segment.hpp: a table laid out as a tree
--   Stack            sstable/stack: the nodes that a traversal has yet to visit
--   CacheHelper      sstable/sstable_cache_helper: which buffer holds which bytes
--   SstableInfo      sstable/sstable_info.hpp: what a worker thread keeps of an sstable
-- and the parts of lsm_tree.hpp are:
--   Network          the completions that the network thread handles
--   MainLoop         the requests that the main thread serves
--   MainLoop/Levels  a full table that the main thread gives to the first level of sstables
--   Dispatch         insert_into_wqs: the parts of a batch go into the wait queues
--   Handover         insert_into_wqs: the buffers that go along; try_add_buffers_nonblockingly
--   Traverse         move_down_to_children, try_sstable_tree_read_in_memory and the rounding of offsets
--   InsertIntoWqs    insert_into_wqs as a whole, which puts Level, Handover and Dispatch together
--   Startup          initialize: the levels and queues that are marked as used by one thread
--   Worker           sstable_worker_thread, what the thread does in turn for each of its sstables:
--     Opening          the file is opened, and page cache buffers are given to the sstable
--     Initial          the first reads of the file fill the filter, the bounds and the sparse index
--     Service          a waiting batch is taken, and read, written, passed on or freed
--     Completions      a read or a write of the sstable has ended
--     Upstream         no batch waits: buffers are handed to the sstable above
--   Guards           the spin locks and trylocks around all of these, as steps of threads
-- Config is constinit_constants.hpp with the macros of CMakeLists.txt, Requests is enums/request_type.hpp
-- and the request records, Memory is what the source uses of <cstring>, Bisect the binary search
-- that the source writes out in several places, and Prelude what all of them share.
--
-- A record has the fields of the structure, and a function is named like the function it models. Unsigned
-- numbers wrap at 2^32 or 2^64 where the source's do; an int is kept as its pattern, -1 as 2^32 - 1.
-- Pointers are addresses or places of an array. Where the source has undefined behaviour, an access
-- outside an array or through a null or unset pointer, a function has the result `none`. Bytes are in a
-- memory that is a function of addresses.
--
-- Loops recurse on the number of rounds where the source fixes it, and on fuel otherwise. The binary search
-- has fuel for each place of its range; the loop down a buffer's tree for each entry; the loop over the sparse
-- index for each table. The other loops wait for other threads or need not end, so that the fuel is an
-- argument, and a theorem on them gives the fuel that is enough or holds for every fuel. The event loop of
-- a worker thread is a function for each turn and for each completion, and not a loop of its own.
--
-- Not modelled: the calls of liburing, which are a trace of what was asked for; the Bloom filter library under
-- level_info/filter, which is a parameter of Level; the set-up of rings, sockets, files and threads;
-- the memory orders, as a compare-and-exchange is one step; the concepts, which are compile-time
-- interfaces; and the test client.
pub mod Prelude
pub mod Config
pub mod Memory
pub mod Bisect
pub mod Requests
pub mod ReadWritePool
pub mod Stack
pub mod BufferQueue
pub mod Guards
pub mod WaitQueue
pub mod CacheHelper
pub mod ConnectionPool
pub mod SparseIndex
pub mod MemTable
pub mod Network
pub mod SstableInfo
pub mod Traverse
pub mod Level
pub mod Startup
pub mod Dispatch
pub mod Handover
pub mod Worker
pub mod InsertIntoWqs
pub mod MainLoop
pub mod RequestSegment
