-- ===== src/MainLoop/Tests.antt =====
-- The theorems on the main thread: a fresh database, and batches of two reads.
use ringdb.Prelude.{
  ℕ, ◌≡◌, ◌==◌, if◌then◌else◌, refl, true, false, none, List, [], ◌∷◌, replicate, arith, inl,
}
use ringdb.Config.{Config, cmake}
use ringdb.Memory.{Memory, memcmp}
use ringdb.Requests.{RequestType, ConnectionRequest}
use ringdb.ReadWritePool.{ReadWritePool}
use ringdb.ReadWritePool.Order.{blank}
use ringdb.SparseIndex.{SparseIndex, is_null}
use ringdb.MemTable.{MemTable}
use ringdb.MainLoop.{Main, serve}
use ringdb.MainLoop.FirstWrite.{serve-first_write}
use ringdb.MainLoop.FullBatch.{Missed}

-- The key of the request at 10 is 7.
abbrev memory : Memory
memory p = if p == 15 then 7 else 0

abbrev place : SparseIndex
place = record { index = 100; null_key = 50 }

abbrev no_requests : ReadWritePool
no_requests = record { entries = []; count = 0; num_sent = 0; present_in_level = false }

abbrev tables : List MemTable
tables = record { start = 1000; size = 0 } ∷ record { start = 4000000; size = 0 } ∷ []

abbrev start : ReadWritePool → Main
start b = record { memory = memory; memtables = tables; read_batch = b; sent = [] }

abbrev put_request : ConnectionRequest
put_request = record blank { req_type = RequestType.write; client_sock_fd = 3; buffer = 10 }

abbrev one_write : ReadWritePool
one_write = record no_requests { entries = put_request ∷ []; count = 1 }

index_free : is_null cmake place memory 100 ≡ true
unfolding memcmp is_null
index_free = refl

serve-first_write_example :
    serve cmake blank place 50 1 (λ b. b) (start no_requests) one_write 0 ≡ none
serve-first_write_example =
    serve-first_write cmake blank place 50 1 (λ b. b) (start no_requests) one_write 0 put_request 0
      refl refl (omega arith) index_free (omega arith) (omega arith)
      (λ e. absurd (omega (arith, e))) (λ j l. ground arith) (inl (omega arith)) (inl (omega arith))

-- Pages of 16 bytes, so that a batch has two requests.
abbrev short_pages : Config
short_pages = record cmake { page_size = 16 }

abbrev one_read : ReadWritePool
one_read = record no_requests { entries = replicate 16 blank; count = 1 }

abbrev missed : ℕ → Missed
missed i = record { at = i; request = record blank { client_sock_fd = 3; buffer = 10 } }
