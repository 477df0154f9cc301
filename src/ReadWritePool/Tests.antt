-- ===== src/ReadWritePool/Tests.antt =====
-- Runs of the pool's operations on a batch of two requests, and the theorems at them.
use ringdb.Prelude.{ℕ, ◌≡◌, refl, false, some, [], ◌∷◌, arith, ◌==◌, if◌then◌else◌, minus_one}
use ringdb.Config.{Config, cmake}
use ringdb.Memory.{Memory, memcmp}
use ringdb.Requests.{RequestType}
use ringdb.Bisect.{bisect, Splits}
use ringdb.ReadWritePool.{
  ReadWritePool, entry_below, search, shift, end_place, placed, misses, insert_read_write,
  find_index_starting_from,
}
use ringdb.ReadWritePool.Order.{blank, below}
use ringdb.ReadWritePool.Insert.{IsValid, Inserted, IsFirst, insert_read_write_lem}
use ringdb.ReadWritePool.Find.{Outcome, find_index_starting_from_lem}

-- Two cells to a batch, and keys of one byte.
abbrev small : Config
small = record cmake { page_size = 2 }

-- The socket buffer at 100 has the key 7, the one at 200 the key 3.
abbrev memory : Memory
memory p = if p == 105 then 7 else if p == 205 then 3 else 0

abbrev empty_pool : ReadWritePool
empty_pool = record { entries = []; count = 0; num_sent = 0; present_in_level = false }

abbrev one_request : ReadWritePool
one_request = record empty_pool {
  entries =
      record { req_type = RequestType.read; req_batch_ref = 1; client_sock_fd = 9; buffer = 100 }
      ∷ blank
      ∷ [];
  count = 1;
}

empty-IsValid : IsValid small memory empty_pool
empty-IsValid = record {
  within = omega arith;
  small = omega arith;
  storage = λ h. absurd (omega arith);
  sorted = λ i j h l. absurd (omega arith);
}

one_request-IsValid : IsValid small memory one_request
unfolding memcmp
one_request-IsValid = record {
  within = omega arith;
  small = omega arith;
  storage = λ h. refl;
  sorted =
      λ i j h l. let e : i ≡ 0 = omega arith in let e' : j ≡ 0 = omega arith in rw (e, e') refl;
}

insert_read_write_lem_example :
    (p' : ReadWritePool) × (place : ℕ) × (insert_read_write small memory blank one_request 200 8
        RequestType.read 2
      ≡ some p')
    × Inserted small memory one_request p' place (record {
      req_type = RequestType.read;
      req_batch_ref = 2;
      client_sock_fd = 8;
      buffer = 200;
    })
    × IsFirst small memory one_request 200 place
    × IsValid small memory p'
insert_read_write_lem_example =
    insert_read_write_lem small memory blank one_request 200 8 RequestType.read 2
      one_request-IsValid (omega arith)

-- A smaller key goes in front, and the request behind it gets the reference of the new one.
insert_in_front :
    insert_read_write small memory blank one_request 200 8 RequestType.read 2
    ≡ some (record one_request {
      entries =
          record {
            req_type = RequestType.read;
            req_batch_ref = 2;
            client_sock_fd = 8;
            buffer = 200;
          }
          ∷ record {
            req_type = RequestType.read;
            req_batch_ref = 2;
            client_sock_fd = 9;
            buffer = 100;
          }
          ∷ [];
      count = 2;
    })
unfolding insert_read_write search placed shift entry_below end_place bisect memcmp
insert_in_front = refl

find_index_starting_from_lem_example :
    (r : ℕ) × (i : ℕ) × (find_index_starting_from small memory one_request 0 100 ≡ some i)
    × Splits (below small memory one_request.entries 100) 0 1 r
    × Outcome small memory one_request 100 r i
find_index_starting_from_lem_example =
    find_index_starting_from_lem small memory one_request 0 100 one_request-IsValid (omega arith)

-- A bound below every key of the batch is not found: the result is -1, not 0.
find_below_all : find_index_starting_from small memory one_request 0 200 ≡ some minus_one
unfolding find_index_starting_from search misses entry_below bisect memcmp
find_below_all = refl
