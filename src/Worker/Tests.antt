-- ===== src/Worker/Tests.antt =====
-- The theorems on worker threads that open sstables and hand buffers on.
use mathlib.Core.List.{reverse}
use ringdb.Prelude.{
  ℕ, ◌+◌, ◌<◌, ◌≡◌, ◌++◌, refl, true, false, some, [], ◌∷◌, take, replicate, length-replicate,
  get_elem?, arith,
}
use ringdb.Config.{cmake}
use ringdb.BufferQueue.{BufferQueue}
use ringdb.BufferQueue.Fifo.{IsValid, contents}
use ringdb.CacheHelper.{CacheHelper, remove_buffer_range}
use ringdb.Worker.Upstream.{to_give, idle_turn}
use ringdb.Worker.Upstream.Transfer.{idle_turn-transfers}
use ringdb.Worker.Upstream.Giving.{last_buffers, idle_turn-gives}
use ringdb.Worker.Opening.{Opening, open_file}
use ringdb.Worker.Opening.Buffers.{IsOpened, open_file-shares}
use ringdb.Worker.Data.{ring, waited, idle}

ring-IsValid : (n stock : ℕ) → n < 200 → IsValid 200 (ring n stock)
ring-IsValid n stock h = record {
  array = omega (arith, length-replicate {A = ℕ} 197 8);
  small = omega arith;
  front_in = omega arith;
  room = h;
  back_at = omega arith;
}

idle_turn-transfers_example :
    (q prev : BufferQueue) × (idle_turn cmake 1 (λ n. false) 3 (idle (ring 2 7))
      ≡ some (record (idle (ring 2 7)) { buffer_queue = q; prev_buffer_queue = prev }))
    × IsValid 200 q
    × IsValid 200 prev
    × (q.num_new_buffers + 2 ≡ 2)
    × (5 ∷ 6 ∷ 7 ∷ [] ≡ 5 ∷ 6 ∷ contents 200 q)
    × (contents 200 prev ≡ contents 200 (ring 0 0) ++ reverse (take 2 (contents 200 (ring 2 7))))
idle_turn-transfers_example =
    idle_turn-transfers cmake 0 (λ n. false) 3 (idle (ring 2 7)) (omega arith) refl refl refl
      (ring-IsValid 2 7 (omega arith)) (ring-IsValid 0 0 (omega arith)) (omega arith) (omega arith)

gives_two : to_give cmake 1 (λ n. false) (ring 0 30) ≡ 2
unfolding to_give
gives_two = refl

-- No buffer above the first holds cached data.
abbrev fewer : CacheHelper
fewer = record waited.cache_helper { free_buffers_left = 1 }

removed : remove_buffer_range waited.cache_helper 2 3 ≡ some fewer
unfolding remove_buffer_range
removed = refl

idle_turn-gives_example :
    (prev : BufferQueue) × (idle_turn cmake 1 (λ n. false) 3 (idle (ring 0 30))
      ≡ some (record (idle (ring 0 30)) {
        info = record waited {
          insert_buffers_from = 2;
          cache_helper = fewer;
          already_waited = false;
        };
        buffer_queue = record (ring 0 30) { cur_num_buffers = 28 };
        prev_buffer_queue = prev;
      }))
    × (contents 200 prev ≡ contents 200 (ring 0 0) ++ last_buffers waited.page_cache_buffers 3 2)
idle_turn-gives_example =
    idle_turn-gives cmake 0 (λ n. false) 3 (idle (ring 0 30)) 3 2 fewer (omega arith) refl refl refl
      refl gives_two (omega arith) refl (omega arith) (omega arith) (omega arith)
      (ring-IsValid 0 0 (omega arith)) (omega arith) removed

abbrev unopened : Opening
unopened = record {
  memory = λ p. 0;
  info = record waited {
    page_cache_buffers = replicate 20 0;
    cache_helper = record waited.cache_helper { free_buffers_left = 0 };
    desired_sstable_offset = 18446744073709551614;
  };
  calls = [];
}

open_file-shares_example :
    (p p' : Opening) × (open_file cmake true 1000 1100 5000 4096 7 unopened ≡ some p)
    × (open_file cmake true 1000 1100 5000 4096 8 unopened ≡ some p')
    × IsOpened cmake true 1000 1100 5000 4096 7 p
    × IsOpened cmake true 1000 1100 5000 4096 8 p'
    × ((k : ℕ)
        → k + 1 < 20
        → get_elem? p.info.page_cache_buffers (k + 1) ≡ get_elem? p'.info.page_cache_buffers k)
open_file-shares_example =
    open_file-shares cmake true 1000 1100 5000 4096 7 unopened unopened (omega arith) (omega arith)
      refl (omega arith) refl
