-- ===== src/Traverse/Tests.antt =====
-- The theorems on the traversal with the CMake constants, for an sstable with one buffer.
use ringdb.Prelude.{
  ℕ, zero, suc, ◌+◌, ◌*◌, ◌<◌, ◌≤◌, ◌≡◌, ◌==◌, if◌then◌else◌, refl, true, false, none, some, [],
  ◌∷◌, arith, ◌⊎◌, Ordering,
}
use ringdb.Config.{cmake}
use ringdb.Memory.{Memory, memcmp, is_eq}
use ringdb.Bisect.{bisect}
use ringdb.ReadWritePool.Order.{blank}
use ringdb.Stack.{StackEntry, top, empty}
use ringdb.CacheHelper.{
  CacheHelper, get_buffer_info, search, ends_before, get_cur_min_invalid_offset,
}
use ringdb.WaitQueue.{WaitQueue}
use ringdb.SstableInfo.{SstableInfo}
use ringdb.Traverse.{
  Reading, Descent, descend, next_index, entry_at, loop, round_to_block_size_multiple,
}
use ringdb.Traverse.Blocks.{round-remainder}
use ringdb.Traverse.Descend.{Below, Below-cases, IsTree, descend-finds, descend-ends}
use ringdb.Traverse.Loop.{Misses, rounds, loop-Misses}

round-remainder_example : round_to_block_size_multiple cmake 50 3 0 10000 ≡ some 1808
round-remainder_example =
    round-remainder cmake 50 3 0 12 10000 refl (omega arith) (omega arith) (omega arith)

-- A buffer at 1000 with the keys 5, 3 and 8; the key at 60 is 8, the key at 105 is 9.
abbrev memory : Memory
memory p =
    if p == 1000
    then 5
    else if p == 1003
    then 3
    else if p == 1006
    then 8
    else if p == 60
    then 8
    else if p == 105
    then 9
    else 0

on_left_three :
    (i k : ℕ)
    → k < 3
    → Below (i * 2 + 1) k
    → memcmp memory (entry_at cmake 1000 k) (entry_at cmake 1000 i) 1 ≡ Ordering.lt
unfolding memcmp
on_left_three i k l b =
    let h : (i * 2 + 1 ≡ k) ⊎ ((i * 2 + 1) * 2 + 1 ≤ k) = Below-cases (i * 2 + 1) k b in
    let e : i ≡ 0 = omega (arith, h) in let e' : k ≡ 1 = omega (arith, h) in rw (e, e')

on_right_three :
    (i k : ℕ)
    → k < 3
    → Below (i * 2 + 2) k
    → memcmp memory (entry_at cmake 1000 i) (entry_at cmake 1000 k) 1 ≡ Ordering.lt
unfolding memcmp
on_right_three i k l b =
    let h : (i * 2 + 2 ≡ k) ⊎ ((i * 2 + 2) * 2 + 1 ≤ k) = Below-cases (i * 2 + 2) k b in
    let e : i ≡ 0 = omega (arith, h) in let e' : k ≡ 2 = omega (arith, h) in rw (e, e')

not_null_three : (i : ℕ) → i < 3 → is_eq (memcmp memory (entry_at cmake 1000 i) 50 1) ≡ false
unfolding memcmp
not_null_three zero l = refl
not_null_three (suc zero) l = refl
not_null_three (suc (suc zero)) l = refl
not_null_three (suc (suc (suc i))) l = absurd (omega arith)

tree : IsTree cmake 50 3 0 memory 1000 3 60
tree = record {
  small = omega arith;
  not_null = not_null_three;
  on_left = on_left_three;
  on_right = on_right_three;
}

key_eq : memcmp memory (entry_at cmake 1000 2) 60 1 ≡ Ordering.eq
unfolding memcmp
key_eq = refl

descend-finds_example :
    descend cmake 50 3 0 4 memory 1000 3 60
      (record { index_in_buffer = 0; not_null = none; res = none })
    ≡ some (record { index_in_buffer = 2; not_null = some true; res = some Ordering.eq })
descend-finds_example =
    descend-finds cmake 50 3 0 memory 1000 3 60 0 2 none none tree
      (Below.in_right 0 2 (Below.here 2)) (omega arith) key_eq

descend-ends_example :
    (d : Descent) × (descend cmake 50 3 0 4 memory 1000 3 105
        (record { index_in_buffer = 0; not_null = none; res = none })
      ≡ some d)
descend-ends_example =
    descend-ends cmake 50 3 0 memory 1000 3 105
      (record { index_in_buffer = 0; not_null = none; res = none }) (omega arith)

abbrev queue : WaitQueue
queue = record {
  atomic_consumer_guard = 1;
  size = 0;
  atomic_producer_guard = 1;
  is_single_thread = true;
  front = 0;
  back = 0;
  nodes = λ p. none;
  next_address = 1;
}

abbrev helper : CacheHelper
helper = record {
  cache_locations = record { left_boundary = 0; right_boundary = 9; buffer_id = 0 } ∷ [];
  sparse_buffer_index_locations = 0 ∷ [];
  cur_min_invalid_offset = 9;
  id_of_most_recently_selected_buffer = 0;
  free_buffers_left = 1;
  id_of_least_recently_selected_buffer = 0;
}

-- The request at 100 has the key 9, and `top` reads the entry `e`.
abbrev info : StackEntry → SstableInfo
info e = record {
  req_batch_wq = queue;
  is_flushed_to = true;
  insert_buffers_from = 1;
  page_cache_buffers = 1000 ∷ [];
  min_key = 0;
  max_key = 0;
  cache_helper = helper;
  stack = record { back = 1; cells = e ∷ e ∷ [] };
  requests = record blank { client_sock_fd = 1; buffer = 100 } ∷ [];
  waiting_on_io = false;
  already_waited = false;
  desired_sstable_offset = 0;
}

abbrev root : StackEntry
root = record { word0 = 0; word1 = 0; word2 = 0; word3 = 1 }

abbrev start : Reading
start = record { memory = memory; info = info root; calls = [] }

misses : Misses cmake 50 3 0 start
unfolding top get_buffer_info search ends_before bisect descend memcmp next_index empty
    get_cur_min_invalid_offset
misses = record {
  entry = root;
  conn_req = record blank { client_sock_fd = 1; buffer = 100 };
  location = record { left_boundary = 0; right_boundary = 9; buffer_id = 0 };
  buffer = 1000;
  end = record { index_in_buffer = 6; not_null = some true; res = some Ordering.lt };
  res = Ordering.lt;
  on_top = refl;
  in_hand = refl;
  cached = refl;
  is_cached = refl;
  buffer_there = refl;
  descent = refl;
  res_set = refl;
  not_found = refl;
  not_empty = refl;
  not_waiting = refl;
  within = refl;
}

loop-Misses_example :
    (rounds cmake 50 3 0 101 start
      ≡ some (record start { info = record (info root) { desired_sstable_offset = 6 } }))
    × (loop cmake 50 3 0 100 start ≡ none)
unfolding get_cur_min_invalid_offset misses
loop-Misses_example = loop-Misses cmake 50 3 0 start misses refl 100
