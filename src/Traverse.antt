-- ===== src/Traverse.antt =====
-- How a worker thread reads a batch of requests from an sstable: move_down_to_children and
-- try_sstable_tree_read_in_memory of lsm_tree.hpp. The calls of liburing are a trace.
pub mod Blocks
pub mod Children
pub mod Descend
pub mod Loop
pub mod Waiting
mod Tests
use ringdb.Prelude.{
  ℕ, zero, suc, ◌+◌, ◌-◌, ◌*◌, ◌/◌, ◌%◌, ◌^◌, ◌≡◌, Bool, true, false, Option, none, some, List, [],
  ◌∷◌, ◌++◌, ◌>>=◌, get_elem?, ltb, leb, ◌==◌, not, ◌&&◌, ◌||◌, if◌then◌else◌, add32, sub32,
  midpoint, Ordering,
}
use ringdb.Config.{Config, entry_length}
use ringdb.Config.Powers.{my_log2_floor}
use ringdb.Memory.{Memory, memcmp, memcpy, is_gt, is_eq}
use ringdb.Requests.{ConnectionRequest, key_of}
use ringdb.Stack.{Stack, StackEntry, push_top, top, pop_top, empty}
use ringdb.CacheHelper.{
  CacheLocation, CacheHelper, get_buffer_info, get_cur_min_invalid_offset,
  get_id_of_most_recently_selected_buffer, max_offset, replenish_least_recently_selected_buffer,
}
use ringdb.SstableInfo.{SstableInfo}

-- The calls of liburing. `prep_read` with the data that it is given.
pub data Call : Type 0 where
  prep_read : (sstable_num buffer size offset : ℕ) → Call
  prep_msg_to_scheduler : (sstable_num : ℕ) → Call
  submit : Call

-- The state of a traversal: memory, and what is kept of the sstable.
pub record Reading : Type 0 where
  pub memory : Memory
  pub info : SstableInfo
  pub calls : List Call

-- The bitwise and of two words of `bits` bits.
pub and_bits : ℕ → ℕ → ℕ → ℕ
and_bits zero a b = 0
and_bits (suc bits) a b = a % 2 * (b % 2) + 2 * and_bits bits (a / 2) (b / 2)

-- A node of the tree of requests, and the nodes below it, in the order in which they are pushed.
pub record Span : Type 0 where
  pub cur_request : ℕ
  pub left : ℕ
  pub right : ℕ

pub right_child : Span → Option Span
right_child s =
    let child = midpoint s.cur_request s.right in
    if ltb s.cur_request child
    then some (record { cur_request = child; left = s.cur_request; right = s.right })
    else none

pub left_child : Span → Option Span
left_child s =
    let child = midpoint s.left s.cur_request in
    if ltb child s.cur_request
    then some (record { cur_request = child; left = s.left; right = s.cur_request })
    else none

-- What the loop down a buffer's tree leaves in its variables; the last two are not set before it.
pub record Descent : Type 0 where
  pub index_in_buffer : ℕ
  pub not_null : Option Bool
  pub res : Option Ordering

-- (index_in_buffer << 1) + 2 - (res > 0)
pub next_index : ℕ → Ordering → ℕ
next_index i res = (i * 2 + 2 - (if is_gt res then 1 else 0)) % 2 ^ 32

abbrev pub entry_at : Config → ℕ → ℕ → ℕ
entry_at c buffer i = buffer + i * entry_length c

-- `null_key` is the address of a null key; `buffer_size` the length of a page cache buffer,
-- fair_aligned_sstable_page_cache_buffer_size.
module _ (c : Config) (null_key buffer_size sstable_num : ℕ) where
  -- i - (i & ((1UL << 63) - (1UL << (my_log2_floor<BLOCK_SIZE>() - 1))))
  pub round_to_block_size_multiple : ℕ → Option ℕ
  round_to_block_size_multiple i = do
    p ← my_log2_floor c.block_size
    some (i - and_bits 64 i (2 ^ 63 - 2 ^ (p - 1)))

  -- The null test, short-circuited by the test in front of it, and the push.
  pub push_child : Memory → List ConnectionRequest → ℕ → Stack → Option Span → Option Stack
  push_child m requests offset s none = some s
  push_child m requests offset s (some child) = do
    r ← get_elem? requests child.cur_request
    if is_eq (memcmp m (key_of r) null_key c.key_length)
        then some s
        else push_top s (offset % 2 ^ 32) child.cur_request child.left child.right

  -- The entry's first three words are taken for the request and its bounds.
  pub move_down_to_children : Memory → SstableInfo → Option SstableInfo
  unfolding push_child
  move_down_to_children m info = do
    e ← top info.stack
    let span : Span = record { cur_request = e.word0; left = e.word1; right = e.word2 }
    s ←
        push_child m info.requests info.desired_sstable_offset (pop_top info.stack)
          (right_child span)
    s' ← push_child m info.requests info.desired_sstable_offset s (left_child span)
    some (record info { stack = s' })

  -- The loop down the tree of keys that a page cache buffer holds.
  unfoldable pub descend : ℕ → Memory → (buffer num_entries key : ℕ) → Descent → Option Descent
  descend zero m buffer num_entries key d = none
  descend (suc fuel) m buffer num_entries key d =
      let p = entry_at c buffer d.index_in_buffer in
      let res = memcmp m p key c.key_length in
      let rest = descend fuel m buffer num_entries key (record {
        index_in_buffer = next_index d.index_in_buffer res;
        not_null = some true;
        res = some res;
      }) in
      if ltb d.index_in_buffer num_entries
      then (if is_eq (memcmp m p null_key c.key_length)
          then some (record d { not_null = some false })
          else if is_eq res
          then some (record d { not_null = some true; res = some res })
          else rest)
      else some d

  -- The second read, with the buffer at `i`.
  prefetch : CacheHelper → List ℕ → ℕ → ℕ → Option (List Call)
  prefetch h buffers i left_boundary =
      let next = if left_boundary == 0 then buffer_size else left_boundary * 2 % 2 ^ 64 in
      if h.free_buffers_left == 2 && ltb next (get_cur_min_invalid_offset h)
      then (do
        buffer ← get_elem? buffers i
        some (Call.prep_read sstable_num buffer buffer_size next ∷ []))
      else some []

  read_from_storage : Reading → Option Reading
  unfolding prefetch
  read_from_storage r = do
    h ←
        if r.info.cache_helper.free_buffers_left == 0
        then replenish_least_recently_selected_buffer r.info.cache_helper
        else some r.info.cache_helper
    left_boundary ← round_to_block_size_multiple r.info.desired_sstable_offset
    let i = add32 (get_id_of_most_recently_selected_buffer h) 1
    first ← get_elem? r.info.page_cache_buffers i
    further ← prefetch h r.info.page_cache_buffers (i + 1) left_boundary
    some (record r {
      info = record r.info { cache_helper = h; waiting_on_io = true };
      calls =
          r.calls
          ++ Call.prep_read sstable_num first buffer_size left_boundary
            ∷ (further ++ Call.prep_msg_to_scheduler sstable_num ∷ Call.submit ∷ []);
    })

  -- The three ends of the loop down the tree. Reading a variable that was never set is an error.
  after_descent : Reading → ConnectionRequest → CacheLocation → ℕ → Descent → Option Reading
  after_descent r conn_req location buffer d = do
    res ← d.res
    if not (is_eq res)
        then some (record r {
          info = record r.info {
            desired_sstable_offset = (d.index_in_buffer + location.left_boundary) % 2 ^ 64;
          };
        })
        else (do
          not_null ← d.not_null
          let m =
              if not_null
              then memcpy r.memory (conn_req.buffer + 5 + c.key_length)
                  (entry_at c buffer d.index_in_buffer + c.key_length) c.value_length
              else r.memory
          i ← move_down_to_children m r.info
          some (record r { memory = m; info = i }))

  search_buffer : Reading → ConnectionRequest → CacheLocation → Option Reading
  unfolding after_descent
  search_buffer r conn_req location = do
    buffer ← get_elem? r.info.page_cache_buffers location.buffer_id
    let num_entries = (location.right_boundary - location.left_boundary) / entry_length c % 2 ^ 32
    let i = (r.info.desired_sstable_offset - location.left_boundary) % 2 ^ 32
    d ←
        descend (num_entries + 1) r.memory buffer num_entries (key_of conn_req)
          (record { index_in_buffer = i; not_null = none; res = none })
    after_descent r conn_req location buffer d

  -- The request in hand, at the offset that its entry names.
  pub read_request : Reading → Option Reading
  unfolding read_from_storage search_buffer
  read_request r = do
    e ← top r.info.stack
    let r' = record r { info = record r.info { desired_sstable_offset = e.word0 } }
    conn_req ← get_elem? r.info.requests e.word1
    location ← get_buffer_info r.info.cache_helper e.word0
    if location.left_boundary == max_offset
        then read_from_storage r'
        else search_buffer r' conn_req location

  -- The body of the loop.
  unfoldable pub step : Reading → Option Reading
  step r =
      if leb (get_cur_min_invalid_offset r.info.cache_helper) r.info.desired_sstable_offset
      then (do i ← move_down_to_children r.memory r.info; some (record r { info = i }))
      else read_request r

  -- The test of the loop.
  pub goes_on : Reading → Bool
  goes_on r = not (empty r.info.stack || r.info.waiting_on_io)

  unfoldable pub loop : ℕ → Reading → Option Reading
  loop zero r = none
  loop (suc fuel) r = do r' ← step r; let rest = loop fuel r'; if goes_on r' then rest else some r'

-- Where a batch goes that an sstable is done with.
pub data Next : Type 0 where
  stays_here to_next_level to_network : Next

module _ (num_sstable_levels : ℕ) where
  -- What comes after the loop.
  pub settle : SstableInfo → ℕ → SstableInfo × Next
  settle info level =
      if empty info.stack
      then (
        record info { waiting_on_io = false },
        if ltb level (sub32 num_sstable_levels 1) then Next.to_next_level else Next.to_network,
      )
      else (info, Next.stays_here)
