-- ===== src/Traverse/Loop.antt =====
-- The loop of try_sstable_tree_read_in_memory on a key that the buffer does not hold.
use ringdb.Prelude.{
  ℕ, zero, suc, ◌+◌, ◌-◌, ◌/◌, ◌%◌, ◌^◌, ◌≡◌, refl, true, false, none, some, get_elem?, leb, Option,
  ◌>>=◌, if◌then◌else◌, ◌==◌, Ordering,
}
use ringdb.Config.{Config, entry_length}
use ringdb.Memory.{is_eq}
use ringdb.Requests.{ConnectionRequest, key_of}
use ringdb.Stack.{StackEntry, top, empty}
use ringdb.CacheHelper.{CacheLocation, get_buffer_info, get_cur_min_invalid_offset, max_offset}
use ringdb.Traverse.{
  Reading, Descent, descend, step, loop, goes_on, read_request, search_buffer, after_descent,
}

abbrev num_entries : Config → CacheLocation → ℕ
num_entries c l = (l.right_boundary - l.left_boundary) / entry_length c % 2 ^ 32

-- At `offset`, to which the entry on the stack leads, the buffer that has it does not hold the key.
pub record Misses (c : Config) (null_key buffer_size sstable_num : ℕ) (r : Reading) : Type 0 where
  pub entry : StackEntry
  pub conn_req : ConnectionRequest
  pub location : CacheLocation
  pub buffer : ℕ
  pub end : Descent
  pub res : Ordering
  pub on_top : top r.info.stack ≡ some entry
  pub in_hand : get_elem? r.info.requests entry.word1 ≡ some conn_req
  pub cached : get_buffer_info r.info.cache_helper entry.word0 ≡ some location
  pub is_cached : (location.left_boundary == max_offset) ≡ false
  pub buffer_there : get_elem? r.info.page_cache_buffers location.buffer_id ≡ some buffer
  pub descent :
      descend c null_key buffer_size sstable_num
        (num_entries c location + 1)
        r.memory
        buffer
        (num_entries c location)
        (key_of conn_req)
        (record {
          index_in_buffer = (entry.word0 - location.left_boundary) % 2 ^ 32;
          not_null = none;
          res = none;
        })
      ≡ some end
  pub res_set : end.res ≡ some res
  pub not_found : is_eq res ≡ false
  pub not_empty : empty r.info.stack ≡ false
  pub not_waiting : r.info.waiting_on_io ≡ false
  pub within :
      leb
        (get_cur_min_invalid_offset r.info.cache_helper)
        ((end.index_in_buffer + location.left_boundary) % 2 ^ 64)
      ≡ false

-- A number of rounds of the loop, each of which does not fault and is not the last one.
pub rounds : Config → (null_key buffer_size sstable_num : ℕ) → ℕ → Reading → Option Reading
rounds c null_key buffer_size sstable_num zero r = some r
rounds c null_key buffer_size sstable_num (suc n) r = do
  r' ← step c null_key buffer_size sstable_num r
  let rest = rounds c null_key buffer_size sstable_num n r'
  if goes_on c null_key buffer_size sstable_num r' then rest else none

module _ (c : Config) (null_key buffer_size sstable_num : ℕ) (r : Reading)
    (v : Misses c null_key buffer_size sstable_num r) where
  at_offset : ℕ → Reading
  at_offset offset = record r { info = record r.info { desired_sstable_offset = offset } }

  next_offset : ℕ
  next_offset = (v.end.index_in_buffer + v.location.left_boundary) % 2 ^ 64

  read_runs :
      (offset : ℕ)
      → read_request c null_key buffer_size sstable_num (at_offset offset)
        ≡ some (at_offset next_offset)
  unfolding read_request search_buffer after_descent at_offset next_offset
  read_runs offset = rw (
    v.on_top, v.in_hand, v.cached, v.is_cached, search_buffer, v.buffer_there, v.descent,
    after_descent, v.res_set, v.not_found,
  )

  step_runs :
      (offset : ℕ)
      → leb (get_cur_min_invalid_offset r.info.cache_helper) offset ≡ false
      → step c null_key buffer_size sstable_num (at_offset offset) ≡ some (at_offset next_offset)
  unfolding step at_offset
  step_runs offset h = rw (h, step) (read_runs offset)

  goes : (offset : ℕ) → goes_on c null_key buffer_size sstable_num (at_offset offset) ≡ true
  unfolding goes_on at_offset
  goes offset = rw (v.not_empty, v.not_waiting)

  -- `n` rounds after a first one.
  rounds_stay :
      (n offset : ℕ)
      → leb (get_cur_min_invalid_offset r.info.cache_helper) offset ≡ false
      → rounds c null_key buffer_size sstable_num (suc n) (at_offset offset)
        ≡ some (at_offset next_offset)
  unfolding rounds next_offset
  rounds_stay zero offset h = rw (step_runs offset h, goes next_offset)
  rounds_stay (suc n) offset h =
      rw (step_runs offset h, goes next_offset) (rounds_stay n next_offset v.within)

  loops :
      (fuel offset : ℕ)
      → leb (get_cur_min_invalid_offset r.info.cache_helper) offset ≡ false
      → loop c null_key buffer_size sstable_num fuel (at_offset offset) ≡ none
  unfolding loop next_offset
  loops zero offset h = refl
  loops (suc fuel) offset h =
      rw (step_runs offset h, goes next_offset) (loops fuel next_offset v.within)

-- When the buffer at the offset that the stack names does not hold the key in hand, and the offset that the
-- search ends with is still one of the sstable, as is the one that the loop starts with, the loop never
-- ends: however many rounds it goes, none of them faults, and all that they change is the desired
-- offset, which is the same after each of them. So the loop gives no result, whatever the fuel.
pub loop-Misses :
    (c : Config) (null_key buffer_size sstable_num : ℕ) (r : Reading)
    → (v : Misses c null_key buffer_size sstable_num r)
    → leb (get_cur_min_invalid_offset r.info.cache_helper) r.info.desired_sstable_offset ≡ false
    → (n : ℕ)
    → (rounds c null_key buffer_size sstable_num (suc n) r
        ≡ some (record r {
          info = record r.info {
            desired_sstable_offset = (v.end.index_in_buffer + v.location.left_boundary) % 2 ^ 64;
          };
        }))
      × (loop c null_key buffer_size sstable_num n r ≡ none)
unfolding at_offset next_offset
loop-Misses c null_key buffer_size sstable_num r v h n = (
  rounds_stay c null_key buffer_size sstable_num r v n r.info.desired_sstable_offset h,
  loops c null_key buffer_size sstable_num r v n r.info.desired_sstable_offset h,
)
