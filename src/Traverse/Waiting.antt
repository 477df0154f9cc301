-- ===== src/Traverse/Waiting.antt =====
-- What the reading loop does for an sstable that is marked as waiting.
use ringdb.Prelude.{ℕ, suc, ◌≡◌, refl, true, false, some, arith}
use ringdb.Config.{Config}
use ringdb.Memory.{Memory}
use ringdb.Requests.{ConnectionRequest}
use ringdb.CacheHelper.{CacheLocation}
use ringdb.Stack.{empty}
use ringdb.SstableInfo.{SstableInfo}
use ringdb.Traverse.{
  Reading, Descent, move_down_to_children, read_from_storage, after_descent, search_buffer,
  read_request, settle, Next, step, goes_on, loop,
}

module _ (c : Config) (null_key buffer_size sstable_num : ℕ) where
  move_down-waits :
      (m : Memory) (info info' : SstableInfo)
      → info.waiting_on_io ≡ true
      → move_down_to_children c null_key buffer_size sstable_num m info ≡ some info'
      → info'.waiting_on_io ≡ true
  unfolding move_down_to_children
  move_down-waits m info info' w e = ground arith

  storage-waits :
      (r r' : Reading)
      → read_from_storage c null_key buffer_size sstable_num r ≡ some r'
      → r'.info.waiting_on_io ≡ true
  unfolding read_from_storage
  storage-waits r r' e = ground arith

  descent-waits :
      (r r' : Reading) (conn_req : ConnectionRequest) (l : CacheLocation) (buffer : ℕ) (d : Descent)
      → r.info.waiting_on_io ≡ true
      → after_descent c null_key buffer_size sstable_num r conn_req l buffer d ≡ some r'
      → r'.info.waiting_on_io ≡ true
  unfolding after_descent
  descent-waits r r' conn_req l buffer d w e = grind (arith, move_down-waits)

  buffer-waits :
      (r r' : Reading) (conn_req : ConnectionRequest) (l : CacheLocation)
      → r.info.waiting_on_io ≡ true
      → search_buffer c null_key buffer_size sstable_num r conn_req l ≡ some r'
      → r'.info.waiting_on_io ≡ true
  unfolding search_buffer
  buffer-waits r r' conn_req l w e = grind (arith, descent-waits)

  step-waits :
      (r r' : Reading)
      → r.info.waiting_on_io ≡ true
      → step c null_key buffer_size sstable_num r ≡ some r'
      → r'.info.waiting_on_io ≡ true
  unfolding step read_request
  step-waits r r' w e = grind (arith, move_down-waits, storage-waits, buffer-waits)

  ends-waits :
      (r : Reading)
      → r.info.waiting_on_io ≡ true
      → goes_on c null_key buffer_size sstable_num r ≡ false
  unfolding goes_on
  ends-waits r w = ground arith

  -- For an sstable that is marked as waiting the loop makes one step only, whatever the step leads to, and the
  -- sstable is still marked behind it.
  pub loop-once :
      (fuel : ℕ) (r r' : Reading)
      → r.info.waiting_on_io ≡ true
      → step c null_key buffer_size sstable_num r ≡ some r'
      → (loop c null_key buffer_size sstable_num (suc fuel) r ≡ some r')
        × (r'.info.waiting_on_io ≡ true)
  unfolding loop
  loop-once fuel r r' w e =
      let w' = step-waits r r' w e in (rw (loop, e, ends-waits r' w') refl, w')

-- A batch stays with its sstable as long as requests are left.
pub settle_more :
    (num_sstable_levels level : ℕ) (info : SstableInfo)
    → empty info.stack ≡ false
    → settle num_sstable_levels info level ≡ (info, Next.stays_here)
unfolding settle
settle_more num_sstable_levels level info e = ground arith
