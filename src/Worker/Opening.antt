-- ===== src/Worker/Opening.antt =====
-- The first turn of a worker thread for an sstable (lsm_tree.hpp, the branch on desired_sstable_offset ==
-- -2): its keys, its file's path, the call that opens the file, and its page cache buffers.
pub mod Paths
pub mod Buffers
use ringdb.Prelude.{
  ℕ, zero, suc, ◌+◌, ◌-◌, ◌*◌, ◌/◌, ◌%◌, ◌^◌, ◌≡◌, Bool, true, false, Option, none, some, List, [],
  ◌∷◌, ◌++◌, ◌>>=◌, length, take, store, ltb, ◌==◌, if◌then◌else◌, add32,
}
use ringdb.Config.{Config, max_sstable_height}
use ringdb.Memory.{Memory, fill}
use ringdb.CacheHelper.{add_buffer}
use ringdb.SstableInfo.{SstableInfo}
use ringdb.Worker.{Call, Place, place_of}

-- Bytes put into memory from `at` on.
pub write_bytes : Memory → ℕ → List ℕ → Memory
write_bytes m at [] = m
write_bytes m at (b ∷ bs) = write_bytes (fill m at 1 b) (at + 1) bs

-- The decimal digits of a number of at most `fuel` digits; a word of 32 bits has at most ten.
pub digits : ℕ → ℕ → List ℕ
digits zero n = []
digits (suc fuel) n =
    let more = digits fuel (n / 10) in
    if ltb n 10 then (48 + n) ∷ [] else more ++ ((48 + n % 10) ∷ [])

-- snprintf(at, size, "%u", n), whose result is the number of digits.
pub snprintf : Memory → ℕ → ℕ → ℕ → Memory
unfolding write_bytes digits
snprintf m at size n = write_bytes m at (take (size - 1) (digits 10 n) ++ (0 ∷ []))

-- "/sstab1e" where RINGDB_TEST is defined, else "/sstable".
pub directory : Bool → List ℕ
directory ringdb_test =
    47 ∷ 115 ∷ 115 ∷ 116 ∷ 97 ∷ 98 ∷ (if ringdb_test then 49 else 108) ∷ 101 ∷ []

-- The directory's name goes to the address of the structure, `info_at`, and not to `file_path`. The
-- lengths level_str_len and sstable_number_str_len are 10.
pub write_path : Bool → ℕ → ℕ → Memory → Place → Memory
unfolding write_bytes digits snprintf directory
write_path ringdb_test info_at file_path m p =
    let dir_len = length (digits 10 p.level) in
    let m' = snprintf (write_bytes m info_at (directory ringdb_test)) (file_path + 8) 10 p.level in
    snprintf (fill m' (file_path + dir_len) 1 47) (file_path + dir_len + 1) 10 p.index_in_level

-- Memory, what is kept of the sstable, and the calls made.
pub record Opening : Type 0 where
  pub memory : Memory
  pub info : SstableInfo
  pub calls : List Call

-- The addresses of the structure, of its `file_path` and of the thread's page cache buffers, and the length
-- of a buffer, fair_aligned_sstable_page_cache_buffer_size.
module _ (c : Config) (ringdb_test : Bool) (info_at file_path buffers_at buffer_size : ℕ) where
  -- for (m = 0; m < max_sstable_height; ++m), with the number of rounds.
  pub set_buffers : ℕ → ℕ → SstableInfo → ℕ → Option SstableInfo
  set_buffers zero sstable_num info m = some info
  set_buffers (suc rounds) sstable_num info m = do
    d ← store info.page_cache_buffers m (buffers_at + buffer_size * add32 sstable_num m % 2 ^ 32)
    set_buffers rounds sstable_num
        (record info { page_cache_buffers = d; cache_helper = add_buffer info.cache_helper })
        (m + 1)

  pub open_file : ℕ → Opening → Option Opening
  unfolding set_buffers
  open_file sstable_num o = do
    let m = fill (fill o.memory o.info.min_key c.key_length 255) o.info.max_key c.key_length 0
    info ←
        set_buffers (max_sstable_height c) sstable_num
          (record o.info { desired_sstable_offset = 0; insert_buffers_from = max_sstable_height c })
          0
    some (record {
      memory = write_path ringdb_test info_at file_path m (place_of c sstable_num);
      info = info;
      calls =
          o.calls
          ++ Call.prep_openat file_path ∷ Call.prep_msg_to_scheduler sstable_num ∷ Call.submit ∷ [];
    })

  -- The second half of a turn of the first loop.
  pub opening_turn : ℕ → Opening → Option Opening
  unfolding open_file
  opening_turn sstable_num o =
      if o.info.desired_sstable_offset == 2 ^ 64 - 2 then open_file sstable_num o else some o
