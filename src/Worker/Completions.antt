-- ===== src/Worker/Completions.antt =====
-- What a worker thread does when reads or a write of an sstable have ended (lsm_tree.hpp, the first branch in
-- its main loop).
pub mod Stuck
pub mod Starving
use ringdb.Prelude.{
  ℕ, zero, suc, ◌+◌, ◌-◌, ◌*◌, ◌%◌, ◌^◌, ◌≡◌, Bool, true, Option, none, some, List, [], ◌∷◌, ◌>>=◌,
  ltb, ◌==◌, ◌&&◌, if◌then◌else◌, add32, sub32, is_positive,
}
use ringdb.Config.{Config, num_sstable_levels}
use ringdb.CacheHelper.{
  CacheHelper, map_buffer_to_offset_boundary, set_cur_min_invalid_offset,
  get_id_of_most_recently_selected_buffer,
}
use ringdb.SstableInfo.{SstableInfo}
use ringdb.Worker.Service.{Serving, with_info, read_in_memory}

-- A completed read: its result, an int, and the offset that it was given as data.
pub record Chunk : Type 0 where
  pub res : ℕ
  pub left_boundary : ℕ

-- The state, and the flag of the whole database.
pub record Completed : Type 0 where
  pub serving : Serving
  pub is_practically_full : Bool

module _ (c : Config) (fuel : ℕ) (spurious : ℕ → Bool)
    (null_key buffer_size sstable_num level : ℕ) where
  -- The body of the loop over the completions, for number `j`.
  pub map_chunk : CacheHelper → ℕ → Chunk → Option CacheHelper
  map_chunk h j chunk =
      let buffer_id = add32 (add32 (get_id_of_most_recently_selected_buffer h) 1) j in
      let right_boundary = (chunk.left_boundary + chunk.res) % 2 ^ 64 in
      if is_positive chunk.res
      then (do
        h' ← map_buffer_to_offset_boundary h buffer_id chunk.left_boundary right_boundary
        some (
            if ltb chunk.res buffer_size
            then set_cur_min_invalid_offset h' ((right_boundary + 1) % 2 ^ 64)
            else h'))
      else some (set_cur_min_invalid_offset h chunk.left_boundary)

  unfoldable pub map_chunks : CacheHelper → ℕ → List Chunk → Option CacheHelper
  unfolding map_chunk
  map_chunks h j [] = some h
  map_chunks h j (chunk ∷ chunks) = do h' ← map_chunk h j chunk; map_chunks h' (j + 1) chunks

  -- No completion on the sstable's ring: a write has ended.
  pub flushed : Completed → Completed
  flushed d = record {
    serving = with_info d.serving (record d.serving.idle.info { is_flushed_to = true });
    is_practically_full = level == sub32 (num_sstable_levels c) 1;
  }

  unfoldable pub on_completion : List Chunk → Completed → Option Completed
  unfolding flushed map_chunks
  on_completion [] d = some (flushed d)
  on_completion (chunk ∷ chunks) d = do
    h ← map_chunks d.serving.idle.info.cache_helper 0 (chunk ∷ chunks)
    s ←
        read_in_memory c fuel spurious null_key buffer_size sstable_num level
          (with_info d.serving (record d.serving.idle.info { cache_helper = h }))
    some (record d { serving = s })
