-- ===== src/SstableInfo.antt =====
-- sstable/sstable_info.hpp: what a worker thread keeps of an sstable. The ring and the file's path are
-- not modelled; the batch in hand is kept by its requests.
use ringdb.Prelude.{ℕ, Bool, List}
use ringdb.Requests.{ConnectionRequest}
use ringdb.CacheHelper.{CacheHelper}
use ringdb.Stack.{Stack}
use ringdb.WaitQueue.{WaitQueue}

pub record SstableInfo : Type 0 where
  pub req_batch_wq : WaitQueue
  pub is_flushed_to : Bool
  pub insert_buffers_from : ℕ
  pub page_cache_buffers : List ℕ
  pub min_key : ℕ
  pub max_key : ℕ
  pub cache_helper : CacheHelper
  pub stack : Stack
  pub requests : List ConnectionRequest
  pub waiting_on_io : Bool
  pub already_waited : Bool
  pub desired_sstable_offset : ℕ
