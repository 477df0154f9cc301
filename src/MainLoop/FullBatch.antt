-- ===== src/MainLoop/FullBatch.antt =====
-- The batch of reads once it has been sent.
use ringdb.Prelude.{ℕ, ◌<◌, Option, some, List, [], ◌∷◌, ◌>>=◌}
use ringdb.Config.{Config}
use ringdb.Requests.{ConnectionRequest}
use ringdb.SparseIndex.{SparseIndex}
use ringdb.ReadWritePool.{ReadWritePool}
use ringdb.MainLoop.{Main, Served, hand_on}

-- A read that was not answered, with its place in the batch that is served.
pub record Missed : Type 0 where
  pub at : ℕ
  pub request : ConnectionRequest

-- Every place is one of the first `n`.
pub data Within (n : ℕ) : List Missed → Type 0 where
  no_more : Within n []
  one_more : (x : Missed) (xs : List Missed) → x.at < n → Within n xs → Within n (x ∷ xs)

module _ (c : Config) (unset : ConnectionRequest) (index : SparseIndex) (null_key ref : ℕ)
    (after_sent : ReadWritePool → ReadWritePool) where
  pub hand_all : Main → ReadWritePool → List Missed → Option Served
  hand_all s pool [] = some (record { main = s; rw_pool = pool })
  hand_all s pool (x ∷ xs) = do
    d ← hand_on c unset index null_key ref after_sent s pool x.at x.request
    hand_all d.main d.rw_pool xs
