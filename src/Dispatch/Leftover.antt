-- ===== src/Dispatch/Leftover.antt =====
-- A batch none of whose parts is for an sstable of the level.
use ringdb.Prelude.{
  ℕ, zero, suc, ◌+◌, ◌<◌, ◌≡◌, refl, Bool, true, false, none, some, List, [], ◌∷◌, lt→ltb, ◌==◌,
  not, ◌&&◌, arith,
}
use ringdb.Dispatch.{Slot, Queued, serve, pass, queue_all}

-- No sstable has a part that is not inserted.
pub data Idle : List Slot → Type 0 where
  none_left : Idle []
  no_part : (s : Slot) (ss : List Slot) → s.batch ≡ 0 → Idle ss → Idle (s ∷ ss)
  done : (s : Slot) (ss : List Slot) → s.inserted ≡ true → Idle ss → Idle (s ∷ ss)

serve_idle :
    (spurious : Bool) (s : Slot) (extra n : ℕ)
    → (not (s.batch == 0) && not s.inserted) ≡ false
    → serve spurious s extra n ≡ some (record { slot = s; extra = extra; num_queued = n })
unfolding serve
serve_idle spurious s extra n h = ground arith

pass_cons :
    (spurious : ℕ → Bool) (i : ℕ) (s : Slot) (ss : List Slot) (extra n : ℕ)
    → (not (s.batch == 0) && not s.inserted) ≡ false
    → pass spurious (i + 1) ss extra n ≡ some (record { slots = ss; extra = extra; num_queued = n })
    → pass spurious i (s ∷ ss) extra n
      ≡ some (record { slots = s ∷ ss; extra = extra; num_queued = n })
unfolding pass
pass_cons spurious i s ss extra n h k = rw (pass, serve_idle (spurious i) s extra n h, k)

pass_idle :
    (spurious : ℕ → Bool) (i : ℕ) (ss : List Slot) (extra n : ℕ)
    → Idle ss
    → pass spurious i ss extra n ≡ some (record { slots = ss; extra = extra; num_queued = n })
unfolding pass
pass_idle spurious i [] extra n h = refl
pass_idle spurious i (s ∷ ss) extra n (no_part _ _ e h) =
    pass_cons spurious i s ss extra n (ground arith) (pass_idle spurious (i + 1) ss extra n h)
pass_idle spurious i (s ∷ ss) extra n (done _ _ e h) =
    pass_cons spurious i s ss extra n (ground arith) (pass_idle spurious (i + 1) ss extra n h)

-- When every sstable of the level has no part, or has it inserted, and the count is still below the
-- number of parts, as for a batch all of whose requests are for the next level, the loop never ends.
queue_all-Idle :
    (fuel : ℕ) (spurious : ℕ → ℕ → Bool) (num_req_batches : ℕ) (w : Queued)
    → Idle w.slots
    → w.num_queued < num_req_batches
    → queue_all spurious fuel num_req_batches w ≡ none
unfolding queue_all
queue_all-Idle zero spurious num_req_batches w h l = refl
queue_all-Idle (suc fuel) spurious num_req_batches w h l =
    rw (queue_all, lt→ltb _ _ l, pass_idle (spurious fuel) 0 w.slots w.extra w.num_queued h)
      (queue_all-Idle fuel spurious num_req_batches w h l)
