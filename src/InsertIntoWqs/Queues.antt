-- ===== src/InsertIntoWqs/Queues.antt =====
-- What the wait queues of a level hold before and after the parts of a batch are queued.
use ringdb.Prelude.{
  ℕ, zero, suc, ◌≤◌, ◌<◌, ◌≡◌, refl, ap, Bool, true, false, List, [], ◌∷◌, ◌++◌, ◌==◌, get_or, set,
  replicate, length, map, arith,
}
use ringdb.WaitQueue.{WaitQueue}
use ringdb.WaitQueue.Chain.{Holds}
use ringdb.Dispatch.{Slot}
use ringdb.Dispatch.Single.{Ready, Served, with_parts, num_parts}
use ringdb.InsertIntoWqs.{slots_of, queue_of}

-- Queues of one thread each, with what they hold.
pub data QueuesHold : List WaitQueue → List (List ℕ) → Type 0 where
  no_queues : QueuesHold [] []
  queue :
      (q : WaitQueue) (qs : List WaitQueue) (bs : List ℕ) (bss : List (List ℕ))
      → q.is_single_thread ≡ true
      → Holds q bs
      → QueuesHold qs bss
      → QueuesHold (q ∷ qs) (bs ∷ bss)

-- Behind what a queue holds.
abbrev pub put_at : List (List ℕ) → ℕ → ℕ → List (List ℕ)
put_at bss i batch = set bss i (get_or bss i [] ++ (batch ∷ []))

pub slots-Ready :
    (qs : List WaitQueue) (bss : List (List ℕ)) (parts : List ℕ) (us : List Bool)
    → QueuesHold qs bss
    → length qs ≤ length parts
    → length qs ≤ length us
    → Ready (slots_of qs parts us) bss
unfolding slots_of
slots-Ready [] [] parts us h p u = Ready.none_left
slots-Ready (q ∷ qs) (bs ∷ bss) (b ∷ parts) (x ∷ us) (queue _ _ _ _ s h r) p u =
    Ready.next (record { queue = q; batch = b; inserted = false; could_contend = x })
      (slots_of qs parts us) bs bss (record { single = s; holds = h }) refl
      (slots-Ready qs bss parts us r (omega arith) (omega arith))
slots-Ready [] (bs ∷ bss) parts us h p u = elim h [ ]
slots-Ready (q ∷ qs) [] parts us h p u = elim h [ ]
slots-Ready (q ∷ qs) (bs ∷ bss) [] us h p u = absurd (omega arith)
slots-Ready (q ∷ qs) (bs ∷ bss) (b ∷ parts) [] h p u = absurd (omega arith)

pub length-slots :
    (qs : List WaitQueue) (parts : List ℕ) (us : List Bool)
    → length (slots_of qs parts us) ≤ length qs
unfolding slots_of
length-slots [] parts us = omega arith
length-slots (q ∷ qs) [] us = omega arith
length-slots (q ∷ qs) (b ∷ parts) [] = omega arith
length-slots (q ∷ qs) (b ∷ parts) (x ∷ us) = omega (arith, length-slots qs parts us)

-- No parts at all.
none_put :
    (qs : List WaitQueue) (bss : List (List ℕ)) (n : ℕ) (us : List Bool)
    → QueuesHold qs bss
    → (with_parts (slots_of qs (replicate n 0) us) 0 bss ≡ bss)
      × (num_parts (slots_of qs (replicate n 0) us) 0 ≡ 0)
unfolding slots_of with_parts num_parts
none_put [] [] n us h = (refl, refl)
none_put (q ∷ qs) (bs ∷ bss) zero us h = (refl, refl)
none_put (q ∷ qs) (bs ∷ bss) (suc n) [] h = (refl, refl)
none_put (q ∷ qs) (bs ∷ bss) (suc n) (x ∷ us) (queue _ _ _ _ s h r) =
    let (w, k) = none_put qs bss n us r in (ap (◌∷◌ bs) w, k)
none_put [] (bs ∷ bss) n us h = elim h [ ]
none_put (q ∷ qs) [] n us h = elim h [ ]

-- One part, for sstable i.
pub one_put :
    (qs : List WaitQueue) (bss : List (List ℕ)) (n i batch : ℕ) (us : List Bool)
    → QueuesHold qs bss
    → 0 < batch
    → i < length qs
    → length qs ≤ n
    → length qs ≤ length us
    → (with_parts (slots_of qs (set (replicate n 0) i batch) us) 0 bss ≡ put_at bss i batch)
      × (num_parts (slots_of qs (set (replicate n 0) i batch) us) 0 ≡ 1)
unfolding slots_of with_parts num_parts
one_put [] [] n i batch us h pos l room flags = absurd (omega arith)
one_put (q ∷ qs) (bs ∷ bss) zero i batch us h pos l room flags = absurd (omega arith)
one_put (q ∷ qs) (bs ∷ bss) (suc n) i batch [] h pos l room flags = absurd (omega arith)
one_put (q ∷ qs) (bs ∷ bss) (suc n) zero batch (x ∷ us) (queue _ _ _ _ s h r) pos l room flags =
    let (w, k) = none_put qs bss n us r in
    let some_batch : (batch == 0) ≡ false = ground arith in
    (rw (some_batch, w) refl, rw (some_batch, k) refl)
one_put (q ∷ qs) (bs ∷ bss) (suc n) (suc i) batch (x ∷ us) (queue _ _ _ _ s h r) pos l room flags =
    let (w, k) = one_put qs bss n i batch us r pos (omega arith) (omega arith) (omega arith) in
    (ap (◌∷◌ bs) w, k)
one_put [] (bs ∷ bss) n i batch us h pos l room flags = elim h [ ]
one_put (q ∷ qs) [] n i batch us h pos l room flags = elim h [ ]

pub Served-hold :
    (ss : List Slot) (bss : List (List ℕ))
    → Served ss bss
    → QueuesHold (map {A = Slot} {B = WaitQueue} queue_of ss) bss
Served-hold [] [] h = no_queues
Served-hold (s ∷ ss) (bs ∷ bss) (Served.next _ _ _ _ v i r) =
    queue s.queue (map {A = Slot} {B = WaitQueue} queue_of ss) bs bss v.single v.holds
      (Served-hold ss bss r)
Served-hold [] (bs ∷ bss) h = elim h [ ]
Served-hold (s ∷ ss) [] h = elim h [ ]
