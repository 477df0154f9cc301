-- ===== src/Dispatch/Single.antt =====
-- A level whose queues are each used by one thread: every part gets into its queue in one pass.
use ringdb.Prelude.{
  ℕ, suc, ◌+◌, ◌^◌, ◌≤◌, ◌<◌, ◌≡◌, refl, ◌∙◌, Bool, true, false, some, List, [], ◌∷◌, ◌++◌, ◌*◌,
  length, ltb, lt→ltb, ◌==◌, not, ◌&&◌, if◌then◌else◌, arith, add32, Bool-cases, inl, inr,
}
use mathlib.Core.List.{append_assoc}
use ringdb.WaitQueue.{WaitQueue, try_push_back, standard_push_back}
use ringdb.WaitQueue.Chain.{Holds}
use ringdb.WaitQueue.Single.{try_push_back-Holds, standard_push_back-Holds}
use ringdb.Dispatch.{Slot, Queued, Turn, serve, pass, queue_all, push_extra, try_producer}

-- The slot's queue is used by one thread and holds `bs`.
pub record IsReady (s : Slot) (bs : List ℕ) : Type 0 where
  pub single : s.queue.is_single_thread ≡ true
  pub holds : Holds s.queue bs

-- Each slot is ready, with what its queue holds, and no part is inserted.
pub data Ready : List Slot → List (List ℕ) → Type 0 where
  none_left : Ready [] []
  next :
      (s : Slot) (ss : List Slot) (bs : List ℕ) (bss : List (List ℕ))
      → IsReady s bs
      → s.inserted ≡ false
      → Ready ss bss
      → Ready (s ∷ ss) (bs ∷ bss)

-- Each slot is ready, and every part is inserted.
pub data Served : List Slot → List (List ℕ) → Type 0 where
  none_left : Served [] []
  next :
      (s : Slot) (ss : List Slot) (bs : List ℕ) (bss : List (List ℕ))
      → IsReady s bs
      → s.inserted ≡ not (s.batch == 0)
      → Served ss bss
      → Served (s ∷ ss) (bs ∷ bss)

-- The part for the next level, as a list.
abbrev pub extra_part : ℕ → List ℕ
extra_part extra = if extra == 0 then [] else extra ∷ []

-- What the queues hold after a pass: each part behind what was there, and the part for the next level
-- behind the first of them.
unfoldable pub with_parts : List Slot → ℕ → List (List ℕ) → List (List ℕ)
with_parts [] extra bss = bss
with_parts (s ∷ ss) extra [] = []
with_parts (s ∷ ss) extra (bs ∷ bss) =
    if s.batch == 0
    then bs ∷ with_parts ss extra bss
    else (bs ++ (s.batch ∷ extra_part extra)) ∷ with_parts ss 0 bss

-- How many batches a pass puts in.
unfoldable pub num_parts : List Slot → ℕ → ℕ
num_parts [] extra = 0
num_parts (s ∷ ss) extra =
    if s.batch == 0 then num_parts ss extra else suc (length (extra_part extra)) + num_parts ss 0

abbrev pub extra_after : List Slot → ℕ → ℕ
extra_after [] extra = extra
extra_after (s ∷ ss) extra = if s.batch == 0 then extra_after ss extra else 0

module _ (spurious : Bool) (s : Slot) (extra n : ℕ) (i : s.inserted ≡ false)
    (b : (s.batch == 0) ≡ false) (single : s.queue.is_single_thread ≡ true)
    (small : n + 2 < 2 ^ 32) where
  abbrev put : WaitQueue → Slot
  put q = record s { queue = q; inserted = true; could_contend = false }

  goes_in : (not (s.batch == 0) && (not s.inserted && try_producer spurious s.queue)) ≡ true
  unfolding try_producer
  goes_in = ground (arith, i, b, single)

  serve_plain :
      (q : WaitQueue)
      → q.is_single_thread ≡ true
      → try_push_back s.queue s.batch s.could_contend ≡ some (true, q)
      → (extra == 0) ≡ true
      → serve spurious s extra n ≡ some (record { slot = put q; extra = 0; num_queued = n + 1 })
  unfolding serve push_extra
  serve_plain q single' run e =
      let count : add32 n 1 ≡ n + 1 = omega arith in rw (goes_in, run, e, single', count)

  serve_extra :
      (q q' : WaitQueue)
      → q'.is_single_thread ≡ true
      → try_push_back s.queue s.batch s.could_contend ≡ some (true, q)
      → standard_push_back q extra ≡ some q'
      → (extra == 0) ≡ false
      → serve spurious s extra n ≡ some (record { slot = put q'; extra = 0; num_queued = n + 2 })
  unfolding serve push_extra
  serve_extra q q' single' run run' e =
      let count : add32 (add32 n 1) 1 ≡ n + 2 = omega arith in
      rw (goes_in, run, e, run', single', count)

-- A turn that puts a part in.
abbrev pub ServedTurn : Bool → Slot → List ℕ → ℕ → ℕ → Type 0
ServedTurn spurious s bs extra n =
    (t : Turn) × (serve spurious s extra n ≡ some t)
    × IsReady t.slot (bs ++ (s.batch ∷ extra_part extra))
    × (t.slot.inserted ≡ not (t.slot.batch == 0))
    × (t.extra ≡ 0)
    × (t.num_queued ≡ n + suc (length (extra_part extra)))

served :
    (spurious : Bool) (s : Slot) (bs : List ℕ) (extra n : ℕ)
    → IsReady s bs
    → s.inserted ≡ false
    → (s.batch == 0) ≡ false
    → n + 2 < 2 ^ 32
    → ServedTurn spurious s bs extra n
served spurious s bs extra n v i b small =
    let (q, run, h, single) =
      try_push_back-Holds s.queue s.batch s.could_contend bs v.single v.holds in
    elim (Bool-cases (extra == 0)) [
      | inl e ↦ (
        record {
          slot = record s { queue = q; inserted = true; could_contend = false };
          extra = 0;
          num_queued = n + 1;
        },
        serve_plain spurious s extra n i b v.single small q single run e,
        rw e (record { single = single; holds = h }),
        rw b,
        refl,
        rw e,
      )
      | inr e ↦
          let (q', run', h', single') =
            standard_push_back-Holds q extra (bs ++ (s.batch ∷ [])) single h in
          (
            record {
              slot = record s { queue = q'; inserted = true; could_contend = false };
              extra = 0;
              num_queued = n + 2;
            },
            serve_extra spurious s extra n i b v.single small q q' single' run run' e,
            rw e (record {
              single = single';
              holds = rw (← append_assoc bs (s.batch ∷ []) (extra ∷ [])) h';
            }),
            rw b,
            refl,
            rw e,
          )
    ]

passed_over :
    (spurious : Bool) (s : Slot) (extra n : ℕ)
    → (s.batch == 0) ≡ true
    → serve spurious s extra n ≡ some (record { slot = s; extra = extra; num_queued = n })
unfolding serve
passed_over spurious s extra n b = rw (serve, b)

pass_cons :
    (spurious : ℕ → Bool) (i : ℕ) (s : Slot) (ss : List Slot) (extra n : ℕ) (t : Turn) (w : Queued)
    → serve (spurious i) s extra n ≡ some t
    → pass spurious (i + 1) ss t.extra t.num_queued ≡ some w
    → pass spurious i (s ∷ ss) extra n ≡ some (record w { slots = t.slot ∷ w.slots })
unfolding pass
pass_cons spurious i s ss extra n t w r k = rw (pass, r, k)

extra_zero : (ss : List Slot) → extra_after ss 0 ≡ 0
extra_zero [] = refl
extra_zero (s ∷ ss) = ground (arith, extra_zero ss)

-- What a pass does to a level that is ready.
abbrev pub Passed : (ℕ → Bool) → ℕ → List Slot → List (List ℕ) → ℕ → ℕ → Type 0
Passed spurious i ss bss extra n =
    (w : Queued) × (pass spurious i ss extra n ≡ some w)
    × Served w.slots (with_parts ss extra bss)
    × (w.extra ≡ extra_after ss extra)
    × (w.num_queued ≡ n + num_parts ss extra)

length-extra_part : (extra : ℕ) → length (extra_part extra) ≤ 1
length-extra_part extra = ground arith

passed :
    (spurious : ℕ → Bool) (i : ℕ) (ss : List Slot) (bss : List (List ℕ)) (extra n : ℕ)
    → Ready ss bss
    → n + 2 * length ss < 2 ^ 32
    → Passed spurious i ss bss extra n
unfolding pass with_parts num_parts
passed spurious i [] (bs ∷ bss) extra n r small = elim r [ ]
passed spurious i (s ∷ ss) [] extra n r small = elim r [ ]
passed spurious i [] [] extra n none_left small =
    (record { slots = []; extra = extra; num_queued = n }, refl, none_left, refl, omega arith)
passed spurious i (s ∷ ss) (bs ∷ bss) extra n (next _ _ _ _ v fresh r) small =
    elim (Bool-cases (s.batch == 0)) [
      | inl b ↦
          let (w, run, sv, ex, count) = passed spurious (i + 1) ss bss extra n r (omega arith) in
          (
            record w { slots = s ∷ w.slots },
            pass_cons spurious i s ss extra n (record { slot = s; extra = extra; num_queued = n }) w
                (passed_over (spurious i) s extra n b) run,
            rw b (next s w.slots bs (with_parts ss extra bss) v (fresh ∙ rw b) sv),
            rw b ex,
            rw b count,
          )
      | inr b ↦
          let (t, run, v', i', ex, count) =
            served (spurious i) s bs extra n v fresh b (omega arith) in
          let (w, run', sv, ex', count') =
            passed spurious (i + 1) ss bss 0 t.num_queued r
              (omega (arith, count, length-extra_part extra)) in
          (
            record w { slots = t.slot ∷ w.slots },
            pass_cons spurious i s ss extra n t w run (rw ex run'),
            rw b (
                next t.slot w.slots (bs ++ (s.batch ∷ extra_part extra)) (with_parts ss 0 bss) v' i'
                  sv),
            rw b (ex' ∙ extra_zero ss),
            rw b (omega (arith, count, count')),
          )
    ]

queue_all_twice :
    (spurious : ℕ → ℕ → Bool) (fuel num_req_batches : ℕ) (w w' : Queued)
    → w.num_queued < num_req_batches
    → w'.num_queued ≡ num_req_batches
    → pass (spurious (suc fuel)) 0 w.slots w.extra w.num_queued ≡ some w'
    → queue_all spurious (suc (suc fuel)) num_req_batches w ≡ some w'
unfolding queue_all
queue_all_twice spurious fuel num_req_batches w w' l e run =
    let end : ltb w'.num_queued num_req_batches ≡ false = ground (arith, e) in
    rw (queue_all, lt→ltb _ _ l, run, end)

-- At a level whose queues are each used by one thread, a batch with a part for an sstable of the level gets
-- all its parts into the queues in one pass, after which the loop ends: every part stands in its own
-- sstable's queue, behind what that held, and the part for the next level stands behind the first
-- of them.
pub queue_all-Served :
    (spurious : ℕ → ℕ → Bool) (fuel : ℕ) (ss : List Slot) (bss : List (List ℕ)) (extra : ℕ)
    → Ready ss bss
    → 2 * length ss < 2 ^ 32
    → 0 < num_parts ss extra
    → (w : Queued) × (queue_all spurious
          (suc (suc fuel))
          (num_parts ss extra)
          (record { slots = ss; extra = extra; num_queued = 0 })
        ≡ some w)
      × Served w.slots (with_parts ss extra bss)
      × (w.extra ≡ extra_after ss extra)
      × (w.num_queued ≡ num_parts ss extra)
queue_all-Served spurious fuel ss bss extra r small some_part =
    let (w, run, sv, ex, count) = passed (spurious (suc fuel)) 0 ss bss extra 0 r (omega arith) in
    let all : w.num_queued ≡ num_parts ss extra = omega (arith, count) in
    (
      w,
      queue_all_twice spurious fuel (num_parts ss extra)
          (record { slots = ss; extra = extra; num_queued = 0 }) w some_part all run,
      sv,
      ex,
      all,
    )
