-- ===== src/Startup/Tests.antt =====
-- The theorems on the marks: four sstables to a thread, two to a level; and the CMake constants.
use ringdb.Prelude.{
  ℕ, zero, suc, ◌+◌, ◌<◌, ◌≤◌, ap, sym, ◌≡◌, ◌↔◌, refl, Bool, true, false, none, some, List, [],
  ◌∷◌, length, get_elem?, replicate, arith,
}
use ringdb.Config.{Config, cmake}
use ringdb.Guards.{fresh}
use ringdb.Startup.{LevelFlags, mark_threads}
use ringdb.Startup.Sharing.{OneThread, mark_threads-OneThread, mark_threads-none}

-- Six levels, of which a thread serves two.
abbrev small : Config
small = record cmake {
  total_sstable_storage_space_mb = 24;
  memtable_size_mb_bits = 1;
  level_factor = 2;
  num_sstable_worker_threads = 3;
}

abbrev blank : LevelFlags
blank = record {
  guarded = record { guard = fresh false; buffer_queue_guards = fresh false ∷ fresh false ∷ [] };
  queues = false ∷ false ∷ [];
}

abbrev levels : List LevelFlags
levels = replicate 6 blank

sized :
    (n i : ℕ) (l : LevelFlags)
    → 0 ≤ i
    → get_elem? (replicate n blank) i ≡ some l
    → length l.queues ≡ 2
sized zero i l g e = cc
sized (suc n) zero l g e =
    let same : blank ≡ l = cc in ap {A = LevelFlags} {B = ℕ} (λ x. length x.queues) (sym same)
sized (suc n) (suc i) l g e = sized n i l (omega arith) e

mark_threads-OneThread_example :
    (ls' : List LevelFlags) × (mark_threads small levels ≡ some ls')
    × ((level j : ℕ)
        → 0 < level
        → level + 1 < 6
        → j + 1 < 2
        → (l : LevelFlags) × (flag : Bool) × (get_elem? ls' level ≡ some l)
          × (get_elem? l.queues j ≡ some flag)
          × ((flag ≡ true) ↔ OneThread small level j))
mark_threads-OneThread_example =
    mark_threads-OneThread small 2 refl (omega arith) (omega arith) levels refl (omega arith)
      (sized 6)

abbrev blank_ten : LevelFlags
blank_ten = record {
  guarded = record { guard = fresh false; buffer_queue_guards = replicate 10 (fresh false) };
  queues = replicate 10 false;
}

mark_threads-none_example : mark_threads cmake (replicate 50 blank_ten) ≡ none
mark_threads-none_example =
    mark_threads-none cmake (omega arith) (replicate 50 blank_ten) (omega arith)
