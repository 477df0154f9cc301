-- ===== src/Startup/Marks.antt =====
-- What the loops of initialize leave in the flags.
use native.Mathlib.Nat.{mul-div_cancel}
use ringdb.Prelude.{
  ℕ, zero, suc, ◌+◌, ◌-◌, ◌*◌, ◌/◌, ◌%◌, ◌≤◌, ◌<◌, ◌≡◌, ◌⊎◌, inl, inr, refl, sym, ap, ◌∙◌, Bool,
  true, ◌&&◌, some, List, length, get_elem?, set, store_lem, length-set, get_elem?-set_self,
  get_elem?-set_ne, get_elem?-total, ltb, arith, dec_lt, sub32, Option,
}
use ringdb.Config.{Config, worker_sstable_batch_size, num_sstable_levels}
use ringdb.Level.{set_is_single_thread}
use ringdb.Startup.{
  LevelFlags, mark_queues, mark_all, location_of, mark_level, at_level, mark_levels, mark_threads,
}

-- The flags from j on, n of them, are `flag`; the others are kept.
record Filled (flags flags' : List Bool) (j n : ℕ) (flag : Bool) : Type 0 where
  size : length flags' ≡ length flags
  inside : (i : ℕ) → j ≤ i → i < j + n → get_elem? flags' i ≡ some flag
  outside : (i : ℕ) → (i < j) ⊎ (j + n ≤ i) → get_elem? flags' i ≡ get_elem? flags i

module _ (c : Config) where
  mark_queues-Filled :
      (n : ℕ) (flags : List Bool) (j : ℕ) (flag : Bool)
      → j + n ≤ length flags
      → (flags' : List Bool) × (mark_queues c n flags j flag ≡ some flags')
        × Filled flags flags' j n flag
  unfolding mark_queues
  mark_queues-Filled zero flags j flag h = (
    flags,
    refl,
    record { size = refl; inside = λ i g l. absurd (omega arith); outside = λ i o. refl },
  )
  mark_queues-Filled (suc n) flags j flag h =
      let (flags', run, f) =
        mark_queues-Filled n (set flags j flag) (j + 1) flag
          (omega (arith, length-set flags j flag)) in
      (
        flags',
        rw (mark_queues, store_lem flags j flag (omega arith)) run,
        record {
          size = f.size ∙ length-set flags j flag;
          inside = λ i g l. elim (dec_lt j i) [
            | yes later ↦ f.inside i (omega arith) (omega arith)
            | no here ↦
                let e : i ≡ j = omega arith in
                f.outside i (inl (omega arith))
                ∙ rw e (get_elem?-set_self flags j flag (omega arith))
          ];
          outside = λ i o.
              f.outside i (elim o [ inl l ↦ inl (omega arith) | inr g ↦ inr (omega arith) ])
              ∙ get_elem?-set_ne flags flag
                  (λ (e : j ≡ i). elim o [ inl l ↦ omega arith | inr g ↦ omega arith ]);
        },
      )

  -- What a level in between is left with: the flag of each of its queues.
  pub record Marked (levels level : ℕ) (l : LevelFlags) : Type 0 where
    pub size : length l.queues ≡ c.level_factor
    pub shared :
        (j : ℕ) → j + 1 < c.level_factor → get_elem? l.queues j ≡ some (ltb 0 (level % levels))
    pub last :
        get_elem? l.queues (c.level_factor - 1)
        ≡ some (ltb (level % levels) (sub32 c.level_factor 1))

  -- Each level from `level` on has a queue for each of its sstables.
  abbrev pub Sized : List LevelFlags → ℕ → Type 0
  Sized ls level =
      (i : ℕ) (l : LevelFlags)
      → level ≤ i
      → get_elem? ls i ≡ some l
      → length l.queues ≡ c.level_factor

  module _ (levels : ℕ) (whole : worker_sstable_batch_size c ≡ levels * c.level_factor)
      (some_levels : 0 < levels) (factor : 0 < c.level_factor) where
    location_lem : (level : ℕ) → location_of c level ≡ some (level % levels)
    unfolding location_of
    location_lem level =
        let e : worker_sstable_batch_size c / c.level_factor ≡ levels =
          ap (λ b. b / c.level_factor) whole ∙ mul-div_cancel levels factor in
        rw e (ground arith)

    mark_level_runs :
        (level : ℕ) (l : LevelFlags) (flags : List Bool)
        → mark_queues c (c.level_factor - 1) l.queues 0 (ltb 0 (level % levels)) ≡ some flags
        → c.level_factor - 1 < length flags
        → mark_level c level l
          ≡ some (record {
            guarded =
                set_is_single_thread l.guarded
                  (ltb 0 (level % levels) && ltb (level % levels) (sub32 c.level_factor 1));
            queues = set flags (c.level_factor - 1) (ltb (level % levels) (sub32 c.level_factor 1));
          })
    unfolding mark_level
    mark_level_runs level l flags run h =
        rw (location_lem level, run, store_lem flags (c.level_factor - 1) _ h)

    mark_level-Marked :
        (level : ℕ) (l : LevelFlags)
        → length l.queues ≡ c.level_factor
        → (l' : LevelFlags) × (mark_level c level l ≡ some l') × Marked levels level l'
    mark_level-Marked level l size =
        let (flags, run, f) =
          mark_queues-Filled (c.level_factor - 1) l.queues 0 (ltb 0 (level % levels))
            (omega (arith, size)) in
        let size' : length flags ≡ c.level_factor = f.size ∙ size in
        let last = ltb (level % levels) (sub32 c.level_factor 1) in
        (
          record {
            guarded =
                set_is_single_thread l.guarded
                  (ltb 0 (level % levels) && ltb (level % levels) (sub32 c.level_factor 1));
            queues = set flags (c.level_factor - 1) last;
          },
          mark_level_runs level l flags run (omega (arith, size')),
          record {
            size = length-set flags (c.level_factor - 1) last ∙ size';
            shared = λ j h.
                get_elem?-set_ne flags last (λ (e : c.level_factor - 1 ≡ j). omega arith)
                ∙ f.inside j (omega arith) (omega arith);
            last = get_elem?-set_self flags (c.level_factor - 1) last (omega (arith, size'));
          },
        )

  mark_all-size :
      (l : LevelFlags)
      → length l.queues ≡ c.level_factor
      → (l' : LevelFlags) × (mark_all c l ≡ some l')
  unfolding mark_all
  mark_all-size l size =
      let (flags, run, f) =
        mark_queues-Filled c.level_factor l.queues 0 true (omega (arith, size)) in
      (record { guarded = set_is_single_thread l.guarded true; queues = flags }, rw run)

  at_level_lem :
      (ls : List LevelFlags) (i : ℕ) (f : LevelFlags → Option LevelFlags) (l l' : LevelFlags)
      → get_elem? ls i ≡ some l
      → f l ≡ some l'
      → i < length ls
      → at_level c ls i f ≡ some (set ls i l')
  unfolding at_level
  at_level_lem ls i f l l' e r h = rw (e, r, store_lem ls i l' h)

  Sized-set :
      (ls : List LevelFlags) (level : ℕ) (l : LevelFlags)
      → Sized ls level
      → Sized (set ls level l) (level + 1)
  Sized-set ls level l sized i l' g e =
      sized i l' (omega arith) (sym (get_elem?-set_ne ls l (λ (same : level ≡ i). omega arith)) ∙ e)

  module _ (levels : ℕ) (whole : worker_sstable_batch_size c ≡ levels * c.level_factor)
      (some_levels : 0 < levels) (factor : 0 < c.level_factor) where
    -- The levels from `level` on, as many as there are rounds, are marked; the others are kept.
    record AllMarked (ls ls' : List LevelFlags) (level rounds : ℕ) : Type 0 where
      size : length ls' ≡ length ls
      marked :
          (i : ℕ)
          → level ≤ i
          → i < level + rounds
          → (l : LevelFlags) × (get_elem? ls' i ≡ some l) × Marked levels i l
      kept : (i : ℕ) → (i < level) ⊎ (level + rounds ≤ i) → get_elem? ls' i ≡ get_elem? ls i

    mark_levels-suc :
        (rounds : ℕ) (ls ls' : List LevelFlags) (level : ℕ)
        → at_level c ls level (mark_level c level) ≡ some ls'
        → mark_levels c (suc rounds) ls level ≡ mark_levels c rounds ls' (level + 1)
    unfolding mark_levels
    mark_levels-suc rounds ls ls' level e = rw (mark_levels, e)

    mark_levels-AllMarked :
        (rounds : ℕ) (ls : List LevelFlags) (level : ℕ)
        → level + rounds ≤ length ls
        → Sized ls level
        → (ls' : List LevelFlags) × (mark_levels c rounds ls level ≡ some ls')
          × AllMarked ls ls' level rounds
    unfolding mark_levels
    mark_levels-AllMarked zero ls level h sized = (
      ls,
      refl,
      record { size = refl; marked = λ i g l. absurd (omega arith); kept = λ i o. refl },
    )
    mark_levels-AllMarked (suc rounds) ls level h sized =
        let (l, at) = get_elem?-total ls level (omega arith) in
        let (l', run, m) =
          mark_level-Marked levels whole some_levels factor level l
            (sized level l (omega arith) at) in
        let (ls', run', a) =
          mark_levels-AllMarked rounds (set ls level l') (level + 1)
            (omega (arith, length-set ls level l')) (Sized-set ls level l' sized) in
        (
          ls',
          mark_levels-suc rounds ls (set ls level l') level
                (at_level_lem ls level (mark_level c level) l l' at run (omega arith))
              ∙ run',
          record {
            size = a.size ∙ length-set ls level l';
            marked = λ i g b. elim (dec_lt level i) [
              | yes later ↦ a.marked i (omega arith) (omega arith)
              | no here ↦
                  let e : i ≡ level = omega arith in
                  rw e (
                    l',
                    a.kept level (inl (omega arith)) ∙ get_elem?-set_self ls level l' (omega arith),
                    m,
                  )
            ];
            kept = λ i o.
                a.kept i (elim o [ inl b ↦ inl (omega arith) | inr g ↦ inr (omega arith) ])
                ∙ get_elem?-set_ne ls l'
                    (λ (e : level ≡ i). elim o [ inl b ↦ omega arith | inr g ↦ omega arith ]);
          },
        )

    threads_run :
        (ls one two three : List LevelFlags)
        → at_level c ls 0 (mark_all c) ≡ some one
        → mark_levels c (num_sstable_levels c - 2) one 1 ≡ some two
        → at_level c two (num_sstable_levels c - 1) (mark_all c) ≡ some three
        → mark_threads c ls ≡ some three
    unfolding mark_threads
    threads_run ls one two three r r' r'' = rw (r, r') r''

    -- Every level but the first and the last is marked.
    pub mark_threads-Marked :
        (ls : List LevelFlags)
        → length ls ≡ num_sstable_levels c
        → 1 < num_sstable_levels c
        → Sized ls 0
        → (ls' : List LevelFlags) × (mark_threads c ls ≡ some ls')
          × ((level : ℕ)
              → 0 < level
              → level + 1 < num_sstable_levels c
              → (l : LevelFlags) × (get_elem? ls' level ≡ some l) × Marked levels level l)
    mark_threads-Marked ls size h sized =
        let end = num_sstable_levels c - 1 in
        let (l, at) = get_elem?-total ls 0 (omega (arith, size)) in
        let (l', run) = mark_all-size l (sized 0 l (omega arith) at) in
        let one = set ls 0 l' in
        let size' : length one ≡ num_sstable_levels c = length-set ls 0 l' ∙ size in
        let (ls', run', a) =
          mark_levels-AllMarked (num_sstable_levels c - 2) one 1 (omega (arith, size'))
            (Sized-set ls 0 l' sized) in
        let size'' : length ls' ≡ num_sstable_levels c = a.size ∙ size' in
        let (k, at') = get_elem?-total ls' end (omega (arith, size'')) in
        let at'' : get_elem? ls end ≡ some k =
          sym (get_elem?-set_ne ls l' (λ (e : 0 ≡ end). omega arith))
          ∙ sym (a.kept end (inr (omega arith)))
          ∙ at' in
        let (k', run'') = mark_all-size k (sized end k (omega arith) at'') in
        (
          set ls' end k',
          threads_run ls one ls' (set ls' end k')
              (at_level_lem ls 0 (mark_all c) l l' at run (omega (arith, size))) run'
              (at_level_lem ls' end (mark_all c) k k' at' run'' (omega (arith, size''))),
          λ level g b.
              let (x, at_x, m) = a.marked level (omega arith) (omega arith) in
              (x, get_elem?-set_ne ls' k' (λ (e : end ≡ level). omega arith) ∙ at_x, m),
        )
