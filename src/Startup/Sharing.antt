-- ===== src/Startup/Sharing.antt =====
-- Which of the queues that initialize marks as used by one thread are used by one thread only.
use native.Mathlib.Nat.{
  div-div-eq-div-mul, mul-add-div_right, div-eq_of_lt, mod-add-div', mod-lt, div-eq_of_lt-le,
  mul_comm,
}
use ringdb.Prelude.{
  Option-cases, ltb→lt, lt→ltb, ℕ, zero, suc, ◌+◌, ◌-◌, ◌*◌, ◌/◌, ◌%◌, ◌^◌, ◌≤◌, ◌<◌, ◌≡◌, ◌≢◌, ◌↔◌,
  inl, inr, refl, sym, ap, ◌∙◌, Bool, true, none, some, List, length, get_elem?, ltb, arith, dec_lt,
}
use ringdb.Config.{Config, worker_sstable_batch_size, num_sstable_levels}
use ringdb.Startup.{
  LevelFlags, mark_threads, location_of, at_level, mark_level, mark_levels, mark_all,
}
use ringdb.Startup.Marks.{Sized, mark_threads-Marked}

module _ (c : Config) where
  -- The thread that serves an sstable: a thread's first sstable is its number times the batch size.
  abbrev pub worker_of : ℕ → ℕ
  worker_of sstable_num = sstable_num / worker_sstable_batch_size c

  -- The wait queue of sstable j of a level: who takes from it also puts everything into it.
  abbrev pub OneThread : ℕ → ℕ → Type 0
  OneThread level j =
      (i : ℕ)
      → i < c.level_factor
      → worker_of ((level - 1) * c.level_factor + i) ≡ worker_of (level * c.level_factor + j)

  -- A thread serves `levels` levels.
  module _ (levels : ℕ) (whole : worker_sstable_batch_size c ≡ levels * c.level_factor)
      (some_levels : 0 < levels) (factor : 0 < c.level_factor) where
    level_worker :
        (level j : ℕ) → j < c.level_factor → worker_of (level * c.level_factor + j) ≡ level / levels
    level_worker level j h =
        ap (λ d. (level * c.level_factor + j) / d) (whole ∙ mul_comm levels c.level_factor)
        ∙ sym (div-div-eq-div-mul (level * c.level_factor + j) c.level_factor levels)
        ∙ ap (λ x. x / levels)
            (mul-add-div_right factor level j ∙ rw (div-eq_of_lt h) (omega arith))

    same_div : (level : ℕ) → 0 < level % levels → (level - 1) / levels ≡ level / levels
    same_div level h =
        div-eq_of_lt-le levels {m = level - 1} (omega (arith, mod-add-div' level levels))
          (grind (arith, mod-add-div' level levels, mod-lt level {m = levels} some_levels))

    other_div : (level : ℕ) → 0 < level → level % levels ≡ 0 → (level - 1) / levels ≢ level / levels
    other_div level h z e =
        let whole_part : level / levels * levels ≡ level =
          omega (arith, mod-add-div' level levels) in
        let less : (level - 1) / levels * levels ≤ level - 1 =
          omega (arith, mod-add-div' (level - 1) levels) in
        let same : (level - 1) / levels * levels ≡ level / levels * levels =
          ap (λ q. q * levels) e in
        omega (arith, mod-add-div' (level - 1) levels, mod-lt (level - 1) {m = levels} some_levels)

    -- The producers and the consumer are one thread exactly if the level is not a thread's first.
    OneThread-iff :
        (level j : ℕ)
        → 0 < level
        → j < c.level_factor
        → (OneThread level j → 0 < level % levels) × (0 < level % levels → OneThread level j)
    OneThread-iff level j h l = (
      λ all. elim (dec_lt 0 (level % levels)) [
        | yes p ↦ p
        | no z ↦ absurd (
            other_div level h (omega arith)
              (sym (level_worker (level - 1) 0 factor) ∙ all 0 factor ∙ level_worker level j l))
      ],
      λ p i b. level_worker (level - 1) i b ∙ same_div level p ∙ sym (level_worker level j l),
    )

    -- Where a thread serves a whole number of levels, a level that is neither the first nor the last has
    -- its queues, but for the last sstable's, marked exactly if one thread uses them. There are at least
    -- two levels, each with a flag for each of its queues.
    pub mark_threads-OneThread :
        (ls : List LevelFlags)
        → length ls ≡ num_sstable_levels c
        → 1 < num_sstable_levels c
        → Sized c ls 0
        → (ls' : List LevelFlags) × (mark_threads c ls ≡ some ls')
          × ((level j : ℕ)
              → 0 < level
              → level + 1 < num_sstable_levels c
              → j + 1 < c.level_factor
              → (l : LevelFlags) × (flag : Bool) × (get_elem? ls' level ≡ some l)
                × (get_elem? l.queues j ≡ some flag)
                × ((flag ≡ true) ↔ OneThread level j))
    mark_threads-OneThread ls size h sized =
        let (ls', run, all) =
          mark_threads-Marked c levels whole some_levels factor ls size h sized in
        (
          ls',
          run,
          λ level j g b i.
              let (l, at, m) = all level g b in
              let (up, down) = OneThread-iff level j g (omega arith) in
              (
                l,
                ltb 0 (level % levels),
                at,
                m.shared j i,
                (λ t. down (ltb→lt 0 (level % levels) t), λ o. lt→ltb 0 (level % levels) (up o)),
              ),
        )

    -- The last sstable of a thread's first level has its queue marked too, though several threads use it.
    mark_threads-last :
        (ls : List LevelFlags)
        → length ls ≡ num_sstable_levels c
        → 1 < num_sstable_levels c
        → Sized c ls 0
        → 2 ≤ c.level_factor
        → c.level_factor < 2 ^ 32
        → (ls' : List LevelFlags) × (mark_threads c ls ≡ some ls')
          × ((level : ℕ)
              → 0 < level
              → level + 1 < num_sstable_levels c
              → level % levels ≡ 0
              → (l : LevelFlags) × (get_elem? ls' level ≡ some l)
                × (get_elem? l.queues (c.level_factor - 1) ≡ some true)
                × (¬ OneThread level (c.level_factor - 1)))
    mark_threads-last ls size h sized two word =
        let (ls', run, all) =
          mark_threads-Marked c levels whole some_levels factor ls size h sized in
        (
          ls',
          run,
          λ level g b z.
              let (l, at, m) = all level g b in
              let (up, down) = OneThread-iff level (c.level_factor - 1) g (omega arith) in
              (
                l,
                at,
                m.last ∙ ap some (lt→ltb _ _ (omega (arith, z))),
                λ o. omega (arith, up o, z),
              ),
        )

  module _ (few : worker_sstable_batch_size c < c.level_factor) where
    mark_level-none : (level : ℕ) (l : LevelFlags) → mark_level c level l ≡ none
    unfolding mark_level location_of
    mark_level-none level l =
        let e : worker_sstable_batch_size c / c.level_factor ≡ 0 = div-eq_of_lt few in rw e refl

    at_level-none : (ls : List LevelFlags) (i : ℕ) → at_level c ls i (mark_level c i) ≡ none
    unfolding at_level
    at_level-none ls i = elim (Option-cases (get_elem? ls i)) [
      | inl e ↦ rw e
      | inr (l, e) ↦ rw (e, mark_level-none i l)
    ]

    mark_levels-none :
        (rounds : ℕ) (ls : List LevelFlags) (level : ℕ)
        → 0 < rounds
        → mark_levels c rounds ls level ≡ none
    unfolding mark_levels
    mark_levels-none zero ls level h = absurd (omega arith)
    mark_levels-none (suc rounds) ls level h = rw (mark_levels, at_level-none ls level)

    -- Where a thread serves fewer sstables than a level has, and there is a level in between, the start
    -- is an error: it divides by zero.
    pub mark_threads-none :
        (ls : List LevelFlags) → 2 < num_sstable_levels c → mark_threads c ls ≡ none
    unfolding mark_threads
    mark_threads-none ls h = elim (Option-cases (at_level c ls 0 (mark_all c))) [
      | inl e ↦ rw e
      | inr (l, e) ↦ rw (e, mark_levels-none (num_sstable_levels c - 2) l 1 (omega arith))
    ]
