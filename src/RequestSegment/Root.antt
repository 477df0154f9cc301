-- ===== src/RequestSegment/Root.antt =====
-- The tree has no entry but its root.
use ringdb.Prelude.{
  ℕ, suc, ◌+◌, ◌*◌, ◌/◌, ◌%◌, ◌^◌, ◌<◌, ◌≡◌, refl, Bool, true, false, Option, none, some, List,
  ◌>>=◌, get_elem?, store, store-none, store_lem, set, length, length-set, ltb, add32, sub32,
  minus_one, midpoint, arith, OrFault, bind_split, bind_some, dec_lt, Option-cases, inl, inr, ◌⊎◌,
  ◌==◌,
}
use ringdb.Config.{Config, memtable_size, entry_length}
use ringdb.Memory.{Memory, memcpy}
use ringdb.Stack.{Stack, StackEntry, push_top, top, pop_top, empty}
use ringdb.RequestSegment.{Building, add_child, build_step, build, insert_memtable}

module _ (c : Config) (data_start memtable_data : ℕ) where
  -- A child's tree index would go in front of the array.
  add_child-none :
      (t : Bool) (b : Building) (child left right base place from : ℕ)
      → b.back ≡ minus_one
      → length b.top_tree_index < 2 ^ 31
      → (add_child c data_start memtable_data t b child left right base place from ≡ none)
        ⊎ (add_child c data_start memtable_data t b child left right base place from ≡ some b)
  unfolding add_child
  add_child-none false b child left right base place from e small = inr refl
  add_child-none true b child left right base place from e small =
      inl (elim (Option-cases (push_top b.stack child left right 0)) [
        | inl f ↦ rw f
        | inr (s, f) ↦
            rw (f, store-none b.top_tree_index b.back (add32 base place) (omega (arith, e, small)))
      ])

  abbrev popped : Building → Building
  popped b = record b { stack = pop_top b.stack; back = sub32 b.back 1 }

  step_none :
      (b : Building)
      → b.back ≡ 0
      → length b.top_tree_index < 2 ^ 31
      → (build_step c data_start memtable_data b ≡ none)
        ⊎ (build_step c data_start memtable_data b ≡ some (popped b))
  unfolding build_step
  step_none b e small =
      let at : (popped b).back ≡ minus_one = omega (arith, e) in
      let left : StackEntry → ℕ → Option Building = λ x i.
        add_child c data_start memtable_data (ltb (midpoint x.word1 x.word0) x.word0) (popped b)
          (midpoint x.word1 x.word0) x.word1 x.word0 (i * 2 % 2 ^ 32) 1 x.word1 in
      let right : StackEntry → ℕ → Building → Option Building = λ x i b'.
        add_child c data_start memtable_data (ltb x.word0 (midpoint x.word0 x.word2)) b'
          (midpoint x.word0 x.word2) x.word0 x.word2 (i * 2 % 2 ^ 32) 2 x.word2 in
      bind_split (top b.stack)
        (λ x. get_elem? b.top_tree_index b.back >>= λ i. left x i >>= right x i) (some (popped b))
        (λ x.
          bind_split (get_elem? b.top_tree_index b.back) (λ i. left x i >>= right x i)
            (some (popped b))
            (λ i.
              bind_some (left x i) (popped b) (right x i) (some (popped b))
                (add_child-none (ltb (midpoint x.word1 x.word0) x.word0) (popped b)
                  (midpoint x.word1 x.word0) x.word1 x.word0 (i * 2 % 2 ^ 32) 1 x.word1 at small)
                (add_child-none (ltb x.word0 (midpoint x.word0 x.word2)) (popped b)
                  (midpoint x.word0 x.word2) x.word0 x.word2 (i * 2 % 2 ^ 32) 2 x.word2 at small)))

  build_twice :
      (fuel : ℕ) (b : Building)
      → b.back ≡ 0
      → length b.top_tree_index < 2 ^ 31
      → b.stack.back ≡ 1
      → OrFault (build c data_start memtable_data (suc (suc fuel)) b) (some (popped b))
  unfolding build empty pop_top
  build_twice fuel b e small one =
      let more : (b.stack.back == 0) ≡ false = ground (arith, one) in
      let end : (sub32 b.stack.back 1 == 0) ≡ true = ground (arith, one) in
      elim (step_none b e small) [
        | inl f ↦ inl (rw (build, more, f))
        | inr f ↦ inr (rw (build, more, f, end))
      ]

  start : Memory → Stack → List ℕ → Building
  start m s t = record {
    memory = memcpy m data_start (memtable_data + memtable_size c / 2) (entry_length c);
    stack = s;
    top_tree_index = t;
    back = 0;
  }

  Root : ℕ → Memory → Stack → List ℕ → Type 0
  Root fuel m stack indices =
      (insert_memtable c data_start memtable_data fuel m stack indices ≡ none)
      ⊎ ((b : Building) × (insert_memtable c data_start memtable_data fuel m stack indices ≡ some b)
          × (b.memory ≡ memcpy m data_start (memtable_data + memtable_size c / 2) (entry_length c)))

  push_fails :
      (fuel : ℕ) (m : Memory) (stack : Stack) (indices : List ℕ)
      → push_top stack (memtable_size c / 2) 0 (memtable_size c) 0 ≡ none
      → Root fuel m stack indices
  unfolding insert_memtable Root
  push_fails fuel m stack indices e = inl (rw e)

  store_fails :
      (fuel : ℕ) (m : Memory) (stack s : Stack) (indices : List ℕ)
      → push_top stack (memtable_size c / 2) 0 (memtable_size c) 0 ≡ some s
      → store indices 0 0 ≡ none
      → Root fuel m stack indices
  unfolding insert_memtable Root
  store_fails fuel m stack s indices e f = inl (rw (e, f))

  both_run :
      (fuel : ℕ) (m : Memory) (stack s : Stack) (indices t : List ℕ)
      → push_top stack (memtable_size c / 2) 0 (memtable_size c) 0 ≡ some s
      → store indices 0 0 ≡ some t
      → OrFault (build c data_start memtable_data fuel (start m s t)) (some (popped (start m s t)))
      → Root fuel m stack indices
  unfolding insert_memtable Root start
  both_run fuel m stack s indices t e f (inl g) = inl (rw (e, f, g))
  both_run fuel m stack s indices t e f (inr g) = inr (popped (start m s t), rw (e, f, g), refl)

  roots :
      (fuel : ℕ) (m : Memory) (stack : Stack) (indices : List ℕ)
      → stack.back ≡ 0
      → length indices < 2 ^ 31
      → Root (suc (suc fuel)) m stack indices
  unfolding push_top start
  roots fuel m stack indices e small =
      let x : StackEntry = record {
        word0 = memtable_size c / 2;
        word1 = 0;
        word2 = memtable_size c;
        word3 = 0;
      } in
      elim (Option-cases (store stack.cells stack.back x)) [
        | inl f ↦ push_fails (suc (suc fuel)) m stack indices (rw f)
        | inr (d, f) ↦
            let s : Stack = record stack { back = add32 stack.back 1; cells = d } in
            let run : push_top stack (memtable_size c / 2) 0 (memtable_size c) 0 ≡ some s = rw f in
            elim (dec_lt 0 (length indices)) [
              | no z ↦
                  store_fails (suc (suc fuel)) m stack s indices run
                    (store-none indices 0 0 (omega arith))
              | yes l ↦
                  both_run (suc (suc fuel)) m stack s indices (set indices 0 0) run
                    (store_lem indices 0 0 l)
                    (build_twice fuel (start m s (set indices 0 0)) refl
                      (omega (arith, length-set indices 0 0, small)) (omega (arith, e)))
            ]
      ]

-- On an empty stack insert_memtable either faults or copies one entry only, that in the middle of the
-- table, to the root of the tree: after the first pop the index of a child would go in front of
-- the array of indices.
pub insert_memtable-root :
    (c : Config) (data_start memtable_data fuel : ℕ) (m : Memory) (stack : Stack) (indices : List ℕ)
    → stack.back ≡ 0
    → length indices < 2 ^ 31
    → (insert_memtable c data_start memtable_data (suc (suc fuel)) m stack indices ≡ none)
      ⊎ ((b : Building) × (insert_memtable c data_start memtable_data
              (suc (suc fuel))
              m
              stack
              indices
            ≡ some b)
          × (b.memory ≡ memcpy m data_start (memtable_data + memtable_size c / 2) (entry_length c)))
unfolding Root
insert_memtable-root c data_start memtable_data fuel m stack indices e small =
    roots c data_start memtable_data fuel m stack indices e small
