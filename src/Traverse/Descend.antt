-- ===== src/Traverse/Descend.antt =====
-- The loop down the tree of keys in a page cache buffer.
use ringdb.Prelude.{
  ℕ, zero, suc, ◌+◌, ◌-◌, ◌*◌, ◌^◌, ◌≤◌, ◌<◌, ◌≡◌, refl, ◌∙◌, Bool, true, false, Option, some,
  lt→ltb, arith, if◌then◌else◌, Ordering, dec_lt, Bool-cases, inl, inr, ◌⊎◌,
}
use ringdb.Config.{Config}
use ringdb.Memory.{Memory, memcmp, is_eq, is_gt, is_lt, memcmp-swap, memcmp-lt-le, memcmp-le-lt}
use ringdb.Traverse.{Descent, descend, entry_at, next_index}

-- `k` is in the subtree of `i`.
pub data Below : ℕ → ℕ → Type 0 where
  here : (i : ℕ) → Below i i
  in_left : (i k : ℕ) → Below (i * 2 + 1) k → Below i k
  in_right : (i k : ℕ) → Below (i * 2 + 2) k → Below i k

Below-le : (i k : ℕ) → Below i k → i ≤ k
Below-le i k (here _) = omega arith
Below-le i k (in_left _ _ b) = omega (arith, Below-le (i * 2 + 1) k b)
Below-le i k (in_right _ _ b) = omega (arith, Below-le (i * 2 + 2) k b)

module _ (c : Config) (null_key buffer_size sstable_num : ℕ) (m : Memory)
    (buffer num_entries key : ℕ) where
  abbrev pub node : ℕ → ℕ
  node i = entry_at c buffer i

  -- The first `num_entries` entries are a search tree of keys that are not null.
  pub record IsTree : Type 0 where
    pub small : num_entries ≤ 2 ^ 31
    pub not_null :
        (i : ℕ) → i < num_entries → is_eq (memcmp m (node i) null_key c.key_length) ≡ false
    pub on_left :
        (i k : ℕ)
        → k < num_entries
        → Below (i * 2 + 1) k
        → memcmp m (node k) (node i) c.key_length ≡ Ordering.lt
    pub on_right :
        (i k : ℕ)
        → k < num_entries
        → Below (i * 2 + 2) k
        → memcmp m (node i) (node k) c.key_length ≡ Ordering.lt

  -- One round that goes on.
  descend_more :
      (fuel : ℕ) (d : Descent) (res : Ordering) (j : ℕ)
      → d.index_in_buffer < num_entries
      → is_eq (memcmp m (node d.index_in_buffer) null_key c.key_length) ≡ false
      → memcmp m (node d.index_in_buffer) key c.key_length ≡ res
      → is_eq res ≡ false
      → next_index d.index_in_buffer res ≡ j
      → descend c null_key buffer_size sstable_num (suc fuel) m buffer num_entries key d
        ≡ descend c null_key buffer_size sstable_num fuel m buffer num_entries key
            (record { index_in_buffer = j; not_null = some true; res = some res })
  unfolding descend
  descend_more fuel d res j l nn r ne nx = rw (descend, lt→ltb _ _ l, nn, r, ne, nx)

  Descends : ℕ → Descent → ℕ → Type 0
  Descends fuel d k =
      descend c null_key buffer_size sstable_num fuel m buffer num_entries key d
      ≡ some (record { index_in_buffer = k; not_null = some true; res = some Ordering.eq })

  module _ (tree : IsTree) (k : ℕ) (k_in : k < num_entries)
      (found : memcmp m (node k) key c.key_length ≡ Ordering.eq) where
    above :
        (i : ℕ)
        → memcmp m (node k) (node i) c.key_length ≡ Ordering.lt
        → memcmp m (node i) key c.key_length ≡ Ordering.gt
    above i h =
        let le : is_gt (memcmp m key (node k) c.key_length) ≡ false =
          ground (arith, memcmp-swap m (node k) key c.key_length) in
        let lt : is_lt (memcmp m key (node i) c.key_length) ≡ true =
          memcmp-le-lt m key (node k) (node i) c.key_length le (ground arith) in
        ground (arith, memcmp-swap m key (node i) c.key_length)

    under :
        (i : ℕ)
        → memcmp m (node i) (node k) c.key_length ≡ Ordering.lt
        → memcmp m (node i) key c.key_length ≡ Ordering.lt
    under i h =
        let lt : is_lt (memcmp m (node i) key c.key_length) ≡ true =
          memcmp-lt-le m (node i) (node k) key c.key_length (ground arith) (ground arith) in
        ground arith

    descend-Descends :
        (fuel i : ℕ) (a : Option Bool) (r : Option Ordering)
        → Below i k
        → k - i < fuel
        → Descends fuel (record { index_in_buffer = i; not_null = a; res = r }) k
    unfolding descend Descends next_index
    descend-Descends zero i a r b h = absurd (omega arith)
    descend-Descends (suc fuel) i a r (here _) h =
        rw (descend, lt→ltb _ _ k_in, tree.not_null k k_in, found)
    descend-Descends (suc fuel) i a r (in_left _ _ b) h =
        let low = Below-le (i * 2 + 1) k b in
        descend_more fuel (record { index_in_buffer = i; not_null = a; res = r }) Ordering.gt
          (i * 2 + 1) (omega (arith, low, k_in)) (tree.not_null i (omega (arith, low, k_in)))
          (above i (tree.on_left i k k_in b)) refl (omega (arith, low, k_in, tree.small))
        ∙ descend-Descends fuel (i * 2 + 1) (some true) (some Ordering.gt) b (omega (arith, low))
    descend-Descends (suc fuel) i a r (in_right _ _ b) h =
        let low = Below-le (i * 2 + 2) k b in
        descend_more fuel (record { index_in_buffer = i; not_null = a; res = r }) Ordering.lt
          (i * 2 + 2) (omega (arith, low, k_in)) (tree.not_null i (omega (arith, low, k_in)))
          (under i (tree.on_right i k k_in b)) refl (omega (arith, low, k_in, tree.small))
        ∙ descend-Descends fuel (i * 2 + 2) (some true) (some Ordering.lt) b (omega (arith, low))

  next_bounds :
      (i : ℕ) (o : Ordering)
      → i < num_entries
      → num_entries ≤ 2 ^ 30
      → (next_index i o ≡ i * 2 + 1 + (if is_gt o then 0 else 1))
  unfolding next_index
  next_bounds i o h l = ground arith

  Ends : ℕ → Descent → Type 0
  Ends fuel d =
      (d' : Descent) × (descend c null_key buffer_size sstable_num fuel m buffer num_entries key d
        ≡ some d')

  -- The loop ends, whatever the buffer holds: the index grows with every round.
  descend-Ends :
      num_entries ≤ 2 ^ 30
      → (fuel : ℕ) (d : Descent) → num_entries - d.index_in_buffer < fuel
      → Ends fuel d
  unfolding descend Ends
  descend-Ends small zero d h = absurd (omega arith)
  descend-Ends small (suc fuel) d h = elim (dec_lt d.index_in_buffer num_entries) [
    | no out ↦ (d, ground arith)
    | yes l ↦ elim (Bool-cases (is_eq (memcmp m (node d.index_in_buffer) null_key c.key_length))) [
      | inl null ↦ (record d { not_null = some false }, rw (descend, lt→ltb _ _ l, null))
      | inr not_null ↦
          elim (Bool-cases (is_eq (memcmp m (node d.index_in_buffer) key c.key_length))) [
            | inl hit ↦ (
              record d {
                not_null = some true;
                res = some (memcmp m (node d.index_in_buffer) key c.key_length);
              },
              rw (descend, lt→ltb _ _ l, not_null, hit),
            )
            | inr more ↦
                let o = memcmp m (node d.index_in_buffer) key c.key_length in
                let (d', run) =
                  descend-Ends small fuel
                    (record {
                      index_in_buffer = next_index d.index_in_buffer o;
                      not_null = some true;
                      res = some o;
                    })
                    (omega (arith, next_bounds d.index_in_buffer o l small)) in
                (
                  d',
                  descend_more fuel d o (next_index d.index_in_buffer o) l not_null refl more refl
                      ∙ run,
                )
          ]
    ]
  ]

-- If the entries of a buffer are a search tree, and the entry at a place `k` below the place where the
-- loop starts has the key looked for, the loop ends at `k` with the key found.
pub descend-finds :
    (c : Config) (null_key buffer_size sstable_num : ℕ) (m : Memory)
    (buffer num_entries key i k : ℕ) (a : Option Bool) (r : Option Ordering)
    → IsTree c null_key buffer_size sstable_num m buffer num_entries key
    → Below i k
    → k < num_entries
    → memcmp m (entry_at c buffer k) key c.key_length ≡ Ordering.eq
    → descend c null_key buffer_size sstable_num
        (num_entries + 1)
        m
        buffer
        num_entries
        key
        (record { index_in_buffer = i; not_null = a; res = r })
      ≡ some (record { index_in_buffer = k; not_null = some true; res = some Ordering.eq })
unfolding Descends
descend-finds c null_key buffer_size sstable_num m buffer num_entries key i k a r tree b l e =
    descend-Descends c null_key buffer_size sstable_num m buffer num_entries key tree k l e
      (num_entries + 1) i a r b (omega arith)

-- Whatever the buffer holds, the loop ends within one round for each entry and the last test.
pub descend-ends :
    (c : Config) (null_key buffer_size sstable_num : ℕ) (m : Memory) (buffer num_entries key : ℕ)
    (d : Descent)
    → num_entries ≤ 2 ^ 30
    → (d' : Descent) × (descend c null_key buffer_size sstable_num
          (num_entries + 1)
          m
          buffer
          num_entries
          key
          d
        ≡ some d')
unfolding Ends
descend-ends c null_key buffer_size sstable_num m buffer num_entries key d small =
    descend-Ends c null_key buffer_size sstable_num m buffer num_entries key small (num_entries + 1)
      d (omega arith)

pub Below-cases : (i k : ℕ) → Below i k → (i ≡ k) ⊎ (i * 2 + 1 ≤ k)
Below-cases i k (here _) = inl refl
Below-cases i k (in_left _ _ b) = inr (Below-le (i * 2 + 1) k b)
Below-cases i k (in_right _ _ b) = inr (omega (arith, Below-le (i * 2 + 2) k b))
