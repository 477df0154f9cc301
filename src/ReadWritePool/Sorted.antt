-- ===== src/ReadWritePool/Sorted.antt =====
-- A sorted row of keys stays sorted when a key goes in at its place.
use ringdb.Prelude.{ℕ, zero, suc, ◌+◌, ◌-◌, ◌≤◌, ◌<◌, ◌≡◌, true, false, arith, dec_lt, ℕ_discrete}
use ringdb.Memory.{Memory, memcmp, memcmp_refl, is_lt, is_gt, not-lt→swap-le, lt→not-gt}

module _ (m : Memory) (width : ℕ) where
  -- No key among the first n of the addresses `k` is above a later one.
  abbrev pub Ordered : (ℕ → ℕ) → ℕ → Type 0
  Ordered k n = (i j : ℕ) → i ≤ j → j < n → is_gt (memcmp m (k i) (k j) width) ≡ false

  -- `k'` is `k` with `b` at `r`.
  pub record At (k k' : ℕ → ℕ) (n r b : ℕ) : Type 0 where
    pub before : (j : ℕ) → j < r → k' j ≡ k j
    pub here : k' r ≡ b
    pub after : (j : ℕ) → r ≤ j → j < n → k' (j + 1) ≡ k j

  le_at :
      (a b a' b' : ℕ)
      → a ≡ a'
      → b ≡ b'
      → is_gt (memcmp m a' b' width) ≡ false
      → is_gt (memcmp m a b width) ≡ false
  le_at a b a' b' p q h = rw (p, q) h

  module _ (k k' : ℕ → ℕ) (n r b : ℕ) (o : Ordered k n) (at : At k k' n r b) (r_le : r ≤ n)
      (lower : (i : ℕ) → i < r → is_lt (memcmp m (k i) b width) ≡ true)
      (upper : (i : ℕ) → r ≤ i → i < n → is_lt (memcmp m (k i) b width) ≡ false) where
    after_pred : (j : ℕ) → r < j → j < n + 1 → k' j ≡ k (j - 1)
    after_pred zero h l = absurd (omega arith)
    after_pred (suc j) h l =
        let e : suc j ≡ j + 1 = omega arith in
        let e' : suc j - 1 ≡ j = omega arith in rw (e', e) (at.after j (omega arith) (omega arith))

    to_here : (i : ℕ) → i ≤ r → is_gt (memcmp m (k' i) b width) ≡ false
    to_here i h = elim (dec_lt i r) [
      | yes l ↦ rw (at.before i l) (lt→not-gt m (k i) b width (lower i l))
      | no e ↦ let e' : i ≡ r = omega arith in rw (e', at.here, memcmp_refl m b width)
    ]

    to_later :
        (i j : ℕ) → i ≤ j → r < j → j < n + 1 → is_gt (memcmp m (k' i) (k (j - 1)) width) ≡ false
    to_later i j h l b' = elim (dec_lt i r) [
      | yes l' ↦ rw (at.before i l') (o i (j - 1) (omega arith) (omega arith))
      | no g ↦ elim (ℕ_discrete i r) [
        | yes e ↦
            rw (e, at.here)
              (not-lt→swap-le m (k (j - 1)) b width (upper (j - 1) (omega arith) (omega arith)))
        | no ne ↦
            rw (after_pred i (omega arith) (omega arith))
              (o (i - 1) (j - 1) (omega arith) (omega arith))
      ]
    ]

    pub insert-Ordered : Ordered k' (n + 1)
    insert-Ordered i j h l = elim (dec_lt j r) [
      | yes l' ↦ rw (at.before i (omega arith), at.before j l') (o i j h (omega arith))
      | no g ↦ elim (ℕ_discrete j r) [
        | yes e ↦ rw (e, at.here) (to_here i (omega arith))
        | no ne ↦ rw (after_pred j (omega arith) l) (to_later i j h (omega arith) l)
      ]
    ]
