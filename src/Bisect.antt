-- ===== src/Bisect.antt =====
-- The binary search that the source writes out six times:
--   while (left < right) {
--     mid = (left + right) >> 1;
--     if (less(mid)) left = mid + step; else right = mid;
--   }
-- in MemTable, ReadWritePool and SSTableCacheHelper (aux_data_structures/aux_data_structures_impls).
pub mod Step
pub mod Total
use ringdb.Prelude.{
  ℕ, zero, suc, ◌+◌, ◌-◌, ◌^◌, ◌≤◌, ◌<◌, ◌≡◌, refl, Bool, true, false, Option, none, some, arith,
  ltb, add32, midpoint, Bool-cases, inl, inr, dec_lt, ◌∙◌, ap,
}

-- The final `left`, with the `mid` of the last round (`at` where there was none).
pub record Found : Type 0 where
  pub left : ℕ
  pub at : ℕ

-- `less` is the test of the loop's body; it faults where it reads past the array.
unfoldable pub bisect : (ℕ → Option Bool) → ℕ → ℕ → ℕ → ℕ → ℕ → Option Found
bisect less step zero left right at = none
bisect less step (suc fuel) left right at = elim (ltb left right) [
  | false ↦ some (record { left = left; at = at })
  | true ↦ elim (less (midpoint left right)) [
    | none ↦ none
    | some true ↦
        bisect less step fuel (add32 (midpoint left right) step) right (midpoint left right)
    | some false ↦ bisect less step fuel left (midpoint left right) (midpoint left right)
  ]
]

module _ (less : ℕ → Option Bool) (step fuel left right at : ℕ) (more : left < right) where
  pub bisect_up :
      less (midpoint left right) ≡ some true
      → bisect less step (suc fuel) left right at
        ≡ bisect less step fuel (add32 (midpoint left right) step) right (midpoint left right)
  unfolding bisect
  bisect_up e = ground arith

  pub bisect_down :
      less (midpoint left right) ≡ some false
      → bisect less step (suc fuel) left right at
        ≡ bisect less step fuel left (midpoint left right) (midpoint left right)
  unfolding bisect
  bisect_down e = ground arith

-- `r` splits [low, n): the test passes below it and fails from it on.
pub record Splits (p : ℕ → Bool) (low n r : ℕ) : Type 0 where
  pub low_le : low ≤ r
  pub le_n : r ≤ n
  pub below : (i : ℕ) → low ≤ i → i < r → p i ≡ true
  pub above : (i : ℕ) → r ≤ i → i < n → p i ≡ false

-- The loop's invariant.
record Inv (p : ℕ → Bool) (low n left right : ℕ) : Type 0 where
  ordered : left ≤ right
  low_le : low ≤ left
  right_le : right ≤ n
  below : (i : ℕ) → low ≤ i → i < left → p i ≡ true
  above : (i : ℕ) → right ≤ i → i < n → p i ≡ false

-- What a loop from `left` to `right` ends with: the split, and the last `mid`, which is the place
-- before the split if that is `right`.
pub record Ends (p : ℕ → Bool) (low n left right at : ℕ) (f : Found) : Type 0 where
  pub splits : Splits p low n f.left
  pub within : f.left ≤ right
  pub last : f.left ≡ right → left < right → f.at + 1 ≡ right
  pub idle : left ≡ right → f.at ≡ at

abbrev pub Finds : (ℕ → Option Bool) → (ℕ → Bool) → (low n fuel left right at : ℕ) → Type 0
Finds less p low n fuel left right at =
    (f : Found) × (bisect less 1 fuel left right at ≡ some f) × Ends p low n left right at f

module _ (less : ℕ → Option Bool) (p : ℕ → Bool) (low n : ℕ) (small : n ≤ 2 ^ 31)
    (reads : (i : ℕ) → i < n → less i ≡ some (p i))
    (mono : (i j : ℕ) → i ≤ j → j < n → p j ≡ true → p i ≡ true) where
  upper-Inv :
      (left right : ℕ)
      → Inv p low n left right
      → left < right
      → p (midpoint left right) ≡ true
      → Inv p low n (add32 (midpoint left right) 1) right
  upper-Inv left right v h t = record {
    ordered = omega arith;
    low_le = omega arith;
    right_le = omega arith;
    below = λ i k l. mono i (midpoint left right) (omega arith) (omega arith) t;
    above = v.above;
  }

  lower-Inv :
      (left right : ℕ)
      → Inv p low n left right
      → left < right
      → p (midpoint left right) ≡ false
      → Inv p low n left (midpoint left right)
  lower-Inv left right v h t = record {
    ordered = omega arith;
    low_le = omega arith;
    right_le = omega arith;
    below = v.below;
    above = λ i k l. elim (Bool-cases (p i)) [
      | inl e ↦ cc (mono (midpoint left right) i (omega arith) l e)
      | inr e ↦ e
    ];
  }

  done-Ends :
      (left right at : ℕ)
      → Inv p low n left right
      → ltb left right ≡ false
      → Ends p low n left right at (record { left = left; at = at })
  done-Ends left right at v h = record {
    splits = record {
      low_le = v.low_le;
      le_n = ground arith;
      below = v.below;
      above = λ i k l. v.above i (ground arith) l;
    };
    within = v.ordered;
    last = λ e l. ground arith;
    idle = λ e. refl;
  }

  upper_last :
      (left right at : ℕ) (f : Found)
      → Inv p low n left right
      → left < right
      → Ends p low n (add32 (midpoint left right) 1) right (midpoint left right) f
      → f.left ≡ right
      → f.at + 1 ≡ right
  upper_last left right at f v h e end = elim (dec_lt (add32 (midpoint left right) 1) right) [
    | yes more ↦ e.last end more
    | no over ↦
        let here : add32 (midpoint left right) 1 ≡ right = omega arith in omega (arith, e.idle here)
  ]

  module _ (fuel left right at : ℕ) (v : Inv p low n left right) (l : left < right) where
    up_Finds :
        p (midpoint left right) ≡ true
        → Finds less p low n fuel (add32 (midpoint left right) 1) right (midpoint left right)
        → Finds less p low n (suc fuel) left right at
    up_Finds t (f, run, ends) = (
      f,
      bisect_up less 1 fuel left right at l (reads _ (omega arith) ∙ ap some t) ∙ run,
      record {
        splits = ends.splits;
        within = ends.within;
        last = λ e _. upper_last left right at f v l ends e;
        idle = λ e. absurd (omega arith);
      },
    )

    down_Finds :
        p (midpoint left right) ≡ false
        → Finds less p low n fuel left (midpoint left right) (midpoint left right)
        → Finds less p low n (suc fuel) left right at
    down_Finds t (f, run, ends) = (
      f,
      bisect_down less 1 fuel left right at l (reads _ (omega arith) ∙ ap some t) ∙ run,
      record {
        splits = ends.splits;
        within = omega (arith, ends.within);
        last = λ e _. absurd (omega (arith, ends.within));
        idle = λ e. absurd (omega arith);
      },
    )

  -- With fuel above the distance the loop ends, and reads inside [low, n) only.
  bisect-Finds :
      (fuel left right at : ℕ)
      → right - left < fuel
      → Inv p low n left right
      → Finds less p low n fuel left right at
  unfolding bisect
  bisect-Finds zero left right at h v = absurd (omega arith)
  bisect-Finds (suc fuel) left right at h v = elim (Bool-cases (ltb left right)) [
    | inr done ↦ (_, rw (done, bisect), done-Ends left right at v done)
    | inl more ↦
        let l : left < right = ground arith in
        elim (Bool-cases (p (midpoint left right))) [
          | inl t ↦ up_Finds fuel left right at v l t (
              bisect-Finds fuel (add32 (midpoint left right) 1) right (midpoint left right)
                (omega arith) (upper-Inv left right v l t))
          | inr t ↦ down_Finds fuel left right at v l t (
              bisect-Finds fuel left (midpoint left right) (midpoint left right) (omega arith)
                (lower-Inv left right v l t))
        ]
  ]

  -- The search over [low, right): it ends, and reads inside the array only.
  pub bisect_lem : (fuel at : ℕ) → n < fuel → low ≤ n → Finds less p low n fuel low n at
  bisect_lem fuel at h le = bisect-Finds fuel low n at (omega arith) (record {
    ordered = le;
    low_le = omega arith;
    right_le = omega arith;
    below = λ i k l. absurd (omega arith);
    above = λ i k l. absurd (omega arith);
  })

-- The split is determined by the test.
pub Splits-unique : (p : ℕ → Bool) (low n r s : ℕ) → Splits p low n r → Splits p low n s → r ≡ s
Splits-unique p low n r s x y =
    ground (arith, x.below s, x.above s, y.below r, y.above r, x.above r, y.above s)
