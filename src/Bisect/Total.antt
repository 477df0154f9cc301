-- ===== src/Bisect/Total.antt =====
-- The search ends, whatever the order of the entries.
use ringdb.Prelude.{
  ℕ, zero, suc, ◌-◌, ◌^◌, ◌≤◌, ◌<◌, ◌≡◌, refl, ◌∙◌, ◌+◌, Bool, Option, some, arith, add32, midpoint,
  dec_lt, Bool-cases, inl, inr, ap,
}
use ringdb.Bisect.{Found, bisect, bisect_up, bisect_down}

-- A result inside the searched range, whose last `mid` is a place of the array.
abbrev pub EndsIn : (ℕ → Option Bool) → (n fuel left right at : ℕ) → Type 0
EndsIn less n fuel left right at =
    (f : Found) × (bisect less 1 fuel left right at ≡ some f)
    × (f.left ≤ right)
    × (f.at ≤ n - 1)
    × (f.left ≡ right → left < right → f.at + 1 ≡ right)
    × (left ≡ right → f.at ≡ at)

module _ (less : ℕ → Option Bool) (n : ℕ) (small : n ≤ 2 ^ 31)
    (reads : (i : ℕ) → i < n → (b : Bool) × (less i ≡ some b)) where
  pub bisect_total :
      (fuel left right at : ℕ)
      → right - left < fuel
      → left ≤ right
      → right ≤ n
      → at ≤ n - 1
      → EndsIn less n fuel left right at
  unfolding bisect
  bisect_total zero left right at h o le a = absurd (omega arith)
  bisect_total (suc fuel) left right at h o le a = elim (dec_lt left right) [
    | no end ↦ (
      record { left = left; at = at },
      ground arith,
      o,
      a,
      λ e l. absurd (omega (arith, l)),
      λ e. refl,
    )
    | yes l ↦
        let (b, e) = reads (midpoint left right) (omega arith) in
        elim (Bool-cases b) [
          | inl t ↦
              let (f, run, fl, fa, last, idle) =
                bisect_total fuel (add32 (midpoint left right) 1) right (midpoint left right)
                  (omega arith) (omega arith) le (omega arith) in
              (
                f,
                bisect_up less 1 fuel left right at l (e ∙ ap some t) ∙ run,
                fl,
                fa,
                λ e m. elim (dec_lt (add32 (midpoint left right) 1) right) [
                  | yes more ↦ last e more
                  | no end ↦ omega (arith, idle (omega arith))
                ],
                λ e. absurd (omega arith),
              )
          | inr t ↦
              let (f, run, fl, fa, last, idle) =
                bisect_total fuel left (midpoint left right) (midpoint left right) (omega arith)
                  (omega arith) (omega arith) (omega arith) in
              (
                f,
                bisect_down less 1 fuel left right at l (e ∙ ap some t) ∙ run,
                omega arith,
                fa,
                λ e m. absurd (omega (arith, e)),
                λ e. absurd (omega arith),
              )
        ]
  ]
