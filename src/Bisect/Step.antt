-- ===== src/Bisect/Step.antt =====
-- The search with a step of more than one place, as MemTable makes it over bytes.
use ringdb.Prelude.{
  ℕ, zero, suc, ◌+◌, ◌-◌, ◌^◌, ◌≤◌, ◌<◌, ◌≡◌, ◌∙◌, Bool, true, false, Option, some, arith, add32,
  midpoint, dec_lt, Bool-cases, inl, inr, ap,
}
use ringdb.Bisect.{Found, bisect, bisect_up, bisect_down}

module _ (less : ℕ → Option Bool) (step : ℕ) (pos : 0 < step) where
  pub stops :
      (fuel left right at : ℕ)
      → right ≤ left
      → bisect less step (suc fuel) left right at ≡ some (record { left = left; at = at })
  unfolding bisect
  stops fuel left right at h = ground arith

  -- If the test passes everywhere, the search ends at or behind the end.
  pub bisect_all :
      (n : ℕ)
      → n + step ≤ 2 ^ 31
      → ((i : ℕ) → i < n → less i ≡ some true)
      → (fuel left at : ℕ) → n - left < fuel
      → (f : Found) × (bisect less step fuel left n at ≡ some f) × (n ≤ f.left)
  bisect_all n small all zero left at h = absurd (omega arith)
  bisect_all n small all (suc fuel) left at h = elim (dec_lt left n) [
    | no end ↦ (record { left = left; at = at }, stops fuel left n at (omega arith), omega arith)
    | yes l ↦
        let (f, run, past) =
          bisect_all n small all fuel (add32 (midpoint left n) step) (midpoint left n)
            (omega arith) in
        (f, bisect_up less step fuel left n at l (all (midpoint left n) (omega arith)) ∙ run, past)
  ]

  not_first :
      (p : ℕ → Bool) (right : ℕ) → p 0 ≡ true → p (midpoint 0 right) ≡ false → 0 < midpoint 0 right
  not_first p right first t = elim (dec_lt 0 (midpoint 0 right)) [
    | yes l ↦ l
    | no z ↦ let e : midpoint 0 right ≡ 0 = omega arith in cc (ap p e)
  ]

  -- If the test passes at the first place, the search over at most one step ends behind that step.
  pub bisect_first :
      (p : ℕ → Bool)
      → step ≤ 2 ^ 30
      → ((i : ℕ) → i < step → less i ≡ some (p i))
      → p 0 ≡ true
      → (fuel right at : ℕ) → right ≤ step
      → 0 < right
      → right < fuel
      → (f : Found) × (bisect less step fuel 0 right at ≡ some f) × (step ≤ f.left)
  bisect_first p small reads first zero right at h z l = absurd (omega arith)
  bisect_first p small reads first (suc zero) right at h z l = absurd (omega arith)
  bisect_first p small reads first (suc (suc fuel)) right at h z l =
      elim (Bool-cases (p (midpoint 0 right))) [
        | inl t ↦ (
          record { left = add32 (midpoint 0 right) step; at = midpoint 0 right },
          bisect_up less step (suc fuel) 0 right at z
                (reads (midpoint 0 right) (omega arith) ∙ ap some t)
              ∙ stops fuel (add32 (midpoint 0 right) step) right (midpoint 0 right) (omega arith),
          omega arith,
        )
        | inr t ↦
            let (f, run, past) =
              bisect_first p small reads first (suc fuel) (midpoint 0 right) (midpoint 0 right)
                (omega arith) (not_first p right first t) (omega arith) in
            (
              f,
              bisect_down less step (suc fuel) 0 right at z
                    (reads (midpoint 0 right) (omega arith) ∙ ap some t)
                  ∙ run,
              past,
            )
      ]
