-- ===== src/Config/Powers.antt =====
-- The compile-time loops that look for a power of two: my_log2_ceil and my_log2_floor of
-- constinit_constants.hpp, and the three alignment functions (`align` of buffer_queue.hpp,
-- `sparse_index_align` of sparse_index.hpp, `sstable_align` of sstable_info.hpp), each over the
-- least common multiple that it is given. The logarithms' template argument, a double, is a whole
-- number wherever the source instantiates it.
use native.Mathlib.Nat.{pow-suc, pow-le-pow_right, one-le-pow, mod-eq_of_lt}
use mathlib.Core.Path.{ap₂}
use ringdb.Prelude.{
  ap, ℕ, zero, suc, ◌+◌, ◌-◌, ◌*◌, ◌%◌, ◌^◌, ◌≤◌, ◌<◌, ◌≡◌, refl, ◌∙◌, Option, none, some, arith,
  ltb, lt→ltb, ◌==◌, ◌>>=◌, if◌then◌else◌, add32, dec_lt, Bool, false,
}

pub record Power : Type 0 where
  pub power : ℕ
  pub exponent : ℕ

-- while (power < bound) { power <<= 1; ++exponent; } over words of `width` bits. The alignment
-- functions keep no exponent, and read the power only.
unfoldable pub double_until : ℕ → ℕ → ℕ → ℕ → ℕ → Option Power
double_until width zero bound power exponent = none
double_until width (suc fuel) bound power exponent =
    let rest = double_until width fuel bound (power * 2 % 2 ^ width) (add32 exponent 1) in
    if ltb power bound then rest else some (record { power = power; exponent = exponent })

-- A power that reaches `width` bits becomes 0, and the loop then does not end: fuel for one round
-- more than there are bits is enough for every bound at which it ends.
unfoldable pub my_log2_ceil : ℕ → Option ℕ
my_log2_ceil doub = do p ← double_until 32 33 doub 1 0; some p.exponent

-- `(1 << exponent) > doub`: the shift of an `int` by 31 is its least value, and above nothing.
abbrev shift_exceeds : ℕ → ℕ → Bool
shift_exceeds exponent doub = if exponent == 31 then false else ltb doub (2 ^ exponent)

unfoldable pub my_log2_floor : ℕ → Option ℕ
unfolding my_log2_ceil
my_log2_floor doub = do
  exponent ← my_log2_ceil doub
  some (exponent - (if shift_exceeds exponent doub then 1 else 0))

-- The loop runs over std::size_t, and the result is returned as an `unsigned int`.
unfoldable pub align : ℕ → Option ℕ
align res = do p ← double_until 64 65 res 1 0; some (p.power % 2 ^ 32)

-- `e` is the least exponent whose power of two reaches `x`.
pub record IsLog2Ceil (x e : ℕ) : Type 0 where
  pub reaches : x ≤ 2 ^ e
  pub least : (k : ℕ) → x ≤ 2 ^ k → e ≤ k

pub pow_lt_cancel : (j k : ℕ) → 2 ^ j < 2 ^ k → j < k
pow_lt_cancel j k h = elim (dec_lt j k) [
  | yes l ↦ l
  | no ge ↦
      absurd (omega (arith, pow-le-pow_right {n = 2} (omega arith) {i = k} {j = j} (omega arith)))
]

pow-lt-pow_right : (j k : ℕ) → j < k → 2 ^ j < 2 ^ k
pow-lt-pow_right j k h = omega (
  arith,
  pow-le-pow_right {n = 2} (omega arith) {i = suc j} {j = k} h,
  pow-suc 2 j,
  one-le-pow j 2 (omega arith),
)

ltb_no : (a b : ℕ) → ¬ (a < b) → ltb a b ≡ false
ltb_no a b h = ground arith

below-suc :
    {x : ℕ} (e : ℕ) → 2 ^ e < x → ((k : ℕ) → k < e → 2 ^ k < x) → (k : ℕ) → k < suc e → 2 ^ k < x
below-suc {x} e h below k l = elim (dec_lt k e) [
  | yes lower ↦ below k lower
  | no last ↦ let same : k ≡ e = omega arith in rw same h
]

-- Doubling a power that stays within the word does not wrap.
double_lem :
    (width e : ℕ)
    → suc e < width
    → width ≤ 64
    → (2 ^ e * 2 % 2 ^ width ≡ 2 ^ suc e) × (add32 e 1 ≡ suc e)
double_lem width e h wide =
    (rw (← pow-suc 2 e, mod-eq_of_lt (pow-lt-pow_right (suc e) width h)), omega arith)

module _ (width bound : ℕ) (wide : width ≤ 64) (fits : bound ≤ 2 ^ (width - 1)) where
  suc_below : (e : ℕ) → 2 ^ e < bound → suc e < width
  suc_below e l = let h : e < width - 1 = pow_lt_cancel e (width - 1) (omega arith) in omega arith

  more_lem :
      (fuel e : ℕ)
      → 2 ^ e < bound
      → double_until width (suc fuel) bound (2 ^ e) e
        ≡ double_until width fuel bound (2 ^ suc e) (suc e)
  unfolding double_until
  more_lem fuel e l =
      let (d, a) = double_lem width e (suc_below e l) wide in
      rw (double_until, lt→ltb _ _ l) (ap₂ (λ p k. double_until width fuel bound p k) d a)

  double_until_lem :
      (fuel e : ℕ)
      → width ≤ e + fuel
      → e < width
      → ((k : ℕ) → k < e → 2 ^ k < bound)
      → (r : ℕ) × (double_until width fuel bound (2 ^ e) e
          ≡ some (record { power = 2 ^ r; exponent = r }))
        × IsLog2Ceil bound r
  unfolding double_until
  double_until_lem zero e h l below = absurd (omega arith)
  double_until_lem (suc fuel) e h l below = elim (dec_lt (2 ^ e) bound) [
    | no done ↦ (
      e,
      rw (double_until, ltb_no (2 ^ e) bound done),
      record {
        reaches = omega arith;
        least = λ k up. elim (dec_lt k e) [
          | yes lower ↦ absurd (omega (arith, below k lower))
          | no upper ↦ omega arith
        ];
      },
    )
    | yes more ↦
        let (r, run, ends) =
          double_until_lem fuel (suc e) (omega arith) (suc_below e more) (below-suc e more below) in
        (r, more_lem fuel e more ∙ run, ends)
  ]

-- For a bound that 31 bits can reach, the compile-time logarithm ends with the least exponent
-- whose power of two is not below the bound.
my_log2_ceil_lem : (x : ℕ) → x ≤ 2 ^ 31 → (e : ℕ) × (my_log2_ceil x ≡ some e) × IsLog2Ceil x e
unfolding my_log2_ceil
my_log2_ceil_lem x h =
    let (e, run, ends) =
      double_until_lem 32 x (omega arith) h 33 0 (omega arith) (omega arith)
        (λ k l. absurd (omega arith)) in
    (e, rw run, ends)

stays_zero : (fuel x e : ℕ) → 0 < x → double_until 32 fuel x 0 e ≡ none
unfolding double_until
stays_zero zero x e h = refl
stays_zero (suc fuel) x e h = rw (double_until, lt→ltb 0 x h) (stays_zero fuel x (add32 e 1) h)

wraps_from : (fuel x e : ℕ) → 2 ^ 31 < x → e ≤ 31 → double_until 32 fuel x (2 ^ e) e ≡ none
unfolding double_until
wraps_from zero x e h l = refl
wraps_from (suc fuel) x e h l =
    rw (double_until, lt→ltb (2 ^ e) x (omega (arith, pow-le-pow_right {n = 2} (omega arith) l)))
      (elim (dec_lt e 31) [
        | yes below ↦
            let (d, a) = double_lem 32 e (omega arith) (omega arith) in
            ap₂ (λ p k. double_until 32 fuel x p k) d a ∙ wraps_from fuel x (suc e) h (omega arith)
        | no last ↦ let here : e ≡ 31 = omega arith in rw here (stays_zero fuel x 32 (omega arith))
      ])

-- Above 2^31 the power wraps to 0 and stays there: the loop does not end, whatever the fuel.
double_until-wraps : (fuel x : ℕ) → 2 ^ 31 < x → double_until 32 fuel x 1 0 ≡ none
unfolding double_until
double_until-wraps fuel x h = wraps_from fuel x 0 h (omega arith)

floor_lem :
    (x e : ℕ)
    → 1 ≤ x
    → IsLog2Ceil x e
    → e ≤ 30
    → (f : ℕ) × (e - (if shift_exceeds e x then 1 else 0) ≡ f) × (2 ^ f ≤ x) × (x < 2 ^ suc f)
floor_lem x zero h c l = (0, ground (arith, c.reaches), ground arith, ground (arith, c.reaches))
floor_lem x (suc j) h c l = elim (dec_lt x (2 ^ suc j)) [
  | yes over ↦ (j, ground arith, lower, over)
  | no exact ↦ (
    suc j,
    ground arith,
    omega arith,
    omega (arith, c.reaches, pow-suc 2 (suc j), one-le-pow (suc j) 2 (omega arith)),
  )
]
  where
    lower : 2 ^ j ≤ x
    lower = elim (dec_lt (2 ^ j) x) [
      | yes l' ↦ omega arith
      | no ge ↦ absurd (omega (arith, c.least j (omega arith)))
    ]

-- For 1 ≤ x ≤ 2^30 the compile-time floor of the logarithm is exact.
pub my_log2_floor_lem :
    (x : ℕ)
    → 1 ≤ x
    → x ≤ 2 ^ 30
    → (e : ℕ) × (my_log2_floor x ≡ some e) × (2 ^ e ≤ x) × (x < 2 ^ suc e)
unfolding my_log2_floor
my_log2_floor_lem x h k =
    let (e, run, ends) = my_log2_ceil_lem x (omega arith) in
    let (f, here, low, up) = floor_lem x e h ends (ends.least 30 k) in
    (f, rw run (ap some here), low, up)

-- An alignment that fits 31 bits is the least power of two not below the length asked for.
align_lem : (x : ℕ) → x ≤ 2 ^ 31 → (e : ℕ) × (align x ≡ some (2 ^ e)) × IsLog2Ceil x e
unfolding align
align_lem x h =
    let (e, run, ends) =
      double_until_lem 64 x (omega arith) (omega arith) 65 0 (omega arith) (omega arith)
        (λ k l. absurd (omega arith)) in
    (
      e,
      rw run (ap some (mod-eq_of_lt (pow-lt-pow_right e 32 (omega (arith, ends.least 31 h))))),
      ends,
    )
