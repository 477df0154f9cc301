-- ===== src/Config/Sizes.antt =====
-- The size of a page cache buffer in constinit_constants.hpp, over std::lcm.
use native.Mathlib.Nat.{
  mod-add-div', mod-lt, mul-mod_left, mul-mod_right, suc-mul, mul_assoc, mul-le-mul_right,
  mul-le-mul_left, mod-mod_of_dvd, dvd_of_mod-eq-zero,
}
use ringdb.Prelude.{
  ℕ, zero, suc, ◌+◌, ◌*◌, ◌/◌, ◌%◌, ◌^◌, ◌≤◌, ◌<◌, ◌≡◌, ◌≢◌, refl, sym, ◌∙◌, ap, Option, none, some,
  arith, ltb, ◌==◌, ◌>>=◌, if◌then◌else◌, dec_lt, ◌⊎◌, inl, inr,
}
use ringdb.Config.{Config, num_sstables, max_sstable_height, entry_length}

-- The first multiple of `a` from `m` on that is one of `b` too, with fuel for each one that is tried.
unfoldable pub lcm_from : ℕ → ℕ → ℕ → ℕ → Option ℕ
lcm_from zero a b m = none
lcm_from (suc fuel) a b m =
    let rest = lcm_from fuel a b (m + a) in if m % b == 0 then some m else rest

-- std::lcm of two words, which has to be a word. At most `b` multiples of `a` are tried.
unfoldable pub lcm : ℕ → ℕ → Option ℕ
unfolding lcm_from
lcm a b =
    if a == 0
    then some 0
    else if b == 0
    then some 0
    else (do m ← lcm_from b a b a; if ltb m (2 ^ 32) then some m else none)

module _ (c : Config) where
  abbrev pub fair_sstable_page_cache_size : ℕ
  fair_sstable_page_cache_size = c.total_sstable_page_cache_size / num_sstables c

  -- fair_aligned_sstable_page_cache_buffer_size
  unfoldable pub page_cache_buffer_size : Option ℕ
  unfolding lcm
  page_cache_buffer_size = do
    m ← lcm (fair_sstable_page_cache_size / max_sstable_height c) (entry_length c)
    lcm m c.block_size

-- `m` is the least common multiple of `a` and `b`.
record IsLcm (a b m : ℕ) : Type 0 where
  positive : 0 < m
  left : m % a ≡ 0
  right : m % b ≡ 0
  least : (k : ℕ) → 0 < k → k % a ≡ 0 → k % b ≡ 0 → m ≤ k

mod_trans : (a b m : ℕ) → b % a ≡ 0 → m % b ≡ 0 → m % a ≡ 0
mod_trans a b m h h' =
    let e : b ≡ b / a * a = omega (arith, mod-add-div' b a) in
    let e' : m ≡ m / b * b = omega (arith, mod-add-div' m b) in
    ap (λ x. x % a) (e' ∙ ap (λ x. m / b * x) e ∙ sym (mul_assoc (m / b) (b / a) a))
    ∙ mul-mod_left (m / b * (b / a)) a

module _ (a b : ℕ) (pos_a : 0 < a) (pos_b : 0 < b) where
  least_here :
      (k : ℕ)
      → ((j : ℕ) → 0 < j → j < k → (j * a) % b ≢ 0)
      → (n : ℕ) → 0 < n
      → n % a ≡ 0
      → n % b ≡ 0
      → k * a ≤ n
  least_here k below n pos l r =
      let e : n / a * a ≡ n = omega (arith, mod-add-div' n a) in
      elim (dec_lt (n / a) k) [
        | no h ↦ omega (arith, e, mul-le-mul_right {m = k} {n = n / a} a (omega arith))
        | yes h ↦ elim (dec_lt 0 (n / a)) [
          | yes p ↦ absurd (below (n / a) p h (ap (λ x. x % b) e ∙ r))
          | no z ↦
              let none_fit : n / a ≡ 0 = omega arith in
              absurd (omega (arith, sym e ∙ ap (λ x. x * a) none_fit))
        ]
      ]

  lcm_from-more : (fuel m : ℕ) → 0 < m % b → lcm_from (suc fuel) a b m ≡ lcm_from fuel a b (m + a)
  unfolding lcm_from
  lcm_from-more fuel m h = ground arith

  not_yet :
      (k : ℕ)
      → ((j : ℕ) → 0 < j → j < k → (j * a) % b ≢ 0)
      → 0 < k * a % b
      → (j : ℕ) → 0 < j
      → j < suc k
      → (j * a) % b ≢ 0
  not_yet k below more j pos l e = elim (dec_lt j k) [
    | yes h ↦ below j pos h e
    | no h ↦ let same : j ≡ k = omega arith in omega (arith, ap (λ i. i * a % b) (sym same) ∙ e)
  ]

  lcm_from-IsLcm :
      (fuel k : ℕ)
      → 0 < k
      → k + fuel ≡ b + 1
      → 0 < fuel
      → ((j : ℕ) → 0 < j → j < k → (j * a) % b ≢ 0)
      → (m : ℕ) × (lcm_from fuel a b (k * a) ≡ some m) × IsLcm a b m
  unfolding lcm_from
  lcm_from-IsLcm zero k h e f below = absurd (omega arith)
  lcm_from-IsLcm (suc fuel) k h e f below = elim (dec_lt 0 (k * a % b)) [
    | no z ↦ (
      k * a,
      ground arith,
      record {
        positive = omega (arith, mul-le-mul_right {m = 1} {n = k} a h);
        left = mul-mod_left k a;
        right = omega arith;
        least = least_here k below;
      },
    )
    | yes more ↦
        let before : k ≢ b =
          λ same. omega (arith, more, ap (λ x. x * a % b) same ∙ mul-mod_right b a) in
        let (m, run, i) =
          lcm_from-IsLcm fuel (suc k) (omega arith) (omega arith) (omega (arith, before))
            (not_yet k below more) in
        (
          m,
          lcm_from-more fuel (k * a) more
              ∙ ap (λ x. lcm_from fuel a b x) (omega (arith, suc-mul k a))
              ∙ run,
          i,
        )
  ]

  lcm_runs : (m : ℕ) → lcm_from b a b a ≡ some m → m < 2 ^ 32 → lcm a b ≡ some m
  unfolding lcm
  lcm_runs m run small = ground arith

  lcm-IsLcm : a * b < 2 ^ 32 → (m : ℕ) × (lcm a b ≡ some m) × IsLcm a b m × (m ≤ a * b)
  lcm-IsLcm small =
      let (m, run, i) =
        lcm_from-IsLcm b 1 (omega arith) (omega arith) pos_b (λ j p l. absurd (omega arith)) in
      let product : 0 < a * b = omega (arith, mul-le-mul_right {m = 1} {n = a} b pos_a) in
      let le : m ≤ a * b = i.least (a * b) product (mul-mod_right a b) (mul-mod_left a b) in
      let run' : lcm_from b a b a ≡ some m = ap (λ x. lcm_from b a b x) (omega arith) ∙ run in
      (m, lcm_runs m run' (omega arith), i, le)

  -- Every common multiple is one of the least.
  divides : (m n : ℕ) → IsLcm a b m → n % a ≡ 0 → n % b ≡ 0 → n % m ≡ 0
  divides m n i l r =
      let left = mod-mod_of_dvd a n (dvd_of_mod-eq-zero a i.left) in
      let right = mod-mod_of_dvd b n (dvd_of_mod-eq-zero b i.right) in
      elim (dec_lt 0 (n % m)) [
        | no z ↦ omega arith
        | yes p ↦
            absurd
              (omega (arith, mod-lt n {m = m} i.positive, i.least (n % m) p (left ∙ l) (right ∙ r)))
      ]

-- A size of page cache buffers: `share` is the part of the cache for a buffer.
pub record IsBufferSize (share entry block size : ℕ) : Type 0 where
  pub positive : 0 < size
  pub shares : size % share ≡ 0
  pub entries : size % entry ≡ 0
  pub blocks : size % block ≡ 0
  pub least : (k : ℕ) → 0 < k → k % share ≡ 0 → k % entry ≡ 0 → k % block ≡ 0 → size ≤ k

lcm-lcm :
    (share entry block : ℕ)
    → 0 < share
    → 0 < entry
    → 0 < block
    → share * entry * block < 2 ^ 32
    → (size : ℕ) × ((lcm share entry >>= λ m. lcm m block) ≡ some size)
      × IsBufferSize share entry block size
lcm-lcm share entry block s e b small =
    let product : 0 < share * entry = omega (arith, mul-le-mul_right {m = 1} {n = share} entry s) in
    let (m, run, i, le) =
      lcm-IsLcm share entry s e
        (omega (arith, mul-le-mul_left {m = 1} {n = block} (share * entry) b)) in
    let (size, run', i', le') =
      lcm-IsLcm m block i.positive b (omega (arith, mul-le-mul_right block le)) in
    (
      size,
      rw run run',
      record {
        positive = i'.positive;
        shares = mod_trans share m size i.left i'.left;
        entries = mod_trans entry m size i.right i'.left;
        blocks = i'.right;
        least = λ k p l r t. i'.least k p (divides share entry s e m k i l r) t;
      },
    )

-- The size of a page cache buffer is a multiple of the length of an entry and of the size of a block, the
-- least one that is also a multiple of the buffer's share of the cache, provided that the product of
-- the three is a word; but where the share is rounded down to 0, the size is 0.
pub page_cache_buffer_size-IsBufferSize :
    (c : Config) (share : ℕ)
    → fair_sstable_page_cache_size c / max_sstable_height c ≡ share
    → 0 < entry_length c
    → 0 < c.block_size
    → share * entry_length c * c.block_size < 2 ^ 32
    → (size : ℕ) × (page_cache_buffer_size c ≡ some size)
      × (((share ≡ 0) × (size ≡ 0)) ⊎ IsBufferSize share (entry_length c) c.block_size size)
unfolding page_cache_buffer_size
page_cache_buffer_size-IsBufferSize c share e pos pos' small = elim (dec_lt 0 share) [
  | yes p ↦
      let (size, run, i) = lcm-lcm share (entry_length c) c.block_size p pos pos' small in
      (size, rw e run, inr i)
  | no z ↦
      let none_left : share ≡ 0 = omega arith in (0, rw (e, none_left) refl, inl (none_left, refl))
]
