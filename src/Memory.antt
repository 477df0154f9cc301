-- ===== src/Memory.antt =====
-- The bytes that the program's pointers reach, and what the source uses of <cstring> on them.
-- A `char*` is an address. `memcmp`'s result is kept as its sign: `lt`, `eq` or `gt`.
use ringdb.Prelude.{
  ◌⊎◌, ◌≤◌, ℕ, zero, suc, ◌+◌, ◌-◌, ◌<◌, ◌≡◌, ◌≢◌, refl, ap, sym, ◌∙◌, compare, Ordering, Bool,
  true, false, ◌&&◌, arith, ltb, leb, if◌then◌else◌,
}

abbrev pub Memory : Type 0
Memory = ℕ → ℕ

abbrev pub inside : ℕ → ℕ → ℕ → Bool
inside start n p = leb start p && ltb p (start + n)

-- std::memcmp(p, q, n)
unfoldable pub memcmp : Memory → ℕ → ℕ → ℕ → Ordering
memcmp m p q zero = Ordering.eq
memcmp m p q (suc n) = elim (compare (m p) (m q)) [
  | Ordering.lt ↦ Ordering.lt
  | Ordering.gt ↦ Ordering.gt
  | Ordering.eq ↦ memcmp m (p + 1) (q + 1) n
]

-- std::memcpy(dst, src, n) between places that do not overlap.
unfoldable pub memcpy : Memory → ℕ → ℕ → ℕ → Memory
memcpy m dst src n p = if inside dst n p then m (src + (p - dst)) else m p

-- std::fill(start, start + n, byte)
unfoldable pub fill : Memory → ℕ → ℕ → ℕ → Memory
fill m start n byte p = if inside start n p then byte else m p

abbrev pub is_lt : Ordering → Bool
is_lt Ordering.lt = true
is_lt _ = false

abbrev pub is_gt : Ordering → Bool
is_gt Ordering.gt = true
is_gt _ = false

abbrev pub is_eq : Ordering → Bool
is_eq Ordering.eq = true
is_eq _ = false

abbrev pub swap : Ordering → Ordering
swap Ordering.lt = Ordering.gt
swap Ordering.eq = Ordering.eq
swap Ordering.gt = Ordering.lt

pub memcmp-swap : (m : Memory) (p q n : ℕ) → memcmp m q p n ≡ swap (memcmp m p q n)
unfolding memcmp
memcmp-swap m p q zero = refl
memcmp-swap m p q (suc n) = ground (arith, memcmp-swap m (p + 1) (q + 1) n)

pub memcmp_refl : (m : Memory) (p n : ℕ) → memcmp m p p n ≡ Ordering.eq
unfolding memcmp
memcmp_refl m p zero = refl
memcmp_refl m p (suc n) = ground (arith, memcmp_refl m (p + 1) n)

-- A key below one that is not above a third is below the third.
pub memcmp-lt-le :
    (m : Memory) (p q r n : ℕ)
    → is_lt (memcmp m p q n) ≡ true
    → is_gt (memcmp m q r n) ≡ false
    → is_lt (memcmp m p r n) ≡ true
unfolding memcmp
memcmp-lt-le m p q r zero h k = cc
memcmp-lt-le m p q r (suc n) h k = ground (arith, memcmp-lt-le m (p + 1) (q + 1) (r + 1) n)

-- A key that is not above one below a third is below the third.
pub memcmp-le-lt :
    (m : Memory) (p q r n : ℕ)
    → is_gt (memcmp m p q n) ≡ false
    → is_lt (memcmp m q r n) ≡ true
    → is_lt (memcmp m p r n) ≡ true
unfolding memcmp
memcmp-le-lt m p q r zero h k = cc
memcmp-le-lt m p q r (suc n) h k = ground (arith, memcmp-le-lt m (p + 1) (q + 1) (r + 1) n)

-- The order of keys is total: one that is not below another is not exceeded by it.
pub not-lt→swap-le :
    (m : Memory) (p q n : ℕ) → is_lt (memcmp m p q n) ≡ false → is_gt (memcmp m q p n) ≡ false
not-lt→swap-le m p q n h = ground (arith, memcmp-swap m p q n)

pub lt→not-gt :
    (m : Memory) (p q n : ℕ) → is_lt (memcmp m p q n) ≡ true → is_gt (memcmp m p q n) ≡ false
lt→not-gt m p q n h = ground arith

-- Two places hold the same n bytes.
abbrev pub SameBytes : Memory → Memory → ℕ → ℕ → ℕ → Type 0
SameBytes m m' p q n = (i : ℕ) → i < n → m (p + i) ≡ m' (q + i)

memcmp-eq-suc :
    (m : Memory) (p q n : ℕ) → SameBytes m m p q (suc n) → SameBytes m m (p + 1) (q + 1) n
memcmp-eq-suc m p q n h i l =
    let e : p + 1 + i ≡ p + suc i = omega arith in
    let e' : q + 1 + i ≡ q + suc i = omega arith in rw (e, e') (h (suc i) (omega arith))

pub memcmp-eq : (m : Memory) (p q n : ℕ) → SameBytes m m p q n → memcmp m p q n ≡ Ordering.eq
unfolding memcmp
memcmp-eq m p q zero h = refl
memcmp-eq m p q (suc n) h =
    ground (arith, head, memcmp-eq m (p + 1) (q + 1) n (memcmp-eq-suc m p q n h))
  where
    head : m p ≡ m q
    head =
        let e : p + 0 ≡ p = omega arith in
        let e' : q + 0 ≡ q = omega arith in rw (e, e') at (h 0 (omega arith))

pub eq-memcmp :
    (m : Memory) (p q n i : ℕ) → memcmp m p q n ≡ Ordering.eq → i < n → m (p + i) ≡ m (q + i)
unfolding memcmp
eq-memcmp m p q zero i h l = absurd (omega arith)
eq-memcmp m p q (suc n) zero h l =
    let e : p + 0 ≡ p = omega arith in let e' : q + 0 ≡ q = omega arith in rw (e, e') (ground arith)
eq-memcmp m p q (suc n) (suc i) h l =
    let e : p + 1 + i ≡ p + suc i = omega arith in
    let e' : q + 1 + i ≡ q + suc i = omega arith in
    rw (e, e') at (eq-memcmp m (p + 1) (q + 1) n i (ground arith) (omega arith))

-- A row of zeros, the null key, is below every key with a byte that is not zero.
pub memcmp_zeros :
    (m : Memory) (p q n k : ℕ)
    → ((i : ℕ) → i < n → m (p + i) ≡ 0)
    → k < n
    → m (q + k) ≢ 0
    → memcmp m p q n ≡ Ordering.lt
unfolding memcmp
memcmp_zeros m p q zero k z l ne = absurd (omega arith)
memcmp_zeros m p q (suc n) zero z l ne =
    let e : m (p + 0) ≡ m p = ap m (omega arith) in
    let e' : m (q + 0) ≡ m q = ap m (omega arith) in
    let here : m p ≡ 0 = sym e ∙ z 0 (omega arith) in
    let other : m q ≢ 0 = λ h. ne (e' ∙ h) in ground arith
memcmp_zeros m p q (suc n) (suc k) z l ne =
    let e : m (p + 0) ≡ m p = ap m (omega arith) in
    let here : m p ≡ 0 = sym e ∙ z 0 (omega arith) in
    let rest =
      memcmp_zeros m (p + 1) (q + 1) n k
        (λ i b. ap m {x = p + 1 + i} {y = p + suc i} (omega arith) ∙ z (suc i) (omega arith))
        (omega arith) (λ h. ne (ap m {x = q + suc k} {y = q + 1 + k} (omega arith) ∙ h)) in
    ground (arith, rest)

-- Two runs of bytes have none in common.
abbrev pub Apart : ℕ → ℕ → ℕ → ℕ → Type 0
Apart p n q k = (p + n ≤ q) ⊎ (q + k ≤ p)

pub memcpy_inside :
    (m : Memory) (dst src n i : ℕ) → i < n → memcpy m dst src n (dst + i) ≡ m (src + i)
unfolding memcpy
memcpy_inside m dst src n i h =
    let e : dst + i - dst ≡ i = omega arith in
    let t : inside dst n (dst + i) ≡ true = ground arith in rw (t, e)

pub memcpy_outside :
    (m : Memory) (dst src n p : ℕ) → (p < dst) ⊎ (dst + n ≤ p) → memcpy m dst src n p ≡ m p
unfolding memcpy
memcpy_outside m dst src n p h = ground arith

pub fill_inside :
    (m : Memory) (start n b p : ℕ) → start ≤ p → p < start + n → fill m start n b p ≡ b
unfolding fill
fill_inside m start n b p h l = ground arith

pub fill_outside :
    (m : Memory) (start n b p : ℕ) → (p < start) ⊎ (start + n ≤ p) → fill m start n b p ≡ m p
unfolding fill
fill_outside m start n b p h = ground arith
