-- ===== src/Traverse/Blocks.antt =====
-- round_to_block_size_multiple: what its mask keeps.
use ringdb.Prelude.{
  ℕ, zero, suc, ◌+◌, ◌-◌, ◌*◌, ◌/◌, ◌%◌, ◌^◌, ◌≤◌, ◌<◌, ◌≡◌, refl, sym, ap, ◌∙◌, some, arith,
  dec_lt,
}
use native.Mathlib.Nat.{
  pow-suc, pow-succ', pow-le-pow_right, one-le-pow, div-add-mod, div-div-eq-div-mul, mul_assoc,
  mod-eq_of_lt,
}
use ringdb.Config.{Config}
use ringdb.Config.Powers.{my_log2_floor_lem, pow_lt_cancel}
use ringdb.Traverse.{and_bits, round_to_block_size_multiple}

and_bits_zero : (bits a : ℕ) → and_bits bits a 0 ≡ 0
unfolding and_bits
and_bits_zero zero a = refl
and_bits_zero (suc bits) a = omega (arith, and_bits_zero bits (a / 2))

mod_double : (a k : ℕ) → a % 2 ^ suc k ≡ a % 2 + 2 * (a / 2 % 2 ^ k)
mod_double a k =
    let q : a / 2 ^ suc k ≡ a / 2 / 2 ^ k =
      ap (λ n. a / n) (pow-succ' 2 k) ∙ sym (div-div-eq-div-mul a 2 (2 ^ k)) in
    let whole : 2 ^ suc k * (a / 2 / 2 ^ k) + a % 2 ^ suc k ≡ a =
      ap (λ d. 2 ^ suc k * d + a % 2 ^ suc k) (sym q) ∙ div-add-mod a (2 ^ suc k) in
    let half : 2 ^ k * (a / 2 / 2 ^ k) + a / 2 % 2 ^ k ≡ a / 2 = div-add-mod (a / 2) (2 ^ k) in
    let twice : 2 ^ suc k * (a / 2 / 2 ^ k) ≡ 2 * (2 ^ k * (a / 2 / 2 ^ k)) =
      rw (pow-succ' 2 k) (mul_assoc 2 (2 ^ k) (a / 2 / 2 ^ k)) in
    omega (arith, whole, half, twice)

and_bits_low : (bits m a : ℕ) → m ≤ bits → and_bits bits a (2 ^ m - 1) ≡ a % 2 ^ m
unfolding and_bits
and_bits_low bits zero a h = and_bits_zero bits a ∙ omega arith
and_bits_low zero (suc m) a h = absurd (omega arith)
and_bits_low (suc bits) (suc m) a h =
    let odd : (2 ^ suc m - 1) % 2 ≡ 1 = omega (arith, pow-suc 2 m, one-le-pow m 2 (omega arith)) in
    let half : (2 ^ suc m - 1) / 2 ≡ 2 ^ m - 1 =
      omega (arith, pow-suc 2 m, one-le-pow m 2 (omega arith)) in
    rw (odd, half, and_bits_low bits m (a / 2) (omega arith), mod_double a m) (omega arith)

and_bits_mask :
    (bits k m a : ℕ) → k ≤ m → m ≤ bits → and_bits bits a (2 ^ m - 2 ^ k) + a % 2 ^ k ≡ a % 2 ^ m
unfolding and_bits
and_bits_mask bits zero m a h l = omega (arith, and_bits_low bits m a l)
and_bits_mask bits (suc k) zero a h l = absurd (omega arith)
and_bits_mask zero (suc k) (suc m) a h l = absurd (omega arith)
and_bits_mask (suc bits) (suc k) (suc m) a h l =
    let le : 2 ^ k ≤ 2 ^ m = pow-le-pow_right {n = 2} (omega arith) (omega arith) in
    let even : (2 ^ suc m - 2 ^ suc k) % 2 ≡ 0 = omega (arith, pow-suc 2 m, pow-suc 2 k, le) in
    let half : (2 ^ suc m - 2 ^ suc k) / 2 ≡ 2 ^ m - 2 ^ k =
      omega (arith, pow-suc 2 m, pow-suc 2 k, le) in
    rw (even, half, mod_double a m, mod_double a k)
      (omega (arith, and_bits_mask bits k m (a / 2) (omega arith) (omega arith)))

pow_le_cancel : (j k : ℕ) → 2 ^ j ≤ 2 ^ k → j ≤ k
pow_le_cancel j k h = elim (dec_lt k j) [
  | yes l ↦ absurd (
      omega (
        arith,
        pow-suc 2 k,
        one-le-pow k 2 (omega arith),
        pow-le-pow_right {n = 2} (omega arith) {i = suc k} {j = j} (omega arith),
      ))
  | no ge ↦ omega arith
]

-- For a power of two as the block size, the result is what the offset leaves over when it is divided
-- by half a block: not the start of the block that holds the offset, but less than half a block.
pub round-remainder :
    (c : Config) (null_key buffer_size sstable_num p i : ℕ)
    → c.block_size ≡ 2 ^ p
    → 1 ≤ p
    → p ≤ 30
    → i < 2 ^ 63
    → round_to_block_size_multiple c null_key buffer_size sstable_num i ≡ some (i % 2 ^ (p - 1))
unfolding round_to_block_size_multiple
round-remainder c null_key buffer_size sstable_num p i e pos small h =
    let (f, run, low, up) =
      my_log2_floor_lem c.block_size (rw e (one-le-pow p 2 (omega arith)))
        (rw e (pow-le-pow_right {n = 2} (omega arith) small)) in
    let here : f ≡ p =
      omega (arith, pow_le_cancel f p (rw (← e) low), pow_lt_cancel p (suc f) (rw (← e) up)) in
    let mask : and_bits 64 i (2 ^ 63 - 2 ^ (p - 1)) + i % 2 ^ (p - 1) ≡ i =
      and_bits_mask 64 (p - 1) 63 i (omega arith) (omega arith) ∙ mod-eq_of_lt h in
    rw (run, here) (ap some (omega (arith, mask)))
