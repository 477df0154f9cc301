-- ===== src/Worker/Places.antt =====
-- Where the sstables of a worker thread, and the ones above them, stand.
use native.Mathlib.Nat.{mod-add-div', mod-lt, suc-mul, zero-mul, div-le_self}
use ringdb.Prelude.{
  ℕ, zero, suc, ◌+◌, ◌-◌, ◌*◌, ◌/◌, ◌%◌, ◌^◌, ◌≤◌, ◌<◌, ◌≡◌, ◌∙◌, ap, arith, sub32,
}
use ringdb.Config.{Config}
use ringdb.Worker.{place_of, previous_place}

sub32-suc : (q : ℕ) → q + 1 < 2 ^ 32 → sub32 (suc q) 1 ≡ q
sub32-suc q h = omega arith

below_first :
    (n f : ℕ) → n < f → f < 2 ^ 32 → sub32 (sub32 n f) (4294967295 * f % 2 ^ 32) ≡ sub32 n 0
below_first n f h word = omega arith

one_less :
    (n f r : ℕ)
    → n < 2 ^ 32
    → r + f ≤ n
    → sub32 (sub32 n f) (r % 2 ^ 32) ≡ sub32 n ((f + r) % 2 ^ 32)
one_less n f r small le = omega arith

same_index :
    (c : Config) (n q : ℕ)
    → n < 2 ^ 32
    → 0 < c.level_factor
    → c.level_factor < 2 ^ 32
    → q < 2 ^ 32
    → n % c.level_factor + q * c.level_factor ≡ n
    → sub32 (sub32 n c.level_factor) (sub32 q 1 * c.level_factor % 2 ^ 32)
      ≡ sub32 n (q * c.level_factor % 2 ^ 32)
same_index c n zero small some_tables word le e = rw zero-mul (
    below_first n c.level_factor
      (omega (arith, e, mod-lt n {m = c.level_factor} some_tables, zero-mul c.level_factor)) word)
same_index c n (suc q) small some_tables word le e = rw (sub32-suc q (omega (arith, le))) (
    one_less n c.level_factor (q * c.level_factor) small
      (omega (arith, e, suc-mul q c.level_factor))
    ∙ ap (λ r. sub32 n (r % 2 ^ 32)) (omega (arith, suc-mul q c.level_factor)))

-- The sstable above another one has the same index in its level, and its level is one less. Above the first
-- level it is taken to stand in level 2^32 - 1, for which there is nothing in level_infos.
previous_place-place_of :
    (c : Config) (sstable_num : ℕ)
    → sstable_num < 2 ^ 32
    → 0 < c.level_factor
    → c.level_factor < 2 ^ 32
    → ((previous_place c sstable_num).index_in_level ≡ (place_of c sstable_num).index_in_level)
      × (1 ≤ (place_of c sstable_num).level
          → (previous_place c sstable_num).level + 1 ≡ (place_of c sstable_num).level)
      × ((place_of c sstable_num).level ≡ 0 → (previous_place c sstable_num).level ≡ 2 ^ 32 - 1)
unfolding previous_place place_of
previous_place-place_of c n small some_tables word =
    let f = c.level_factor in
    let div_le : n / f ≤ n = div-le_self n f in
    let split = mod-add-div' n f in
    (
      same_index c n (n / f) small some_tables word (omega (arith, split, div_le)) split,
      λ h. omega (arith, h, div_le),
      λ e. ap (λ q. sub32 q 1) e,
    )
