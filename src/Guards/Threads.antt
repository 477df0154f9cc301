-- ===== src/Guards/Threads.antt =====
-- Any number of threads at one guard that is shared, in any interleaving.
use ringdb.Prelude.{ℕ, ◌≡◌, ◌≢◌, Bool, false, arith, ◌==◌, if◌then◌else◌}
use ringdb.Guards.{Guard, Exchange, fresh, compare_exchange_weak, try_lock, unlock}

-- A thread is outside, in the spinning loop with the value it expects, or past the guard.
pub data Pc : Type 0 where
  outside : Pc
  spinning : ℕ → Pc
  past : Pc

abbrev pub move : (ℕ → Pc) → ℕ → Pc → ℕ → Pc
move pc i p j = if i == j then p else pc j

pub record System : Type 0 where
  pub guard : Guard
  pub pc : ℕ → Pc

-- One round of `while (!compare_exchange_weak(my_zero, 1));`
abbrev pub after_round : Exchange → Pc
after_round x = if x.success then past else spinning x.expected

abbrev pub spin : System → ℕ → Exchange → System
spin s i x = record {
  guard = record s.guard { atomic_guard = x.value };
  pc = move s.pc i (after_round x);
}

abbrev pub try_outcome : System → ℕ → Exchange → System
try_outcome s i x =
    if x.success
    then record { guard = record s.guard { atomic_guard = x.value }; pc = move s.pc i past }
    else s

pub data Step (s : System) : System → Type 0 where
  -- `my_zero = 0`, and on to the loop
  arrive : (i : ℕ) → s.pc i ≡ outside → Step s (record s { pc = move s.pc i (spinning 0) })
  round :
      (i expected : ℕ) (spurious : Bool)
      → s.pc i ≡ spinning expected
      → Step s (spin s i (compare_exchange_weak spurious s.guard.atomic_guard expected))
  try_ :
      (i : ℕ) (spurious : Bool)
      → s.pc i ≡ outside
      → Step s (try_outcome s i (compare_exchange_weak spurious s.guard.atomic_guard 0))
  leave :
      (i : ℕ) → s.pc i ≡ past → Step s (record { guard = unlock s.guard; pc = move s.pc i outside })

-- No thread is at the guard yet.
abbrev pub start : System
start = record { guard = record { atomic_guard = 1; is_single_thread = false }; pc = λ _. outside }

pub data Reach (s : System) : System → Type 0 where
  here : Reach s s
  next : {t u : System} → Reach s t → Step t u → Reach s u

Step-shared : {s t : System} → Step s t → s.guard ≡ fresh false → t.guard ≡ fresh false
unfolding fresh compare_exchange_weak unlock
Step-shared (arrive i h) e = e
Step-shared (round i x sp h) e = ground arith
Step-shared {s} (try_ i sp h) e = ground arith
Step-shared (leave i h) e = ground arith

Reach-shared : {s t : System} → Reach s t → s.guard ≡ fresh false → t.guard ≡ fresh false
Reach-shared here e = e
Reach-shared (next r st) e = Step-shared st (Reach-shared r e)

-- In no state that threads reach at a shared guard does a trylock succeed, spurious failure or not:
-- the guard is 1 before, during and after every critical section, and a trylock expects 0.
try_lock-Reach :
    {s t : System} (spurious : Bool)
    → s.guard ≡ fresh false
    → Reach s t
    → try_lock spurious t.guard ≡ false
unfolding try_lock fresh
try_lock-Reach {s} {t} spurious e r = rw (Reach-shared r e)

arrived : System → ℕ → System
arrived t i = record t { pc = move t.pc i (spinning 0) }

-- The first round fails and learns the 1, the second exchanges 1 for 1.
twice : System → ℕ → System
twice t i =
    let u = spin t i (compare_exchange_weak false t.guard.atomic_guard 0) in
    spin u i (compare_exchange_weak false u.guard.atomic_guard 1)

twice-Reach :
    (t : System) (i : ℕ)
    → t.guard ≡ fresh false
    → t.pc i ≡ outside
    → Reach t (twice (arrived t i) i)
unfolding twice arrived fresh compare_exchange_weak
twice-Reach t i e o =
    next (next (next here (arrive i o)) (round i 0 false (ground arith)))
      (round i 1 false (ground arith))

-- The spinning loop does not exclude: whatever threads are past the guard, one more gets past it in
-- steps of its own, and every other thread stays where it is.
pub spin_passes :
    {s t : System} (i : ℕ)
    → s.guard ≡ fresh false
    → Reach s t
    → t.pc i ≡ outside
    → (u : System) × Reach t u × (u.pc i ≡ past) × ((j : ℕ) → i ≢ j → u.pc j ≡ t.pc j)
unfolding fresh compare_exchange_weak twice arrived
spin_passes {s} {t} i e r o =
    let g = Reach-shared r e in
    (twice (arrived t i) i, twice-Reach t i g o, ground arith, λ j ne. ground arith)
