-- ===== src/BufferQueue/Fifo.antt =====
-- The ring as a first-in, first-out queue that lags by one place: the pointer under `queue_front`
-- is not one of the `num_new_buffers` pushed ones, but the one that left before them.
use native.Mathlib.Nat.{mod-eq_of_lt, mod-eq-sub-mod, mod-add-mod, mod-lt}
use mathlib.Core.List.{append-nil, append_assoc}
use ringdb.Prelude.{
  ◌>>=◌, ℕ, zero, suc, ◌+◌, ◌-◌, ◌%◌, ◌^◌, ◌≤◌, ◌<◌, ◌≡◌, refl, ◌∙◌, ap, ap₂, sym, Option, some,
  List, [], ◌∷◌, ◌++◌, arith, length, length-set, get_or, set, store_lem, take, ◌≢◌, ◌⊎◌, inl, inr,
  get_or-set_self, get_or-set_ne, get_elem?-eq-get_or, add32, sub32, dec_lt,
}
use ringdb.BufferQueue.{BufferQueue, init, push_back, pop_front}

-- A sum of two places goes round the ring at most once.
round_once :
    (a size : ℕ)
    → a < size + size
    → ((a < size) × (a % size ≡ a)) ⊎ ((size ≤ a) × (a % size + size ≡ a))
round_once a size h = elim (dec_lt a size) [
  | yes l ↦ inl (l, mod-eq_of_lt l)
  | no g ↦ inr (
    omega arith,
    omega (
      arith,
      mod-eq-sub-mod {n = a} {m = size} (omega arith),
      mod-eq_of_lt {n = a - size} {m = size} (omega arith),
    ),
  )
]

places_differ :
    (size start i k : ℕ) → start < size → i < k → k < size → (start + k) % size ≢ (start + i) % size
places_differ size start i k h l b e =
    omega
      (arith, round_once (start + k) size (omega arith), round_once (start + i) size (omega arith))

next_place : (size start i : ℕ) → ((start + 1) % size + i) % size ≡ (start + suc i) % size
next_place size start i = rw mod-add-mod (ap (λ k. k % size) (omega arith))

module _ (size : ℕ) where
  -- The n pointers from place `start` on.
  abbrev pub held : List ℕ → ℕ → ℕ → List ℕ
  held cells start zero = []
  held cells start (suc n) = get_or cells start 0 ∷ held cells ((start + 1) % size) n

  held-set :
      (cells : List ℕ) (x j n start : ℕ)
      → start < size
      → ((i : ℕ) → i < n → j ≢ (start + i) % size)
      → held (set cells j x) start n ≡ held cells start n
  held-set cells x j zero start h apart = refl
  held-set cells x j (suc n) start h apart =
      ap₂ ◌∷◌ (get_or-set_ne cells j start x 0 λ e. apart 0 (omega arith) (e ∙ here)) (
        held-set cells x j n ((start + 1) % size) (mod-lt (start + 1) (omega arith))
          λ i l e. apart (suc i) (omega arith) (e ∙ next_place size start i))
    where
      here : start ≡ (start + 0) % size
      here = let e : start + 0 ≡ start = omega arith in rw (e, mod-eq_of_lt h)

  held-snoc :
      (cells : List ℕ) (n start : ℕ)
      → start < size
      → held cells start (suc n) ≡ held cells start n ++ (get_or cells ((start + n) % size) 0 ∷ [])
  held-snoc cells zero start h = let e : start + 0 ≡ start = omega arith in rw (e, mod-eq_of_lt h)
  held-snoc cells (suc n) start h = ap (◌∷◌ (get_or cells start 0)) (
      held-snoc cells n ((start + 1) % size) (mod-lt (start + 1) (omega arith))
      ∙ ap (λ k. held cells ((start + 1) % size) n ++ (get_or cells k 0 ∷ []))
          (next_place size start n))

  -- A write just past a run of n pointers extends it.
  held-push :
      (cells : List ℕ) (x n start place : ℕ)
      → start < size
      → n < size
      → length cells ≡ size
      → place ≡ (start + n) % size
      → held (set cells place x) start (suc n) ≡ held cells start n ++ (x ∷ [])
  held-push cells x n start place h b e p =
      held-snoc (set cells place x) n start h
      ∙ ap₂ (λ l y. l ++ (y ∷ []))
          (held-set cells x place n start h
            λ i l e'. places_differ size start i n h l b (sym p ∙ e'))
          (ap (λ k. get_or (set cells place x) k 0) (sym p)
            ∙ get_or-set_self cells place x 0 (omega (arith, mod-lt (start + n) {m = size})))

  pub record IsValid (q : BufferQueue) : Type 0 where
    pub array : length q.queue ≡ size
    pub small : size < 2 ^ 31
    pub front_in : q.queue_front < size
    pub room : q.num_new_buffers < size
    pub back_at : q.back ≡ (q.queue_front + q.num_new_buffers) % size

  -- The pointers that a client takes next, the one in front first.
  abbrev pub contents : BufferQueue → List ℕ
  contents q = held q.queue q.queue_front (suc q.num_new_buffers)

  init-IsValid :
      (start : ℕ) (cells : List ℕ)
      → 0 < size
      → size < 2 ^ 31
      → length cells ≡ size
      → IsValid (init start cells)
  unfolding init
  init-IsValid start cells h small e = record {
    array = e;
    small = small;
    front_in = h;
    room = h;
    back_at = sym (mod-eq_of_lt h);
  }

  -- A push on a ring that is not full appends the buffer to what clients take next, and counts it.
  pub push_back-contents :
      (q : BufferQueue) (buffer : ℕ)
      → IsValid q
      → q.num_new_buffers + 1 < size
      → (q' : BufferQueue) × (push_back size q buffer ≡ some q')
        × IsValid q'
        × (contents q' ≡ contents q ++ (buffer ∷ []))
        × (q'.num_new_buffers ≡ q.num_new_buffers + 1)
        × (q'.queue_front ≡ q.queue_front)
  unfolding push_back
  push_back-contents q buffer v room = (
    record q {
      back = place;
      cur_num_buffers = add32 q.cur_num_buffers 1;
      num_new_buffers = add32 q.num_new_buffers 1;
      queue = set q.queue place buffer;
    },
    rw (store_lem q.queue place buffer place_in),
    record {
      array = length-set q.queue place buffer ∙ v.array;
      small = v.small;
      front_in = v.front_in;
      room = omega (arith, v.small);
      back_at = place_at ∙ ap (λ k. (q.queue_front + k) % size) (sym counted);
    },
    ap (λ k. held (set q.queue place buffer) q.queue_front (suc k)) as_suc
        ∙ held-push q.queue buffer (suc q.num_new_buffers) q.queue_front place v.front_in
            (omega arith) v.array (place_at ∙ ap (λ k. (q.queue_front + k) % size) (omega arith)),
    counted,
    refl,
  )
    where
      place : ℕ
      place = add32 q.back 1 % size

      counted : add32 q.num_new_buffers 1 ≡ q.num_new_buffers + 1
      counted = omega (arith, v.small)

      as_suc : add32 q.num_new_buffers 1 ≡ suc q.num_new_buffers
      as_suc = omega (arith, v.small)

      place_at : place ≡ (q.queue_front + (q.num_new_buffers + 1)) % size
      place_at =
          let below : q.back < size = rw v.back_at (mod-lt _ (omega arith)) in
          let plain : add32 q.back 1 ≡ q.back + 1 = omega (arith, v.small) in
          ap (λ k. k % size) plain
          ∙ ap (λ k. (k + 1) % size) v.back_at
          ∙ mod-add-mod (q.queue_front + q.num_new_buffers) size 1
          ∙ ap (λ k. k % size) (omega arith)

      place_in : place < length q.queue
      place_in = omega (arith, v.array, mod-lt (add32 q.back 1) {m = size})

  -- While pushed buffers are left, a pop takes the pointer in front, and counts one buffer less.
  pub pop_front-contents :
      (q : BufferQueue)
      → IsValid q
      → 0 < q.num_new_buffers
      → (x : ℕ) × (q' : BufferQueue) × (pop_front size q ≡ some (x, q'))
        × IsValid q'
        × (contents q ≡ x ∷ contents q')
        × (q'.num_new_buffers + 1 ≡ q.num_new_buffers)
  unfolding pop_front
  pop_front-contents q v some_left = (
    get_or q.queue q.queue_front 0,
    record q {
      queue_front = add32 q.queue_front 1 % size;
      cur_num_buffers = sub32 q.cur_num_buffers 1;
      num_new_buffers = sub32 q.num_new_buffers 1;
    },
    rw (get_elem?-eq-get_or q.queue q.queue_front 0 (omega (arith, v.array, v.front_in))),
    record {
      array = v.array;
      small = v.small;
      front_in = mod-lt (add32 q.queue_front 1) (omega (arith, v.front_in));
      room = omega (arith, v.room, v.small);
      back_at =
          v.back_at
          ∙ ap (λ k. (q.queue_front + k) % size) (sym less)
          ∙ sym (next_place size q.queue_front (sub32 q.num_new_buffers 1))
          ∙ ap (λ k. (k % size + sub32 q.num_new_buffers 1) % size) (sym plain);
    },
    ap₂ (λ k n. get_or q.queue q.queue_front 0 ∷ held q.queue (k % size) n) (sym plain) (sym less),
    omega (arith, v.room, v.small),
  )
    where
      plain : add32 q.queue_front 1 ≡ q.queue_front + 1
      plain = omega (arith, v.front_in, v.small)

      less : suc (sub32 q.num_new_buffers 1) ≡ q.num_new_buffers
      less = omega (arith, v.room, v.small)

  -- A row of pushes, and a row of n pops with what they take.
  unfoldable pub push_all : BufferQueue → List ℕ → Option BufferQueue
  push_all q [] = some q
  push_all q (x ∷ xs) = push_back size q x >>= λ q'. push_all q' xs

  pub pop_all : ℕ → BufferQueue → Option (List ℕ × BufferQueue)
  pop_all zero q = some ([], q)
  pop_all (suc n) q = do (x, q') ← pop_front size q; (xs, q'') ← pop_all n q'; some (x ∷ xs, q'')

  pub push_all-contents :
      (xs : List ℕ) (q : BufferQueue)
      → IsValid q
      → q.num_new_buffers + length xs < size
      → (q' : BufferQueue) × (push_all q xs ≡ some q')
        × IsValid q'
        × (contents q' ≡ contents q ++ xs)
        × (q'.num_new_buffers ≡ q.num_new_buffers + length xs)
  unfolding push_all
  push_all-contents [] q v h = (q, refl, v, sym (append-nil (contents q)), omega arith)
  push_all-contents (x ∷ xs) q v h =
      let (q', run, v', held', count, _) = push_back-contents q x v (omega arith) in
      let (q'', run', v'', held'', count') = push_all-contents xs q' v' (omega (arith, count)) in
      (
        q'',
        rw run run',
        v'',
        held'' ∙ ap (λ l. l ++ xs) held' ∙ append_assoc (contents q) (x ∷ []) xs,
        omega (arith, count, count'),
      )

  pop_all-suc :
      (n : ℕ) (q q' q'' : BufferQueue) (x : ℕ) (xs : List ℕ)
      → pop_front size q ≡ some (x, q')
      → pop_all n q' ≡ some (xs, q'')
      → pop_all (suc n) q ≡ some (x ∷ xs, q'')
  unfolding pop_all
  pop_all-suc n q q' q'' x xs run run' = rw (run, run')

  pub pop_all-contents :
      (n : ℕ) (q : BufferQueue)
      → IsValid q
      → n ≤ q.num_new_buffers
      → (q' : BufferQueue) × (pop_all n q ≡ some (take n (contents q), q')) × IsValid q'
  unfolding pop_all
  pop_all-contents zero q v h = (q, refl, v)
  pop_all-contents (suc n) q v h =
      let (x, q', run, v', held', count) = pop_front-contents q v (omega arith) in
      let (q'', run', v'') = pop_all-contents n q' v' (omega (arith, count)) in
      (
        q'',
        pop_all-suc n q q' q'' x (take n (contents q')) run run'
            ∙ ap (λ l. some (take (suc n) l, q'')) (sym held'),
        v'',
      )

  -- The ring lags by one place: after the buffers `xs` were pushed on a new queue, n pops take the
  -- pointer that the array's first cell held before any push, and then all but the last of `xs`
  -- that would be due.
  pub pop_all-push_all :
      (start n : ℕ) (cells xs : List ℕ)
      → size < 2 ^ 31
      → length cells ≡ size
      → length xs < size
      → n ≤ length xs
      → (q q' : BufferQueue) × (push_all (init start cells) xs ≡ some q)
        × (pop_all n q ≡ some (take n (get_or cells 0 0 ∷ xs), q'))
  unfolding init
  pop_all-push_all start n cells xs small e h le =
      let v = init-IsValid start cells (omega arith) small e in
      let (q, run, v', held', count) = push_all-contents xs (init start cells) v (omega arith) in
      let (q', run', _) = pop_all-contents n q v' (omega (arith, count)) in
      (q, q', run, rw (← held') run')
