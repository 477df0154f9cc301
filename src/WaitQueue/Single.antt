-- ===== src/WaitQueue/Single.antt =====
-- A queue that one thread uses: first in, first out.
use ringdb.Prelude.{
  ℕ, ◌+◌, ◌<◌, ◌≡◌, refl, ◌∙◌, Bool, true, false, Option, none, some, List, [], ◌∷◌, ◌++◌, arith,
  ◌>>=◌, ◌==◌,
}
use ringdb.WaitQueue.{
  WaitQueue, update, first, link, extend, standard_push_back, try_push_back, unlink, pop_front,
}
use ringdb.WaitQueue.Chain.{node, Row-update, Row-last, Row-snoc, Holds, nothing, row}

-- What `extend` leaves on a queue whose last node holds `y`.
abbrev pub extended : WaitQueue → ℕ → ℕ → WaitQueue
extended q x y = record q {
  back = q.next_address;
  nodes = update (update q.nodes q.next_address (node x 0)) q.back (node y q.next_address);
  next_address = q.next_address + 1;
}

pub extend_lem :
    (q : WaitQueue) (x y z : ℕ)
    → q.back < q.next_address
    → q.nodes q.back ≡ node y z
    → extend q x ≡ some (extended q x y)
unfolding extend link
extend_lem q x y z h e =
    let old : update q.nodes q.next_address (node x 0) q.back ≡ node y z = ground arith in rw old

-- A queue that holds something takes a batch in behind the others.
pub extend-Holds :
    (q : WaitQueue) (x b : ℕ) (bs : List ℕ)
    → Holds q (b ∷ bs)
    → (q' : WaitQueue) × (extend q x ≡ some q')
      × Holds q' (b ∷ (bs ++ (x ∷ [])))
      × (q'.is_single_thread ≡ q.is_single_thread)
      × (q'.size ≡ q.size)
extend-Holds q x b bs (row _ _ r h) =
    let (y, e) = Row-last q.nodes q.front q.back b bs r in
    (
      extended q x y,
      extend_lem q x y 0 h e,
      row b (bs ++ (x ∷ [])) (Row-snoc q.nodes q.front q.back b bs q.next_address x y h e r)
          (omega arith),
      refl,
      refl,
    )

pub first-Holds : (q : WaitQueue) (x : ℕ) → Holds q [] → Holds (first q x) (x ∷ [])
first-Holds q x (nothing _ pos) = row x [] (pos, ground arith, refl) (omega arith)

front_zero : (q : WaitQueue) → Holds q [] → (q.front == 0) ≡ true
front_zero q (nothing e _) = ground arith

front_pos : (q : WaitQueue) (b : ℕ) (bs : List ℕ) → Holds q (b ∷ bs) → (q.front == 0) ≡ false
front_pos q b [] (row _ _ r h) = ground arith
front_pos q b (c ∷ bs) (row _ _ (p, pos, at, up, r) h) = ground arith

-- Taking the front off.
pub unlink-Holds :
    (q : WaitQueue) (b : ℕ) (bs : List ℕ)
    → Holds q (b ∷ bs)
    → (q' : WaitQueue) × (unlink q ≡ some (b, q'))
      × Holds q' bs
      × (q'.is_single_thread ≡ q.is_single_thread)
      × (q'.size ≡ q.size)
unfolding unlink
unlink-Holds q b [] (row _ _ (pos, at, end) h) = (
  record q { front = 0; nodes = update q.nodes q.front none },
  rw at,
  nothing refl (omega arith),
  refl,
  refl,
)
unlink-Holds q b (c ∷ bs) (row _ _ (p, pos, at, up, r) h) = (
  record q { front = p; nodes = update q.nodes q.front none },
  rw at,
  row c bs (Row-update q.nodes p q.back c bs q.front none up r) h,
  refl,
  refl,
)

push_runs :
    (q q' : WaitQueue) (x : ℕ) (contend : Bool)
    → q.is_single_thread ≡ true
    → q'.is_single_thread ≡ true
    → (q.front == 0) ≡ false
    → extend q x ≡ some q'
    → try_push_back q x contend ≡ some (true, q')
unfolding try_push_back standard_push_back
push_runs q q' x contend s s' f e = ground arith

standard_runs :
    (q q' : WaitQueue) (x : ℕ)
    → q.is_single_thread ≡ true
    → q'.is_single_thread ≡ true
    → (q.front == 0) ≡ false
    → extend q x ≡ some q'
    → standard_push_back q x ≡ some q'
unfolding standard_push_back
standard_runs q q' x s s' f e = ground arith

push_first :
    (q : WaitQueue) (x : ℕ) (contend : Bool)
    → q.is_single_thread ≡ true
    → (q.front == 0) ≡ true
    → try_push_back q x contend ≡ some (true, first q x)
unfolding try_push_back standard_push_back
push_first q x contend s f = ground arith

pop_empty :
    (q : WaitQueue) → q.is_single_thread ≡ true → (q.front == 0) ≡ true → pop_front q ≡ some (0, q)
unfolding pop_front
pop_empty q s f = ground arith

pop_some :
    (q : WaitQueue) → q.is_single_thread ≡ true → (q.front == 0) ≡ false → pop_front q ≡ unlink q
unfolding pop_front
pop_some q s f = ground arith

-- On a queue that one thread uses a pop takes the batch in front.
pub pop_front-Holds :
    (q : WaitQueue) (b : ℕ) (bs : List ℕ)
    → q.is_single_thread ≡ true
    → Holds q (b ∷ bs)
    → (q' : WaitQueue) × (pop_front q ≡ some (b, q')) × Holds q' bs × (q'.is_single_thread ≡ true)
pop_front-Holds q b bs s h =
    let (q', run, h', s', _) = unlink-Holds q b bs h in
    (q', pop_some q s (front_pos q b bs h) ∙ run, h', s' ∙ s)

-- On a queue that one thread uses a push succeeds and puts the batch behind the others.
pub try_push_back-Holds :
    (q : WaitQueue) (x : ℕ) (contend : Bool) (bs : List ℕ)
    → q.is_single_thread ≡ true
    → Holds q bs
    → (q' : WaitQueue) × (try_push_back q x contend ≡ some (true, q'))
      × Holds q' (bs ++ (x ∷ []))
      × (q'.is_single_thread ≡ true)
unfolding try_push_back standard_push_back
try_push_back-Holds q x contend [] s h =
    (first q x, push_first q x contend s (front_zero q h), first-Holds q x h, s)
try_push_back-Holds q x contend (b ∷ bs) s h =
    let (q', run, h', s', _) = extend-Holds q x b bs h in
    (q', push_runs q q' x contend s (s' ∙ s) (front_pos q b bs h) run, h', s' ∙ s)

-- The same of the push that leaves the guards alone.
pub standard_push_back-Holds :
    (q : WaitQueue) (x : ℕ) (bs : List ℕ)
    → q.is_single_thread ≡ true
    → Holds q bs
    → (q' : WaitQueue) × (standard_push_back q x ≡ some q')
      × Holds q' (bs ++ (x ∷ []))
      × (q'.is_single_thread ≡ true)
unfolding standard_push_back
standard_push_back-Holds q x [] s h =
    (first q x, ground (arith, front_zero q h), first-Holds q x h, s)
standard_push_back-Holds q x (b ∷ bs) s h =
    let (q', run, h', s', _) = extend-Holds q x b bs h in
    (q', standard_runs q q' x s (s' ∙ s) (front_pos q b bs h) run, h', s' ∙ s)

-- What a client sees of a queue: a batch goes in, or the front one comes out.
pub data Op : Type 0 where
  push : ℕ → Bool → Op
  pop : Op

-- The batches that the pops return, nullptr (0) where there is none.
pub run : WaitQueue → List Op → Option (List ℕ)
run q [] = some []
run q (push x contend ∷ ops) = do (taken, q') ← try_push_back q x contend; run q' ops
run q (pop ∷ ops) = do (b, q') ← pop_front q; bs ← run q' ops; some (b ∷ bs)

-- The same of a plain list.
unfoldable pub fifo : List ℕ → List Op → List ℕ
fifo bs [] = []
fifo bs (push x contend ∷ ops) = fifo (bs ++ (x ∷ [])) ops
fifo [] (pop ∷ ops) = 0 ∷ fifo [] ops
fifo (b ∷ bs) (pop ∷ ops) = b ∷ fifo bs ops

-- A queue that one thread uses faults on no sequence of pushes and pops, and its pops return what
-- those of a first-in, first-out list do.
pub run-fifo :
    (ops : List Op) (q : WaitQueue) (bs : List ℕ)
    → q.is_single_thread ≡ true
    → Holds q bs
    → run q ops ≡ some (fifo bs ops)
unfolding run fifo
run-fifo [] q bs s h = refl
run-fifo (push x contend ∷ ops) q bs s h =
    let (q', r, h', s') = try_push_back-Holds q x contend bs s h in
    rw r (run-fifo ops q' (bs ++ (x ∷ [])) s' h')
run-fifo (pop ∷ ops) q [] s h = rw (pop_empty q s (front_zero q h), run-fifo ops q [] s h)
run-fifo (pop ∷ ops) q (b ∷ bs) s h =
    let (q', r, h', s') = pop_front-Holds q b bs s h in rw (r, run-fifo ops q' bs s' h')
