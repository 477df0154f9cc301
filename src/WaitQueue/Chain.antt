-- ===== src/WaitQueue/Chain.antt =====
-- The list of nodes behind a queue, by what it holds. Addresses grow along the list.
use ringdb.Prelude.{ℕ, ◌≤◌, ◌<◌, ◌≡◌, refl, Option, some, List, [], ◌∷◌, ◌++◌, arith}
use ringdb.WaitQueue.{Node, WaitQueue, update}

abbrev pub node : ℕ → ℕ → Option Node
node b p = some (record { req_batch = b; next = p })

-- From address `p` to `last` the nodes hold the batch `b` and then `bs`.
abbrev pub Row : (ℕ → Option Node) → ℕ → ℕ → ℕ → List ℕ → Type 0
Row f p last b [] = (0 < p) × (f p ≡ node b 0) × (p ≡ last)
Row f p last b (c ∷ bs) = (q : ℕ) × (0 < p) × (f p ≡ node b q) × (p < q) × Row f q last c bs

pub Row-le : (f : ℕ → Option Node) (p last b : ℕ) (bs : List ℕ) → Row f p last b bs → p ≤ last
Row-le f p last b [] r = omega arith
Row-le f p last b (c ∷ bs) (q, pos, at, up, r) = omega (arith, Row-le f q last c bs r)

-- A change below the row leaves it alone.
pub Row-update :
    (f : ℕ → Option Node) (p last b : ℕ) (bs : List ℕ) (k : ℕ) (n : Option Node)
    → k < p
    → Row f p last b bs
    → Row (update f k n) p last b bs
Row-update f p last b [] k n h (pos, at, end) = (pos, ground arith, end)
Row-update f p last b (c ∷ bs) k n h (q, pos, at, up, r) =
    (q, pos, ground arith, up, Row-update f q last c bs k n (omega arith) r)

-- The last node of a row.
pub Row-last :
    (f : ℕ → Option Node) (p last b : ℕ) (bs : List ℕ)
    → Row f p last b bs
    → (x : ℕ) × (f last ≡ node x 0)
Row-last f p last b [] (pos, at, end) = (b, ground arith)
Row-last f p last b (c ∷ bs) (q, pos, at, up, r) = Row-last f q last c bs r

-- A new node linked behind the last one extends the row.
pub Row-snoc :
    (f : ℕ → Option Node) (p last b : ℕ) (bs : List ℕ) (new x y : ℕ)
    → last < new
    → f last ≡ node y 0
    → Row f p last b bs
    → Row (update (update f new (node x 0)) last (node y new)) p new b (bs ++ (x ∷ []))
Row-snoc f p last b [] new x y h e (pos, at, end) =
    (new, pos, ground arith, omega arith, (omega arith, ground arith, refl))
Row-snoc f p last b (c ∷ bs) new x y h e (q, pos, at, up, r) =
    let le = Row-le f q last c bs r in
    (q, pos, ground arith, up, Row-snoc f q last c bs new x y h e r)

-- The queue holds `bs`, the oldest first.
pub data Holds (q : WaitQueue) : List ℕ → Type 0 where
  nothing : q.front ≡ 0 → 0 < q.next_address → Holds q []
  row :
      (b : ℕ) (bs : List ℕ)
      → Row q.nodes q.front q.back b bs
      → q.back < q.next_address
      → Holds q (b ∷ bs)
