-- ===== src/Stack/Top.antt =====
-- What `top` reads: the cell above the last entry pushed, whatever that cell holds.
use ringdb.Prelude.{
  ℕ, ◌+◌, ◌^◌, ◌≤◌, ◌<◌, ◌≡◌, refl, ap, false, some, arith, length, get_elem?, set, store_lem,
  length-set, get_elem?-set_self, get_elem?-set_ne, add32, sub32,
}
use ringdb.Stack.{StackEntry, Stack, push_top, top, pop_top, empty}

pub record IsValid (s : Stack) : Type 0 where
  pub within : s.back ≤ length s.cells
  pub small : length s.cells < 2 ^ 32

-- A push on a stack that is not full: where the entry goes, and that all else stays.
pub record Pushed (s s' : Stack) (e : StackEntry) : Type 0 where
  pub back : s'.back ≡ s.back + 1
  pub cells : s'.cells ≡ set s.cells s.back e

push_top-Pushed :
    (s : Stack) (a b c d : ℕ)
    → IsValid s
    → s.back < length s.cells
    → (s' : Stack) × (push_top s a b c d ≡ some s')
      × Pushed s s' (record { word0 = a; word1 = b; word2 = c; word3 = d })
unfolding push_top
push_top-Pushed s a b c d v h = (
  record s {
    back = add32 s.back 1;
    cells = set s.cells s.back (record { word0 = a; word1 = b; word2 = c; word3 = d });
  },
  rw (store_lem s.cells s.back (record { word0 = a; word1 = b; word2 = c; word3 = d }) h),
  record { back = omega (arith, v.small); cells = refl },
)

top-Pushed :
    (s s' : Stack) (e : StackEntry) → Pushed s s' e → top s' ≡ get_elem? s.cells (s.back + 1)
unfolding top
top-Pushed s s' e p = rw (p.back, p.cells) (get_elem?-set_ne s.cells e (omega arith))

top-pop_top :
    (s s' : Stack) (e : StackEntry)
    → Pushed s s' e
    → s.back < length s.cells
    → length s.cells < 2 ^ 32
    → top (pop_top s') ≡ some e
unfolding top pop_top
top-pop_top s s' e p h small =
    let under : sub32 s'.back 1 ≡ s.back = omega (arith, p.back) in
    rw (under, p.cells) (get_elem?-set_self s.cells s.back e h)

-- On a stack that is not full a push succeeds, the entry that `top` reads after it is the one that
-- lay above the pushed one before, and only after a further `pop_top` does `top` read the pushed one,
-- on a stack that has its former height.
pub top-push_top :
    (s : Stack) (a b c d : ℕ)
    → IsValid s
    → s.back < length s.cells
    → (s' : Stack) × (push_top s a b c d ≡ some s')
      × IsValid s'
      × (empty s' ≡ false)
      × (top s' ≡ get_elem? s.cells (s.back + 1))
      × (top (pop_top s') ≡ some (record { word0 = a; word1 = b; word2 = c; word3 = d }))
      × ((pop_top s').back ≡ s.back)
unfolding top pop_top empty
top-push_top s a b c d v h =
    let (s', run, p) = push_top-Pushed s a b c d v h in
    let e : StackEntry = record { word0 = a; word1 = b; word2 = c; word3 = d } in
    (
      s',
      run,
      record {
        within = omega (arith, p.back, ap length p.cells, length-set s.cells s.back e);
        small = omega (arith, v.small, ap length p.cells, length-set s.cells s.back e);
      },
      ground (arith, p.back),
      top-Pushed s s' e p,
      top-pop_top s s' e p h v.small,
      omega (arith, p.back, v.small),
    )
