-- ===== src/ReadWritePool/Find.antt =====
-- find_index_starting_from: what its result says, on every branch.
use ringdb.Prelude.{
  ℕ, ◌+◌, ◌≤◌, ◌<◌, ◌≡◌, Bool, true, false, not, some, arith, length, get_elem?-eq-get_or,
  minus_one, ◌==◌, Bool-cases, inl, inr, dec_lt, if◌then◌else◌,
}
use ringdb.Config.{Config}
use ringdb.Memory.{Memory, memcmp, is_eq}
use ringdb.Bisect.{Found, Splits}
use ringdb.Requests.{key_of}
use ringdb.ReadWritePool.{ReadWritePool, misses, find_index_starting_from, search}
use ringdb.ReadWritePool.Order.{entry, blank, below, search-Ends}
use ringdb.ReadWritePool.Insert.{IsValid}

module _ (c : Config) (m : Memory) (p : ReadWritePool) where
  -- The first request has the key searched for.
  abbrev pub first_matches : ℕ → Bool
  first_matches buffer = is_eq (memcmp m (key_of (entry p.entries 0)) (buffer + 5) c.key_length)

  -- The outcome of a search whose first place with a key that is not below is `r`.
  pub data Outcome (buffer r : ℕ) : ℕ → Type 0 where
    past_end : r ≡ p.count → Outcome buffer r minus_one
    before_first : r ≡ 0 → first_matches buffer ≡ false → Outcome buffer r minus_one
    at_place : r < p.count → (r ≡ 0 → first_matches buffer ≡ true) → Outcome buffer r r

  missed : ℕ → ℕ → Bool
  missed r buffer =
      if r == p.count then true else if r == 0 then not (first_matches buffer) else false

  misses_lem :
      (r buffer : ℕ)
      → r ≤ p.count
      → p.count ≤ length p.entries
      → misses c m p r buffer ≡ some (missed r buffer)
  unfolding misses missed
  misses_lem r buffer h fits = elim (Bool-cases (r == p.count)) [
    | inl e ↦ rw (e, misses, missed)
    | inr ne ↦
        rw (ne, misses, missed, get_elem?-eq-get_or p.entries 0 blank (ground arith)) (ground arith)
  ]

  outcome_lem :
      (r buffer : ℕ) → r ≤ p.count → Outcome buffer r (if missed r buffer then minus_one else r)
  unfolding missed
  outcome_lem r buffer h = elim (Bool-cases (r == p.count)) [
    | inl e ↦ rw (e, missed) (past_end (ground arith))
    | inr ne ↦ elim (Bool-cases (r == 0)) [
      | inr pos ↦ rw (ne, pos, missed) (at_place (ground arith) (λ z. ground arith))
      | inl z ↦ elim (Bool-cases (first_matches buffer)) [
        | inl same ↦ rw (ne, z, same, missed) (at_place (ground arith) (λ _. same))
        | inr other ↦ rw (ne, z, other, missed) (before_first (ground arith) other)
      ]
    ]
  ]

  array_fits : IsValid c m p → p.count ≤ length p.entries
  array_fits v = elim (dec_lt 0 p.count) [ yes l ↦ omega (arith, v.storage l) | no z ↦ omega arith ]

  find_runs :
      (start buffer : ℕ) (f : Found) (b : Bool)
      → search c m p start buffer ≡ some f
      → misses c m p f.left buffer ≡ some b
      → find_index_starting_from c m p start buffer ≡ some (if b then minus_one else f.left)
  unfolding find_index_starting_from
  find_runs start buffer f b s t = rw (s, t)

  -- On a valid batch the search does not fault. It finds the first place from `start` on whose key
  -- is not below the one searched for, and returns it, but -1 if that place is past the end, or if
  -- it is the first and its key is another.
  pub find_index_starting_from_lem :
      (start buffer : ℕ)
      → IsValid c m p
      → start ≤ p.count
      → (r : ℕ) × (i : ℕ) × (find_index_starting_from c m p start buffer ≡ some i)
        × Splits (below c m p.entries buffer) start p.count r
        × Outcome buffer r i
  find_index_starting_from_lem start buffer v h =
      let (f, searched, ends) =
        search-Ends c m p start buffer v.sorted (array_fits v) (omega (arith, v.within, v.small))
          h in
      let le = ends.splits.le_n in
      (
        f.left,
        if missed f.left buffer then minus_one else f.left,
        find_runs start buffer f (missed f.left buffer) searched
            (misses_lem f.left buffer le (array_fits v)),
        ends.splits,
        outcome_lem f.left buffer le,
      )
