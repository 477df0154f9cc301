-- ===== src/ReadWritePool/Order.antt =====
-- The order of a batch's requests, and the search over it.
use ringdb.Prelude.{
  ℕ, ◌+◌, ◌^◌, ◌≤◌, ◌<◌, ◌≡◌, Bool, true, some, List, arith, length, get_or, get_elem?-eq-get_or,
}
use ringdb.Config.{Config}
use ringdb.Memory.{Memory, memcmp, is_lt, memcmp-le-lt}
use ringdb.Bisect.{Found, Ends, bisect_lem}
use ringdb.Requests.{RequestType, ConnectionRequest, key_of}
use ringdb.ReadWritePool.Sorted.{Ordered}
use ringdb.ReadWritePool.{ReadWritePool, entry_below, search}

abbrev pub blank : ConnectionRequest
blank = record { req_type = RequestType.accept; req_batch_ref = 0; client_sock_fd = 0; buffer = 0 }

abbrev pub entry : List ConnectionRequest → ℕ → ConnectionRequest
entry d i = get_or d i blank

module _ (c : Config) (m : Memory) where
  -- No key among the first n is above a later one.
  abbrev pub IsSorted : List ConnectionRequest → ℕ → Type 0
  IsSorted d = Ordered m c.key_length (λ i. key_of (entry d i))

  abbrev pub below : List ConnectionRequest → ℕ → ℕ → Bool
  below d buffer i = is_lt (memcmp m (key_of (entry d i)) (buffer + 5) c.key_length)

  below_mono :
      (d : List ConnectionRequest) (n buffer i j : ℕ)
      → IsSorted d n
      → i ≤ j
      → j < n
      → below d buffer j ≡ true
      → below d buffer i ≡ true
  below_mono d n buffer i j s h l b =
      memcmp-le-lt m (key_of (entry d i)) (key_of (entry d j)) (buffer + 5) c.key_length (s i j h l)
        b

  entry_below_lem :
      (d : List ConnectionRequest) (buffer i : ℕ)
      → i < length d
      → entry_below c m d buffer i ≡ some (below d buffer i)
  unfolding entry_below
  entry_below_lem d buffer i h = rw (get_elem?-eq-get_or d i blank h)

  -- The search of a sorted batch ends, reads requests of the batch only, and finds the first one
  -- whose key is not below the key searched for.
  pub search-Ends :
      (p : ReadWritePool) (start buffer : ℕ)
      → IsSorted p.entries p.count
      → p.count ≤ length p.entries
      → p.count ≤ 2 ^ 31
      → start ≤ p.count
      → (f : Found) × (search c m p start buffer ≡ some f)
        × Ends (below p.entries buffer) start p.count start p.count 0 f
  unfolding search
  search-Ends p start buffer s fits small h =
      bisect_lem (entry_below c m p.entries buffer) (below p.entries buffer) start p.count small
        (λ i l. entry_below_lem p.entries buffer i (omega arith))
        (λ i j. below_mono p.entries p.count buffer i j s) (p.count + 1) 0 (omega arith) h
