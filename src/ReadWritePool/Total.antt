-- ===== src/ReadWritePool/Total.antt =====
-- insert_read_write succeeds on every batch with room, sorted or not.
use ringdb.Prelude.{
  ℕ, ◌+◌, ◌^◌, ◌≤◌, ◌<◌, ◌≡◌, ◌∙◌, add32, Bool, some, List, arith, length, get_elem?-eq-get_or,
  length-replicate, ◌==◌, Bool-cases, inl, inr, ap, dec_lt,
}
use ringdb.Config.{Config}
use ringdb.Memory.{Memory, memcmp, is_lt}
use ringdb.Bisect.{Found}
use ringdb.Bisect.Total.{bisect_total, EndsIn}
use ringdb.Requests.{RequestType, ConnectionRequest, key_of}
use ringdb.ReadWritePool.{
  ReadWritePool, allocated, end_place, entry_below, insert_read_write, search,
}
use ringdb.ReadWritePool.Order.{entry, blank}
use ringdb.ReadWritePool.Insert.{Inserted, placed-Shifted, insert_runs, with_ref}

-- A batch whose array is there as soon as it holds a request.
pub record IsSized (c : Config) (p : ReadWritePool) : Type 0 where
  pub small : c.page_size ≤ 2 ^ 31
  pub storage : 0 < p.count → length p.entries ≡ c.page_size

module _ (c : Config) (m : Memory) where
  allocated-storage :
      (unset : ConnectionRequest) (p : ReadWritePool)
      → IsSized c p
      → (length (allocated c m unset p).entries ≡ c.page_size)
        × ((allocated c m unset p).count ≡ p.count)
        × ((j : ℕ) → j < p.count → entry (allocated c m unset p).entries j ≡ entry p.entries j)
        × ((allocated c m unset p).num_sent ≡ p.num_sent)
        × ((allocated c m unset p).present_in_level ≡ p.present_in_level)
  unfolding allocated
  allocated-storage unset p v = elim (Bool-cases (p.count == 0)) [
    | inl e ↦
        let empty : p.count ≡ 0 = ground arith in
        (
          rw (e, allocated) (length-replicate c.page_size unset),
          rw (e, allocated),
          λ j l. absurd (omega arith),
          rw (e, allocated),
          rw (e, allocated),
        )
    | inr ne ↦ (
      rw (ne, allocated) (v.storage (ground arith)),
      rw (ne, allocated),
      λ j l. rw (ne, allocated),
      rw (ne, allocated),
      rw (ne, allocated),
    )
  ]

  -- The search ends behind the last request only by reading that one last.
  end_place_total :
      (n : ℕ) (f : Found)
      → (f.left ≡ n → 0 < n → f.at + 1 ≡ n)
      → (0 ≡ n → f.at ≡ 0)
      → f.left ≡ n
      → end_place c m f ≡ n
  unfolding end_place
  end_place_total n f last idle h = elim (dec_lt 0 n) [
    | yes l ↦ ground (arith, last h l)
    | no z ↦ let z' : 0 ≡ n = omega arith in ground (arith, idle z')
  ]

  entry_below_total :
      (d : List ConnectionRequest) (buffer i : ℕ)
      → i < length d
      → (b : Bool) × (entry_below c m d buffer i ≡ some b)
  unfolding entry_below
  entry_below_total d buffer i h = (
    is_lt (memcmp m (key_of (entry d i)) (buffer + 5) c.key_length),
    rw (get_elem?-eq-get_or d i blank h),
  )

  search_total :
      (p : ReadWritePool) (buffer : ℕ)
      → p.count < length p.entries
      → length p.entries ≤ 2 ^ 31
      → EndsIn (entry_below c m p.entries buffer) p.count (p.count + 1) 0 p.count 0
  search_total p buffer h small =
      bisect_total (entry_below c m p.entries buffer) p.count (omega arith)
        (λ i l. entry_below_total p.entries buffer i (omega arith)) (p.count + 1) 0 p.count 0
        (omega arith) (omega arith) (omega arith) (omega arith)

  -- A call on a batch with room puts the request at some place, moves the later ones up by one, counts one
  -- request more, and leaves a batch for the next call.
  pub insert_read_write-total :
      (unset : ConnectionRequest) (p : ReadWritePool) (buffer fd : ℕ) (t : RequestType) (ref : ℕ)
      → IsSized c p
      → p.count < c.page_size
      → (p' : ReadWritePool) × (place : ℕ) × (insert_read_write c m unset p buffer fd t ref
          ≡ some p')
        × Inserted c m p p' place
            (record { req_type = t; req_batch_ref = ref; client_sock_fd = fd; buffer = buffer })
        × IsSized c p'
  unfolding search
  insert_read_write-total unset p buffer fd t ref v room =
      let (full, count, kept, sent, present) = allocated-storage unset p v in
      let q = allocated c m unset p in
      let x : ConnectionRequest = record {
        req_type = t;
        req_batch_ref = ref;
        client_sock_fd = fd;
        buffer = buffer;
      } in
      let (f, searched, l, a, last, idle) =
        search_total q buffer (omega arith) (omega (arith, v.small)) in
      let (d', run, s) =
        placed-Shifted c m q f x (omega arith) l (end_place_total q.count f last idle) in
      (
        record q { entries = d'; count = add32 q.count 1 },
        f.left,
        insert_runs c m unset p buffer fd t ref f d' searched run,
        record {
          place_le = omega (arith, count);
          count = omega (arith, count, v.small);
          before = λ j b. s.before j b ∙ kept j (omega (arith, count));
          here = s.here;
          after = λ j g b. s.moved j g (omega (arith, count, l)) ∙ ap (with_ref ref) (kept j b);
          same = (sent, present);
        },
        record { small = v.small; storage = λ _. s.size ∙ full },
      )
