-- ===== src/ReadWritePool/Insert.antt =====
-- insert_read_write keeps a batch sorted.
use ringdb.Prelude.{
  ℕ, zero, suc, ◌+◌, ◌-◌, ◌^◌, ◌≤◌, ◌<◌, ◌≡◌, refl, ◌∙◌, ap, sym, add32, Bool, true, false, some,
  List, arith, length, set, store, store_lem, length-set, get_elem?-eq-get_or, get_or-set_self,
  get_or-set_ne, length-replicate, dec_lt, ℕ_discrete, ◌==◌, ◌≢◌, Bool-cases, inl, inr,
}
use ringdb.Config.{Config}
use ringdb.Memory.{Memory, memcmp, is_lt}
use ringdb.Bisect.{Found, Ends}
use ringdb.Requests.{RequestType, ConnectionRequest, key_of}
use ringdb.ReadWritePool.{
  ReadWritePool, shift, placed, allocated, end_place, insert_read_write, search,
}
use ringdb.ReadWritePool.Sorted.{insert-Ordered}
use ringdb.ReadWritePool.Order.{entry, blank, IsSorted, below, search-Ends}

abbrev pub with_ref : ℕ → ConnectionRequest → ConnectionRequest
with_ref ref r = record r { req_batch_ref = ref }

entry-set_self :
    (d : List ConnectionRequest) (i : ℕ) (x : ConnectionRequest)
    → i < length d
    → entry (set d i x) i ≡ x
entry-set_self d i x h = get_or-set_self d i x blank h

-- What the shift leaves: `x` at `i`, and the `n` entries from `i` on one place further, each with
-- the batch reference of `x`.
pub record Shifted (d d' : List ConnectionRequest) (i n : ℕ) (x : ConnectionRequest) : Type 0 where
  pub size : length d' ≡ length d
  pub before : (j : ℕ) → j < i → entry d' j ≡ entry d j
  pub here : entry d' i ≡ x
  pub moved : (j : ℕ) → i ≤ j → j < i + n → entry d' (j + 1) ≡ with_ref x.req_batch_ref (entry d j)

entry-set_ne :
    (d : List ConnectionRequest) (i j : ℕ) (x : ConnectionRequest)
    → i ≢ j
    → entry (set d i x) j ≡ entry d j
entry-set_ne d i j x h = get_or-set_ne d i j x blank h

-- One round, and the rest of the loop.
Shifted-suc :
    (d d' : List ConnectionRequest) (i n : ℕ) (x : ConnectionRequest)
    → i < length d
    → Shifted (set d i x) d' (i + 1) n (with_ref x.req_batch_ref (entry d i))
    → Shifted d d' i (suc n) x
Shifted-suc d d' i n x h s = record {
  size = s.size ∙ length-set d i x;
  before = λ j l. s.before j (omega arith) ∙ entry-set_ne d i j x (omega arith);
  here = s.before i (omega arith) ∙ entry-set_self d i x h;
  moved = λ j k l. elim (ℕ_discrete i j) [
    | yes e ↦ rw (← e) s.here
    | no ne ↦
        s.moved j (omega arith) (omega arith)
        ∙ ap (with_ref x.req_batch_ref) (entry-set_ne d i j x ne)
  ];
}

module _ (c : Config) (m : Memory) where
  shift-suc :
      (n : ℕ) (d : List ConnectionRequest) (i : ℕ) (x : ConnectionRequest)
      → i < length d
      → shift c m (suc n) d i x
        ≡ shift c m n (set d i x) (i + 1) (with_ref x.req_batch_ref (entry d i))
  unfolding shift
  shift-suc n d i x h = rw (get_elem?-eq-get_or d i blank h, store_lem d i x h)

  pub shift-Shifted :
      (n : ℕ) (d : List ConnectionRequest) (i : ℕ) (x : ConnectionRequest)
      → i + n < length d
      → (d' : List ConnectionRequest) × (shift c m n d i x ≡ some d') × Shifted d d' i n x
  unfolding shift
  shift-Shifted zero d i x h = (
    set d i x,
    store_lem d i x (omega arith),
    record {
      size = length-set d i x;
      before = λ j l. entry-set_ne d i j x (omega arith);
      here = entry-set_self d i x (omega arith);
      moved = λ j k l. absurd (omega arith);
    },
  )
  shift-Shifted (suc n) d i x h =
      let (d', run, s) =
        shift-Shifted n (set d i x) (i + 1) (with_ref x.req_batch_ref (entry d i))
          (omega (arith, length-set d i x)) in
      (d', shift-suc n d i x (omega arith) ∙ run, Shifted-suc d d' i n x (omega arith) s)

  -- Where the new request goes, and what becomes of the others.
  pub placed-Shifted :
      (p : ReadWritePool) (f : Found) (x : ConnectionRequest)
      → p.count < length p.entries
      → f.left ≤ p.count
      → (f.left ≡ p.count → end_place c m f ≡ p.count)
      → (d' : List ConnectionRequest) × (placed c m p f x ≡ some d')
        × Shifted p.entries d' f.left (p.count - f.left) x
  unfolding placed
  placed-Shifted p f x h l end = elim (Bool-cases (f.left == p.count)) [
    | inl e ↦
        let here : f.left ≡ p.count = ground arith in
        (
          set p.entries f.left x,
          rw (e, placed)
              (ap (λ k. store p.entries k x) (end here ∙ sym here)
                ∙ store_lem p.entries f.left x (omega arith)),
          record {
            size = length-set p.entries f.left x;
            before = λ j l'. entry-set_ne p.entries f.left j x (omega arith);
            here = entry-set_self p.entries f.left x (omega arith);
            moved = λ j k l'. absurd (omega arith);
          },
        )
    | inr ne ↦
        let (d', run, s) = shift-Shifted (p.count - f.left) p.entries f.left x (omega arith) in
        (d', rw (ne, placed) run, s)
  ]

  -- A batch that `insert_read_write` can be called on: its array is allocated by the first call.
  pub record IsValid (p : ReadWritePool) : Type 0 where
    pub within : p.count ≤ c.page_size
    pub small : c.page_size ≤ 2 ^ 31
    pub storage : 0 < p.count → length p.entries ≡ c.page_size
    pub sorted : IsSorted c m p.entries p.count

  -- What the allocation of the first call leaves.
  record Allocated (p q : ReadWritePool) : Type 0 where
    full : length q.entries ≡ c.page_size
    count : q.count ≡ p.count
    kept : (j : ℕ) → j < p.count → entry q.entries j ≡ entry p.entries j
    sorted : IsSorted c m q.entries p.count
    same : (q.num_sent ≡ p.num_sent) × (q.present_in_level ≡ p.present_in_level)

  allocated-Allocated :
      (unset : ConnectionRequest) (p : ReadWritePool)
      → IsValid p
      → Allocated p (allocated c m unset p)
  unfolding allocated
  allocated-Allocated unset p v = elim (Bool-cases (p.count == 0)) [
    | inl e ↦
        let e' : p.count ≡ 0 = ground arith in
        rw (e, allocated)
          (record {
            full = length-replicate c.page_size unset;
            count = refl;
            kept = λ j l. absurd (omega arith);
            sorted = λ i j h l. absurd (omega arith);
            same = (refl, refl);
          })
    | inr ne ↦
        rw (ne, allocated)
          (record {
            full = v.storage (ground arith);
            count = refl;
            kept = λ j l. refl;
            sorted = v.sorted;
            same = (refl, refl);
          })
  ]

  end_place_lem :
      (p : ℕ → Bool) (n : ℕ) (f : Found) → Ends p 0 n 0 n 0 f → f.left ≡ n → end_place c m f ≡ n
  unfolding end_place
  end_place_lem p n f e h = elim (dec_lt 0 n) [
    | yes l ↦ ground (arith, e.last h l)
    | no z ↦ let z' : 0 ≡ n = omega arith in ground (arith, e.idle z')
  ]

  -- The batch after an insertion at `place`.
  pub record Inserted (p p' : ReadWritePool) (place : ℕ) (x : ConnectionRequest) : Type 0 where
    pub place_le : place ≤ p.count
    pub count : p'.count ≡ p.count + 1
    pub before : (j : ℕ) → j < place → entry p'.entries j ≡ entry p.entries j
    pub here : entry p'.entries place ≡ x
    pub after :
        (j : ℕ)
        → place ≤ j
        → j < p.count
        → entry p'.entries (j + 1) ≡ with_ref x.req_batch_ref (entry p.entries j)
    pub same : (p'.num_sent ≡ p.num_sent) × (p'.present_in_level ≡ p.present_in_level)

  -- `place` is the first one whose key is not below that at `buffer`.
  pub record IsFirst (p : ReadWritePool) (buffer place : ℕ) : Type 0 where
    pub lower : (j : ℕ) → j < place → below c m p.entries buffer j ≡ true
    pub upper : (j : ℕ) → place ≤ j → j < p.count → below c m p.entries buffer j ≡ false

  module _ (p q : ReadWritePool) (v : IsValid p) (a : Allocated p q) (room : p.count < c.page_size)
      (f : Found) (x : ConnectionRequest)
      (ends : Ends (below c m q.entries x.buffer) 0 q.count 0 q.count 0 f)
      (d' : List ConnectionRequest) (s : Shifted q.entries d' f.left (q.count - f.left) x) where
    result : ReadWritePool
    result = record q { entries = d'; count = add32 q.count 1 }

    result-Inserted : Inserted p result f.left x
    unfolding result
    result-Inserted = record {
      place_le = omega (arith, ends.splits.le_n, a.count);
      count = omega (arith, a.count, v.within, v.small);
      before = λ j l. s.before j l ∙ a.kept j (omega (arith, ends.splits.le_n, a.count));
      here = s.here;
      after = λ j k l.
          s.moved j k (omega (arith, a.count)) ∙ ap (with_ref x.req_batch_ref) (a.kept j l);
      same = a.same;
    }

    below_at :
        (i : ℕ) → i < p.count → below c m p.entries x.buffer i ≡ below c m q.entries x.buffer i
    below_at i l =
        ap (λ (e : ConnectionRequest). is_lt (memcmp m (key_of e) (x.buffer + 5) c.key_length))
          (sym (a.kept i l))

    result-IsFirst : IsFirst p x.buffer f.left
    result-IsFirst = record {
      lower = λ j l.
          below_at j (omega (arith, ends.splits.le_n, a.count))
          ∙ ends.splits.below j (omega arith) l;
      upper = λ j k l. below_at j l ∙ ends.splits.above j k (omega (arith, a.count));
    }

    result-IsSorted : IsSorted c m d' (p.count + 1)
    result-IsSorted =
        insert-Ordered m c.key_length (λ i. key_of (entry q.entries i)) (λ i. key_of (entry d' i))
          p.count f.left (x.buffer + 5) a.sorted
          (record {
            before = λ j l. ap key_of (s.before j l);
            here = ap key_of s.here;
            after = λ j k l. ap key_of (s.moved j k (omega (arith, a.count)));
          })
          (omega (arith, ends.splits.le_n, a.count)) (λ i l. ends.splits.below i (omega arith) l)
          (λ i k l. ends.splits.above i k (omega (arith, a.count)))

    result-IsValid : IsValid result
    unfolding result
    result-IsValid =
        let e : add32 q.count 1 ≡ p.count + 1 = omega (arith, a.count, v.within, v.small) in
        record {
          within = omega arith;
          small = v.small;
          storage = λ _. s.size ∙ a.full;
          sorted = rw e result-IsSorted;
        }

  pub insert_runs :
      (unset : ConnectionRequest) (p : ReadWritePool) (buffer fd : ℕ) (t : RequestType) (ref : ℕ)
      (f : Found) (d' : List ConnectionRequest)
      → search c m (allocated c m unset p) 0 buffer ≡ some f
      → placed c m
          (allocated c m unset p)
          f
          (record { req_type = t; req_batch_ref = ref; client_sock_fd = fd; buffer = buffer })
        ≡ some d'
      → insert_read_write c m unset p buffer fd t ref
        ≡ some (record (allocated c m unset p) {
          entries = d';
          count = add32 (allocated c m unset p).count 1;
        })
  unfolding insert_read_write
  insert_runs unset p buffer fd t ref f d' s r = rw (s, r)

  -- On a batch with room left an insertion succeeds: it puts the request at the first place whose
  -- key is not below its own, moves the later ones up by one, and keeps the batch sorted.
  pub insert_read_write_lem :
      (unset : ConnectionRequest) (p : ReadWritePool) (buffer fd : ℕ) (t : RequestType) (ref : ℕ)
      → IsValid p
      → p.count < c.page_size
      → (p' : ReadWritePool) × (place : ℕ) × (insert_read_write c m unset p buffer fd t ref
          ≡ some p')
        × Inserted p p' place
            (record { req_type = t; req_batch_ref = ref; client_sock_fd = fd; buffer = buffer })
        × IsFirst p buffer place
        × IsValid p'
  unfolding result
  insert_read_write_lem unset p buffer fd t ref v room =
      let a = allocated-Allocated unset p v in
      let q = allocated c m unset p in
      let x : ConnectionRequest = record {
        req_type = t;
        req_batch_ref = ref;
        client_sock_fd = fd;
        buffer = buffer;
      } in
      let (f, searched, ends) =
        search-Ends c m q 0 buffer (rw a.count a.sorted) (omega (arith, a.full, a.count))
          (omega (arith, a.count)) (omega arith) in
      let (d', run, s) =
        placed-Shifted q f x (omega (arith, a.full, a.count)) ends.splits.le_n
          (end_place_lem (below c m q.entries buffer) q.count f ends) in
      (
        result p q v a room f x ends d' s,
        f.left,
        insert_runs unset p buffer fd t ref f d' searched run,
        result-Inserted p q v a room f x ends d' s,
        result-IsFirst p q v a room f x ends d' s,
        result-IsValid p q v a room f x ends d' s,
      )
