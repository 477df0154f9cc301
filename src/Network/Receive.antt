-- ===== src/Network/Receive.antt =====
-- Requests that arrive and the batch that is being filled.
use ringdb.Prelude.{
  ℕ, ◌+◌, ◌-◌, ◌≤◌, ◌<◌, ◌≡◌, ◌≢◌, refl, sym, ap, ◌∙◌, true, false, some, List, [], ◌∷◌, ◌++◌,
  length, ltb, leb, lt→ltb, arith, map, dec_lt,
}
use native.Mathlib.Nat.{div-le_self}
use ringdb.Config.{Config, batch_num_requests, socket_buffer_length}
use ringdb.Memory.{Memory, fill}
use ringdb.Requests.{RequestType, ConnectionRequest}
use ringdb.ReadWritePool.{ReadWritePool}
use ringdb.ReadWritePool.Order.{entry}
use ringdb.ReadWritePool.Insert.{Inserted, with_ref}
use ringdb.ReadWritePool.Total.{IsSized, insert_read_write-total}
use ringdb.Network.{
  Network, Completion, Request, Handled, Call, handle, handle_all, on_connection, on_recv,
  batch_request, clear_value, update, type_of_verb,
}

-- The completion of a recv.
abbrev pub arrived : ConnectionRequest → Completion
arrived r = record {
  res = 0;
  more = false;
  request = Request.connection (record r { req_type = RequestType.recv });
}

-- The batch being filled is `pool`, and holds `k` requests.
pub record Filling (c : Config) (n : Network) (k : ℕ) (pool : ReadWritePool) : Type 0 where
  pub current : n.batches n.batch ≡ some pool
  pub count : pool.count ≡ k
  pub sized : IsSized c pool

-- The batch holds the request of a client: its descriptor, its buffer, and a reference to the batch at
-- `batch`. The type comes from the bytes that have arrived.
pub record HasRequest (pool : ReadWritePool) (batch : ℕ) (r : ConnectionRequest) : Type 0 where
  pub place : ℕ
  pub type : RequestType
  pub within : place < pool.count
  pub there : entry pool.entries place ≡ record {
    req_type = type;
    req_batch_ref = batch;
    client_sock_fd = r.client_sock_fd;
    buffer = r.buffer;
  }

-- And so for each of the requests.
pub data HasRequests (pool : ReadWritePool) (batch : ℕ) : List ConnectionRequest → Type 0 where
  no_more : HasRequests pool batch []
  one_more :
      (r : ConnectionRequest) (rs : List ConnectionRequest)
      → HasRequest pool batch r
      → HasRequests pool batch rs
      → HasRequests pool batch (r ∷ rs)

HasRequest-Inserted :
    (c : Config) (m : Memory) (p p' : ReadWritePool) (place : ℕ) (x r : ConnectionRequest)
    → Inserted c m p p' place x
    → HasRequest p x.req_batch_ref r
    → HasRequest p' x.req_batch_ref r
HasRequest-Inserted c m p p' place x r i h = elim (dec_lt h.place place) [
  | yes b ↦ record {
    place = h.place;
    type = h.type;
    within = omega (arith, h.within, i.count);
    there = i.before h.place b ∙ h.there;
  }
  | no a ↦ record {
    place = h.place + 1;
    type = h.type;
    within = omega (arith, h.within, i.count);
    there = i.after h.place (omega arith) h.within ∙ ap (with_ref x.req_batch_ref) h.there;
  }
]

module _ (c : Config) (unset : ConnectionRequest) (unset_batch : ReadWritePool)
    (clearable : 5 + c.key_length ≤ c.value_length) where
  -- The state after the bytes behind the key were set.
  cleared : Network → ConnectionRequest → Network
  cleared n r = record n {
    memory = fill n.memory (r.buffer + 5 + c.key_length) (c.value_length - (5 + c.key_length)) 0;
  }

  -- The request enters a batch with room.
  batch_takes :
      (n : Network) (k : ℕ) (pool : ReadWritePool) (r : ConnectionRequest)
      → Filling c n k pool
      → k < batch_num_requests c
      → k < c.page_size
      → (h : Handled) × (batch_request c unset unset_batch n r pool ≡ some h)
        × (h.calls ≡ [])
        × (h.state.batch ≡ n.batch)
        × (h.state.next_address ≡ n.next_address)
        × (pool' : ReadWritePool) × Filling c h.state (k + 1) pool'
        × HasRequest pool' n.batch r
        × ((x : ConnectionRequest) → HasRequest pool n.batch x → HasRequest pool' n.batch x)
  unfolding batch_request
  batch_takes n k pool r f room fits =
      let (pool', place, run, i, sized) =
        insert_read_write-total c n.memory unset pool r.buffer r.client_sock_fd
          (type_of_verb c unset unset_batch n.memory r.buffer) n.batch f.sized
          (omega (arith, f.count)) in
      (
        record { state = record n { batches = update n.batches n.batch (some pool') }; calls = [] },
        rw (batch_request, lt→ltb pool.count (batch_num_requests c) (omega (arith, f.count)), run),
        refl,
        refl,
        refl,
        pool',
        record { current = ground arith; count = omega (arith, i.count, f.count); sized = sized },
        record {
          place = place;
          type = type_of_verb c unset unset_batch n.memory r.buffer;
          within = omega (arith, i.place_le, i.count);
          there = i.here;
        },
        λ x h. HasRequest-Inserted c n.memory pool pool' place _ x i h,
      )

  recv_runs :
      (n : Network) (pool : ReadWritePool) (r : ConnectionRequest)
      → n.batches n.batch ≡ some pool
      → handle c unset unset_batch n (arrived r)
        ≡ batch_request c unset unset_batch
            (cleared n r)
            (record r { req_type = RequestType.recv })
            pool
  unfolding handle on_connection on_recv clear_value cleared
  recv_runs n pool r e =
      let t : leb (5 + c.key_length) c.value_length ≡ true = ground arith in rw (t, e)

  -- What one request does to a batch with room.
  receive_one :
      (n : Network) (k : ℕ) (pool : ReadWritePool) (r : ConnectionRequest)
      → Filling c n k pool
      → k < batch_num_requests c
      → k < c.page_size
      → (h : Handled) × (handle c unset unset_batch n (arrived r) ≡ some h)
        × (h.calls ≡ [])
        × (h.state.batch ≡ n.batch)
        × (h.state.next_address ≡ n.next_address)
        × (pool' : ReadWritePool) × Filling c h.state (k + 1) pool'
        × HasRequest pool' n.batch r
        × ((x : ConnectionRequest) → HasRequest pool n.batch x → HasRequest pool' n.batch x)
  unfolding cleared
  receive_one n k pool r f room fits =
      let (h, run, none_made, b, a, pool', f', new, old) =
        batch_takes (cleared n r) k pool (record r { req_type = RequestType.recv })
          (record { current = f.current; count = f.count; sized = f.sized }) room fits in
      (
        h,
        recv_runs n pool r f.current ∙ run,
        none_made,
        b,
        a,
        pool',
        f',
        record { place = new.place; type = new.type; within = new.within; there = new.there },
        old,
      )

  handle_all-cons :
      (n : Network) (e : Completion) (es : List Completion) (h h' : Handled)
      → handle c unset unset_batch n e ≡ some h
      → handle_all c unset unset_batch h.state es ≡ some h'
      → handle_all c unset unset_batch n (e ∷ es) ≡ some (record h' { calls = h.calls ++ h'.calls })
  unfolding handle_all
  handle_all-cons n e es h h' r s = rw (handle_all, r, s)

  receive_all :
      (rs : List ConnectionRequest) (n : Network) (k : ℕ) (pool : ReadWritePool)
      → Filling c n k pool
      → k + length rs ≤ batch_num_requests c
      → k + length rs ≤ c.page_size
      → (h : Handled) × (handle_all c unset unset_batch n (map arrived rs) ≡ some h)
        × (h.calls ≡ [])
        × (h.state.batch ≡ n.batch)
        × (h.state.next_address ≡ n.next_address)
        × (pool' : ReadWritePool) × Filling c h.state (k + length rs) pool'
        × HasRequests pool' n.batch rs
        × ((x : ConnectionRequest) → HasRequest pool n.batch x → HasRequest pool' n.batch x)
  unfolding handle_all
  receive_all [] n k pool f room fits = (
    record { state = n; calls = [] },
    refl,
    refl,
    refl,
    refl,
    pool,
    record { current = f.current; count = omega (arith, f.count); sized = f.sized },
    no_more,
    λ x h. h,
  )
  receive_all (r ∷ rs) n k pool f room fits =
      let (h, run, none_made, b, a, pool', f', new, old) =
        receive_one n k pool r f (omega arith) (omega arith) in
      let (h', run', none_made', b', a', pool'', f'', news, olds) =
        receive_all rs h.state (k + 1) pool' f' (omega arith) (omega arith) in
      (
        record h' { calls = h.calls ++ h'.calls },
        handle_all-cons n (arrived r) (map arrived rs) h h' run run',
        rw (none_made, none_made'),
        b' ∙ b,
        a' ∙ a,
        pool'',
        record { current = f''.current; count = omega (arith, f''.count); sized = f''.sized },
        one_more r rs (rw (← b) (olds r (rw b new))) (rw (← b) news),
        λ x l. rw (← b) (olds x (rw b (old x l))),
      )

  -- What a request does to a full batch.
  receive_full :
      (n : Network) (pool : ReadWritePool) (r : ConnectionRequest)
      → Filling c n (batch_num_requests c) pool
      → n.batch ≢ n.next_address
      → (h : Handled) × (handle c unset unset_batch n (arrived r) ≡ some h)
        × (h.calls ≡ Call.prep_msg_to_main n.batch ∷ [])
        × (h.state.batches n.batch ≡ some pool)
        × (h.state.batches h.state.batch ≡ some unset_batch)
  unfolding batch_request cleared
  receive_full n pool r f ne =
      let t : ltb pool.count (batch_num_requests c) ≡ false = ground (arith, f.count) in
      let n' = cleared n r in
      (
        record {
          state = record n' {
            batch = n.next_address;
            batches = update n.batches n.next_address (some unset_batch);
            next_address = n.next_address + 1;
          };
          calls = Call.prep_msg_to_main n.batch ∷ [];
        },
        recv_runs n pool r f.current ∙ rw (t, batch_request),
        refl,
        ground (arith, f.current),
        ground arith,
      )

-- From an empty batch on, BATCH_NUM_REQUESTS requests enter the batch, each with its descriptor, its buffer
-- and a reference to the batch, and no call is made; the request behind them has the batch sent off
-- and is itself in neither batch: the one sent is the one that was full before, and the new one
-- is as it was made. VALUE_LENGTH is at least 5 + KEY_LENGTH, which it is not in CMakeLists.txt, where
-- already the clearing of the value behind a request has an end in front of its start.
pub receive_drops :
    (c : Config) (unset : ConnectionRequest) (unset_batch pool : ReadWritePool) (n : Network)
    (rs : List ConnectionRequest) (r : ConnectionRequest)
    → 5 + c.key_length ≤ c.value_length
    → Filling c n 0 pool
    → n.batch ≢ n.next_address
    → length rs ≡ batch_num_requests c
    → (h h' : Handled) × (full : ReadWritePool) × (handle_all c unset unset_batch n (map arrived rs)
        ≡ some h)
      × (h.calls ≡ [])
      × (h.state.batches n.batch ≡ some full)
      × (full.count ≡ batch_num_requests c)
      × HasRequests full n.batch rs
      × (handle c unset unset_batch h.state (arrived r) ≡ some h')
      × (h'.calls ≡ Call.prep_msg_to_main n.batch ∷ [])
      × (h'.state.batches n.batch ≡ some full)
      × (h'.state.batches h'.state.batch ≡ some unset_batch)
receive_drops c unset unset_batch pool n rs r clearable f ne len =
    let few : batch_num_requests c ≤ c.page_size =
      div-le_self c.page_size (socket_buffer_length c) in
    let (h, run, none_made, b, a, full, f', got, _) =
      receive_all c unset unset_batch clearable rs n 0 pool f (omega (arith, len))
        (omega (arith, len, few)) in
    let full' : Filling c h.state (batch_num_requests c) full = record {
      current = f'.current;
      count = omega (arith, f'.count, len);
      sized = f'.sized;
    } in
    let (h', run', sent, kept, new) =
      receive_full c unset unset_batch clearable h.state full r full' (λ e. ne (sym b ∙ e ∙ a)) in
    (
      h,
      h',
      full,
      run,
      none_made,
      ap h.state.batches (sym b) ∙ f'.current,
      omega (arith, f'.count, len),
      got,
      run',
      sent ∙ ap (λ p. Call.prep_msg_to_main p ∷ []) b,
      ap h'.state.batches (sym b) ∙ kept,
      new,
    )
