-- ===== src/Network/Rounds.antt =====
-- Several completions in one round.
use ringdb.Prelude.{
  ℕ, ◌-◌, ◌^◌, ◌≤◌, ◌<◌, ◌≡◌, refl, true, false, some, [], ◌∷◌, ◌++◌, length, get_elem?-eq-get_or,
  arith, is_positive,
}
use ringdb.Config.{Config}
use ringdb.Requests.{RequestType, ConnectionRequest}
use ringdb.ReadWritePool.{ReadWritePool}
use ringdb.ReadWritePool.Order.{blank}
use ringdb.ConnectionPool.Insert.{insert-Opened, connection}
use ringdb.Network.{
  Network, Completion, Request, Handled, Call, UserData, handle, handle_all, round, on_accept,
}
use ringdb.Network.Complete.{own_entries}

-- A client was accepted, on a multishot request that goes on.
abbrev pub accepted : ℕ → Completion
accepted fd = record { res = fd; more = true; request = Request.accept_request }

module _ (c : Config) (unset : ConnectionRequest) (unset_batch : ReadWritePool) where
  accept_runs :
      (n : Network) (fd : ℕ)
      → 0 < fd
      → fd ≤ length n.connection_pool.connections
      → fd < 2 ^ 31
      → (h : Handled) × (buffer : ℕ) × (handle c unset unset_batch n (accepted fd) ≡ some h)
        × (h.calls ≡ Call.prep_recv fd buffer ∷ Call.set_data (UserData.contents_of (fd - 1)) ∷ [])
        × (length h.state.connection_pool.connections ≡ length n.connection_pool.connections)
  unfolding handle on_accept
  accept_runs n fd pos fits small =
      let (p, run, o) = insert-Opened n.connection_pool fd RequestType.recv pos fits small in
      let t : is_positive fd ≡ true = ground arith in
      (
        record {
          state = record n { connection_pool = p };
          calls =
              Call.prep_recv fd (connection p (fd - 1)).buffer
              ∷ Call.set_data (UserData.contents_of (fd - 1))
              ∷ [];
        },
        (connection p (fd - 1)).buffer,
        rw (t, run, get_elem?-eq-get_or p.connections (fd - 1) blank (omega (arith, o.size))),
        refl,
        o.size,
      )

  two_runs :
      (n : Network) (e e' : Completion) (h h' : Handled)
      → handle c unset unset_batch n e ≡ some h
      → handle c unset unset_batch h.state e' ≡ some h'
      → round c unset unset_batch n (e ∷ e' ∷ [])
        ≡ some (record { state = h'.state; calls = Call.get_sqe ∷ (h.calls ++ (h'.calls ++ [])) })
  unfolding round handle_all
  two_runs n e e' h h' r r' = rw (round, handle_all, r, r')

-- When two clients are accepted in one round, the receive of the second is prepared in the submission
-- entry of the first: the first client's bytes are never asked for.
pub accepts_share :
    (c : Config) (unset : ConnectionRequest) (unset_batch : ReadWritePool) (n : Network)
    (fd fd' : ℕ)
    → 0 < fd
    → fd ≤ length n.connection_pool.connections
    → fd < 2 ^ 31
    → 0 < fd'
    → fd' ≤ length n.connection_pool.connections
    → fd' < 2 ^ 31
    → (h : Handled) × (buffer buffer' : ℕ) × (round c unset unset_batch n
          (accepted fd ∷ accepted fd' ∷ [])
        ≡ some h)
      × (h.calls
          ≡ Call.get_sqe
            ∷ Call.prep_recv fd buffer
            ∷ Call.set_data (UserData.contents_of (fd - 1))
            ∷ Call.prep_recv fd' buffer'
            ∷ Call.set_data (UserData.contents_of (fd' - 1))
            ∷ [])
      × (own_entries false h.calls ≡ false)
unfolding own_entries
accepts_share c unset unset_batch n fd fd' pos fits small pos' fits' small' =
    let (h, buffer, run, calls, size) = accept_runs c unset unset_batch n fd pos fits small in
    let (h', buffer', run', calls', size') =
      accept_runs c unset unset_batch h.state fd' pos' (omega (arith, size)) small' in
    (
      record { state = h'.state; calls = Call.get_sqe ∷ (h.calls ++ (h'.calls ++ [])) },
      buffer,
      buffer',
      two_runs c unset unset_batch n (accepted fd) (accepted fd') h h' run run',
      rw (calls, calls'),
      rw (calls, calls'),
    )
