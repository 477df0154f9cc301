-- ===== src/ConnectionPool/Insert.antt =====
-- What `insert` sets, and how the buffers that it gives out lie.
use ringdb.Prelude.{
  ℕ, ◌+◌, ◌-◌, ◌^◌, ◌≤◌, ◌<◌, ◌≡◌, ◌≢◌, refl, ◌∙◌, ap, some, arith, length, get_or, set, store_lem,
  get_elem?-eq-get_or, get_or-set_self, get_or-set_ne, length-set,
}
use ringdb.Config.{Config, socket_buffer_length}
use ringdb.Requests.{RequestType, ConnectionRequest}
use ringdb.ReadWritePool.Order.{blank}
use ringdb.ConnectionPool.{ConnectionPool, cell_of, insert}

abbrev pub connection : ConnectionPool → ℕ → ConnectionRequest
connection p i = get_or p.connections i blank

-- The pool after descriptor `fd` was put in.
pub record Opened (p p' : ConnectionPool) (fd : ℕ) (t : RequestType) : Type 0 where
  pub here : connection p' (fd - 1) ≡ record (connection p (fd - 1)) {
    client_sock_fd = fd;
    buffer = p.buffer_pool + (fd - 1);
    req_type = t;
  }
  pub others : (i : ℕ) → fd - 1 ≢ i → connection p' i ≡ connection p i
  pub size : length p'.connections ≡ length p.connections
  pub pool : p'.buffer_pool ≡ p.buffer_pool

-- Every descriptor from 1 to the number of connections has a cell, and `insert` sets that cell only.
pub insert-Opened :
    (p : ConnectionPool) (fd : ℕ) (t : RequestType)
    → 0 < fd
    → fd ≤ length p.connections
    → fd < 2 ^ 31
    → (p' : ConnectionPool) × (insert p fd t ≡ some (fd - 1, p')) × Opened p p' fd t
unfolding insert
insert-Opened p fd t pos fits small =
    let new : ConnectionRequest = record (connection p (fd - 1)) {
      client_sock_fd = fd;
      buffer = p.buffer_pool + (fd - 1);
      req_type = t;
    } in
    let i : cell_of fd ≡ some (fd - 1) = ground arith in
    (
      record p { connections = set p.connections (fd - 1) new },
      rw (
        i,
        get_elem?-eq-get_or p.connections (fd - 1) blank (omega arith),
        store_lem p.connections (fd - 1) new (omega arith),
      ),
      record {
        here = get_or-set_self p.connections (fd - 1) new blank (omega arith);
        others = λ j ne. get_or-set_ne p.connections (fd - 1) j new blank ne;
        size = length-set p.connections (fd - 1) new;
        pool = refl;
      },
    )

-- Two connections whose descriptors differ by less than the length of a socket buffer are given
-- buffers that share a byte: both buffers have the address of the later one's first byte inside.
insert_overlap :
    (c : Config) (p : ConnectionPool) (fd fd' : ℕ) (t : RequestType)
    → 0 < fd
    → fd < fd'
    → fd' ≤ length p.connections
    → fd' < 2 ^ 31
    → fd' < fd + socket_buffer_length c
    → (p' p'' : ConnectionPool) × (insert p fd t ≡ some (fd - 1, p'))
      × (insert p' fd' t ≡ some (fd' - 1, p''))
      × ((connection p'' (fd - 1)).buffer < (connection p'' (fd' - 1)).buffer)
      × ((connection p'' (fd' - 1)).buffer
          < (connection p'' (fd - 1)).buffer + socket_buffer_length c)
insert_overlap c p fd fd' t pos lt fits small near =
    let (p', run, o) = insert-Opened p fd t pos (omega arith) (omega arith) in
    let (p'', run', o') = insert-Opened p' fd' t (omega arith) (omega (arith, o.size)) small in
    let first : (connection p'' (fd - 1)).buffer ≡ p.buffer_pool + (fd - 1) =
      ap (λ r. r.buffer) (o'.others (fd - 1) (omega arith) ∙ o.here) in
    let second : (connection p'' (fd' - 1)).buffer ≡ p'.buffer_pool + (fd' - 1) =
      ap (λ r. r.buffer) o'.here in
    (
      p',
      p'',
      run,
      run',
      omega (arith, first, second, o.pool),
      omega (arith, first, second, o.pool, near),
    )
