-- ===== src/ConnectionPool.antt =====
-- connection_pool/connection_pool.hpp: the open connections, one cell to a client descriptor.
pub mod Insert
use ringdb.Prelude.{
  ℕ, ◌+◌, ◌-◌, ◌≡◌, Option, none, some, List, ◌>>=◌, get_elem?, store, if◌then◌else◌, is_positive,
  replicate,
}
use ringdb.Requests.{RequestType, ConnectionRequest}

pub record ConnectionPool : Type 0 where
  pub connections : List ConnectionRequest
  pub buffer_pool : ℕ

-- The constructor; `unset` is what `new` leaves in a cell.
pub init : ConnectionRequest → ℕ → ℕ → ConnectionPool
init unset num_connections buffer_pool = record {
  connections = replicate num_connections unset;
  buffer_pool = buffer_pool;
}

-- `client_sockfd - 1`; a cell in front of the array is not one.
abbrev pub cell_of : ℕ → Option ℕ
cell_of client_sockfd = if is_positive client_sockfd then some (client_sockfd - 1) else none

-- The cell's index stands for the pointer that the source returns.
pub insert : ConnectionPool → ℕ → RequestType → Option (ℕ × ConnectionPool)
insert p client_sockfd req_type = do
  i ← cell_of client_sockfd
  old ← get_elem? p.connections i
  d ← store p.connections i (record old {
    client_sock_fd = client_sockfd;
    buffer = p.buffer_pool + i;
    req_type = req_type;
  })
  some (i, record p { connections = d })
