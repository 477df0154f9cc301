-- ===== src/Requests.antt =====
-- enums/request_type.hpp, and the request records of base_request.hpp and connection_request.hpp.
use ringdb.Prelude.{ℕ, ◌+◌}

pub data RequestType : Type 0 where
  accept recv send read write compaction : RequestType

-- A request's type is its base class. Pointers are addresses; `client_sock_fd` is an `int`.
pub record ConnectionRequest : Type 0 where
  pub req_type : RequestType
  pub req_batch_ref : ℕ
  pub client_sock_fd : ℕ
  pub buffer : ℕ

-- The key stands behind the five bytes of the request's verb.
abbrev pub key_of : ConnectionRequest → ℕ
key_of r = r.buffer + 5
