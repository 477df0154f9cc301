-- ===== src/Network.antt =====
-- network_thread_routine of lsm_tree.hpp, from the first io_uring_for_each_cqe on: what the network
-- thread does on each completion. liburing is not modelled; the calls of it are a trace.
pub mod Complete
pub mod Receive
pub mod Rounds
mod Tests
use ringdb.Prelude.{
  ℕ, zero, suc, ◌+◌, ◌-◌, ◌*◌, ◌≡◌, Bool, true, false, Option, none, some, List, [], ◌∷◌, ◌++◌,
  ◌>>=◌, get_elem?, ltb, leb, ◌==◌, not, ◌&&◌, ◌||◌, if◌then◌else◌, add32, sub32, minus_one,
  is_positive,
}
use ringdb.Config.{Config, batch_num_requests, socket_buffer_length}
use ringdb.Memory.{Memory, fill}
use ringdb.Requests.{RequestType, ConnectionRequest}
use ringdb.ReadWritePool.{ReadWritePool, insert_read_write}
use ringdb.ConnectionPool.{ConnectionPool, insert}

-- What a submission entry carries as user_data: what is read where the pointer to a connection leads, or
-- the pointer to an entry of a batch.
pub data UserData : Type 0 where
  contents_of : ℕ → UserData
  entry_of : ConnectionRequest → UserData

-- The calls of liburing, without the flags: those with a `prep` in their name write the entry `sqe`, that of
-- the last get_sqe. `renew_accept` is the new multishot accept, in an entry `sqe2` of its own.
pub data Call : Type 0 where
  get_sqe : Call
  prep_recv : (fd buffer : ℕ) → Call
  renew_accept : Call
  prep_msg_to_main : (batch : ℕ) → Call
  prep_close : (fd : ℕ) → Call
  prep_send : (fd buffer : ℕ) → Call
  set_data : UserData → Call

-- The object that user_data leads to.
pub data Request : Type 0 where
  accept_request : Request
  connection : ConnectionRequest → Request
  batch_at : ℕ → Request

-- res, the flag IORING_CQE_F_MORE, and the request.
pub record Completion : Type 0 where
  pub res : ℕ
  pub more : Bool
  pub request : Request

-- `batch` is the address of the batch that is being filled.
pub record Network : Type 0 where
  pub batch : ℕ
  pub batches : ℕ → Option ReadWritePool
  pub next_address : ℕ
  pub connection_pool : ConnectionPool
  pub memory : Memory

-- The state after a completion, and the calls made.
pub record Handled : Type 0 where
  pub state : Network
  pub calls : List Call

abbrev pub update : (ℕ → Option ReadWritePool) → ℕ → Option ReadWritePool → ℕ → Option ReadWritePool
update batches p b q = if p == q then b else batches q

-- std::memcmp(socket_buffer, "read", 5) == 0
pub is_read : Memory → ℕ → Bool
is_read m b =
    m b == 114 && (m (b + 1) == 101 && (m (b + 2) == 97 && (m (b + 3) == 100 && m (b + 4) == 0)))

-- Entries left and calls made by the loops over a completed batch, with `num_sent`.
pub record Progress : Type 0 where
  pub num_sent : ℕ
  pub calls : List Call

-- `unset` is what new leaves in an entry, `unset_batch` what new RequestBatch(READ) leaves in its union.
module _ (c : Config) (unset : ConnectionRequest) (unset_batch : ReadWritePool) where
  -- A new connection.
  pub on_accept : Network → Completion → Option Handled
  on_accept n e =
      if is_positive e.res
      then (do
        (i, pool) ← insert n.connection_pool e.res RequestType.recv
        r ← get_elem? pool.connections i
        some (record {
          state = record n { connection_pool = pool };
          calls =
              prep_recv e.res r.buffer
              ∷ set_data (contents_of i)
              ∷ (if e.more then [] else renew_accept ∷ []);
        }))
      else some (record { state = n; calls = [] })

  -- std::fill(socket_buffer + 5 + KEY_LENGTH, socket_buffer + VALUE_LENGTH, '\0'): a range whose end
  -- lies in front of its start is not one.
  pub clear_value : Memory → ℕ → Option Memory
  clear_value m buffer =
      if leb (5 + c.key_length) c.value_length
      then some (fill m (buffer + 5 + c.key_length) (c.value_length - (5 + c.key_length)) 0)
      else none

  abbrev pub type_of_verb : Memory → ℕ → RequestType
  type_of_verb m buffer = if is_read m buffer then RequestType.read else RequestType.write

  -- The request enters the batch that is being filled; or the batch is sent, and a new one made.
  pub batch_request : Network → ConnectionRequest → ReadWritePool → Option Handled
  batch_request n r pool =
      if ltb pool.count (batch_num_requests c)
      then (do
        pool' ←
            insert_read_write c n.memory unset pool r.buffer r.client_sock_fd
              (type_of_verb n.memory r.buffer) n.batch
        some (record {
          state = record n { batches = update n.batches n.batch (some pool') };
          calls = [];
        }))
      else some (record {
        state = record n {
          batch = n.next_address;
          batches = update n.batches n.next_address (some unset_batch);
          next_address = n.next_address + 1;
        };
        calls = prep_msg_to_main n.batch ∷ [];
      })

  -- Bytes of a client have arrived.
  pub on_recv : Network → ConnectionRequest → Option Handled
  unfolding batch_request clear_value
  on_recv n r = do
    m ← clear_value n.memory r.buffer
    pool ← n.batches n.batch
    batch_request (record n { memory = m }) r pool

  -- One more request of a batch is through.
  pub on_send : Network → Completion → ConnectionRequest → Option Handled
  on_send n e r = if e.more then some (record { state = n; calls = [] }) else (do
    pool ← n.batches r.req_batch_ref
    let sent = add32 pool.num_sent 1
    let left = if sent == pool.count then none else some (record pool { num_sent = sent })
    some (record {
      state = record n { batches = update n.batches r.req_batch_ref left };
      calls = prep_close r.client_sock_fd ∷ [];
    }))

  -- One entry of a completed batch: it is sent, or counted if it was removed.
  pub send_entry : Progress → ConnectionRequest → List Call → Progress
  send_entry g r behind =
      if r.client_sock_fd == minus_one
      then record g { num_sent = add32 g.num_sent 1 }
      else record g {
        calls = g.calls ++ prep_send r.client_sock_fd r.buffer ∷ set_data (entry_of r) ∷ behind;
      }

  -- The loop over the entries from `i` on, all but the last one, and then that one.
  pub send_entries : ℕ → List ConnectionRequest → ℕ → Progress → Option Progress
  send_entries zero d i g = do r ← get_elem? d i; some (send_entry g r [])
  send_entries (suc rounds) d i g = do
    r ← get_elem? d i
    send_entries rounds d (i + 1) (send_entry g r (get_sqe ∷ []))

  -- A batch has been answered.
  pub on_answered : Network → ℕ → Option Handled
  on_answered n b = do
    pool ← n.batches b
    g ←
        send_entries (sub32 pool.count 1) pool.entries 0
          (record { num_sent = pool.num_sent; calls = [] })
    let left =
        if g.num_sent == pool.count then none else some (record pool { num_sent = g.num_sent })
    some (record { state = record n { batches = update n.batches b left }; calls = g.calls })

  -- The branches of the loop over completions. A request of a type that its object does not have is
  -- taken for another object, which is an error of the source.
  on_connection : Network → Completion → ConnectionRequest → Option Handled
  unfolding on_recv on_send
  on_connection n e r = elim r.req_type [
    | RequestType.accept ↦ on_accept n e
    | RequestType.recv ↦ on_recv n r
    | RequestType.send ↦ on_send n e r
    | RequestType.read ↦ none
    | RequestType.write ↦ none
    | RequestType.compaction ↦ some (record { state = n; calls = [] })
  ]

  pub handle : Network → Completion → Option Handled
  unfolding on_connection on_answered
  handle n e = elim e.request [
    | accept_request ↦ on_accept n e
    | connection r ↦ on_connection n e r
    | batch_at b ↦ on_answered n b
  ]

  -- One round: an entry is taken, and the completions are handled one after another.
  pub handle_all : Network → List Completion → Option Handled
  handle_all n [] = some (record { state = n; calls = [] })
  handle_all n (e ∷ rest) = do
    h ← handle n e
    h' ← handle_all h.state rest
    some (record h' { calls = h.calls ++ h'.calls })

  pub round : Network → List Completion → Option Handled
  unfolding handle_all
  round n completions = do
    h ← handle_all n completions
    some (record h { calls = get_sqe ∷ h.calls })
