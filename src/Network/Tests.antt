-- ===== src/Network/Tests.antt =====
-- The theorems on the network thread with values of eight bytes and batches of two requests.
use ringdb.Prelude.{
  ℕ, ◌≡◌, ◌==◌, if◌then◌else◌, refl, false, none, some, [], ◌∷◌, replicate, arith, map,
}
use ringdb.Config.{Config, cmake, batch_num_requests}
use ringdb.Requests.{ConnectionRequest}
use ringdb.ReadWritePool.{ReadWritePool}
use ringdb.ReadWritePool.Order.{blank}
use ringdb.Network.{Network, Handled, Call, UserData, handle, handle_all, round}
use ringdb.Network.Receive.{arrived, Filling, HasRequests, receive_drops}
use ringdb.Network.Complete.{own_entries}
use ringdb.Network.Rounds.{accepted, accepts_share}

abbrev long_values : Config
long_values = record cmake { value_length = 8; page_size = 28 }

abbrev no_requests : ReadWritePool
no_requests = record { entries = []; count = 0; num_sent = 0; present_in_level = false }

-- The batch at 1 is the one to be filled.
abbrev start : ReadWritePool → Network
start pool = record {
  batch = 1;
  batches = λ a. if a == 1 then some pool else none;
  next_address = 2;
  connection_pool = record { connections = replicate 4 blank; buffer_pool = 1000 };
  memory = λ p. p;
}

abbrev client : ℕ → ConnectionRequest
client fd = record blank { client_sock_fd = fd; buffer = 100 }

start-Filling : Filling long_values (start no_requests) 0 no_requests
start-Filling = record {
  current = refl;
  count = refl;
  sized = record { small = omega arith; storage = λ h. absurd (omega arith) };
}

receive_drops_example :
    (h h' : Handled) × (full : ReadWritePool) × (handle_all long_values blank no_requests
        (start no_requests)
        (map arrived (client 1 ∷ client 2 ∷ []))
      ≡ some h)
    × (h.calls ≡ [])
    × (h.state.batches 1 ≡ some full)
    × (full.count ≡ batch_num_requests long_values)
    × HasRequests full 1 (client 1 ∷ client 2 ∷ [])
    × (handle long_values blank no_requests h.state (arrived (client 3)) ≡ some h')
    × (h'.calls ≡ Call.prep_msg_to_main 1 ∷ [])
    × (h'.state.batches 1 ≡ some full)
    × (h'.state.batches h'.state.batch ≡ some no_requests)
receive_drops_example =
    receive_drops long_values blank no_requests no_requests (start no_requests)
      (client 1 ∷ client 2 ∷ []) (client 3) (omega arith) start-Filling
      (λ e. absurd (omega (arith, e))) refl

-- Three requests, the second removed.
abbrev three : ReadWritePool
three = record no_requests {
  entries = client 1 ∷ record (client 2) { client_sock_fd = 4294967295 } ∷ client 3 ∷ [];
  count = 3;
}

accepts_share_example :
    (h : Handled) × (buffer buffer' : ℕ) × (round long_values blank no_requests
        (start three)
        (accepted 1 ∷ accepted 2 ∷ [])
      ≡ some h)
    × (h.calls
        ≡ Call.get_sqe
          ∷ Call.prep_recv 1 buffer
          ∷ Call.set_data (UserData.contents_of 0)
          ∷ Call.prep_recv 2 buffer'
          ∷ Call.set_data (UserData.contents_of 1)
          ∷ [])
    × (own_entries false h.calls ≡ false)
accepts_share_example =
    accepts_share long_values blank no_requests (start three) 1 2 (omega arith) (omega arith)
      (omega arith) (omega arith) (omega arith) (omega arith)
