-- ===== src/ReadWritePool.antt =====
-- connection_pool/readwrite_pool/readwrite_pool.hpp: a batch's requests, kept sorted by key.
pub mod Order
mod Sorted
pub mod Insert
pub mod Find
pub mod Total
mod Tests
use ringdb.Prelude.{
  ℕ, zero, suc, ◌+◌, ◌-◌, ◌≡◌, Bool, true, false, Option, none, some, List, ◌>>=◌, length,
  get_elem?, store, replicate, ltb, ◌==◌, not, ◌&&◌, ◌||◌, if◌then◌else◌, add32, minus_one,
}
use ringdb.Config.{Config}
use ringdb.Memory.{Memory, memcmp, is_lt, is_eq}
use ringdb.Bisect.{Found, bisect}
use ringdb.Requests.{RequestType, ConnectionRequest, key_of}

pub record ReadWritePool : Type 0 where
  pub entries : List ConnectionRequest
  pub count : ℕ
  pub num_sent : ℕ
  pub present_in_level : Bool

-- What memory is read from, and what `new` leaves in a cell that it does not set.
module _ (c : Config) (m : Memory) where
  -- std::memcmp(data[i].buffer + 5, buffer + 5, KEY_LENGTH) < 0
  pub entry_below : List ConnectionRequest → ℕ → ℕ → Option Bool
  entry_below d buffer i = do
    r ← get_elem? d i
    some (is_lt (memcmp m (key_of r) (buffer + 5) c.key_length))

  -- The loop of both functions, with fuel for each cell from `start` on.
  pub search : ReadWritePool → ℕ → ℕ → Option Found
  search p start buffer = bisect (entry_below p.entries buffer) 1 (p.count + 1) start p.count 0

  -- The shift of the elements from `i` on, `n` of them left, with `conn_req2` the one in hand. The
  -- last assignment of the source's loop copies `conn_req2.req_batch_ref` to itself, so the
  -- reference in hand stays that of the new request.
  pub shift : ℕ → List ConnectionRequest → ℕ → ConnectionRequest → Option (List ConnectionRequest)
  shift zero d i in_hand = store d i in_hand
  shift (suc n) d i in_hand = do
    old ← get_elem? d i
    d' ← store d i in_hand
    shift n d' (i + 1) (record old { req_batch_ref = in_hand.req_batch_ref })

  pub allocated : ConnectionRequest → ReadWritePool → ReadWritePool
  allocated unset p = if p.count == 0 then record p { entries = replicate c.page_size unset } else p

  -- The place behind the last `mid`, or the first cell where no round was made.
  pub end_place : Found → ℕ
  end_place f = f.at + (if ltb 0 f.left then 1 else 0)

  pub placed : ReadWritePool → Found → ConnectionRequest → Option (List ConnectionRequest)
  placed p f new =
      if f.left == p.count
      then store p.entries (end_place f) new
      else shift (p.count - f.left) p.entries f.left new

  -- `unset` is what the allocation leaves in its cells.
  pub insert_read_write :
      ConnectionRequest → ReadWritePool → ℕ → ℕ → RequestType → ℕ → Option ReadWritePool
  unfolding allocated
  insert_read_write unset p buffer client_sock_fd req_type req_batch_ref = do
    let p' = allocated unset p
    f ← search p' 0 buffer
    d ← placed p' f (record {
      req_type = req_type;
      req_batch_ref = req_batch_ref;
      client_sock_fd = client_sock_fd;
      buffer = buffer;
    })
    some (record p' { entries = d; count = add32 p'.count 1 })

  -- `left == length || (!left && memcmp(data[0].buffer + 5, buffer + 5, KEY_LENGTH))`
  misses : ReadWritePool → ℕ → ℕ → Option Bool
  misses p left buffer =
      if left == p.count then some true else if left == 0 then first_differs else some false
    where
      first_differs : Option Bool
      first_differs = do
        r ← get_elem? p.entries 0
        some (not (is_eq (memcmp m (key_of r) (buffer + 5) c.key_length)))

  -- The result is an `int`, -1 for a miss.
  pub find_index_starting_from : ReadWritePool → ℕ → ℕ → Option ℕ
  find_index_starting_from p start buffer = do
    f ← search p start buffer
    miss ← misses p f.left buffer
    some (if miss then minus_one else f.left)

unfoldable pub remove_via_index : ReadWritePool → ℕ → Option ReadWritePool
remove_via_index p index = do
  r ← get_elem? p.entries index
  d ← store p.entries index (record r { client_sock_fd = minus_one })
  some (record p { entries = d })
