-- ===== src/Network/Complete.antt =====
-- A batch that comes back answered, and the sends that it needs.
use ringdb.Prelude.{
  ℕ, suc, ◌+◌, ◌≡◌, Bool, true, false, Option, none, some, List, [], ◌∷◌, ◌++◌, ◌==◌, ◌&&◌,
  if◌then◌else◌, minus_one, map,
}
use ringdb.Config.{Config}
use ringdb.Requests.{ConnectionRequest}
use ringdb.ReadWritePool.{ReadWritePool}
use ringdb.Network.{Network, Handled, Call, UserData, Progress, on_answered}

abbrev pub removed : ConnectionRequest → Bool
removed r = r.client_sock_fd == minus_one

-- The entries that were not removed, and how many were.
pub kept : List ConnectionRequest → List ConnectionRequest
kept [] = []
kept (r ∷ rs) = if removed r then kept rs else r ∷ kept rs

pub num_removed : List ConnectionRequest → ℕ
num_removed [] = 0
num_removed (r ∷ rs) = if removed r then suc (num_removed rs) else num_removed rs

-- What a submission entry holds when it is submitted.
pub data Entry : Type 0 where
  unwritten other : Entry
  send : (fd buffer : ℕ) → Entry
  send_for : (fd buffer : ℕ) → ConnectionRequest → Entry

-- set_data on an entry.
pub with_data : UserData → Entry → Entry
with_data (UserData.entry_of r) (Entry.send fd buffer) = Entry.send_for fd buffer r
with_data (UserData.entry_of r) (Entry.send_for fd buffer r') = Entry.send_for fd buffer r
with_data d e = Entry.other

pub and_then : Entry → List Entry → List Entry
and_then Entry.unwritten es = es
and_then e es = e ∷ es

-- The entries that a trace writes, where the last one taken holds `e` before it: a preparation writes over what
-- the entry held.
pub submitted : Entry → List Call → List Entry
unfolding with_data and_then
submitted e [] = and_then e []
submitted e (Call.get_sqe ∷ cs) = and_then e (submitted Entry.unwritten cs)
submitted e (Call.set_data d ∷ cs) = submitted (with_data d e) cs
submitted e (Call.prep_send fd b ∷ cs) = submitted (Entry.send fd b) cs
submitted e (Call.renew_accept ∷ cs) = Entry.other ∷ submitted e cs
submitted e (Call.prep_recv fd b ∷ cs) = submitted Entry.other cs
submitted e (Call.prep_msg_to_main b ∷ cs) = submitted Entry.other cs
submitted e (Call.prep_close fd ∷ cs) = submitted Entry.other cs

-- A send to the client of a request, from its buffer, with the request as the data of its completion.
pub send_of : ConnectionRequest → Entry
send_of r = Entry.send_for r.client_sock_fd r.buffer r

-- Each preparation writes an entry of its own. `free`: the last entry taken is not written yet.
unfoldable pub own_entries : Bool → List Call → Bool
own_entries free [] = true
own_entries free (Call.get_sqe ∷ cs) = own_entries true cs
own_entries free (Call.set_data d ∷ cs) = own_entries free cs
own_entries free (Call.prep_recv fd b ∷ cs) = free && own_entries false cs
own_entries free (Call.renew_accept ∷ cs) = own_entries free cs
own_entries free (Call.prep_msg_to_main b ∷ cs) = free && own_entries false cs
own_entries free (Call.prep_close fd ∷ cs) = free && own_entries false cs
own_entries free (Call.prep_send fd b ∷ cs) = free && own_entries false cs

-- What the loops add to the calls and to the count for a run of entries.
record Sends (rs : List ConnectionRequest) (g g' : Progress) : Type 0 where
  tail : List Call
  calls : g'.calls ≡ g.calls ++ tail
  all_sent : submitted Entry.unwritten tail ≡ map send_of (kept rs)
  own : own_entries true tail ≡ true
  count : g'.num_sent ≡ g.num_sent + num_removed rs

-- What is left of a batch of which `k` requests are through.
abbrev pub left_of : ReadWritePool → ℕ → Option ReadWritePool
left_of pool k = if k == pool.count then none else some (record pool { num_sent = k })

module _ (c : Config) (unset : ConnectionRequest) (unset_batch : ReadWritePool) (n : Network)
    (b : ℕ) (pool : ReadWritePool) where
  abbrev pub AllSent : List ConnectionRequest → Type 0
  AllSent requests =
      (h : Handled) × (on_answered c unset unset_batch n b ≡ some h)
      × (submitted Entry.unwritten h.calls ≡ map send_of (kept requests))
      × (own_entries true h.calls ≡ true)
      × (h.state.batches b ≡ left_of pool (num_removed requests))
