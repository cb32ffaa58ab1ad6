-- ===== src/Picker.antt =====
-- client/balancer/picker/rw_separated.go: the picker that sends reads to the followers in turn and
-- all else to the leader.
--
-- A `resolver.Address` is its `Addr`, the one field that this program sets. A connection is of any
-- type. Go visits a map in an order of its own: where the order matters it is an argument. The
-- pointer `record` is the place of a leader record; other goroutines write the record, so each of its
-- reads by `getLeader` is an argument too. The counter `nextReader` is the bit pattern of the int64.
pub mod Invariant
pub mod Split
pub mod Routing
pub mod Hazards
pub mod Rotation
pub mod Builder
pub mod Concurrent
use kubebrain_client.Prelude.{
  ℕ, zero, suc, ◌+◌, ◌-◌, ◌%◌, ◌^◌, ◌≡◌, refl, Bool, true, false, Option, none, some, List, [], ◌∷◌,
  Bytes, Map, lookup, insert, bytes_eq, has_prefix, codes, ltb, ◌==◌, if◌then◌else◌, length,
  get_elem?,
}

pub record Address : Type 0 where
  pub addr : Bytes

-- `rwSeparatedRoundBalanced`
pub record Picker (SubConn : Type 0) : Type 0 where
  pub key : Bytes
  pub leader_record : ℕ
  pub addr_to_sc : List (Address × SubConn)
  pub raw_addr_to_sc : Map SubConn
  pub next_reader : ℕ
  pub leader : Bytes
  pub reader_addrs : List Address

-- How a call ends: with a connection and its address, with `ErrNoSubConnAvailable`, with the panic
-- of an index out of range, or never, waiting for the write lock under its own read lock.
pub data Outcome (SubConn : Type 0) : Type 0 where
  picked : Option SubConn → Bytes → Outcome SubConn
  unavailable : Outcome SubConn
  panics : Outcome SubConn
  deadlock : Outcome SubConn

-- The reads of the leader record in one call, in their order.
pub record Reads : Type 0 where
  pub fast : Bytes  -- `compareLeader`
  pub locked : Bytes  -- the double check in `updateLeader`
  pub again : Bytes  -- `compareLeader` when `pickReader` falls back on `pickWriter`

abbrev pub read : Bytes
read = codes "/Read"

-- `bal.readerAddrs` as `updateLeader` rebuilds it
unfoldable pub followers : Bytes → List Address → List Address
followers cur [] = []
followers cur (a ∷ order) =
    let rest = followers cur order in if bytes_eq a.addr cur then rest else a ∷ rest

-- `int(n) % l` as an index, for the bit pattern n of an int64: the sign of Go's `%` is that of n.
unfoldable pub index_of : ℕ → ℕ → Option ℕ
index_of n l =
    if ltb n (2 ^ 63) then some (n % l) else if (2 ^ 64 - n) % l == 0 then some 0 else none

at : List Address → Option ℕ → Option Address
at addrs none = none
at addrs (some i) = get_elem? addrs i

module _ {SubConn : Type 0} where
  unfoldable pub raw_addrs : List (Address × SubConn) → Map SubConn → Map SubConn
  raw_addrs [] m = m
  raw_addrs ((a, sc) ∷ scs) m = raw_addrs scs (insert a.addr sc m)

  unfoldable pub last_addr : List (Address × SubConn) → Bytes → Bytes
  last_addr [] key = key
  last_addr ((a, sc) ∷ scs) key = last_addr scs a.addr

  -- `newRWSeparatedRoundRobinBalanced`, with the place of the record that `getLeaderRecord` gives and
  -- the ready connections in the order of the visit
  unfoldable pub new : ℕ → List (Address × SubConn) → Picker SubConn
  unfolding raw_addrs last_addr
  new rec ready = record {
    key = last_addr ready [];
    leader_record = rec;
    addr_to_sc = ready;
    raw_addr_to_sc = raw_addrs ready [];
    next_reader = 0;
    leader = [];
    reader_addrs = [];
  }

  unfoldable pub compare_leader : Picker SubConn → Bytes → Bool × Bytes
  compare_leader bal cur = (bytes_eq cur bal.leader, cur)

  -- The part of `updateLeader` under the write lock.
  unfoldable pub replace_leader : List Address → Bytes → Picker SubConn → Picker SubConn × Bytes
  unfolding followers
  replace_leader order cur bal =
      if bytes_eq cur bal.leader
      then (bal, cur)
      else (record bal { leader = cur; reader_addrs = followers cur order }, cur)

  unfoldable pub update_leader : List Address → Reads → Picker SubConn → Picker SubConn × Bytes
  unfolding compare_leader replace_leader
  update_leader order r bal =
      let (equal, cur) = compare_leader bal r.fast in
      if equal then (bal, cur) else replace_leader order r.locked bal

  -- The end of `pickWriter`, once the leader is known.
  unfoldable pub writer_of : Picker SubConn → Bytes → Outcome SubConn
  writer_of bal leader = elim (lookup leader bal.raw_addr_to_sc) [
    | none ↦ unavailable
    | some sc ↦ picked (some sc) leader
  ]

  unfoldable pub pick_writer :
      List Address → Reads → Picker SubConn → Picker SubConn × Outcome SubConn
  unfolding writer_of
  pick_writer order r bal =
      let (bal', leader) = update_leader order r bal in (bal', writer_of bal' leader)

  -- `pickWriter` called by `pickReader`, which holds the read lock: `updateLeader` asks for the
  -- write lock unless its fast comparison succeeds. No other call waits for the write lock here;
  -- for one that does, see Picker/Concurrent.
  unfoldable pub pick_writer_locked : Reads → Picker SubConn → Outcome SubConn
  unfolding compare_leader writer_of
  pick_writer_locked r bal =
      let (equal, cur) = compare_leader bal r.again in if equal then writer_of bal cur else deadlock

  reader_at : Picker SubConn → Option Address → Outcome SubConn
  reader_at bal none = panics
  reader_at bal (some a) = picked (lookup a.addr bal.raw_addr_to_sc) a.addr

  -- The end of `pickReader` where there are readers.
  unfoldable pub take_reader : Picker SubConn → Picker SubConn × Outcome SubConn
  unfolding index_of reader_at at
  take_reader bal = (
    record bal { next_reader = (bal.next_reader + 1) % 2 ^ 64 },
    reader_at bal (at bal.reader_addrs (index_of bal.next_reader (length bal.reader_addrs))),
  )

  -- `pickReader` after its call of `updateLeader`, under the read lock
  unfoldable pub pick_reader_locked : Reads → Picker SubConn → Picker SubConn × Outcome SubConn
  unfolding pick_writer_locked take_reader
  pick_reader_locked r bal =
      if ltb (length bal.reader_addrs) 1 then (bal, pick_writer_locked r bal) else take_reader bal

  unfoldable pub pick_reader :
      List Address → Reads → Picker SubConn → Picker SubConn × Outcome SubConn
  unfolding pick_reader_locked
  pick_reader order r bal = pick_reader_locked r (update_leader order r bal).0

  -- `selectPickFunc`, with the call of the function that it gives
  abbrev pub select_pick_func :
      List Address → Reads → Bytes → Picker SubConn → Picker SubConn × Outcome SubConn
  select_pick_func order r method bal =
      if has_prefix read method then pick_reader order r bal else pick_writer order r bal

  -- `Pick`, for the method's full name. The function that it returns for
  -- the end of the call only logs.
  unfoldable pub pick :
      List Address → Reads → Bytes → Picker SubConn → Picker SubConn × Outcome SubConn
  unfolding pick_reader pick_writer
  pick order r method bal =
      if length bal.addr_to_sc == 0 then (bal, unavailable) else select_pick_func order r method bal
