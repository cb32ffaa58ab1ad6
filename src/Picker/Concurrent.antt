-- ===== src/Picker/Concurrent.antt =====
-- Calls of Pick of client/balancer/picker/rw_separated.go that run at the same time, between changes
-- of the leader.
--
-- A step is what a call does without giving up a lock: its comparison, its part under the write lock,
-- and its end, which for a read is the part under the read lock. A waiting writer keeps new readers
-- out, also a reader that has the lock already: a read that asks for the read lock again, in the
-- comparison of its fallback, while another call waits for the write lock, is kept out by that call, and
-- that call by it. A call that waits so, or for the write lock under its own read lock, keeps all others
-- from either lock: `frozen`. Both ends are `deadlock`.
pub mod Ends
pub mod Counter
pub mod Safety
pub mod Hang
pub mod Stuck
use mathlib.Core.List.{Perm}
use kubebrain_client.Prelude.{
  ℕ, ◌+◌, ◌≡◌, Bool, true, false, some, List, [], ◌∷◌, ◌++◌, map, Bytes, has_prefix, ltb, ◌==◌,
  if◌then◌else◌, length, get_elem?, set,
}
use kubebrain_client.Picker.{
  Address, Picker, Outcome, Reads, picked, unavailable, panics, deadlock, read, new, compare_leader,
  replace_leader, writer_of, pick_reader_locked,
}
use kubebrain_client.Picker.Invariant.{addrs}

-- At the start of `updateLeader`, before its part under the write lock, after it with the leader that
-- it returns, or at the end of the call.
pub data Phase (SubConn : Type 0) : Type 0 where
  begun : Phase SubConn
  differs : Phase SubConn
  updated : Bytes → Phase SubConn
  returned : Outcome SubConn → Phase SubConn

-- `met` are the leaders that the record has had while the call runs.
pub record Call (SubConn : Type 0) : Type 0 where
  pub method : Bytes
  pub phase : Phase SubConn
  pub met : List Bytes

-- `leader` is that of the record now.
pub record System (SubConn : Type 0) : Type 0 where
  pub bal : Picker SubConn
  pub leader : Bytes
  pub calls : List (Call SubConn)
  pub frozen : Bool

-- What a call reads of a record with one leader.
abbrev pub reads_now : Bytes → Reads
reads_now l = record { fast = l; locked = l; again = l }

module _ {SubConn : Type 0} where
  abbrev pub has_returned : Phase SubConn → Bool
  has_returned begun = false
  has_returned differs = false
  has_returned (updated l) = false
  has_returned (returned out) = true

  abbrev pub arriving : Bytes → Bytes → Call SubConn
  arriving method leader = record { method = method; phase = begun; met = leader ∷ [] }

  abbrev pub meets : Bytes → Call SubConn → Call SubConn
  meets l c = record c { met = if has_returned c.phase then c.met else l ∷ c.met }

  abbrev pub is_deadlock : Outcome SubConn → Bool
  is_deadlock (picked sc a) = false
  is_deadlock unavailable = false
  is_deadlock panics = false
  is_deadlock deadlock = true

  -- What `updateLeader` goes on to after `compareLeader`.
  unfoldable pub after_compare : Bytes → Picker SubConn → Phase SubConn
  unfolding compare_leader
  after_compare leader bal =
      let (equal, cur) = compare_leader bal leader in if equal then updated cur else differs

  abbrev pub moved : ℕ → Call SubConn → Phase SubConn → System SubConn → System SubConn
  moved i c phase s = record s { calls = set s.calls i (record c { phase = phase }) }

  pub data Step (s : System SubConn) : System SubConn → Type 0 where
    arrive :
        (method : Bytes) → Step s (record s { calls = s.calls ++ arriving method s.leader ∷ [] })
    -- The health check writes the record.
    elect : (l : Bytes) → Step s (record s { leader = l; calls = map (meets l) s.calls })
    refuse :
        (i : ℕ) (c : Call SubConn)
        → get_elem? s.calls i ≡ some c
        → c.phase ≡ begun
        → (length s.bal.addr_to_sc == 0) ≡ true
        → Step s (moved i c (returned unavailable) s)
    compare :
        (i : ℕ) (c : Call SubConn)
        → get_elem? s.calls i ≡ some c
        → c.phase ≡ begun
        → (length s.bal.addr_to_sc == 0) ≡ false
        → s.frozen ≡ false
        → Step s (moved i c (after_compare s.leader s.bal) s)
    replace :
        (i : ℕ) (c : Call SubConn) (order : List Address)
        → get_elem? s.calls i ≡ some c
        → c.phase ≡ differs
        → Perm order (addrs s.bal.addr_to_sc)
        → s.frozen ≡ false
        → Step s (record (moved i c (updated (replace_leader order s.leader s.bal).1) s) {
          bal = (replace_leader order s.leader s.bal).0;
        })
    end_read :
        (i : ℕ) (c : Call SubConn) (l : Bytes)
        → get_elem? s.calls i ≡ some c
        → c.phase ≡ updated l
        → has_prefix read c.method ≡ true
        → s.frozen ≡ false
        → Step s
            (record (moved i c (returned (pick_reader_locked (reads_now s.leader) s.bal).1) s) {
              bal = (pick_reader_locked (reads_now s.leader) s.bal).0;
              frozen = is_deadlock (pick_reader_locked (reads_now s.leader) s.bal).1;
            })
    -- The fallback of a read asks for the read lock again, behind a call that waits for the write lock.
    jam :
        (i j : ℕ) (c d : Call SubConn) (l : Bytes)
        → get_elem? s.calls i ≡ some c
        → c.phase ≡ updated l
        → has_prefix read c.method ≡ true
        → ltb (length s.bal.reader_addrs) 1 ≡ true
        → get_elem? s.calls j ≡ some d
        → d.phase ≡ differs
        → s.frozen ≡ false
        → Step s (record (moved i c (returned deadlock) s) { frozen = true })
    end_write :
        (i : ℕ) (c : Call SubConn) (l : Bytes)
        → get_elem? s.calls i ≡ some c
        → c.phase ≡ updated l
        → has_prefix read c.method ≡ false
        → Step s (moved i c (returned (writer_of s.bal l)) s)

  pub data Reach (s : System SubConn) : System SubConn → Type 0 where
    here : Reach s s
    later : {t u : System SubConn} → Reach s t → Step t u → Reach s u

  -- A new picker, over a record with some leader.
  abbrev pub fresh : ℕ → List (Address × SubConn) → Bytes → System SubConn
  fresh rec ready leader = record {
    bal = new rec ready;
    leader = leader;
    calls = [];
    frozen = false;
  }
