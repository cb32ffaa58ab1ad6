-- ===== src/Routes/Orphan.antt =====
-- A picker that client/balancer/picker/builder.go builds before its cluster is registered in
-- client/balancer/picker/leader_ctrl.go. `newClient` of client/client.go dials first and registers
-- then, so that a connection may be ready in between.
use kubebrain_client.Prelude.{ℕ, ◌≡◌, false, none, List, [], arith, Bytes, lookup, bytes_eq_iff}
use kubebrain_client.LeaderCtrl.{LeaderCtrl, empty, get_leader, get_leader_record}
use kubebrain_client.LeaderCtrl.Orphan.{IsOrphan}
use kubebrain_client.LeaderCtrl.Events.{
  Event, after, Unwatched, after-IsOrphan, empty-Bounded, looked_up-IsOrphan,
}
use kubebrain_client.Picker.{Address, Reads, unavailable, last_addr, new, update_leader, pick}
use kubebrain_client.Picker.Builder.{build}
use kubebrain_client.Picker.Invariant.{listed, addrs, lookup-raw_addrs}
use kubebrain_client.Routes.Failover.{reads_of}

-- An orphan names no leader.
get_leader-orphan : (id : ℕ) (ctrl : LeaderCtrl) → IsOrphan id ctrl → get_leader id ctrl ≡ []
unfolding get_leader
get_leader-orphan id ctrl v = ground (arith, v.blank)

module _ {SubConn : Type 0} where
  -- A new picker that finds no leader refuses the call, and stays as it is.
  new_refuses :
      (id : ℕ) (ready : List (Address × SubConn)) (order : List Address) (r : Reads)
      (method : Bytes)
      → listed [] (addrs ready) ≡ false
      → r.fast ≡ []
      → r.again ≡ []
      → pick order r method (new id ready) ≡ (new id ready, unavailable)
  unfolding pick update_leader new lookup
  new_refuses id ready order r method unlisted fast again =
      ground (arith, lookup-raw_addrs [] ready [], bytes_eq_iff r.fast [], bytes_eq_iff r.again [])

  -- A picker that is built before its cluster is registered, over connections of which none has the
  -- empty address, refuses every call, reads too, whatever is registered, looked up or refreshed
  -- later and whatever the health checks of other records find, and stays as it is.
  pub orphan_refuses :
      (before later : List Event) (ready : List (Address × SubConn)) (order : List Address)
      (method : Bytes)
      → lookup (last_addr ready []) (after before empty).leader_index ≡ none
      → listed [] (addrs ready) ≡ false
      → Unwatched (build ready (after before empty)).1.leader_record later
      → let (ctrl, bal) = build ready (after before empty) in
        pick order (reads_of bal.leader_record (after later ctrl)) method bal ≡ (bal, unavailable)
  unfolding build
  orphan_refuses before later ready order method absent unlisted unwatched =
      let ctrl = after before empty in
      let (c, id) = get_leader_record (last_addr ready []) ctrl in
      let orphan = looked_up-IsOrphan (last_addr ready []) ctrl (empty-Bounded before) absent in
      let none_known =
        get_leader-orphan id (after later c) (after-IsOrphan id later c unwatched orphan) in
      new_refuses id ready order (reads_of id (after later c)) method unlisted none_known none_known
