-- ===== src/LeaderCtrl/Leader.antt =====
-- Which leader the keys of client/balancer/picker/leader_ctrl.go lead to.
use kubebrain_client.Prelude.{
  ℕ, ◌≡◌, inl, inr, not, ◌&&◌, some, [], arith, Bytes, lookup, bytes_eq, ◌==◌, if◌then◌else◌,
  get_elem?, Bool-cases,
}
use kubebrain_client.LeaderCtrl.{
  Answer, LeaderRecord, LeaderCtrl, set_leader, on_tick, get_leader_addr, refresh_leader,
}
use kubebrain_client.LeaderCtrl.Records.{set_leader-index, set_leader-records}

module _ (key : Bytes) (j : ℕ) (rec : LeaderRecord) (ctrl : LeaderCtrl)
    (there : lookup key ctrl.leader_index ≡ some j)
    (here : get_elem? ctrl.records j ≡ some rec) where
  known : get_leader_addr key ctrl ≡ rec.leader
  unfolding get_leader_addr
  known = ground (arith, there, here)

  set_leader_leads :
      (i : ℕ) (l : Bytes)
      → get_leader_addr key (set_leader i l ctrl) ≡ (if i == j then l else rec.leader)
  unfolding get_leader_addr
  set_leader_leads i l =
      rw (set_leader-index i l ctrl, there, get_leader_addr)
        (ground (arith, set_leader-records i l ctrl j, here))

  -- After a round of the health check of a record, a key that leads to it has the leader that the
  -- check found; a key that leads to another record keeps its leader, and every key does if the
  -- check failed.
  pub on_tick_leads :
      (id : ℕ) (answer : Answer)
      → get_leader_addr key (on_tick id answer ctrl)
        ≡ (if not answer.failed && id == j then answer.addr else rec.leader)
  unfolding on_tick
  on_tick_leads id answer = elim (Bool-cases answer.failed) [
    | inl bad ↦ rw bad known
    | inr good ↦ rw good (set_leader_leads id answer.addr)
  ]

  -- After updateClusterLeader for a key that leads to a record, its leader is the one that the
  -- check found if none was known and the check did not fail, and otherwise the one that it had.
  pub refresh_leader_leads :
      (answer : Answer)
      → get_leader_addr key (refresh_leader key answer ctrl)
        ≡ (if bytes_eq rec.leader [] && not answer.failed then answer.addr else rec.leader)
  unfolding refresh_leader
  refresh_leader_leads answer = ground (arith, known, there, set_leader_leads j answer.addr)
