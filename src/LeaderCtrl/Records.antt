-- ===== src/LeaderCtrl/Records.antt =====
-- What the writes of client/balancer/picker/leader_ctrl.go through a pointer do to the records.
use kubebrain_client.Prelude.{
  ℕ, ◌≡◌, inl, inr, Option, none, some, arith, Bytes, bytes_eq_iff, ◌==◌, ==_iff, if◌then◌else◌,
  get_elem?, get_elem?-set, Option-cases,
}
use kubebrain_client.LeaderCtrl.{LeaderRecord, LeaderCtrl, set_leader}

abbrev pub led : Bytes → Option LeaderRecord → Option LeaderRecord
led l none = none
led l (some rec) = some (record rec { leader = l })

pub set_leader-index :
    (i : ℕ) (l : Bytes) (ctrl : LeaderCtrl) → (set_leader i l ctrl).leader_index ≡ ctrl.leader_index
unfolding set_leader
set_leader-index i l ctrl = ground arith

-- The record behind the pointer has the leader, the others are as they were.
pub set_leader-records :
    (i : ℕ) (l : Bytes) (ctrl : LeaderCtrl) (j : ℕ)
    → get_elem? (set_leader i l ctrl).records j
      ≡ (if i == j then led l (get_elem? ctrl.records j) else get_elem? ctrl.records j)
unfolding set_leader
set_leader-records i l ctrl j = elim (Option-cases (get_elem? ctrl.records i)) [
  | inl e ↦ ground (arith, e, ==_iff i j)
  | inr (rec, e) ↦ ground (
    arith,
    e,
    ==_iff i j,
    bytes_eq_iff rec.leader l,
    get_elem?-set ctrl.records i (record rec { leader = l }) j,
  )
]
