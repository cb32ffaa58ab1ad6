-- ===== src/LeaderCtrl/Cases.antt =====
-- The branches of the operations of client/balancer/picker/leader_ctrl.go.
use kubebrain_client.Prelude.{
  ℕ, ◌≡◌, ◌⊎◌, inl, inr, false, not, ◌&&◌, some, [], List, arith, Bytes, lookup, bytes_eq, ltb,
  get_elem?, Bool-cases, Option-cases,
}
use kubebrain_client.Prelude.Int.{ℤ, is_pos}
use kubebrain_client.LeaderCtrl.Endpoints.{marshal_endpoints}
use kubebrain_client.LeaderCtrl.{
  Answer, LeaderRecord, LeaderCtrl, done, set_leader, get_leader_addr, add_cluster, count_cluster,
  update_cluster_amount, refresh_leader,
}

ltb_zero : (n : ℕ) → ltb n 0 ≡ false
ltb_zero n = ground arith

pub update_cluster_amount-cases :
    (eps : List Bytes) (amount : ℤ) (answer : Answer) (ctrl : LeaderCtrl)
    → (update_cluster_amount eps amount answer ctrl ≡ done ctrl)
      ⊎ (update_cluster_amount eps amount answer ctrl ≡ add_cluster eps answer ctrl)
      ⊎ ((id : ℕ) × (rec : LeaderRecord) × (lookup (marshal_endpoints eps) ctrl.leader_index
            ≡ some id)
          × (update_cluster_amount eps amount answer ctrl
              ≡ done (count_cluster eps amount id rec ctrl)))
unfolding update_cluster_amount
update_cluster_amount-cases eps amount answer ctrl =
    elim (Option-cases (lookup (marshal_endpoints eps) ctrl.leader_index)) [
      | inl e ↦ elim (Bool-cases (is_pos amount)) [
        | inl more ↦ inr (inl (ground (arith, e, more)))
        | inr less ↦ inl (ground (arith, e, less))
      ]
      | inr (id, e) ↦ elim (Option-cases (get_elem? ctrl.records id)) [
        | inl h ↦ inl (ground (arith, e, h))
        | inr (rec, h) ↦ inr (inr (id, rec, e, ground (arith, e, h)))
      ]
    ]

pub refresh_leader-cases :
    (key : Bytes) (answer : Answer) (ctrl : LeaderCtrl)
    → (refresh_leader key answer ctrl ≡ ctrl)
      ⊎ ((id : ℕ) × (lookup key ctrl.leader_index ≡ some id)
          × (refresh_leader key answer ctrl ≡ set_leader id answer.addr ctrl))
unfolding refresh_leader
refresh_leader-cases key answer ctrl = elim (Option-cases (lookup key ctrl.leader_index)) [
  | inl e ↦ inl (ground (arith, e))
  | inr (id, e) ↦ elim (Bool-cases (bytes_eq (get_leader_addr key ctrl) [] && not answer.failed)) [
    | inl asked ↦ inr (id, e, ground (arith, e))
    | inr known ↦ inl (ground (arith, e))
  ]
]
