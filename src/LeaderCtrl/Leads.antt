-- ===== src/LeaderCtrl/Leads.antt =====
-- Where the keys of client/balancer/picker/leader_ctrl.go lead, whatever is called.
use mathlib.Core.Path.{subst}
use kubebrain_client.Prelude.{
  bytes_eq, ℕ, ◌≡◌, refl, inl, inr, some, List, [], ◌∷◌, ◌++◌, arith, Bytes, lookup, insert, delete,
  delete_all, lookup-insert, lookup-delete, ◌==◌, length, set, Bool-cases, Option-cases,
}
use kubebrain_client.Prelude.Int.{ℤ, is_pos, ◌+ℤ◌}
use kubebrain_client.LeaderCtrl.Endpoints.{marshal_endpoints}
use kubebrain_client.LeaderCtrl.Index.{new_record, lookup-delete_all}
use kubebrain_client.LeaderCtrl.{
  Answer, LeaderRecord, LeaderCtrl, Update, done, panics, alloc, close, index_endpoints,
  add_cluster, count_cluster,
}

-- The controller after a call, also if it panics and the panic is recovered.
abbrev pub left : Update → LeaderCtrl
left (done ctrl) = ctrl
left (panics ctrl) = ctrl

-- Every place that a key leads to is of some kind.
abbrev pub Leads : (ℕ → Type 0) → LeaderCtrl → Type 0
Leads Q ctrl = (k : Bytes) (j : ℕ) → lookup k ctrl.leader_index ≡ some j → Q j

module _ (Q : ℕ → Type 0) where
  pub Leads-index : (c d : LeaderCtrl) → d.leader_index ≡ c.leader_index → Leads Q c → Leads Q d
  Leads-index c d e v k j h = v k j (ground (arith, e, h))

  Leads-insert :
      (key : Bytes) (i : ℕ) (c d : LeaderCtrl)
      → d.leader_index ≡ insert key i c.leader_index
      → Q i
      → Leads Q c
      → Leads Q d
  Leads-insert key i c d e q v k j h = elim (Bool-cases (bytes_eq key k)) [
    | inl same ↦ subst Q (ground (arith, lookup-insert key k i c.leader_index, same, e, h)) q
    | inr other ↦ v k j (ground (arith, lookup-insert key k i c.leader_index, other, e, h))
  ]

  Leads-delete_all :
      (key : Bytes) (eps : List Bytes) (c d : LeaderCtrl)
      → d.leader_index ≡ delete_all eps (delete key c.leader_index)
      → Leads Q c
      → Leads Q d
  Leads-delete_all key eps c d e v k j h = v k j (
      ground (
        arith,
        lookup-delete_all eps (delete key c.leader_index) k,
        lookup-delete key k c.leader_index,
        e,
        h,
      ))

  pub close-index : (i : ℕ) (ctrl : LeaderCtrl) → (close i ctrl).leader_index ≡ ctrl.leader_index
  unfolding close
  close-index i ctrl = ground arith

  pub index_endpoints-Leads :
      (eps : List Bytes) (i : ℕ) (ctrl : LeaderCtrl)
      → Q i
      → Leads Q ctrl
      → Leads Q (left (index_endpoints eps i ctrl))
  unfolding index_endpoints
  index_endpoints-Leads [] i ctrl q v = v
  index_endpoints-Leads (ep ∷ eps) i ctrl q v = elim (Option-cases (lookup ep ctrl.leader_index)) [
    | inl e ↦
        let next = record ctrl { leader_index = insert ep i ctrl.leader_index } in
        rw (e, index_endpoints)
          (index_endpoints-Leads eps i next q (Leads-insert ep i ctrl next refl q v))
    | inr (j, e) ↦ rw (e, index_endpoints) (Leads-index ctrl (close i ctrl) (close-index i ctrl) v)
  ]

  pub add_cluster-Leads :
      (eps : List Bytes) (answer : Answer) (ctrl : LeaderCtrl)
      → Q (length ctrl.records)
      → Leads Q ctrl
      → Leads Q (left (add_cluster eps answer ctrl))
  unfolding add_cluster alloc
  add_cluster-Leads eps answer ctrl q v =
      let key = marshal_endpoints eps in
      let i = length ctrl.records in
      let indexed : LeaderCtrl = record {
        leader_index = insert key i ctrl.leader_index;
        records = ctrl.records ++ new_record answer ∷ [];
      } in
      let one = Leads-insert key i ctrl indexed refl q v in
      elim (Bool-cases (length eps == 1)) [
        | inl single ↦ rw single one
        | inr several ↦ rw several (index_endpoints-Leads eps i indexed q one)
      ]

  pub count_cluster-Leads :
      (eps : List Bytes) (amount : ℤ) (i : ℕ) (rec : LeaderRecord) (ctrl : LeaderCtrl)
      → Leads Q ctrl
      → Leads Q (count_cluster eps amount i rec ctrl)
  unfolding count_cluster
  count_cluster-Leads eps amount i rec ctrl v = elim (Bool-cases (is_pos (rec.amount +ℤ amount))) [
    | inl some_left ↦ rw some_left v
    | inr none_left ↦
        let counted = record ctrl {
          records = set ctrl.records i (record rec { amount = rec.amount +ℤ amount });
        } in
        let gone = record counted {
          leader_index = delete_all eps (delete (marshal_endpoints eps) ctrl.leader_index);
        } in
        rw none_left
          (Leads-delete_all (marshal_endpoints eps) eps ctrl (close i gone) (close-index i gone) v)
  ]
