-- ===== src/LeaderCtrl/Orphan.antt =====
-- A leader record of client/balancer/picker/leader_ctrl.go that `getLeaderRecord` makes for a key
-- which is not in the index: no key ever leads to it.
use mathlib.Core.Path.{subst}
use kubebrain_client.Prelude.{
  ℕ, ◌≡◌, ◌≢◌, ◌⊎◌, refl, inl, inr, true, some, List, [], ◌∷◌, ◌++◌, arith, Bytes, lookup, insert,
  delete, delete_all, ==_iff, ◌==◌, length, get_elem?, set, get_elem?-set, get_elem?-append,
  get_elem?_past, Bool-cases, Option-cases,
}
use kubebrain_client.Prelude.Int.{ℤ, pos, is_pos, ◌+ℤ◌}
use kubebrain_client.LeaderCtrl.Endpoints.{marshal_endpoints}
use kubebrain_client.LeaderCtrl.Index.{new_record}
use kubebrain_client.LeaderCtrl.Records.{set_leader-index, set_leader-records}
use kubebrain_client.LeaderCtrl.Cases.{update_cluster_amount-cases, refresh_leader-cases}
use kubebrain_client.LeaderCtrl.Leads.{
  left, Leads, Leads-index, add_cluster-Leads, count_cluster-Leads,
}
use kubebrain_client.LeaderCtrl.{
  Answer, LeaderRecord, LeaderCtrl, Update, done, panics, zero_record, alloc, set_leader, close,
  on_tick, get_leader_record, index_endpoints, add_cluster, count_cluster, update_cluster_amount,
  refresh_leader, after_amount, register_cluster,
}

-- The record is as it was made, and no key leads to it.
pub record IsOrphan (id : ℕ) (ctrl : LeaderCtrl) : Type 0 where
  pub blank : get_elem? ctrl.records id ≡ some zero_record
  pub unreached : Leads (λ j. j ≢ id) ctrl

pub Update-cases :
    (u : Update) → ((c : LeaderCtrl) × (u ≡ done c)) ⊎ ((c : LeaderCtrl) × (u ≡ panics c))
Update-cases (done c) = inl (c, refl)
Update-cases (panics c) = inr (c, refl)

module _ (id : ℕ) where
  not_last :
      (ctrl : LeaderCtrl) → get_elem? ctrl.records id ≡ some zero_record → length ctrl.records ≢ id
  not_last ctrl b e = ground (arith, b, get_elem?_past ctrl.records)

  blank-alloc :
      (rec : LeaderRecord) (ctrl : LeaderCtrl)
      → get_elem? ctrl.records id ≡ some zero_record
      → get_elem? (ctrl.records ++ rec ∷ []) id ≡ some zero_record
  blank-alloc rec ctrl b = ground (
    arith,
    get_elem?-append ctrl.records rec id,
    not_last ctrl b,
    ==_iff id (length ctrl.records),
  )

  blank-set :
      (i : ℕ) (rec : LeaderRecord) (recs : List LeaderRecord)
      → i ≢ id
      → get_elem? recs id ≡ some zero_record
      → get_elem? (set recs i rec) id ≡ some zero_record
  blank-set i rec recs other b = ground (arith, get_elem?-set recs i rec id, ==_iff i id)

  blank-close :
      (i : ℕ) (ctrl : LeaderCtrl)
      → i ≢ id
      → get_elem? ctrl.records id ≡ some zero_record
      → get_elem? (close i ctrl).records id ≡ some zero_record
  unfolding close
  blank-close i ctrl other b = elim (Option-cases (get_elem? ctrl.records i)) [
    | inl e ↦ rw (e, close) b
    | inr (rec, e) ↦
        rw (e, close) (blank-set i (record rec { cancelled = true }) ctrl.records other b)
  ]

  blank-index_endpoints :
      (eps : List Bytes) (i : ℕ) (ctrl : LeaderCtrl)
      → i ≢ id
      → get_elem? ctrl.records id ≡ some zero_record
      → get_elem? (left (index_endpoints eps i ctrl)).records id ≡ some zero_record
  unfolding index_endpoints
  blank-index_endpoints [] i ctrl other b = b
  blank-index_endpoints (ep ∷ eps) i ctrl other b =
      elim (Option-cases (lookup ep ctrl.leader_index)) [
        | inl e ↦
            rw (e, index_endpoints)
              (blank-index_endpoints eps i
                (record ctrl { leader_index = insert ep i ctrl.leader_index }) other b)
        | inr (j, e) ↦ rw (e, index_endpoints) (blank-close i ctrl other b)
      ]

  add_cluster-IsOrphan :
      (eps : List Bytes) (answer : Answer) (ctrl : LeaderCtrl)
      → IsOrphan id ctrl
      → IsOrphan id (left (add_cluster eps answer ctrl))
  unfolding add_cluster alloc
  add_cluster-IsOrphan eps answer ctrl v =
      let other = not_last ctrl v.blank in
      let b = blank-alloc (new_record answer) ctrl v.blank in
      let indexed : LeaderCtrl = record {
        leader_index = insert (marshal_endpoints eps) (length ctrl.records) ctrl.leader_index;
        records = ctrl.records ++ new_record answer ∷ [];
      } in
      record {
        blank = elim (Bool-cases (length eps == 1)) [
          | inl single ↦ rw single b
          | inr several ↦
              rw several (blank-index_endpoints eps (length ctrl.records) indexed other b)
        ];
        unreached = add_cluster-Leads (λ j. j ≢ id) eps answer ctrl other v.unreached;
      }

  pub count_cluster-IsOrphan :
      (eps : List Bytes) (amount : ℤ) (i : ℕ) (rec : LeaderRecord) (ctrl : LeaderCtrl)
      → i ≢ id
      → IsOrphan id ctrl
      → IsOrphan id (count_cluster eps amount i rec ctrl)
  unfolding count_cluster
  count_cluster-IsOrphan eps amount i rec ctrl other v =
      let counted = record ctrl {
        records = set ctrl.records i (record rec { amount = rec.amount +ℤ amount });
      } in
      let gone = record counted {
        leader_index = delete_all eps (delete (marshal_endpoints eps) ctrl.leader_index);
      } in
      let b =
        blank-set i (record rec { amount = rec.amount +ℤ amount }) ctrl.records other v.blank in
      record {
        blank = elim (Bool-cases (is_pos (rec.amount +ℤ amount))) [
          | inl some_left ↦ rw some_left b
          | inr none_left ↦ rw none_left (blank-close i gone other b)
        ];
        unreached = count_cluster-Leads (λ j. j ≢ id) eps amount i rec ctrl v.unreached;
      }

  set_leader-IsOrphan :
      (i : ℕ) (l : Bytes) (ctrl : LeaderCtrl)
      → i ≢ id
      → IsOrphan id ctrl
      → IsOrphan id (set_leader i l ctrl)
  set_leader-IsOrphan i l ctrl other v = record {
    blank = ground (arith, set_leader-records i l ctrl id, ==_iff i id, v.blank);
    unreached =
        Leads-index (λ j. j ≢ id) ctrl (set_leader i l ctrl) (set_leader-index i l ctrl)
          v.unreached;
  }

  pub update_cluster_amount-IsOrphan :
      (eps : List Bytes) (amount : ℤ) (answer : Answer) (ctrl : LeaderCtrl)
      → IsOrphan id ctrl
      → IsOrphan id (left (update_cluster_amount eps amount answer ctrl))
  unfolding update_cluster_amount
  update_cluster_amount-IsOrphan eps amount answer ctrl v =
      elim (update_cluster_amount-cases eps amount answer ctrl) [
        | inl e ↦ rw e v
        | inr (inl e) ↦ rw e (add_cluster-IsOrphan eps answer ctrl v)
        | inr (inr (i, rec, there, e)) ↦ rw e (
            count_cluster-IsOrphan eps amount i rec ctrl
              (v.unreached (marshal_endpoints eps) i there) v)
      ]

  pub refresh_leader-IsOrphan :
      (key : Bytes) (answer : Answer) (ctrl : LeaderCtrl)
      → IsOrphan id ctrl
      → IsOrphan id (refresh_leader key answer ctrl)
  refresh_leader-IsOrphan key answer ctrl v = elim (refresh_leader-cases key answer ctrl) [
    | inl e ↦ rw e v
    | inr (i, there, e) ↦ rw e (set_leader-IsOrphan i answer.addr ctrl (v.unreached key i there) v)
  ]

  pub register_cluster-IsOrphan :
      (eps : List Bytes) (first second : Answer) (ctrl : LeaderCtrl)
      → IsOrphan id ctrl
      → IsOrphan id (left (register_cluster eps first second ctrl))
  unfolding register_cluster
  register_cluster-IsOrphan eps first second ctrl v =
      let key = marshal_endpoints eps in
      let w = update_cluster_amount-IsOrphan eps (pos 1) first ctrl v in
      elim (Update-cases (update_cluster_amount eps (pos 1) first ctrl)) [
        | inl (c, e) ↦
            let o : IsOrphan id c = subst (λ u. IsOrphan id (left u)) e w in
            rw (e, after_amount) (refresh_leader-IsOrphan key second c o)
        | inr (c, e) ↦
            let o : IsOrphan id c = subst (λ u. IsOrphan id (left u)) e w in rw (e, after_amount) o
      ]

  pub get_leader_record-IsOrphan :
      (key : Bytes) (ctrl : LeaderCtrl)
      → IsOrphan id ctrl
      → IsOrphan id (get_leader_record key ctrl).0
  unfolding get_leader_record alloc
  get_leader_record-IsOrphan key ctrl v = elim (Option-cases (lookup key ctrl.leader_index)) [
    | inl e ↦
        rw (e, get_leader_record)
          (record { blank = blank-alloc zero_record ctrl v.blank; unreached = v.unreached })
    | inr (i, e) ↦ rw (e, get_leader_record) v
  ]

  pub on_tick-IsOrphan :
      (i : ℕ) (answer : Answer) (ctrl : LeaderCtrl)
      → i ≢ id
      → IsOrphan id ctrl
      → IsOrphan id (on_tick i answer ctrl)
  unfolding on_tick
  on_tick-IsOrphan i answer ctrl other v = elim (Bool-cases answer.failed) [
    | inl bad ↦ rw bad v
    | inr good ↦ rw good (set_leader-IsOrphan i answer.addr ctrl other v)
  ]
