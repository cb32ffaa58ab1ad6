-- ===== src/LeaderCtrl/Bounded.antt =====
-- The keys of client/balancer/picker/leader_ctrl.go lead to records that are there.
use mathlib.Core.Path.{subst}
use kubebrain_client.Prelude.{
  ℕ, ◌+◌, ◌<◌, ◌≡◌, refl, ◌∙◌, inl, inr, true, List, [], ◌∷◌, ◌++◌, arith, Bytes, lookup, insert,
  ◌==◌, length, length-append, length-set, get_elem?, Bool-cases, Option-cases,
}
use kubebrain_client.Prelude.Int.{ℤ, pos, is_pos, ◌+ℤ◌}
use kubebrain_client.LeaderCtrl.Endpoints.{marshal_endpoints}
use kubebrain_client.LeaderCtrl.Index.{new_record}
use kubebrain_client.LeaderCtrl.Records.{set_leader-index}
use kubebrain_client.LeaderCtrl.Cases.{update_cluster_amount-cases, refresh_leader-cases}
use kubebrain_client.LeaderCtrl.Leads.{
  left, Leads, Leads-index, add_cluster-Leads, count_cluster-Leads,
}
use kubebrain_client.LeaderCtrl.Orphan.{Update-cases}
use kubebrain_client.LeaderCtrl.{
  Answer, LeaderRecord, LeaderCtrl, zero_record, alloc, modify, set_leader, close, on_tick,
  get_leader_record, index_endpoints, add_cluster, count_cluster, update_cluster_amount,
  refresh_leader, after_amount, register_cluster,
}

-- Every key leads to a record.
abbrev pub Bounded : LeaderCtrl → Type 0
Bounded ctrl = Leads (λ j. j < length ctrl.records) ctrl

length-modify :
    (i : ℕ) (f : LeaderRecord → LeaderRecord) (ctrl : LeaderCtrl)
    → length (modify i f ctrl).records ≡ length ctrl.records
unfolding modify
length-modify i f ctrl = elim (Option-cases (get_elem? ctrl.records i)) [
  | inl e ↦ rw (e, modify) refl
  | inr (rec, e) ↦ rw (e, modify) (length-set ctrl.records i (f rec))
]

length-close : (i : ℕ) (ctrl : LeaderCtrl) → length (close i ctrl).records ≡ length ctrl.records
unfolding close
length-close i ctrl = length-modify i (λ rec. record rec { cancelled = true }) ctrl

length-set_leader :
    (i : ℕ) (l : Bytes) (ctrl : LeaderCtrl)
    → length (set_leader i l ctrl).records ≡ length ctrl.records
unfolding set_leader
length-set_leader i l ctrl =
    ground (arith, length-modify i (λ (rec : LeaderRecord). record rec { leader = l }) ctrl)

length-index_endpoints :
    (eps : List Bytes) (i : ℕ) (ctrl : LeaderCtrl)
    → length (left (index_endpoints eps i ctrl)).records ≡ length ctrl.records
unfolding index_endpoints
length-index_endpoints [] i ctrl = refl
length-index_endpoints (ep ∷ eps) i ctrl = elim (Option-cases (lookup ep ctrl.leader_index)) [
  | inl e ↦
      rw (e, index_endpoints)
        (length-index_endpoints eps i
          (record ctrl { leader_index = insert ep i ctrl.leader_index }))
  | inr (j, e) ↦ rw (e, index_endpoints) (length-close i ctrl)
]

length-add_cluster :
    (eps : List Bytes) (answer : Answer) (ctrl : LeaderCtrl)
    → length (left (add_cluster eps answer ctrl)).records ≡ length ctrl.records + 1
unfolding add_cluster alloc
length-add_cluster eps answer ctrl =
    let indexed : LeaderCtrl = record {
      leader_index = insert (marshal_endpoints eps) (length ctrl.records) ctrl.leader_index;
      records = ctrl.records ++ new_record answer ∷ [];
    } in
    let grown : length indexed.records ≡ length ctrl.records + 1 =
      length-append ctrl.records (new_record answer ∷ []) in
    elim (Bool-cases (length eps == 1)) [
      | inl single ↦ rw single grown
      | inr several ↦ rw several (length-index_endpoints eps (length ctrl.records) indexed ∙ grown)
    ]

length-count_cluster :
    (eps : List Bytes) (amount : ℤ) (i : ℕ) (rec : LeaderRecord) (ctrl : LeaderCtrl)
    → length (count_cluster eps amount i rec ctrl).records ≡ length ctrl.records
unfolding count_cluster
length-count_cluster eps amount i rec ctrl =
    let same = length-set ctrl.records i (record rec { amount = rec.amount +ℤ amount }) in
    elim (Bool-cases (is_pos (rec.amount +ℤ amount))) [
      | inl some_left ↦ rw some_left same
      | inr none_left ↦ rw none_left (length-close i _ ∙ same)
    ]

add_cluster-Bounded :
    (eps : List Bytes) (answer : Answer) (ctrl : LeaderCtrl)
    → Bounded ctrl
    → Bounded (left (add_cluster eps answer ctrl))
add_cluster-Bounded eps answer ctrl v k j h =
    let e = length-add_cluster eps answer ctrl in
    let bound =
      add_cluster-Leads (λ j. j < length ctrl.records + 1) eps answer ctrl (omega arith)
        (λ k j h. omega (arith, v k j h)) k j h in
    omega arith

pub update_cluster_amount-Bounded :
    (eps : List Bytes) (amount : ℤ) (answer : Answer) (ctrl : LeaderCtrl)
    → Bounded ctrl
    → Bounded (left (update_cluster_amount eps amount answer ctrl))
update_cluster_amount-Bounded eps amount answer ctrl v =
    elim (update_cluster_amount-cases eps amount answer ctrl) [
      | inl e ↦ rw e v
      | inr (inl e) ↦ rw e (add_cluster-Bounded eps answer ctrl v)
      | inr (inr (i, rec, there, e)) ↦
          rw (e, length-count_cluster eps amount i rec ctrl)
            (count_cluster-Leads (λ j. j < length ctrl.records) eps amount i rec ctrl v)
    ]

set_leader-Bounded :
    (i : ℕ) (l : Bytes) (ctrl : LeaderCtrl) → Bounded ctrl → Bounded (set_leader i l ctrl)
set_leader-Bounded i l ctrl v = rw (length-set_leader i l ctrl) (
    Leads-index (λ j. j < length ctrl.records) ctrl (set_leader i l ctrl)
      (set_leader-index i l ctrl) v)

pub refresh_leader-Bounded :
    (key : Bytes) (answer : Answer) (ctrl : LeaderCtrl)
    → Bounded ctrl
    → Bounded (refresh_leader key answer ctrl)
refresh_leader-Bounded key answer ctrl v = elim (refresh_leader-cases key answer ctrl) [
  | inl e ↦ rw e v
  | inr (i, there, e) ↦ rw e (set_leader-Bounded i answer.addr ctrl v)
]

pub register_cluster-Bounded :
    (eps : List Bytes) (first second : Answer) (ctrl : LeaderCtrl)
    → Bounded ctrl
    → Bounded (left (register_cluster eps first second ctrl))
unfolding register_cluster
register_cluster-Bounded eps first second ctrl v =
    let w = update_cluster_amount-Bounded eps (pos 1) first ctrl v in
    elim (Update-cases (update_cluster_amount eps (pos 1) first ctrl)) [
      | inl (c, e) ↦
          let b : Bounded c = subst (λ u. Bounded (left u)) e w in
          rw (e, after_amount) (refresh_leader-Bounded (marshal_endpoints eps) second c b)
      | inr (c, e) ↦ let b : Bounded c = subst (λ u. Bounded (left u)) e w in rw (e, after_amount) b
    ]

pub get_leader_record-Bounded :
    (key : Bytes) (ctrl : LeaderCtrl) → Bounded ctrl → Bounded (get_leader_record key ctrl).0
unfolding get_leader_record alloc
get_leader_record-Bounded key ctrl v = elim (Option-cases (lookup key ctrl.leader_index)) [
  | inl e ↦
      rw (e, get_leader_record)
        (λ k j h. omega (arith, v k j h, length-append ctrl.records (zero_record ∷ [])))
  | inr (i, e) ↦ rw (e, get_leader_record) v
]

pub on_tick-Bounded :
    (i : ℕ) (answer : Answer) (ctrl : LeaderCtrl) → Bounded ctrl → Bounded (on_tick i answer ctrl)
unfolding on_tick
on_tick-Bounded i answer ctrl v = elim (Bool-cases answer.failed) [
  | inl bad ↦ rw bad v
  | inr good ↦ rw good (set_leader-Bounded i answer.addr ctrl v)
]
