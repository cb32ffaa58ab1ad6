-- ===== src/LeaderCtrl/Clash.antt =====
-- What is left of a registration in client/balancer/picker/leader_ctrl.go that panics, because an
-- endpoint belongs to another cluster already.
use kubebrain_client.Prelude.{
  ℕ, ◌≡◌, refl, ap, ◌∙◌, inl, inr, true, false, none, some, List, [], ◌∷◌, ◌++◌, arith, Bytes, Map,
  lookup, insert, lookup-insert, lookup-insert_self, bytes_eq_iff, ◌==◌, length, get_elem?, set,
  get_elem?-set, get_elem?-last, Option-cases,
}
use kubebrain_client.Prelude.Int.{pos}
use kubebrain_client.LeaderCtrl.Endpoints.{marshal_endpoints, marshal_endpoints_one, member}
use kubebrain_client.LeaderCtrl.Index.{new_record}
use kubebrain_client.LeaderCtrl.{
  Answer, LeaderRecord, LeaderCtrl, panics, alloc, close, index_endpoints, add_cluster,
  update_cluster_amount, after_amount, register_cluster,
}

lookup-insert_kept :
    {V : Type 0} (key x : Bytes) (v w : V) (m : Map V)
    → lookup key m ≡ some v
    → lookup x m ≡ none
    → lookup key (insert x w m) ≡ some v
lookup-insert_kept key x v w m h free = ground (arith, lookup-insert x key w m, bytes_eq_iff x key)

-- The loop gives up at an endpoint in the index, and keeps what the index has.
index_endpoints_clash :
    (eps : List Bytes) (ep : Bytes) (id j : ℕ) (ctrl : LeaderCtrl)
    → member ep eps ≡ true
    → lookup ep ctrl.leader_index ≡ some j
    → (key : Bytes) (i : ℕ) → lookup key ctrl.leader_index ≡ some i
    → (m : Map ℕ) × (index_endpoints eps id ctrl
        ≡ panics (close id (record ctrl { leader_index = m })))
      × (lookup key m ≡ some i)
unfolding index_endpoints member
index_endpoints_clash [] ep id j ctrl h e key i k = cc
index_endpoints_clash (x ∷ eps) ep id j ctrl h e key i k =
    elim (Option-cases (lookup x ctrl.leader_index)) [
      | inr (o, taken) ↦ (ctrl.leader_index, rw (taken, index_endpoints) refl, k)
      | inl free ↦
          let next = record ctrl { leader_index = insert x id ctrl.leader_index } in
          let (m, out, kept) =
            index_endpoints_clash eps ep id j next (ground (arith, bytes_eq_iff x ep))
              (lookup-insert_kept ep x j id ctrl.leader_index e free) key i
              (lookup-insert_kept key x i id ctrl.leader_index k free) in
          (m, rw (free, index_endpoints) out, kept)
    ]

close_lem :
    (id : ℕ) (rec : LeaderRecord) (ctrl : LeaderCtrl)
    → get_elem? ctrl.records id ≡ some rec
    → close id ctrl
      ≡ record ctrl { records = set ctrl.records id (record rec { cancelled = true }) }
unfolding close
close_lem id rec ctrl h = ground (arith, h)

add_cluster_clash :
    (eps : List Bytes) (ep : Bytes) (j : ℕ) (answer : Answer) (ctrl : LeaderCtrl)
    → member ep eps ≡ true
    → lookup ep ctrl.leader_index ≡ some j
    → lookup (marshal_endpoints eps) ctrl.leader_index ≡ none
    → (length eps == 1) ≡ false
    → (ctrl' : LeaderCtrl) × (add_cluster eps answer ctrl ≡ panics ctrl')
      × (lookup (marshal_endpoints eps) ctrl'.leader_index ≡ some (length ctrl.records))
      × (get_elem? ctrl'.records (length ctrl.records)
          ≡ some (record { amount = pos 1; leader = answer.addr; cancelled = true }))
unfolding add_cluster alloc
add_cluster_clash eps ep j answer ctrl h e free several =
    let key = marshal_endpoints eps in
    let id = length ctrl.records in
    let records = ctrl.records ++ new_record answer ∷ [] in
    let indexed : LeaderCtrl = record {
      leader_index = insert key id ctrl.leader_index;
      records = records;
    } in
    let (m, out, kept) =
      index_endpoints_clash eps ep id j indexed h
        (lookup-insert_kept ep key j id ctrl.leader_index e free) key id
        (lookup-insert_self key id ctrl.leader_index) in
    let closed : LeaderRecord = record { amount = pos 1; leader = answer.addr; cancelled = true } in
    (
      record { leader_index = m; records = set records id closed },
      rw several out
          ∙ ap panics (
              close_lem id (new_record answer) (record { leader_index = m; records = records })
                (get_elem?-last ctrl.records (new_record answer))),
      kept,
      ground (
        arith,
        get_elem?-set records id closed id,
        get_elem?-last ctrl.records (new_record answer),
      ),
    )

not_single :
    (eps : List Bytes) (ep : Bytes) (m : Map ℕ) (j : ℕ)
    → member ep eps ≡ true
    → lookup ep m ≡ some j
    → lookup (marshal_endpoints eps) m ≡ none
    → (length eps == 1) ≡ false
unfolding member
not_single [] ep m j h e free = cc
not_single (x ∷ []) ep m j h e free = ground (arith, bytes_eq_iff x ep, marshal_endpoints_one x)
not_single (x ∷ y ∷ eps) ep m j h e free = ground arith

-- A registration panics if one of its endpoints is in the index and the key of the cluster is not,
-- and the key of the cluster is then left in the index, at a record whose health check is off.
pub register_clash :
    (eps : List Bytes) (ep : Bytes) (j : ℕ) (first second : Answer) (ctrl : LeaderCtrl)
    → member ep eps ≡ true
    → lookup ep ctrl.leader_index ≡ some j
    → lookup (marshal_endpoints eps) ctrl.leader_index ≡ none
    → (ctrl' : LeaderCtrl) × (register_cluster eps first second ctrl ≡ panics ctrl')
      × (lookup (marshal_endpoints eps) ctrl'.leader_index ≡ some (length ctrl.records))
      × (get_elem? ctrl'.records (length ctrl.records)
          ≡ some (record { amount = pos 1; leader = first.addr; cancelled = true }))
unfolding register_cluster
register_clash eps ep j first second ctrl h e free =
    let (ctrl', out, key, rec) =
      add_cluster_clash eps ep j first ctrl h e free
        (not_single eps ep ctrl.leader_index j h e free) in
    let added : update_cluster_amount eps (pos 1) first ctrl ≡ add_cluster eps first ctrl =
      unfold update_cluster_amount in (ground (arith, free)) in
    (ctrl', ap (after_amount eps second) (added ∙ out), key, rec)
