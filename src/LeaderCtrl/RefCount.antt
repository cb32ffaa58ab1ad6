-- ===== src/LeaderCtrl/RefCount.antt =====
-- The clusters of client/balancer/picker/leader_ctrl.go are counted: a specification by a number.
pub mod Spec
pub mod Refresh
use kubebrain_client.Prelude.{
  ℕ, zero, suc, ◌+◌, ◌-◌, ◌<◌, ◌≡◌, ◌≢◌, refl, sym, ap, ◌∙◌, ◌⊎◌, inl, inr, Bool, true, false, not,
  ◌&&◌, ◌||◌, Option, none, some, List, [], ◌∷◌, ◌++◌, arith, Bytes, All, Map, lookup, insert,
  delete, delete_all, lookup-insert, lookup-delete, bytes_eq, bytes_eq_iff, bytes_eq_refl, ltb,
  ◌==◌, if◌then◌else◌, length, get_elem?, set, get_elem?-set, get_elem?-last, Bool-cases,
  Option-cases,
}
use kubebrain_client.Prelude.Int.{ℤ, pos, negsuc, ◌+ℤ◌, is_pos}
use kubebrain_client.LeaderCtrl.Endpoints.{marshal_endpoints, member}
use kubebrain_client.LeaderCtrl.Records.{set_leader-index, set_leader-records}
use kubebrain_client.LeaderCtrl.Index.{
  Absent, own, IsFresh, Holds, Enters, new_record, add_cluster-Enters, lookup_left,
}
use kubebrain_client.LeaderCtrl.{
  no_answer, Answer, LeaderRecord, LeaderCtrl, Update, done, panics, alloc, get_leader, modify,
  set_leader, close, on_tick, add_cluster, count_cluster, update_cluster_amount, get_leader_addr,
  refresh_leader, register_cluster, unregister_cluster, update_cluster_leader, after_amount,
}
use kubebrain_client.LeaderCtrl.RefCount.Spec.{
  Op, register, unregister, tick, step, run, one_less, counts, clients, Live, Tracks,
}
use kubebrain_client.LeaderCtrl.RefCount.Refresh.{on_tick-Tracks, refresh_leader-Tracks}

pub own_key : (eps : List Bytes) → own eps (marshal_endpoints eps) ≡ true
unfolding own
own_key eps = ground (arith, bytes_eq_refl (marshal_endpoints eps))

pub amount_up : (n : ℕ) → pos (suc n) +ℤ pos 1 ≡ pos (suc (suc n))
unfolding ◌+ℤ◌
amount_up n = ground arith

pub amount_down : (n : ℕ) → pos (suc n) +ℤ negsuc 0 ≡ pos n
unfolding ◌+ℤ◌
amount_down n = ground arith

Absent-same :
    (eps : List Bytes) (base m : Map ℕ)
    → ((k : Bytes) → lookup k m ≡ lookup k base)
    → Absent eps base
    → Absent eps m
Absent-same [] base m same a = tt
Absent-same (ep ∷ eps) base m same a = (same ep ∙ a.0, Absent-same eps base m same a.1)

IsFresh-same :
    (eps : List Bytes) (base m : Map ℕ)
    → ((k : Bytes) → lookup k m ≡ lookup k base)
    → IsFresh eps base
    → IsFresh eps m
IsFresh-same eps base m same f = record {
  key = same (marshal_endpoints eps) ∙ f.key;
  absent = Absent-same eps base m same f.absent;
  distinct = f.distinct;
}

-- Where the key of the cluster leads to a live record, its amount is changed.
pub counted :
    (eps : List Bytes) (amount : ℤ) (answer : Answer) (id : ℕ) (rec : LeaderRecord)
    (ctrl : LeaderCtrl)
    → lookup (marshal_endpoints eps) ctrl.leader_index ≡ some id
    → get_elem? ctrl.records id ≡ some rec
    → update_cluster_amount eps amount answer ctrl ≡ done (count_cluster eps amount id rec ctrl)
unfolding update_cluster_amount
counted eps amount answer id rec ctrl e h = ground (arith, e, h)

pub count_some :
    (eps : List Bytes) (amount : ℤ) (id n : ℕ) (rec : LeaderRecord) (ctrl : LeaderCtrl)
    → rec.amount +ℤ amount ≡ pos (suc n)
    → count_cluster eps amount id rec ctrl
      ≡ record ctrl { records = set ctrl.records id (record rec { amount = pos (suc n) }) }
unfolding count_cluster
count_some eps amount id n rec ctrl e = rw e refl

pub count_none :
    (eps : List Bytes) (amount : ℤ) (id : ℕ) (rec : LeaderRecord) (ctrl : LeaderCtrl)
    → rec.amount +ℤ amount ≡ pos 0
    → (count_cluster eps amount id rec ctrl).leader_index
      ≡ delete_all eps (delete (marshal_endpoints eps) ctrl.leader_index)
unfolding count_cluster
count_none eps amount id rec ctrl e = ground (arith, e)

-- The count of a live record changes, and the index stays.
recount :
    (eps : List Bytes) (base : Map ℕ) (amount : ℤ) (id n m : ℕ) (l : Bytes) (ctrl : LeaderCtrl)
    → pos n +ℤ amount ≡ pos (suc m)
    → Holds eps id base ctrl.leader_index
    → get_elem? ctrl.records id ≡ some (record { amount = pos n; leader = l; cancelled = false })
    → Tracks eps base (suc m) (
        count_cluster eps amount id (record { amount = pos n; leader = l; cancelled = false }) ctrl)
recount eps base amount id n m l ctrl total holds e =
    let now : LeaderRecord = record { amount = pos (suc m); leader = l; cancelled = false } in
    rw
      (count_some eps amount id m (record { amount = pos n; leader = l; cancelled = false }) ctrl
        total)
      (id, holds, (l, ground (arith, e, get_elem?-set ctrl.records id now id)))

key_there :
    (eps : List Bytes) (base : Map ℕ) (id : ℕ) (ctrl : LeaderCtrl)
    → Holds eps id base ctrl.leader_index
    → lookup (marshal_endpoints eps) ctrl.leader_index ≡ some id
key_there eps base id ctrl holds = ground (arith, holds (marshal_endpoints eps), own_key eps)

member-Absent :
    (eps : List Bytes) (base : Map ℕ) (k : Bytes)
    → Absent eps base
    → member k eps ≡ true
    → lookup k base ≡ none
unfolding member
member-Absent [] base k a h = cc
member-Absent (ep ∷ eps) base k a h =
    ground (arith, bytes_eq_iff ep k, a.0, member-Absent eps base k a.1)

-- A fresh cluster has no key of its own in the index.
own_absent :
    (eps : List Bytes) (base : Map ℕ) (k : Bytes)
    → IsFresh eps base
    → own eps k ≡ true
    → lookup k base ≡ none
unfolding own
own_absent eps base k f h =
    ground (arith, bytes_eq_iff (marshal_endpoints eps) k, f.key, member-Absent eps base k f.absent)

-- A first client: the cluster enters the index. Another one: it is counted.
register-Tracks :
    (eps : List Bytes) (base : Map ℕ) (n : ℕ) (answer : Answer) (ctrl : LeaderCtrl)
    → IsFresh eps base
    → Tracks eps base n ctrl
    → (ctrl' : LeaderCtrl) × (update_cluster_amount eps (pos 1) answer ctrl ≡ done ctrl')
      × Tracks eps base (suc n) ctrl'
register-Tracks eps base zero answer ctrl f t =
    let fresh = IsFresh-same eps base ctrl.leader_index t f in
    let (m, e, holds) = add_cluster-Enters eps answer ctrl fresh in
    let first : update_cluster_amount eps (pos 1) answer ctrl ≡ add_cluster eps answer ctrl =
      unfold update_cluster_amount in (ground (arith, fresh)) in
    (
      record { leader_index = m; records = ctrl.records ++ new_record answer ∷ [] },
      first ∙ e,
      (
        length ctrl.records,
        λ k. ground (arith, holds k, t k),
        (answer.addr, get_elem?-last ctrl.records (new_record answer)),
      ),
    )
register-Tracks eps base (suc n) answer ctrl f (id, holds, (l, e)) = (
  _,
  counted eps (pos 1) answer id _ ctrl (key_there eps base id ctrl holds) e,
  recount eps base (pos 1) id (suc n) (suc n) l ctrl (amount_up n) holds e,
)

pub unregister_lem :
    (eps : List Bytes) (ctrl : LeaderCtrl)
    → unregister_cluster eps ctrl ≡ update_cluster_amount eps (negsuc 0) no_answer ctrl
unfolding unregister_cluster
unregister_lem eps ctrl = ground arith

-- The last client: the cluster leaves the index. One of several: it is counted.
unregister-Tracks :
    (eps : List Bytes) (base : Map ℕ) (n : ℕ) (ctrl : LeaderCtrl)
    → IsFresh eps base
    → Tracks eps base n ctrl
    → (ctrl' : LeaderCtrl) × (unregister_cluster eps ctrl ≡ done ctrl')
      × Tracks eps base (one_less n) ctrl'
unregister-Tracks eps base zero ctrl f t = (
  ctrl,
  unregister_lem eps ctrl
      ∙ unfold update_cluster_amount in (ground (arith, t (marshal_endpoints eps), f.key)),
  t,
)
unregister-Tracks eps base (suc zero) ctrl f (id, holds, (l, e)) = (
  _,
  unregister_lem eps ctrl
      ∙ counted eps (negsuc 0) no_answer id _ ctrl (key_there eps base id ctrl holds) e,
  λ k. ground (
    arith,
    count_none eps (negsuc 0) id (record { amount = pos 1; leader = l; cancelled = false }) ctrl
        (amount_down 0),
    lookup_left eps ctrl.leader_index k,
    holds k,
    own_absent eps base k f,
  ),
)
unregister-Tracks eps base (suc (suc n)) ctrl f (id, holds, (l, e)) = (
  _,
  unregister_lem eps ctrl
      ∙ counted eps (negsuc 0) no_answer id _ ctrl (key_there eps base id ctrl holds) e,
  recount eps base (negsuc 0) id (suc (suc n)) n l ctrl (amount_down (suc n)) holds e,
)

pub step-Tracks :
    (eps : List Bytes) (base : Map ℕ) (n : ℕ) (op : Op) (ctrl : LeaderCtrl)
    → IsFresh eps base
    → Tracks eps base n ctrl
    → (ctrl' : LeaderCtrl) × (step eps op ctrl ≡ done ctrl') × Tracks eps base (counts op n) ctrl'
unfolding step register_cluster
step-Tracks eps base n (register first second) ctrl f t =
    let (ctrl', e, t') = register-Tracks eps base n first ctrl f t in
    (
      _,
      ap (after_amount eps second) e,
      refresh_leader-Tracks eps base (suc n) (marshal_endpoints eps) second ctrl' t',
    )
step-Tracks eps base n unregister ctrl f t = unregister-Tracks eps base n ctrl f t
step-Tracks eps base n (tick id answer) ctrl f t =
    (_, refl, on_tick-Tracks eps base n id answer ctrl t)

-- Registrations and departures of a cluster that names no endpoint twice and whose keys are new, in
-- any order and with any health checks between them, never panic, and the index follows the count
-- of its clients: its keys, and no others, lead to one live record that counts them, and with no
-- client the index is as before the cluster.
pub run-Tracks :
    (eps : List Bytes) (ops : List Op) (n : ℕ) (base : Map ℕ) (ctrl : LeaderCtrl)
    → IsFresh eps base
    → Tracks eps base n ctrl
    → (ctrl' : LeaderCtrl) × (run eps ops ctrl ≡ done ctrl') × Tracks eps base (clients ops n) ctrl'
unfolding run
run-Tracks eps [] n base ctrl f t = (ctrl, refl, t)
run-Tracks eps (op ∷ ops) n base ctrl f t =
    let (next, e, t') = step-Tracks eps base n op ctrl f t in
    let (last, e', t'') = run-Tracks eps ops (counts op n) base next f t' in
    (last, rw (e, run) e', t'')
