-- ===== src/LeaderCtrl/Clusters.antt =====
-- Several clusters in one controller of client/balancer/picker/leader_ctrl.go: the calls of their
-- clients in any order, and the specification of each cluster by the number of its clients.
pub mod Frame
pub mod Moves
pub mod Keeps
pub mod Counted
use kubebrain_client.Prelude.{
  ℕ, zero, suc, ◌≡◌, Bool, true, false, Option, none, some, List, [], ◌∷◌, Bytes, Map, lookup, ◌==◌,
  if◌then◌else◌, get_elem?,
}
use kubebrain_client.LeaderCtrl.Index.{Distinct, own}
use kubebrain_client.LeaderCtrl.RefCount.Spec.{one_less, Live}
use kubebrain_client.LeaderCtrl.{
  Answer, LeaderCtrl, Update, done, panics, on_tick, get_leader_record, update_leader,
  register_cluster, unregister_cluster,
}

-- A cluster is named by its place in the list of all clusters; a health check by its record.
pub data Call : Type 0 where
  registers : ℕ → Answer → Answer → Call
  unregisters : ℕ → Call
  refreshes : ℕ → Option Answer → Call
  looks_up : Bytes → Call
  ticks : ℕ → Answer → Call

-- A call for a cluster that is not there is no call.
abbrev for_cluster : Option (List Bytes) → LeaderCtrl → (List Bytes → Update) → Update
for_cluster none ctrl f = done ctrl
for_cluster (some eps) ctrl f = f eps

unfoldable pub perform : List (List Bytes) → Call → LeaderCtrl → Update
perform clusters (registers i first second) ctrl =
    for_cluster (get_elem? clusters i) ctrl (λ eps. register_cluster eps first second ctrl)
perform clusters (unregisters i) ctrl =
    for_cluster (get_elem? clusters i) ctrl (λ eps. unregister_cluster eps ctrl)
perform clusters (refreshes i answer) ctrl =
    for_cluster (get_elem? clusters i) ctrl (λ eps. done (update_leader eps answer ctrl))
perform clusters (looks_up key) ctrl = done (get_leader_record key ctrl).0
perform clusters (ticks id answer) ctrl = done (on_tick id answer ctrl)

-- A panic ends the run.
unfoldable pub run : List (List Bytes) → List Call → LeaderCtrl → Update
unfolding perform
run clusters [] ctrl = done ctrl
run clusters (call ∷ calls) ctrl = elim (perform clusters call ctrl) [
  | done ctrl' ↦ run clusters calls ctrl'
  | panics ctrl' ↦ panics ctrl'
]

-- The specification: how many clients the cluster at a place has.
abbrev pub counts : ℕ → Call → ℕ → ℕ
counts i (registers j first second) n = if j == i then suc n else n
counts i (unregisters j) n = if j == i then one_less n else n
counts i (refreshes j answer) n = n
counts i (looks_up key) n = n
counts i (ticks id answer) n = n

abbrev pub clients : ℕ → List Call → ℕ → ℕ
clients i [] n = n
clients i (call ∷ calls) n = clients i calls (counts i call n)

-- With no client no key of the cluster is in the index; with some, its keys lead to one live record
-- that counts them, and no other key leads there.
abbrev pub Follows : List Bytes → ℕ → LeaderCtrl → Type 0
Follows eps zero ctrl = (k : Bytes) → own eps k ≡ true → lookup k ctrl.leader_index ≡ none
Follows eps (suc n) ctrl =
    (id : ℕ) × ((k : Bytes) → own eps k ≡ true → lookup k ctrl.leader_index ≡ some id)
    × ((k : Bytes) → lookup k ctrl.leader_index ≡ some id → own eps k ≡ true)
    × Live id (suc n) ctrl

-- No two clusters have a key in common, and none names an endpoint twice.
pub record Separate (clusters : List (List Bytes)) : Type 0 where
  pub apart :
      (i j : ℕ) (a b : List Bytes) (k : Bytes)
      → get_elem? clusters i ≡ some a
      → get_elem? clusters j ≡ some b
      → (i == j) ≡ false
      → own a k ≡ true
      → own b k ≡ false
  pub distinct : (i : ℕ) (a : List Bytes) → get_elem? clusters i ≡ some a → Distinct a
