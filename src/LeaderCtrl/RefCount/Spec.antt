-- ===== src/LeaderCtrl/RefCount/Spec.antt =====
-- What clients and health checks do to a cluster of client/balancer/picker/leader_ctrl.go, and the
-- specification of it by a number.
use kubebrain_client.Prelude.{
  ℕ, zero, suc, ◌≡◌, false, some, List, [], ◌∷◌, Bytes, Map, lookup, get_elem?,
}
use kubebrain_client.Prelude.Int.{pos}
use kubebrain_client.LeaderCtrl.Index.{Holds}
use kubebrain_client.LeaderCtrl.{
  Answer, LeaderCtrl, Update, done, panics, on_tick, register_cluster, unregister_cluster,
}

-- What happens to a cluster: clients come and go, and health checks of any record answer.
pub data Op : Type 0 where
  register : Answer → Answer → Op
  unregister : Op
  tick : ℕ → Answer → Op

unfoldable pub step : List Bytes → Op → LeaderCtrl → Update
step eps (register first second) ctrl = register_cluster eps first second ctrl
step eps unregister ctrl = unregister_cluster eps ctrl
step eps (tick id answer) ctrl = done (on_tick id answer ctrl)

-- A panic ends the run.
unfoldable pub run : List Bytes → List Op → LeaderCtrl → Update
unfolding step
run eps [] ctrl = done ctrl
run eps (op ∷ ops) ctrl = elim (step eps op ctrl) [
  | done ctrl' ↦ run eps ops ctrl'
  | panics ctrl' ↦ panics ctrl'
]

-- The specification: how many clients the cluster has. One too many departures is no departure.
abbrev pub one_less : ℕ → ℕ
one_less zero = 0
one_less (suc n) = n

abbrev pub counts : Op → ℕ → ℕ
counts (register first second) n = suc n
counts unregister n = one_less n
counts (tick id answer) n = n

abbrev pub clients : List Op → ℕ → ℕ
clients [] n = n
clients (op ∷ ops) n = clients ops (counts op n)

-- A record that counts `n` clients and whose health check is on.
abbrev pub Live : ℕ → ℕ → LeaderCtrl → Type 0
Live id n ctrl =
    (l : Bytes) × (get_elem? ctrl.records id
      ≡ some (record { amount = pos n; leader = l; cancelled = false }))

-- With no client the index is as it was before the cluster; with some, the keys of the cluster, and
-- no others, lead to one live record that counts them.
abbrev pub Tracks : List Bytes → Map ℕ → ℕ → LeaderCtrl → Type 0
Tracks eps base zero ctrl = (k : Bytes) → lookup k ctrl.leader_index ≡ lookup k base
Tracks eps base (suc n) ctrl = (id : ℕ) × Holds eps id base ctrl.leader_index × Live id (suc n) ctrl
