-- ===== src/LeaderCtrl.antt =====
-- client/balancer/picker/leader_ctrl.go: the leaders of the registered clusters.
--
-- The index holds pointers, and all keys of a cluster share one record: a pointer is the place of
-- the record in a heap, `records`. The methods hold the lock of the controller, so each is one step.
-- `cb`, the health check of the cluster, is the caller's: a call of it is an `Answer`. Calls of
-- `updateClusterLeader` that `singleflight` would merge are taken one after the other, so that
-- `Forget` has nothing to forget.
pub mod Endpoints
pub mod Key
pub mod Index
pub mod Records
pub mod RefCount
pub mod Leader
pub mod Clash
pub mod Cases
pub mod Leads
pub mod Orphan
pub mod Bounded
pub mod Events
pub mod Clusters
use kubebrain_client.Prelude.{
  ℕ, suc, ◌+◌, Bool, true, false, Option, none, some, List, [], ◌∷◌, ◌++◌, Bytes, Map, lookup,
  insert, delete, delete_all, bytes_eq, ltb, ◌==◌, if◌then◌else◌, length, get_elem?, set,
}
use kubebrain_client.Prelude.Int.{ℤ, pos, negsuc, ◌+ℤ◌, is_pos}
use Endpoints.{marshal_endpoints}

-- What `cb()` returns: the address of the leader, and whether there is an error.
pub record Answer : Type 0 where
  pub addr : Bytes
  pub failed : Bool

-- `cancelled` is the state of `ctx`. `cb`, the check of the client that came first, is left out: each
-- health check takes the answer as it comes.
pub record LeaderRecord : Type 0 where
  pub amount : ℤ
  pub leader : Bytes
  pub cancelled : Bool

pub record LeaderCtrl : Type 0 where
  pub leader_index : Map ℕ
  pub records : List LeaderRecord

-- `&leaderRecord{}`
abbrev pub zero_record : LeaderRecord
zero_record = record { amount = pos 0; leader = []; cancelled = false }

-- `make(map[string]*leaderRecord)`
abbrev pub empty : LeaderCtrl
empty = record { leader_index = []; records = [] }

unfoldable pub alloc : LeaderRecord → LeaderCtrl → LeaderCtrl × ℕ
alloc rec ctrl = (record ctrl { records = ctrl.records ++ rec ∷ [] }, length ctrl.records)

abbrev leader_of : Option LeaderRecord → Bytes
leader_of none = []
leader_of (some rec) = rec.leader

-- `leaderRecord.getLeader`
unfoldable pub get_leader : ℕ → LeaderCtrl → Bytes
get_leader id ctrl = leader_of (get_elem? ctrl.records id)

abbrev store : ℕ → Option LeaderRecord → LeaderCtrl → (LeaderRecord → LeaderRecord) → LeaderCtrl
store id none ctrl f = ctrl
store id (some rec) ctrl f = record ctrl { records = set ctrl.records id (f rec) }

-- Write through a pointer.
unfoldable pub modify : ℕ → (LeaderRecord → LeaderRecord) → LeaderCtrl → LeaderCtrl
modify id f ctrl = store id (get_elem? ctrl.records id) ctrl f

-- `leaderRecord.setLeader`
unfoldable pub set_leader : ℕ → Bytes → LeaderCtrl → LeaderCtrl
unfolding get_leader modify
set_leader id leader ctrl =
    if bytes_eq (get_leader id ctrl) leader
    then ctrl
    else modify id (λ rec. record rec { leader = leader }) ctrl

-- `leaderRecord.close`, and the call of `record.cancel`
unfoldable pub close : ℕ → LeaderCtrl → LeaderCtrl
unfolding modify
close id ctrl = modify id (λ rec. record rec { cancelled = true }) ctrl

-- `newLeaderRecord`; the health check that it starts is `on_tick`.
unfoldable pub new_leader_record : Answer → LeaderCtrl → LeaderCtrl × ℕ
unfolding alloc
new_leader_record answer ctrl =
    alloc (record { amount = pos 1; leader = answer.addr; cancelled = false }) ctrl

-- One round of `healthCheck`, in the case of the ticker. The other case, `ctx.Done()`, ends it.
unfoldable pub on_tick : ℕ → Answer → LeaderCtrl → LeaderCtrl
unfolding set_leader
on_tick id answer ctrl = if answer.failed then ctrl else set_leader id answer.addr ctrl

-- `leaderCtrl.getLeaderRecord`: a key that is not in the index gets a record of its own.
unfoldable pub get_leader_record : Bytes → LeaderCtrl → LeaderCtrl × ℕ
unfolding alloc
get_leader_record key ctrl = elim (lookup key ctrl.leader_index) [
  | none ↦ alloc zero_record ctrl
  | some id ↦ (ctrl, id)
]

-- `leaderCtrl.needUpdateLeader`
unfoldable pub need_update_leader : Bytes → Bytes → LeaderCtrl → Bool
unfolding get_leader
need_update_leader key leader ctrl = elim (lookup key ctrl.leader_index) [
  | none ↦ false
  | some id ↦ bytes_eq (get_leader id ctrl) leader
]

-- `leaderCtrl.updateClusterLeader`
unfoldable pub update_cluster_leader : Bytes → Bytes → LeaderCtrl → LeaderCtrl
unfolding set_leader
update_cluster_leader key leader ctrl = elim (lookup key ctrl.leader_index) [
  | none ↦ ctrl
  | some id ↦ set_leader id leader ctrl
]

-- `leaderCtrl.getLeaderAddr`
unfoldable pub get_leader_addr : Bytes → LeaderCtrl → Bytes
unfolding get_leader
get_leader_addr key ctrl = elim (lookup key ctrl.leader_index) [
  | none ↦ []
  | some id ↦ get_leader id ctrl
]

-- A call returns, or panics and leaves the controller as it then is.
pub data Update : Type 0 where
  done : LeaderCtrl → Update
  panics : LeaderCtrl → Update

-- The loop of `updateClusterAmount` over the endpoints of a new cluster.
unfoldable pub index_endpoints : List Bytes → ℕ → LeaderCtrl → Update
unfolding close
index_endpoints [] id ctrl = done ctrl
index_endpoints (ep ∷ eps) id ctrl = elim (lookup ep ctrl.leader_index) [
  | none ↦ index_endpoints eps id (record ctrl { leader_index = insert ep id ctrl.leader_index })
  | some _ ↦ panics (close id ctrl)
]

-- The part of `updateClusterAmount` for a cluster that is not in the index.
unfoldable pub add_cluster : List Bytes → Answer → LeaderCtrl → Update
unfolding new_leader_record index_endpoints
add_cluster eps answer ctrl =
    let (ctrl', id) = new_leader_record answer ctrl in
    let indexed = record ctrl' {
      leader_index = insert (marshal_endpoints eps) id ctrl'.leader_index;
    } in
    let rest = index_endpoints eps id indexed in if length eps == 1 then done indexed else rest

-- The part for a cluster that is.
unfoldable pub count_cluster : List Bytes → ℤ → ℕ → LeaderRecord → LeaderCtrl → LeaderCtrl
unfolding close
count_cluster eps amount id rec ctrl =
    let total = rec.amount +ℤ amount in
    let counted = record ctrl { records = set ctrl.records id (record rec { amount = total }) } in
    let index = delete_all eps (delete (marshal_endpoints eps) ctrl.leader_index) in
    if is_pos total then counted else close id (record counted { leader_index = index })

-- `leaderCtrl.updateClusterAmount`
unfoldable pub update_cluster_amount : List Bytes → ℤ → Answer → LeaderCtrl → Update
unfolding add_cluster count_cluster
update_cluster_amount eps amount answer ctrl =
    if ltb (length eps) 0
    then done ctrl
    else elim (lookup (marshal_endpoints eps) ctrl.leader_index) [
      | none ↦ if is_pos amount then add_cluster eps answer ctrl else done ctrl
      | some id ↦ elim (get_elem? ctrl.records id) [
        | none ↦ done ctrl
        | some rec ↦ done (count_cluster eps amount id rec ctrl)
      ]
    ]

-- The package's `updateClusterLeader`: nothing is asked if the leader is known.
unfoldable pub refresh_leader : Bytes → Answer → LeaderCtrl → LeaderCtrl
unfolding get_leader_addr update_cluster_leader
refresh_leader key answer ctrl =
    if bytes_eq (get_leader_addr key ctrl) []
    then if answer.failed then ctrl else update_cluster_leader key answer.addr ctrl
    else ctrl

-- `UpdateClusterLeader`; `cb` may be nil.
unfoldable pub update_leader : List Bytes → Option Answer → LeaderCtrl → LeaderCtrl
unfolding refresh_leader
update_leader eps none ctrl = ctrl
update_leader eps (some answer) ctrl = refresh_leader (marshal_endpoints eps) answer ctrl

after_amount : List Bytes → Answer → Update → Update
after_amount eps answer (done ctrl) = done (refresh_leader (marshal_endpoints eps) answer ctrl)
after_amount eps answer (panics ctrl) = panics ctrl

-- `RegisterCluster`, with the answers of the calls of `cb`
unfoldable pub register_cluster : List Bytes → Answer → Answer → LeaderCtrl → Update
unfolding after_amount
register_cluster eps first second ctrl =
    after_amount eps second (update_cluster_amount eps (pos 1) first ctrl)

-- In place of a `cb` that is nil and is not called.
abbrev pub no_answer : Answer
no_answer = record { addr = []; failed = false }

-- `UnregisterCluster`, which passes no `cb`
unfoldable pub unregister_cluster : List Bytes → LeaderCtrl → Update
unregister_cluster eps ctrl =
    if ltb (length eps) 0 then done ctrl else update_cluster_amount eps (negsuc 0) no_answer ctrl

-- `GetLeader`: `none` is the panic of an index out of range.
unfoldable pub leader_of_cluster : List Bytes → LeaderCtrl → Option Bytes
leader_of_cluster [] ctrl = none
leader_of_cluster (ep ∷ eps) ctrl = some (get_leader_addr ep ctrl)
