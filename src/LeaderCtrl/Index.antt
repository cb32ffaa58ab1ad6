-- ===== src/LeaderCtrl/Index.antt =====
-- The index of client/balancer/picker/leader_ctrl.go when a cluster enters it and when it leaves.
use kubebrain_client.Prelude.{
  ℕ, ◌≡◌, refl, Bool, false, ◌||◌, none, some, List, [], ◌∷◌, ◌++◌, arith, Bytes, All, Map, lookup,
  insert, delete, delete_all, lookup-insert, lookup-delete, bytes_eq, bytes_eq_iff, ◌==◌,
  if◌then◌else◌, length,
}
use kubebrain_client.Prelude.Int.{pos}
use kubebrain_client.LeaderCtrl.Endpoints.{
  marshal_endpoints, member, marshal_endpoints_new, marshal_endpoints_one,
}
use kubebrain_client.LeaderCtrl.{
  Answer, LeaderRecord, LeaderCtrl, Update, done, alloc, index_endpoints, add_cluster,
}

abbrev pub Distinct : List Bytes → Type 0
Distinct [] = Unit {0}
Distinct (x ∷ xs) = (member x xs ≡ false) × Distinct xs

abbrev pub Absent : {V : Type 0} → List Bytes → Map V → Type 0
Absent eps m = All (λ ep. lookup ep m ≡ none) eps

-- The keys of a cluster: that of all its endpoints, and each endpoint.
unfoldable pub own : List Bytes → Bytes → Bool
own eps k = bytes_eq (marshal_endpoints eps) k || member k eps

insert_all : {V : Type 0} → List Bytes → V → Map V → Map V
insert_all [] v m = m
insert_all (k ∷ ks) v m = insert_all ks v (insert k v m)

lookup-insert_all :
    {V : Type 0} (ks : List Bytes) (v : V) (m : Map V) (k : Bytes)
    → lookup k (insert_all ks v m) ≡ (if member k ks then some v else lookup k m)
unfolding insert_all member
lookup-insert_all [] v m k = refl
lookup-insert_all (x ∷ ks) v m k =
    ground (arith, lookup-insert_all ks v (insert x v m) k, lookup-insert x k v m)

pub lookup-delete_all :
    {V : Type 0} (ks : List Bytes) (m : Map V) (k : Bytes)
    → lookup k (delete_all ks m) ≡ (if member k ks then none else lookup k m)
unfolding delete_all member
lookup-delete_all [] m k = refl
lookup-delete_all (x ∷ ks) m k =
    ground (arith, lookup-delete_all ks (delete x m) k, lookup-delete x k m)

Absent-insert :
    {V : Type 0} (eps : List Bytes) (k : Bytes) (v : V) (m : Map V)
    → member k eps ≡ false
    → Absent eps m
    → Absent eps (insert k v m)
unfolding member
Absent-insert [] k v m h a = tt
Absent-insert (ep ∷ eps) k v m h (here, rest) = (
  ground (arith, lookup-insert k ep v m, bytes_eq_iff k ep, bytes_eq_iff ep k),
  Absent-insert eps k v m (ground arith) rest,
)

-- Where no endpoint is in the index yet, the loop enters them all.
index_endpoints_all :
    (eps : List Bytes) (id : ℕ) (ctrl : LeaderCtrl)
    → Distinct eps
    → Absent eps ctrl.leader_index
    → index_endpoints eps id ctrl
      ≡ done (record ctrl { leader_index = insert_all eps id ctrl.leader_index })
unfolding index_endpoints insert_all
index_endpoints_all [] id ctrl d a = refl
index_endpoints_all (ep ∷ eps) id ctrl d a =
    let next = record ctrl { leader_index = insert ep id ctrl.leader_index } in
    rw (a.0, index_endpoints)
      (index_endpoints_all eps id next d.1 (Absent-insert eps ep id ctrl.leader_index d.0 a.1))

-- A cluster whose keys are all new to the index.
pub record IsFresh (eps : List Bytes) (m : Map ℕ) : Type 0 where
  pub key : lookup (marshal_endpoints eps) m ≡ none
  pub absent : Absent eps m
  pub distinct : Distinct eps

abbrev pub new_record : Answer → LeaderRecord
new_record answer = record { amount = pos 1; leader = answer.addr; cancelled = false }

-- The index `m` has the keys of the cluster at `id`, and the others as in `base`.
abbrev pub Holds : List Bytes → ℕ → Map ℕ → Map ℕ → Type 0
Holds eps id base m = (k : Bytes) → lookup k m ≡ (if own eps k then some id else lookup k base)

-- What the entry of a new cluster comes to.
abbrev pub Enters : List Bytes → Answer → LeaderCtrl → Update → Type 0
Enters eps answer ctrl out =
    (m : Map ℕ) × (out
      ≡ done (record { leader_index = m; records = ctrl.records ++ new_record answer ∷ [] }))
    × Holds eps (length ctrl.records) ctrl.leader_index m

add_many :
    (eps : List Bytes) (answer : Answer) (ctrl : LeaderCtrl)
    → IsFresh eps ctrl.leader_index
    → member (marshal_endpoints eps) eps ≡ false
    → (length eps == 1) ≡ false
    → Enters eps answer ctrl (add_cluster eps answer ctrl)
unfolding add_cluster alloc own
add_many eps answer ctrl f new several =
    let key = marshal_endpoints eps in
    let id = length ctrl.records in
    let indexed : LeaderCtrl = record {
      leader_index = insert key id ctrl.leader_index;
      records = ctrl.records ++ new_record answer ∷ [];
    } in
    (
      insert_all eps id (insert key id ctrl.leader_index),
      rw several (
          index_endpoints_all eps id indexed f.distinct
            (Absent-insert eps key id ctrl.leader_index new f.absent)),
      λ k. ground (
        arith,
        lookup-insert_all eps id (insert key id ctrl.leader_index) k,
        lookup-insert key k id ctrl.leader_index,
      ),
    )

pub add_cluster-Enters :
    (eps : List Bytes) (answer : Answer) (ctrl : LeaderCtrl)
    → IsFresh eps ctrl.leader_index
    → Enters eps answer ctrl (add_cluster eps answer ctrl)
unfolding add_cluster alloc own member
add_cluster-Enters [] answer ctrl f = add_many [] answer ctrl f refl (ground arith)
add_cluster-Enters (ep ∷ []) answer ctrl f = (
  insert (marshal_endpoints (ep ∷ [])) (length ctrl.records) ctrl.leader_index,
  refl,
  λ k. ground (
    arith,
    marshal_endpoints_one ep,
    lookup-insert (marshal_endpoints (ep ∷ [])) k (length ctrl.records) ctrl.leader_index,
  ),
)
add_cluster-Enters (a ∷ b ∷ eps) answer ctrl f =
    add_many (a ∷ b ∷ eps) answer ctrl f (marshal_endpoints_new (a ∷ b ∷ eps) (omega arith))
      (ground arith)

-- The index after a cluster has left it.
pub lookup_left :
    (eps : List Bytes) (m : Map ℕ) (k : Bytes)
    → lookup k (delete_all eps (delete (marshal_endpoints eps) m))
      ≡ (if own eps k then none else lookup k m)
unfolding own
lookup_left eps m k = ground (
  arith,
  lookup-delete_all eps (delete (marshal_endpoints eps) m) k,
  lookup-delete (marshal_endpoints eps) k m,
)
