-- ===== src/Tests/LeaderCtrl.antt =====
-- Clusters of client/balancer/picker/leader_ctrl.go that come and go.
use kubebrain_client.Prelude.{
  ◌≡◌, refl, false, true, some, List, [], ◌∷◌, Bytes, codes, lookup, get_elem?, bytes_eq, bytes_leb,
  arith,
}
use kubebrain_client.Prelude.Int.{pos}
use kubebrain_client.LeaderCtrl.{
  Answer, LeaderRecord, LeaderCtrl, done, panics, empty, register_cluster,
}
use kubebrain_client.LeaderCtrl.Endpoints.{marshal_endpoints, member}
use kubebrain_client.LeaderCtrl.Index.{IsFresh}
use kubebrain_client.LeaderCtrl.RefCount.Spec.{Op, register, unregister, tick, run, clients, Tracks}
use kubebrain_client.LeaderCtrl.RefCount.{run-Tracks}
use mathlib.Core.Quot
use kubebrain_client.LeaderCtrl.Key.{Endpoints, Cluster, key, key_injective}
use kubebrain_client.LeaderCtrl.Clash.{register_clash}

abbrev cluster : List Bytes
cluster = codes "b:1" ∷ codes "a:1" ∷ []

abbrev leads : Answer
leads = record { addr = codes "a:1"; failed = false }

abbrev no_reply : Answer
no_reply = record { addr = []; failed = true }

cluster_key : marshal_endpoints cluster ≡ codes "a:1,b:1"
unfolding marshal_endpoints bytes_leb
cluster_key = refl

cluster-IsFresh : IsFresh cluster []
unfolding lookup member bytes_eq
cluster-IsFresh = record { key = refl; absent = (refl, (refl, tt)); distinct = (refl, (refl, tt)) }

abbrev history : List Op
history = register no_reply leads ∷ register leads leads ∷ unregister ∷ tick 0 leads ∷ []

run-Tracks_example :
    (ctrl : LeaderCtrl) × (run cluster history empty ≡ done ctrl)
    × Tracks cluster [] (clients history 0) ctrl
run-Tracks_example = run-Tracks cluster history 0 [] empty cluster-IsFresh (λ k. refl)

-- Two keys lead to one record.
abbrev rec : LeaderRecord
rec = record { amount = pos 1; leader = []; cancelled = false }

abbrev ctrl : LeaderCtrl
ctrl = record { leader_index = (codes "a:1", 0) ∷ (codes "b:1", 0) ∷ []; records = rec ∷ [] }

register_clash_example :
    (ctrl' : LeaderCtrl) × (register_cluster (codes "a:1" ∷ codes "c:1" ∷ []) leads leads ctrl
      ≡ panics ctrl')
    × (lookup (marshal_endpoints (codes "a:1" ∷ codes "c:1" ∷ [])) ctrl'.leader_index ≡ some 1)
    × (get_elem? ctrl'.records 1
        ≡ some (record { amount = pos 1; leader = codes "a:1"; cancelled = true }))
unfolding bytes_eq lookup bytes_leb
register_clash_example =
    register_clash (codes "a:1" ∷ codes "c:1" ∷ []) (codes "a:1") 0 leads leads ctrl
      (unfold member in refl) refl (unfold marshal_endpoints in refl)

-- A cluster, in two orders.
one_order : Endpoints
one_order = (
  codes "b:1" ∷ codes "a:1" ∷ [],
  λ e. ground (arith, e),
  (
    (omega arith, (omega arith, (omega arith, tt))),
    ((omega arith, (omega arith, (omega arith, tt))), tt),
  ),
)

other_order : Endpoints
other_order = (
  codes "a:1" ∷ codes "b:1" ∷ [],
  λ e. ground (arith, e),
  (
    (omega arith, (omega arith, (omega arith, tt))),
    ((omega arith, (omega arith, (omega arith, tt))), tt),
  ),
)

abbrev one_cluster : Cluster
one_cluster = Quot.mk one_order

abbrev other_cluster : Cluster
other_cluster = Quot.mk other_order

same_key : key one_cluster ≡ key other_cluster
unfolding key one_order other_order marshal_endpoints bytes_leb
same_key = refl

key_injective_example : one_cluster ≡ other_cluster
key_injective_example = key_injective one_cluster other_cluster same_key
