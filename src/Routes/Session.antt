-- ===== src/Routes/Session.antt =====
-- From `NewClient` of client/client.go to the first write of the client.
use mathlib.Core.List.{Perm}
use kubebrain_client.Prelude.{ℕ, suc, ◌≡◌, ◌≢◌, false, Option, List, [], Bytes, Map, All}
use kubebrain_client.LeaderCtrl.{Answer, LeaderCtrl, done, on_tick}
use kubebrain_client.LeaderCtrl.Index.{Holds, IsFresh}
use kubebrain_client.LeaderCtrl.RefCount.Spec.{Op as ClusterOp, Tracks, run, clients}
use kubebrain_client.Rpc.Stubs.{Method, full_name}
use kubebrain_client.Picker.{Address, pick}
use kubebrain_client.Picker.Builder.{build}
use kubebrain_client.Picker.Invariant.{addrs}
use kubebrain_client.Picker.Routing.{Written}
use kubebrain_client.Resolver.Endpoint.{Url}
use kubebrain_client.Resolver.Target.{GrpcTarget}
use kubebrain_client.Client.Config.{Config}
use kubebrain_client.Client.Credentials.{Security}
use kubebrain_client.Client.Lifecycle.{Grpc, ClientImpl, World, client, make_client}
use kubebrain_client.Client.Lifecycle.Opening.{IsGrpcDial}
use kubebrain_client.Client.Lifecycle.Afterwards.{lasting_lem}
use kubebrain_client.Routes.{is_read}
use kubebrain_client.Routes.Failover.{reads_of}
use kubebrain_client.Routes.Cluster.{Within, cluster_writes_follow}

module _ {Tls Auth Conn Shaken E Cc SubConn : Type 0} (sec : Security Tls Auth Conn Shaken)
    (url_parse : Bytes → Option Url) (grpc : Grpc E Cc) (parse_target : Bytes → GrpcTarget)
    (env : IsGrpcDial grpc parse_target) where
  -- After NewClient has made a client, and other clients of the cluster have come and gone and
  -- health checks have been made, a picker that gRPC builds over ready connections to the client's
  -- endpoints shares the leader record of the cluster, and once a health check of that record has
  -- found a leader, the next Watch, Create, Update, Delete or Compact through the picker goes to a
  -- connection of that leader, or is refused if none is ready: if the cluster's keys were new to
  -- the index or counted in it, the count is not yet 0, the id has no slash, some connection is
  -- ready, the visit of the map takes each ready connection once, nothing writes the record during
  -- the call, and gRPC dials as it documents.
  pub client_writes_follow :
      (id : Bytes) (first second answer : Answer) (config : Config Tls) (w w' : World Tls Auth)
      (base : Map ℕ) (n : ℕ) (c : ClientImpl Tls Cc) (ops : List ClusterOp) (now : LeaderCtrl)
      (m : ℕ) (method : Method) (ready : List (Address × SubConn)) (order : List Address)
      → All (λ c. c ≢ b'/') id
      → IsFresh config.endpoints base
      → Tracks config.endpoints base n w.ctrl
      → make_client sec url_parse grpc id first second config w ≡ (client c, w')
      → run config.endpoints ops w'.ctrl ≡ done now
      → clients ops (suc n) ≡ suc m
      → is_read method ≡ false
      → ready ≢ []
      → Within config.endpoints ready
      → Perm order (addrs ready)
      → answer.failed ≡ false
      → let (ctrl, bal) = build ready now in
        (record_id : ℕ) × Holds config.endpoints record_id base ctrl.leader_index
        × Written ready answer.addr
            (pick order
              (reads_of bal.leader_record (on_tick record_id answer ctrl))
              (full_name method)
              bal).1
  client_writes_follow id first second answer config w w' base n c ops now m method ready order
        plain fresh t made ran left writes some_ready within p fine =
      cluster_writes_follow method config.endpoints base m now ready order answer writes
        (lasting_lem sec url_parse grpc parse_target env id first second config w base n c w' ops
          now m plain fresh t made ran left)
        some_ready within p fine
