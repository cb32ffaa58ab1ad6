-- ===== src/Routes/Leadership.antt =====
-- From the health checks of client/leader.go to the next write of a client of client/client.go.
use mathlib.Core.List.{Perm}
use mathlib.Core.Path.{subst}
use kubebrain_client.Prelude.{ℕ, suc, ◌≡◌, ◌≢◌, ap, false, some, Option, List, [], Bytes, Map, All}
use kubebrain_client.LeaderCtrl.{Answer, LeaderCtrl, done, on_tick}
use kubebrain_client.LeaderCtrl.Index.{Holds, IsFresh}
use kubebrain_client.LeaderCtrl.RefCount.Spec.{Op as ClusterOp, Tracks, run, clients}
use kubebrain_client.LeaderChecker.{Checker, leader_at, started, Reach}
use kubebrain_client.LeaderChecker.Invariant.{Listed}
use kubebrain_client.LeaderChecker.Health.{HealthService, is_health, Serves, leader-Serves}
use kubebrain_client.Rpc.Stubs.{Method, full_name}
use kubebrain_client.Picker.{Address, pick}
use kubebrain_client.Picker.Builder.{build}
use kubebrain_client.Picker.Invariant.{addrs}
use kubebrain_client.Picker.Routing.{Written}
use kubebrain_client.Resolver.Endpoint.{Url}
use kubebrain_client.Resolver.Target.{GrpcTarget}
use kubebrain_client.Client.Config.{Config}
use kubebrain_client.Client.Credentials.{Security}
use kubebrain_client.Client.Lifecycle.{Grpc, ClientImpl, World, client, make_client}
use kubebrain_client.Client.Lifecycle.Opening.{IsGrpcDial}
use kubebrain_client.Client.Lifecycle.Afterwards.{made_lem}
use kubebrain_client.Routes.{is_read}
use kubebrain_client.Routes.Failover.{reads_of}
use kubebrain_client.Routes.Cluster.{Within}
use kubebrain_client.Routes.Session.{client_writes_follow}

module _ {Tls Auth Conn Shaken E Cc SubConn Status : Type 0} (sec : Security Tls Auth Conn Shaken)
    (url_parse : Bytes → Option Url) (grpc : Grpc E Cc) (parse_target : Bytes → GrpcTarget)
    (env : IsGrpcDial grpc parse_target) (api : HealthService E Cc Status) where
  -- After NewClient has made a client, and other clients of the cluster have come and gone and
  -- health checks have been made, a picker that gRPC builds over ready connections to the client's
  -- endpoints shares the leader record of the cluster; and once checkLeader, whatever order its
  -- health checks end in, has answered without an error and a health check of that record has
  -- stored the answer, the next Watch, Create, Update, Delete or Compact through the picker goes to
  -- a connection of an endpoint of the client whose health service has said that it serves, or is
  -- refused if none of that endpoint is ready: if the cluster names no endpoint twice, its keys
  -- were new to the index or counted in it, the count is not yet 0, the id has no slash, some
  -- connection is ready, the visit of the map takes each ready connection once, nothing writes the
  -- record during the call, and gRPC dials as it documents.
  pub writes_reach_server :
      (id : Bytes) (first second answer : Answer) (config : Config Tls) (w w' : World Tls Auth)
      (base : Map ℕ) (n : ℕ) (c : ClientImpl Tls Cc) (ops : List ClusterOp) (now : LeaderCtrl)
      (m : ℕ) (method : Method) (ready : List (Address × SubConn)) (order : List Address)
      (check : Checker)
      → All (λ c. c ≢ b'/') id
      → IsFresh config.endpoints base
      → Tracks config.endpoints base n w.ctrl
      → make_client sec url_parse grpc id first second config w ≡ (client c, w')
      → run config.endpoints ops w'.ctrl ≡ done now
      → clients ops (suc n) ≡ suc m
      → is_read method ≡ false
      → ready ≢ []
      → Within config.endpoints ready
      → Perm order (addrs ready)
      → Reach (is_health api url_parse c.lc) (started c.lc.config.endpoints) check
      → check.answer ≡ some answer
      → answer.failed ≡ false
      → let (ctrl, bal) = build ready now in
        (record_id : ℕ) × Holds config.endpoints record_id base ctrl.leader_index
        × ((ep : Bytes) × Listed ep config.endpoints
            × Serves api url_parse c.lc ep
            × Written ready ep
                (pick order
                  (reads_of bal.leader_record (on_tick record_id answer ctrl))
                  (full_name method)
                  bal).1)
  unfolding leader_at
  writes_reach_server id first second answer config w w' base n c ops now m method ready order check
        plain fresh t made ran left writes some_ready within p reached answered fine =
      let (ep, at, listed, serves) =
        leader-Serves api url_parse c.lc check answer reached answered fine in
      let known =
        made_lem sec url_parse grpc parse_target env id first second config w base n c w' plain
          fresh t made in
      let (record_id, holds, written) =
        client_writes_follow sec url_parse grpc parse_target env id first second answer config w w'
          base n c ops now m method ready order plain fresh t made ran left writes some_ready within
          p fine in
      (
        record_id,
        holds,
        (
          ep,
          subst (λ (l : Config Tls). Listed ep l.endpoints) known.1 listed,
          serves,
          subst
              (λ addr.
                Written ready addr
                  (pick order
                    (reads_of (build ready now).1.leader_record
                      (on_tick record_id answer (build ready now).0))
                    (full_name method) (build ready now).1).1)
              (ap (λ (a : Answer). a.addr) at) written,
        ),
      )
