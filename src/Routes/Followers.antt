-- ===== src/Routes/Followers.antt =====
-- From `NewClient` of client/client.go to the reads of the client.
use mathlib.Core.List.{Perm}
use mathlib.Core.Path.{subst}
use kubebrain_client.Prelude.{
  ℕ, suc, ◌≡◌, ◌≢◌, ◌<◌, ◌^◌, refl, sym, ◌∙◌, ◌∷◌, true, false, Option, some, List, [], Bytes, Map,
  All, arith, get_elem?,
}
use kubebrain_client.LeaderCtrl.{Answer, LeaderRecord, LeaderCtrl, done, on_tick}
use kubebrain_client.LeaderCtrl.Index.{Holds, IsFresh}
use kubebrain_client.LeaderCtrl.RefCount.Spec.{Op as ClusterOp, Tracks, run, clients}
use kubebrain_client.Rpc.Stubs.{Method, full_name}
use kubebrain_client.Picker.{Address, Picker, new, pick}
use kubebrain_client.Picker.Builder.{build}
use kubebrain_client.Picker.Invariant.{listed, addrs, IsValid, new-IsValid}
use kubebrain_client.Picker.Routing.{Served, pick-read}
use kubebrain_client.Resolver.Endpoint.{Url}
use kubebrain_client.Resolver.Target.{GrpcTarget}
use kubebrain_client.Client.Config.{Config}
use kubebrain_client.Client.Credentials.{Security}
use kubebrain_client.Client.Lifecycle.{Grpc, ClientImpl, World, client, make_client}
use kubebrain_client.Client.Lifecycle.Opening.{IsGrpcDial}
use kubebrain_client.Client.Lifecycle.Afterwards.{lasting_lem}
use kubebrain_client.Routes.{is_read, full_name-read}
use kubebrain_client.Routes.Failover.{reads_of, get_leader-on_tick}
use kubebrain_client.Routes.Cluster.{Within, cluster_build}

-- After a health check that has found a leader, a read goes past it.
read_spares :
    {SubConn : Type 0} (method : Method) (order : List Address) (bal : Picker SubConn) (id : ℕ)
    (answer : Answer) (rec : LeaderRecord) (ctrl : LeaderCtrl) (k : Bytes)
    → is_read method ≡ true
    → IsValid bal
    → Perm order (addrs bal.addr_to_sc)
    → answer.failed ≡ false
    → get_elem? ctrl.records id ≡ some rec
    → answer.addr ≢ []
    → bal.next_reader < 2 ^ 63
    → listed k (addrs bal.addr_to_sc) ≡ true
    → k ≢ answer.addr
    → Served bal.addr_to_sc answer.addr
        (pick order (reads_of id (on_tick id answer ctrl)) (full_name method) bal).1
read_spares method order bal id answer rec ctrl k reads v p fine there known small ready other =
    let r = reads_of id (on_tick id answer ctrl) in
    let e = get_leader-on_tick id answer rec ctrl fine there in
    subst (λ l. Served bal.addr_to_sc l (pick order r (full_name method) bal).1) e
      (pick-read order r (full_name method) bal k v p (full_name-read method ∙ reads) refl
        (λ h. known (sym e ∙ h)) small ready (λ h. other (h ∙ e)))

some_listed :
    {SubConn : Type 0} (ready : List (Address × SubConn)) (k : Bytes)
    → listed k (addrs ready) ≡ true
    → ready ≢ []
unfolding listed
some_listed [] k h = cc
some_listed (e ∷ ready) k h = λ none_there. ground (arith, none_there)

module _ {Tls Auth Conn Shaken E Cc SubConn : Type 0} (sec : Security Tls Auth Conn Shaken)
    (url_parse : Bytes → Option Url) (grpc : Grpc E Cc) (parse_target : Bytes → GrpcTarget)
    (env : IsGrpcDial grpc parse_target) where
  -- After NewClient has made a client, and other clients of the cluster have come and gone and
  -- health checks have been made, a picker that gRPC builds over ready connections to the client's
  -- endpoints shares the leader record of the cluster, and once a health check of that record has
  -- found a leader, the next Get, Range, RangeStream, Count or ListPartition through the picker
  -- goes to a ready connection that is not the leader's: if the leader's address is not empty and a
  -- connection to another address is ready, the cluster names no endpoint twice, its keys were new
  -- to the index or counted in it, the count is not yet 0, the id has no slash, the visit of the
  -- map takes each ready connection once, nothing writes the record during the call, and gRPC dials
  -- as it documents.
  pub client_reads_spread :
      (id : Bytes) (first second answer : Answer) (config : Config Tls) (w w' : World Tls Auth)
      (base : Map ℕ) (n : ℕ) (c : ClientImpl Tls Cc) (ops : List ClusterOp) (now : LeaderCtrl)
      (m : ℕ) (method : Method) (ready : List (Address × SubConn)) (order : List Address)
      (k : Bytes)
      → All (λ c. c ≢ b'/') id
      → IsFresh config.endpoints base
      → Tracks config.endpoints base n w.ctrl
      → make_client sec url_parse grpc id first second config w ≡ (client c, w')
      → run config.endpoints ops w'.ctrl ≡ done now
      → clients ops (suc n) ≡ suc m
      → is_read method ≡ true
      → Within config.endpoints ready
      → Perm order (addrs ready)
      → answer.failed ≡ false
      → answer.addr ≢ []
      → listed k (addrs ready) ≡ true
      → k ≢ answer.addr
      → let (ctrl, bal) = build ready now in
        (record_id : ℕ) × Holds config.endpoints record_id base ctrl.leader_index
        × Served ready answer.addr
            (pick order
              (reads_of bal.leader_record (on_tick record_id answer ctrl))
              (full_name method)
              bal).1
  unfolding new
  client_reads_spread id first second answer config w w' base n c ops now m method ready order k
        plain fresh t made ran left reads within p fine known there other =
      let tracked =
        lasting_lem sec url_parse grpc parse_target env id first second config w base n c w' ops now
          m plain fresh t made ran left in
      let (i, rec, holds, at, built) =
        cluster_build config.endpoints base m now ready tracked (some_listed ready k there)
          within in
      let spread : Served ready answer.addr
          (pick order (reads_of i (on_tick i answer now)) (full_name method) (new i ready)).1 =
        read_spares method order (new i ready) i answer rec now k reads (new-IsValid i ready) p fine
          at known (omega arith) there other in
      subst
        (λ (r : LeaderCtrl × Picker SubConn).
          (j : ℕ) × Holds config.endpoints j base r.0.leader_index
          × Served ready answer.addr
              (pick order (reads_of r.1.leader_record (on_tick j answer r.0)) (full_name method)
                r.1).1)
        (sym built) (i, holds, spread)
