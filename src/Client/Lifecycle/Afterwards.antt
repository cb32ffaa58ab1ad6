-- ===== src/Client/Lifecycle/Afterwards.antt =====
-- What is known of a client of client/client.go after it has been made.
use mathlib.Core.Path.{subst}
use kubebrain_client.Prelude.{Option, ℕ, suc, ◌≡◌, ◌≢◌, List, Bytes, All, Map, arith}
use kubebrain_client.LeaderCtrl.{LeaderCtrl, Answer, done}
use kubebrain_client.LeaderCtrl.Index.{IsFresh}
use kubebrain_client.LeaderCtrl.RefCount.Spec.{Op as ClusterOp, Tracks, run, clients}
use kubebrain_client.LeaderCtrl.RefCount.{run-Tracks}
use kubebrain_client.Resolver.Endpoint.{Url}
use kubebrain_client.Resolver.Target.{GrpcTarget}
use kubebrain_client.Client.Config.{Config}
use kubebrain_client.Client.Credentials.{Security}
use kubebrain_client.Client.Lifecycle.{Grpc, ClientImpl, World, Made, client, make_client}
use kubebrain_client.Client.Lifecycle.Opening.{IsGrpcDial, Left, make_client-Left}

module _ {Tls Auth Conn Shaken E Cc : Type 0} (sec : Security Tls Auth Conn Shaken)
    (url_parse : Bytes → Option Url) (grpc : Grpc E Cc) (parse_target : Bytes → GrpcTarget)
    (env : IsGrpcDial grpc parse_target) where
  -- So much is known of a client that has been made.
  pub made_lem :
      (id : Bytes) (first second : Answer) (config : Config Tls) (w : World Tls Auth) (base : Map ℕ)
      (n : ℕ) (c : ClientImpl Tls Cc) (w' : World Tls Auth)
      → All (λ c. c ≢ b'/') id
      → IsFresh config.endpoints base
      → Tracks config.endpoints base n w.ctrl
      → make_client sec url_parse grpc id first second config w ≡ (client c, w')
      → Left sec url_parse grpc id config base n w (client c) w'
  made_lem id first second config w base n c w' plain fresh t made =
      subst
        (λ (r : Made E Tls Cc × World Tls Auth). Left sec url_parse grpc id config base n w r.0 r.1)
        made
        (make_client-Left sec url_parse grpc parse_target env id first second config w base n plain
          fresh t)

  -- Its cluster is counted as long as some client is left.
  pub lasting_lem :
      (id : Bytes) (first second : Answer) (config : Config Tls) (w : World Tls Auth) (base : Map ℕ)
      (n : ℕ) (c : ClientImpl Tls Cc) (w' : World Tls Auth) (ops : List ClusterOp)
      (ctrl : LeaderCtrl) (m : ℕ)
      → All (λ c. c ≢ b'/') id
      → IsFresh config.endpoints base
      → Tracks config.endpoints base n w.ctrl
      → make_client sec url_parse grpc id first second config w ≡ (client c, w')
      → run config.endpoints ops w'.ctrl ≡ done ctrl
      → clients ops (suc n) ≡ suc m
      → Tracks config.endpoints base (suc m) ctrl
  lasting_lem id first second config w base n c w' ops ctrl m plain fresh t made ran left =
      let (same, checks, rg, keeps, knows, t') =
        made_lem id first second config w base n c w' plain fresh t made in
      let (ctrl', ran', t'') = run-Tracks config.endpoints ops (suc n) base w'.ctrl fresh t' in
      let at : ctrl' ≡ ctrl = ground (arith, ran, ran') in
      subst (λ k. Tracks config.endpoints base k ctrl) left
        (subst (Tracks config.endpoints base (clients ops (suc n))) at t'')
