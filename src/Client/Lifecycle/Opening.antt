-- ===== src/Client/Lifecycle/Opening.antt =====
-- What `NewClient` of client/client.go leaves behind, whether it succeeds or not.
use kubebrain_client.Prelude.{
  ℕ, suc, ◌≡◌, ◌≢◌, refl, ap, sym, ◌∙◌, inl, inr, true, false, Option, some, List, [], ◌∷◌, ◌++◌,
  arith, Bytes, All, Map, length, get_elem?, get_elem?-last, Bool-cases, ◌==◌, Result, ok, err,
}
use kubebrain_client.LeaderCtrl.{Answer, done, register_cluster}
use kubebrain_client.LeaderCtrl.Index.{IsFresh}
use kubebrain_client.LeaderCtrl.RefCount.Spec.{register, Tracks, step}
use kubebrain_client.LeaderCtrl.RefCount.{step-Tracks}
use kubebrain_client.Resolver.{Group, Builder, build, new_resolver_group, set_addrs}
use kubebrain_client.Resolver.Runs.{after}
use kubebrain_client.Resolver.Keeps.{IsGrpc, Keeps, after-Keeps}
use kubebrain_client.Resolver.Endpoint.{Url}
use kubebrain_client.Resolver.Target.{
  GrpcTarget, Splits, target, opened, grown, with_group_lem, dialled, dialled-state, build-grown,
  authority-target,
}
use kubebrain_client.Client.Config.{Config}
use kubebrain_client.Client.Credentials.{TransportCredentials, Security}
use kubebrain_client.Client.DialOptions.{DialOption, dial_options, init_scheme_total}
use kubebrain_client.Client.Lifecycle.{
  Grpc, World, Made, client, no_endpoint, dial_failed, panicked, target_of, credentials_of, finish,
  connect, new_client, make_client, new_leader_checker,
}

-- gRPC takes targets apart; `DialContext` and `Close` call no more of the resolver than `Build` and
-- the `Close` of resolvers, and a dial that succeeds has called `Build` for its authority, once.
pub record IsGrpcDial {E Cc : Type 0} (grpc : Grpc E Cc) (parse_target : Bytes → GrpcTarget)
    : Type 0 where
  pub splits : Splits parse_target
  pub dials :
      (t : Bytes) (opts : List DialOption) (b : Builder)
      → (ops : List kubebrain_client.Resolver.Runs.Op) × All IsGrpc ops
        × ((grpc.dial_context t opts b).0 ≡ after ops b)
  pub closes :
      (cc : Cc) (b : Builder)
      → (ops : List kubebrain_client.Resolver.Runs.Op) × All IsGrpc ops
        × (grpc.close_conn cc b ≡ after ops b)
  pub builds :
      (t : Bytes) (opts : List DialOption) (b : Builder) (cc : Cc)
      → (grpc.dial_context t opts b).1 ≡ ok cc
      → build (parse_target t).authority b ≡ some (grpc.dial_context t opts b).0

length_zero : (eps : List Bytes) → (length eps == 0) ≡ true → eps ≡ []
length_zero [] h = refl
length_zero (ep ∷ eps) h = ground (arith, h)

module _ {Tls Auth Conn Shaken E Cc : Type 0} (sec : Security Tls Auth Conn Shaken)
    (url_parse : Bytes → Option Url) (grpc : Grpc E Cc) where
  -- The dial of a new client
  abbrev pub dial : Bytes → Config Tls → Bytes → Option ℕ → Builder → Builder × Result E Cc
  dial id config scheme creds b =
      grpc.dial_context (target (opened id config.endpoints)) (dial_options config scheme creds)
        (grown id config.endpoints b)

  connect_lem :
      (id : Bytes) (first second : Answer) (config : Config Tls) (creds : Option ℕ)
      (w : World Tls Auth) (scheme : Bytes)
      → connect sec url_parse grpc id first second config creds w scheme
        ≡ finish sec url_parse grpc first second config scheme creds
            (length w.contexts)
            (length w.builder.groups)
            (record w {
              builder = (dial id config scheme creds w.builder).0;
              contexts = w.contexts ++ false ∷ [];
            })
            (dial id config scheme creds w.builder).1
  unfolding connect new_resolver_group target_of
  connect_lem id first second config creds w scheme =
      rw
        (
          with_group_lem id config.endpoints w.builder,
          get_elem?-last w.builder.groups (opened id config.endpoints),
        )
        refl

  -- What a call of `newClient` leaves: a client whose connection knows the endpoints and whom the
  -- controller counts, or an error of the dial, with which the controller is as before. The group of
  -- the client is in the table of the resolver in both cases.
  abbrev pub Left :
      Bytes → Config Tls → Map ℕ → ℕ → World Tls Auth → Made E Tls Cc → World Tls Auth → Type 0
  Left id config base n w (client c) w' =
      (c.config ≡ config)
      × (c.lc.config ≡ config)
      × (c.rg ≡ length w.builder.groups)
      × Keeps (grown id config.endpoints w.builder) w'.builder
      × (get_elem? w'.builder.states (length w.builder.states) ≡ some config.endpoints)
      × Tracks config.endpoints base (suc n) w'.ctrl
  Left id config base n w (dial_failed e) w' =
      Keeps (grown id config.endpoints w.builder) w'.builder × (w'.ctrl ≡ w.ctrl)
  Left id config base n w no_endpoint w' = (config.endpoints ≡ []) × (w' ≡ w)
  Left id config base n w panicked w' = ⊥

  module _ (parse_target : Bytes → GrpcTarget) (env : IsGrpcDial grpc parse_target) where
    dial-Keeps :
        (id : Bytes) (config : Config Tls) (scheme : Bytes) (creds : Option ℕ) (b : Builder)
        → Keeps (grown id config.endpoints b) (dial id config scheme creds b).0
    dial-Keeps id config scheme creds b =
        let (ops, calls, e) =
          env.dials (target (opened id config.endpoints)) (dial_options config scheme creds)
            (grown id config.endpoints b) in
        rw e (after-Keeps ops (grown id config.endpoints b) calls)

    -- A dial that succeeds has built a resolver of the group.
    dial_lem :
        (id : Bytes) (config : Config Tls) (scheme : Bytes) (creds : Option ℕ) (b : Builder)
        (conn : Cc)
        → All (λ c. c ≢ b'/') id
        → (dial id config scheme creds b).1 ≡ ok conn
        → (dial id config scheme creds b).0 ≡ dialled id config.endpoints b
    dial_lem id config scheme creds b conn plain e =
        let h : some (dial id config scheme creds b).0 ≡ some (dialled id config.endpoints b) =
          sym (
            env.builds (target (opened id config.endpoints)) (dial_options config scheme creds)
              (grown id config.endpoints b) conn e)
          ∙ ap (λ a. build a (grown id config.endpoints b))
              (authority-target parse_target (opened id config.endpoints) env.splits plain)
          ∙ build-grown id config.endpoints b in
        ground (arith, h)

    finish-Left :
        (id : Bytes) (first second : Answer) (config : Config Tls) (creds : Option ℕ)
        (w : World Tls Auth) (heap : List (TransportCredentials Tls Auth)) (scheme : Bytes)
        (base : Map ℕ) (n : ℕ) (res : Result E Cc)
        → (dial id config scheme creds w.builder).1 ≡ res
        → All (λ c. c ≢ b'/') id
        → IsFresh config.endpoints base
        → Tracks config.endpoints base n w.ctrl
        → let (made, w') =
            finish sec url_parse grpc first second config scheme creds
              (length w.contexts)
              (length w.builder.groups)
              (record w {
                heap = heap;
                builder = (dial id config scheme creds w.builder).0;
                contexts = w.contexts ++ false ∷ [];
              })
              res in
          Left id config base n w made w'
    unfolding finish step new_leader_checker
    finish-Left id first second config creds w heap scheme base n (err e) d plain fresh t =
        (dial-Keeps id config scheme creds w.builder, refl)
    finish-Left id first second config creds w heap scheme base n (ok conn) d plain fresh t =
        let (ctrl, done', t') =
          step-Tracks config.endpoints base n (register first second) w.ctrl fresh t in
        let fine : register_cluster config.endpoints first second w.ctrl ≡ done ctrl = done' in
        rw (fine, finish)
          (
            refl,
            refl,
            refl,
            dial-Keeps id config scheme creds w.builder,
            ap (λ b. get_elem? b.states (length w.builder.states))
                  (dial_lem id config scheme creds w.builder conn plain d)
                ∙ dialled-state id config.endpoints w.builder,
            t',
          )

    new_client-Left :
        (id : Bytes) (first second : Answer) (config : Config Tls) (w : World Tls Auth)
        (base : Map ℕ) (n : ℕ)
        → All (λ c. c ≢ b'/') id
        → config.endpoints ≢ []
        → IsFresh config.endpoints base
        → Tracks config.endpoints base n w.ctrl
        → let (made, w') = new_client sec url_parse grpc id first second config w in
          Left id config base n w made w'
    unfolding new_client
    new_client-Left id first second config w base n plain some_ep fresh t =
        let (heap, creds) = credentials_of sec config config.tls w.heap in
        let (scheme, e) = init_scheme_total url_parse config.endpoints some_ep in
        rw
          (
            e,
            new_client,
            connect_lem id first second config creds (record w { heap = heap }) scheme,
          )
          (finish-Left id first second config creds w heap scheme base n _ refl plain fresh t)

    -- NewClient never panics for a cluster that names no endpoint twice and whose keys are new to
    -- the index or counted in it, with an id without a slash and a gRPC that dials as it documents,
    -- and each of its outcomes leaves the shared state so: with no endpoint, nothing has changed;
    -- with an error of the dial, the leader controller is as before, and the group of the client is
    -- in the table of the resolver; with a client, the group is in the table too, a connection has
    -- been given the client's endpoints, and the index of leaders follows a count of one client
    -- more.
    pub make_client-Left :
        (id : Bytes) (first second : Answer) (config : Config Tls) (w : World Tls Auth)
        (base : Map ℕ) (n : ℕ)
        → All (λ c. c ≢ b'/') id
        → IsFresh config.endpoints base
        → Tracks config.endpoints base n w.ctrl
        → let (made, w') = make_client sec url_parse grpc id first second config w in
          Left id config base n w made w'
    unfolding make_client
    make_client-Left id first second config w base n plain fresh t =
        elim (Bool-cases (length config.endpoints == 0)) [
          | inl none_there ↦
              rw (none_there, make_client) (length_zero config.endpoints none_there, refl)
          | inr some_there ↦
              rw (some_there, make_client)
                (new_client-Left id first second config w base n plain
                  (λ e. ground (arith, some_there, e)) fresh t)
        ]
