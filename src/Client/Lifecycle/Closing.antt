-- ===== src/Client/Lifecycle/Closing.antt =====
-- What `Close` of client/client.go leaves of a client.
use kubebrain_client.Prelude.{
  ℕ, suc, ◌≡◌, ◌≢◌, refl, ap, ◌∙◌, inl, inr, Bool, true, Option, none, some, List, arith, Bytes,
  All, Map, lookup, lookup-insert, lookup-delete, insert, delete, bytes_eq, length, get_elem?,
  get_elem?-last, Option-cases, if◌then◌else◌,
}
use kubebrain_client.LeaderCtrl.{Answer, done, unregister_cluster}
use kubebrain_client.LeaderCtrl.Index.{IsFresh}
use kubebrain_client.LeaderCtrl.RefCount.Spec.{
  Op as ClusterOp, unregister, Tracks, step, run, clients,
}
use kubebrain_client.LeaderCtrl.RefCount.{step-Tracks}
use kubebrain_client.Resolver.{Builder, close_group}
use kubebrain_client.Resolver.Keeps.{IsGrpc, Keeps, Keeps-trans, after-Keeps, id_at, id_in}
use kubebrain_client.Resolver.Runs.{Op as ResolverOp, after}
use kubebrain_client.Resolver.Endpoint.{Url}
use kubebrain_client.Resolver.Target.{GrpcTarget, opened, grown}
use kubebrain_client.Client.Config.{Config}
use kubebrain_client.Client.Credentials.{Security}
use kubebrain_client.Client.Lifecycle.{Grpc, ClientImpl, World, client, make_client, close_client}
use kubebrain_client.Client.Lifecycle.Opening.{IsGrpcDial}
use kubebrain_client.Client.Lifecycle.Afterwards.{made_lem, lasting_lem}

close_group-id :
    (g : ℕ) (id : Bytes) (b : Builder)
    → id_at g b ≡ some id
    → (close_group g b).resolver_groups ≡ delete id b.resolver_groups
unfolding close_group
close_group-id g id b e = elim (Option-cases (get_elem? b.groups g)) [
  | inl absent ↦ absurd (ground (arith, e, absent))
  | inr (group, there) ↦ ground (arith, e, there)
]

-- The table without a group that has been put in.
lookup-closed :
    (id k : Bytes) (g : ℕ) (m : Map ℕ)
    → lookup k (delete id (insert id g m)) ≡ (if bytes_eq id k then none else lookup k m)
lookup-closed id k g m = ground (arith, lookup-delete id k (insert id g m), lookup-insert id k g m)

-- What is left of a client that is closed.
abbrev pub Undone :
    {Tls Auth : Type 0}
    → Bytes
    → List Bytes
    → Map ℕ
    → ℕ
    → World Tls Auth
    → Bool × World Tls Auth
    → Type 0
Undone id eps base n w (returned, w'') =
    (returned ≡ true)
    × Tracks eps base n w''.ctrl
    × ((k : Bytes)
        → lookup k w''.builder.resolver_groups
          ≡ (if bytes_eq id k then none else lookup k w.builder.resolver_groups))

module _ {Tls Auth Conn Shaken E Cc : Type 0} (sec : Security Tls Auth Conn Shaken)
    (url_parse : Bytes → Option Url) (grpc : Grpc E Cc) (parse_target : Bytes → GrpcTarget)
    (env : IsGrpcDial grpc parse_target) where
  close_lem :
      (id : Bytes) (eps : List Bytes) (base : Map ℕ) (n : ℕ) (c : ClientImpl Tls Cc)
      (w w' : World Tls Auth)
      → c.config.endpoints ≡ eps
      → c.rg ≡ length w.builder.groups
      → Keeps (grown id eps w.builder) w'.builder
      → IsFresh eps base
      → Tracks eps base (suc n) w'.ctrl
      → Undone id eps base n w (close_client sec url_parse grpc c w')
  unfolding close_client step
  close_lem id eps base n c w w' config rg keeps fresh t =
      let (ctrl, gone, t') = step-Tracks eps base (suc n) unregister w'.ctrl fresh t in
      let fine : unregister_cluster eps w'.ctrl ≡ done ctrl = gone in
      let (ops, calls, e) = env.closes c.cc (close_group c.rg w'.builder) in
      let kept : Keeps (close_group c.rg w'.builder)
          (grpc.close_conn c.cc (close_group c.rg w'.builder)) =
        rw e (after-Keeps ops (close_group c.rg w'.builder) calls) in
      let table : (close_group c.rg w'.builder).resolver_groups
          ≡ delete id (insert id (length w.builder.groups) w.builder.resolver_groups) =
        close_group-id c.rg id w'.builder
          (keeps.ids c.rg ∙ rw rg (ap id_in (get_elem?-last w.builder.groups (opened id eps))))
        ∙ ap (delete id) keeps.table in
      rw (config, fine, close_client)
        (
          refl,
          t',
          λ k.
              ap (lookup k) (kept.table ∙ table)
              ∙ lookup-closed id k (length w.builder.groups) w.builder.resolver_groups,
        )

  -- Close of a client that NewClient has made returns, and undoes what NewClient did to the shared
  -- state, whatever happened to the cluster in between by other clients that came and went and by
  -- health checks, and to the resolver by gRPC: the index of leaders follows a count of one client
  -- less than before, and with none left it is as it was without the cluster; the table of resolver
  -- groups is as before NewClient but for the id of the client, which is not in it; if the cluster
  -- names no endpoint twice, its keys were new to the index or counted in it, the count is not yet
  -- 0, the id has no slash, and gRPC dials and closes as it documents.
  pub close_undoes :
      (id : Bytes) (first second : Answer) (config : Config Tls) (w : World Tls Auth) (base : Map ℕ)
      (n : ℕ) (c : ClientImpl Tls Cc) (w' : World Tls Auth) (ops : List ClusterOp)
      (calls : List ResolverOp) (v : World Tls Auth) (m : ℕ)
      → All (λ c. c ≢ b'/') id
      → IsFresh config.endpoints base
      → Tracks config.endpoints base n w.ctrl
      → make_client sec url_parse grpc id first second config w ≡ (client c, w')
      → run config.endpoints ops w'.ctrl ≡ done v.ctrl
      → clients ops (suc n) ≡ suc m
      → v.builder ≡ after calls w'.builder
      → All IsGrpc calls
      → Undone id config.endpoints base m w (close_client sec url_parse grpc c v)
  close_undoes id first second config w base n c w' ops calls v m plain fresh t made ran left called
        own =
      let (same, checks, rg, keeps, knows, t') =
        made_lem sec url_parse grpc parse_target env id first second config w base n c w' plain
          fresh t made in
      let tracks =
        lasting_lem sec url_parse grpc parse_target env id first second config w base n c w' ops
          v.ctrl m plain fresh t made ran left in
      let kept : Keeps (grown id config.endpoints w.builder) v.builder =
        rw called (Keeps-trans _ _ _ keeps (after-Keeps calls w'.builder own)) in
      close_lem id config.endpoints base m c w v (ap (λ (d : Config Tls). d.endpoints) same) rg kept
        fresh tracks
