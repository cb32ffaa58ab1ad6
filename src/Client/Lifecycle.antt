-- ===== src/Client/Lifecycle.antt =====
-- client/client.go: a client is made and closed.
--
-- The state is what the client's packages share: the groups of the resolver, the leader controller, the
-- credentials, and of each context whether it is cancelled. gRPC is an argument, and so is the id
-- that `uuid` makes. `first` and `second` are the answers of `lc.checkLeader`.
pub mod Opening
pub mod Afterwards
pub mod Transport
pub mod Closing
use kubebrain_client.Prelude.{
  ℕ, Bool, true, false, ◌==◌, if◌then◌else◌, Option, none, some, List, [], ◌∷◌, ◌++◌, Bytes, length,
  get_elem?, Result, ok, err,
}
use kubebrain_client.LeaderCtrl.{
  Answer, LeaderCtrl, Update, done, panics, register_cluster, unregister_cluster,
}
use kubebrain_client.Resolver.{Group, Builder, new_resolver_group, set_addrs, close_group}
use kubebrain_client.Resolver.Endpoint.{Url, Ctx, dialer}
use kubebrain_client.Resolver.Target.{target}
use kubebrain_client.Client.Config.{Config}
use kubebrain_client.Client.Credentials.{
  TransportCredentials, Security, new_transport_credentials, update_addr_to_endpoint,
}
use kubebrain_client.Client.DialOptions.{DialOption, get_dail_opts, dial_options, init_scheme}

-- `grpc.DialContext`, which may build and close resolvers, and `ClientConn.Close`
pub record Grpc (E Cc : Type 0) : Type 0 where
  pub dial_context : Bytes → List DialOption → Builder → Builder × Result E Cc
  pub close_conn : Cc → Builder → Builder

-- `rpcClient`: the three stubs, each on its connection
pub record RpcClient (Cc : Type 0) : Type 0 where
  pub read_client : Cc
  pub write_client : Cc
  pub watch_client : Cc

-- `newRpcClient`
unfoldable pub new_rpc_client : {Cc : Type 0} → Cc → RpcClient Cc
new_rpc_client conn = record { read_client = conn; write_client = conn; watch_client = conn }

-- `leaderChecker`
pub record LeaderChecker (Tls : Type 0) : Type 0 where
  pub config : Config Tls
  pub grpc_dial_opts : List DialOption

-- `newLeaderChecker`
unfoldable pub new_leader_checker :
    {Tls : Type 0} → Config Tls → List DialOption → LeaderChecker Tls
new_leader_checker config opts = record { config = config; grpc_dial_opts = opts }

-- `clientImpl`; `ctx` and `cancel` are one place. `lc` is kept by the method that the cluster is
-- registered with.
pub record ClientImpl (Tls Cc : Type 0) : Type 0 where
  pub config : Config Tls
  pub cc : Cc
  pub rg : ℕ
  pub rpc_client : RpcClient Cc
  pub scheme : Bytes
  pub creds : Option ℕ
  pub ctx : ℕ
  pub lc : LeaderChecker Tls

pub record World (Tls Auth : Type 0) : Type 0 where
  pub builder : Builder
  pub ctrl : LeaderCtrl
  pub heap : List (TransportCredentials Tls Auth)
  pub contexts : List Bool

-- A call gives a client or an error, or panics.
pub data Made (E Tls Cc : Type 0) : Type 0 where
  client : ClientImpl Tls Cc → Made E Tls Cc
  no_endpoint : Made E Tls Cc
  dial_failed : E → Made E Tls Cc
  panicked : Made E Tls Cc

-- `Target`; a nil pointer is not met.
unfoldable pub target_of : Option Group → Bytes
target_of none = []
target_of (some crg) = target crg

module _ {Tls Auth Conn Shaken : Type 0} (sec : Security Tls Auth Conn Shaken) where
  -- `if config.TLS != nil`
  unfoldable pub credentials_of :
      Config Tls
      → Option Tls
      → List (TransportCredentials Tls Auth)
      → List (TransportCredentials Tls Auth) × Option ℕ
  unfolding new_transport_credentials
  credentials_of config none heap = (heap, none)
  credentials_of config (some tls) heap =
      let (heap', t) = new_transport_credentials sec config tls heap in (heap', some t)

  -- The connection, which is nil with an error
  abbrev pub connection : {E : Type 0} → Result E Conn → Option Conn
  connection (ok conn) = some conn
  connection (err e) = none

  -- `if c.creds != nil`
  unfoldable pub noted :
      {E : Type 0}
      → Option ℕ
      → Bytes
      → Result E Conn
      → List (TransportCredentials Tls Auth)
      → List (TransportCredentials Tls Auth)
  noted none dial_ep conn heap = heap
  noted (some t) dial_ep conn heap = update_addr_to_endpoint sec t dial_ep (connection conn) heap

  -- The client's `dialer`
  unfoldable pub client_dialer :
      {E : Type 0}
      → (Bytes → Option Url)
      → (Option ℕ → Bytes → Bytes → Result E Conn)
      → Option ℕ
      → Ctx E
      → Bytes
      → List (TransportCredentials Tls Auth)
      → List (TransportCredentials Tls Auth) × Result E Conn
  unfolding dialer noted
  client_dialer url_parse dial_context creds ctx dial_ep heap =
      let conn = dialer url_parse dial_context ctx dial_ep in (noted creds dial_ep conn heap, conn)

  module _ {E Cc : Type 0} (url_parse : Bytes → Option Url) (grpc : Grpc E Cc) where
    -- `newClient` after the dial
    unfoldable pub finish :
        Answer
        → Answer
        → Config Tls
        → Bytes
        → Option ℕ
        → ℕ
        → ℕ
        → World Tls Auth
        → Result E Cc
        → Made E Tls Cc × World Tls Auth
    unfolding new_rpc_client new_leader_checker
    finish first second config scheme creds ctx rg w (err e) = (dial_failed e, w)
    finish first second config scheme creds ctx rg w (ok cc) =
        elim (register_cluster config.endpoints first second w.ctrl) [
          | done ctrl ↦ (
            client (record {
              config = config;
              cc = cc;
              rg = rg;
              rpc_client = new_rpc_client cc;
              scheme = scheme;
              creds = creds;
              ctx = ctx;
              lc = new_leader_checker config (get_dail_opts scheme creds);
            }),
            record w { ctrl = ctrl },
          )
          | panics ctrl ↦ (panicked, record w { ctrl = ctrl })
        ]

    -- `newClient` from the context on
    unfoldable pub connect :
        Bytes
        → Answer
        → Answer
        → Config Tls
        → Option ℕ
        → World Tls Auth
        → Bytes
        → Made E Tls Cc × World Tls Auth
    unfolding finish target_of dial_options
    connect id first second config creds w scheme =
        let (opened, rg) = new_resolver_group id w.builder in
        let addressed = set_addrs rg config.endpoints opened in
        let (dialled, cc) =
          grpc.dial_context (target_of (get_elem? addressed.groups rg))
            (dial_options config scheme creds) addressed in
        finish first second config scheme creds (length w.contexts) rg
          (record w { builder = dialled; contexts = w.contexts ++ false ∷ [] }) cc

    -- `newClient`
    unfoldable pub new_client :
        Bytes → Answer → Answer → Config Tls → World Tls Auth → Made E Tls Cc × World Tls Auth
    unfolding connect credentials_of init_scheme
    new_client id first second config w =
        let (heap, creds) = credentials_of config config.tls w.heap in
        elim (init_scheme url_parse config.endpoints) [
          | none ↦ (panicked, record w { heap = heap })
          | some scheme ↦ connect id first second config creds (record w { heap = heap }) scheme
        ]

    -- `NewClient`
    unfoldable pub make_client :
        Bytes → Answer → Answer → Config Tls → World Tls Auth → Made E Tls Cc × World Tls Auth
    unfolding new_client
    make_client id first second config w =
        if length config.endpoints == 0
        then (no_endpoint, w)
        else new_client id first second config w

    -- `Close`: whether it returns, which it does with no error, or panics.
    unfoldable pub close_client : ClientImpl Tls Cc → World Tls Auth → Bool × World Tls Auth
    unfolding close_group unregister_cluster
    close_client c w =
        let builder = grpc.close_conn c.cc (close_group c.rg w.builder) in
        elim (unregister_cluster c.config.endpoints w.ctrl) [
          | done ctrl ↦ (true, record w { builder = builder; ctrl = ctrl })
          | panics ctrl ↦ (false, record w { builder = builder; ctrl = ctrl })
        ]
