-- ===== src/Client/Lifecycle/Transport.antt =====
-- How the connections of a client of client/client.go are secured.
use kubebrain_client.Prelude.{
  ℕ, ◌≡◌, refl, inl, inr, Bool, false, ◌||◌, Option, none, some, List, [], ◌∷◌, ◌==◌, arith, Bytes,
  codes, bytes_eq, length, Bool-cases, Option-cases, if◌then◌else◌, Result, ok, err,
}
use kubebrain_client.LeaderCtrl.{Answer, register_cluster}
use kubebrain_client.LeaderCtrl.Orphan.{Update-cases}
use kubebrain_client.Resolver.{Builder}
use kubebrain_client.Resolver.Endpoint.{Url}
use kubebrain_client.Client.Config.{Config}
use kubebrain_client.Client.Credentials.{TransportCredentials, Security, new_transport_credentials}
use kubebrain_client.Client.DialOptions.{
  DialOption, with_transport_credentials, with_insecure, with_context_dialer, with_balancer_name,
  with_default_call_options, get_dail_opts, dial_options, init_scheme, init_scheme_total,
}
use kubebrain_client.Client.Lifecycle.{
  Grpc, World, Made, client, no_endpoint, dial_failed, panicked, credentials_of, finish, connect,
  new_client, make_client, new_leader_checker,
}

-- What gRPC makes of a list of options: the last one about the transport counts.
pub data Transport : Type 0 where
  undecided : Transport
  plaintext : Transport
  secured : Option ℕ → Transport

abbrev decided : DialOption → Transport → Transport
decided (with_transport_credentials creds) t = secured creds
decided with_insecure t = plaintext
decided (with_context_dialer creds) t = t
decided (with_balancer_name name) t = t
decided (with_default_call_options opts) t = t

abbrev pub transport : List DialOption → Transport → Transport
transport [] t = t
transport (o ∷ os) t = transport os (decided o t)

-- A scheme, and an endpoint, that asks for TLS.
abbrev pub is_secure : Bytes → Bool
is_secure scheme = bytes_eq scheme (codes "https") || bytes_eq scheme (codes "unixs")

abbrev pub wants_tls : Option Url → Bool
wants_tls none = false
wants_tls (some u) = is_secure u.scheme

-- With `Config.TLS`, the client has credentials of its own, at a new place; without, a nil pointer.
abbrev pub pointer : {Tls : Type 0} → Option Tls → ℕ → Option ℕ
pointer none t = none
pointer (some tls) t = some t

abbrev pub expected : Bool → Option ℕ → Transport
expected secure creds = if secure then secured creds else plaintext

transport-get_dail_opts :
    (scheme : Bytes) (creds : Option ℕ) (t : Transport)
    → transport (get_dail_opts scheme creds) t ≡ expected (is_secure scheme) creds
unfolding get_dail_opts
transport-get_dail_opts scheme creds t = elim (Bool-cases (is_secure scheme)) [
  | inl secure ↦ rw (secure, get_dail_opts) refl
  | inr plain ↦ rw (plain, get_dail_opts) refl
]

transport-dial_options :
    {Tls : Type 0} (config : Config Tls) (scheme : Bytes) (creds : Option ℕ)
    → transport (dial_options config scheme creds) undecided ≡ expected (is_secure scheme) creds
unfolding dial_options
transport-dial_options config scheme creds = transport-get_dail_opts scheme creds undecided

scheme_wants :
    (url_parse : Bytes → Option Url) (ep : Bytes) (eps : List Bytes) (scheme : Bytes)
    → init_scheme url_parse (ep ∷ eps) ≡ some scheme
    → is_secure scheme ≡ wants_tls (url_parse ep)
unfolding init_scheme bytes_eq
scheme_wants url_parse ep eps scheme e = elim (Option-cases (url_parse ep)) [
  | inl f ↦ ground (arith, e, f)
  | inr (u, f) ↦ ground (arith, e, f)
]

module _ {Tls Auth Conn Shaken E Cc : Type 0} (sec : Security Tls Auth Conn Shaken)
    (url_parse : Bytes → Option Url) (grpc : Grpc E Cc) where
  credentials_lem :
      (config : Config Tls) (tls : Option Tls) (heap : List (TransportCredentials Tls Auth))
      → (credentials_of sec config tls heap).1 ≡ pointer tls (length heap)
  unfolding credentials_of new_transport_credentials
  credentials_lem config none heap = refl
  credentials_lem config (some tls) heap = refl

  -- The connection of a client comes from a dial with options that secure it so, and the options of
  -- its health checks secure theirs so.
  abbrev pub Uses : Transport → Made E Tls Cc → Type 0
  Uses t (client c) =
      ((to : Bytes) × (opts : List DialOption) × (before : Builder) × (after : Builder)
        × (grpc.dial_context to opts before ≡ (after, ok c.cc))
        × (transport opts undecided ≡ t))
      × (transport c.lc.grpc_dial_opts undecided ≡ t)
  Uses t no_endpoint = Unit
  Uses t (dial_failed e) = Unit
  Uses t panicked = Unit

  finish-Uses :
      (first second : Answer) (config : Config Tls) (scheme : Bytes) (creds : Option ℕ) (ctx rg : ℕ)
      (w : World Tls Auth) (to : Bytes) (before after : Builder) (res : Result E Cc)
      → grpc.dial_context to (dial_options config scheme creds) before ≡ (after, res)
      → Uses
          (expected (is_secure scheme) creds)
          (finish sec url_parse grpc first second config scheme creds ctx rg w res).0
  unfolding finish new_leader_checker
  finish-Uses first second config scheme creds ctx rg w to before after (err e) d = tt
  finish-Uses first second config scheme creds ctx rg w to before after (ok conn) d =
      elim (Update-cases (register_cluster config.endpoints first second w.ctrl)) [
        | inl (ctrl, e) ↦
            rw (e, finish)
              (
                (
                  to,
                  dial_options config scheme creds,
                  before,
                  after,
                  d,
                  transport-dial_options config scheme creds,
                ),
                transport-get_dail_opts scheme creds undecided,
              )
        | inr (ctrl, e) ↦ rw (e, finish) tt
      ]

  new_client-Uses :
      (id : Bytes) (first second : Answer) (config : Config Tls) (w : World Tls Auth)
      (scheme : Bytes)
      → init_scheme url_parse config.endpoints ≡ some scheme
      → Uses
          (expected (is_secure scheme) (pointer config.tls (length w.heap)))
          (new_client sec url_parse grpc id first second config w).0
  unfolding new_client connect
  new_client-Uses id first second config w scheme e =
      rw (e, new_client, ← credentials_lem config config.tls w.heap)
        (finish-Uses first second config scheme (credentials_of sec config config.tls w.heap).1 _ _
          _ _ _ _ _ refl)

  -- A client that NewClient makes has its connection from a dial, and makes its health checks, with
  -- the client's own credentials if its first endpoint has the scheme https or unixs and there is a
  -- TLS configuration, with a nil pointer for credentials if it has such a scheme and there is no
  -- TLS configuration, and in plain text otherwise, the TLS configuration ignored, also if the
  -- endpoint does not parse.
  pub client_secured :
      (id : Bytes) (first second : Answer) (config : Config Tls) (w : World Tls Auth) (ep : Bytes)
      (eps : List Bytes)
      → config.endpoints ≡ ep ∷ eps
      → Uses
          (expected (wants_tls (url_parse ep)) (pointer config.tls (length w.heap)))
          (make_client sec url_parse grpc id first second config w).0
  unfolding make_client
  client_secured id first second config w ep eps e =
      let (scheme, is) = init_scheme_total url_parse (ep ∷ eps) (λ h. ground (arith, h)) in
      let at : init_scheme url_parse config.endpoints ≡ some scheme = rw e is in
      let some_there : (length config.endpoints == 0) ≡ false = rw e (ground arith) in
      rw (some_there, make_client, ← scheme_wants url_parse ep eps scheme is)
        (new_client-Uses id first second config w scheme at)
