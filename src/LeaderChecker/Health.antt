-- ===== src/LeaderChecker/Health.antt =====
-- `grpcHealthCheck` of client/leader.go. The dial and the health service are gRPC's: an argument, with
-- `is_serving` for the comparison with `SERVING`. Closing the connection changes nothing here.
use mathlib.Core.Path.{subst}
use kubebrain_client.Prelude.{
  ℕ, Bool, true, false, Option, none, some, ◌++◌, List, Bytes, codes, Result, ok, err, ◌≡◌, refl,
  inl, inr, arith, Option-cases, ap, ◌∙◌,
}
use kubebrain_client.Resolver.Endpoint.{Url, Ctx, bare, dialer, has_separator, parse_endpoint}
use kubebrain_client.Resolver.Schemes.{Leads, parse_endpoint_unique}
use kubebrain_client.Client.DialOptions.{DialOption}
use kubebrain_client.LeaderCtrl.{Answer}
use kubebrain_client.LeaderChecker.{Checker, leader_at, started, Reach}
use kubebrain_client.LeaderChecker.Invariant.{Listed}
use kubebrain_client.LeaderChecker.Answers.{leader_is_healthy}
use kubebrain_client.Client.Lifecycle.{LeaderChecker}

pub record HealthService (E Cc Status : Type 0) : Type 0 where
  pub dial_context : Bytes → List DialOption → Result E Cc
  pub check : Cc → Result E Status
  pub is_serving : Status → Bool

-- What is dialled for an endpoint
abbrev pub passthrough : (Bytes → Option Url) → Bytes → Bytes
passthrough url_parse ep = codes "passthrough:///" ++ (parse_endpoint url_parse ep).host

module _ {E Cc Status : Type 0} (api : HealthService E Cc Status) where
  checked : Result E Status → Bool × Option E
  checked (err e) = (false, some e)
  checked (ok status) = (api.is_serving status, none)

  dialled : Result E Cc → Bool × Option E
  unfolding checked
  dialled (err e) = (false, some e)
  dialled (ok conn) = checked (api.check conn)

  module _ {Tls : Type 0} (url_parse : Bytes → Option Url) (l : LeaderChecker Tls) where
    -- `grpcHealthCheck`
    unfoldable pub grpc_health_check : Bytes → Bool × Option E
    unfolding dialled
    grpc_health_check ep = dialled (api.dial_context (passthrough url_parse ep) l.grpc_dial_opts)

    -- The result of `grpcHealthCheck` that `checkLeader` reads
    abbrev pub is_health : Bytes → Bool
    is_health ep = (grpc_health_check ep).0

    -- A connection is made and its health service says that it serves.
    abbrev pub Serves : Bytes → Type 0
    Serves ep =
        (conn : Cc) × (status : Status) × (api.dial_context (passthrough url_parse ep)
            l.grpc_dial_opts
          ≡ ok conn)
        × (api.check conn ≡ ok status)
        × (api.is_serving status ≡ true)

    checked-serving :
        (conn : Cc) (res : Result E Status)
        → api.check conn ≡ res
        → (checked res).0 ≡ true
        → (status : Status) × (api.check conn ≡ ok status) × (api.is_serving status ≡ true)
    unfolding checked
    checked-serving conn (err e) c h = absurd (ground (arith, h))
    checked-serving conn (ok status) c h = (status, c, h)

    dialled-serving :
        (ep : Bytes) (res : Result E Cc)
        → api.dial_context (passthrough url_parse ep) l.grpc_dial_opts ≡ res
        → (dialled res).0 ≡ true
        → Serves ep
    unfolding dialled
    dialled-serving ep (err e) d h = absurd (ground (arith, h))
    dialled-serving ep (ok conn) d h =
        let (status, c, serves) = checked-serving conn (api.check conn) refl h in
        (conn, status, d, c, serves)

    -- Whatever order the health checks end in: an answer of checkLeader without an error is the
    -- address of one of the client's endpoints, to the host of which gRPC has made a connection
    -- with the client's options, over which the health service has said that it serves.
    pub leader-Serves :
        (c : Checker) (a : Answer)
        → Reach is_health (started l.config.endpoints) c
        → c.answer ≡ some a
        → a.failed ≡ false
        → (ep : Bytes) × (a ≡ leader_at ep) × Listed ep l.config.endpoints × Serves ep
    unfolding grpc_health_check
    leader-Serves c a r e fine =
        let (ep, at, healthy, there) =
          leader_is_healthy is_health l.config.endpoints c a r e fine in
        (ep, at, there, dialled-serving ep _ refl healthy)

-- What a check comes to over the result of a dial: an error of the dial or of the call, or what the
-- health service says.
abbrev pub Told :
    {E Cc Status : Type 0} → HealthService E Cc Status → Result E Status → Bool × Option E → Type 0
Told api (err e) res = res ≡ (false, some e)
Told api (ok status) res = res ≡ (api.is_serving status, none)

abbrev pub Asked :
    {E Cc Status : Type 0} → HealthService E Cc Status → Result E Cc → Bool × Option E → Type 0
Asked api (err e) res = res ≡ (false, some e)
Asked api (ok conn) res = Told api (api.check conn) res

checked-Told :
    {E Cc Status : Type 0} (api : HealthService E Cc Status) (res : Result E Status)
    → Told api res (checked api res)
unfolding checked
checked-Told api (err e) = refl
checked-Told api (ok status) = refl

dialled-Asked :
    {E Cc Status : Type 0} (api : HealthService E Cc Status) (res : Result E Cc)
    → Asked api res (dialled api res)
unfolding dialled
dialled-Asked api (err e) = refl
dialled-Asked api (ok conn) = checked-Told api (api.check conn)

parse_endpoint-bare :
    (url_parse : Bytes → Option Url) (ep : Bytes)
    → has_separator ep ≡ false
    → parse_endpoint url_parse ep ≡ bare ep
unfolding parse_endpoint
parse_endpoint-bare url_parse ep h = elim (Option-cases (url_parse ep)) [
  | inl e ↦ rw (e, parse_endpoint) refl
  | inr (u, e) ↦ rw (e, parse_endpoint, h) refl
]

-- If gRPC hands what follows "passthrough:///" to the client's dialer, as it documents, then
-- grpcHealthCheck asks the health service over a TCP connection to the host of the endpoint,
-- whatever the network of the endpoint is, while the dialer, given the endpoint itself, dials that
-- host by the network of the endpoint: TCP and the host of the URL for the schemes http and https,
-- a unix socket and the host and the path for unix and unixs, and TCP and the endpoint itself if it
-- is no URL with "://"; if the context is not done and the host has no "://".
pub check_dials :
    {E Cc Status Conn Tls : Type 0} (url_parse : Bytes → Option Url)
    (api : HealthService E Cc Status) (l : LeaderChecker Tls)
    (dial_context : Option ℕ → Bytes → Bytes → Result E Conn) (over : Result E Conn → Result E Cc)
    (ctx : Ctx E) (ep net host : Bytes)
    → ((dial_ep : Bytes)
        → api.dial_context (codes "passthrough:///" ++ dial_ep) l.grpc_dial_opts
          ≡ over (dialer url_parse dial_context ctx dial_ep))
    → Leads url_parse ep net host
    → has_separator host ≡ false
    → ctx.done ≡ none
    → Asked api
        (over (dial_context ctx.deadline (codes "tcp") host))
        (grpc_health_check api url_parse l ep)
      × (dialer url_parse dial_context ctx ep ≡ dial_context ctx.deadline net host)
unfolding dialer grpc_health_check
check_dials url_parse api l dial_context over ctx ep net host via leads plain going =
    let (own_net, own_host) = parse_endpoint_unique url_parse ep net host leads in
    let bare_host = parse_endpoint-bare url_parse host plain in
    let dial = api.dial_context (passthrough url_parse ep) l.grpc_dial_opts in
    let tcp : dial ≡ over (dial_context ctx.deadline (codes "tcp") host) =
      rw own_host (via host ∙ ap over (ground (arith, bare_host, going))) in
    (
      subst (λ res. Asked api res (dialled api dial)) tcp (dialled-Asked api dial),
      ground (arith, going, own_net, own_host),
    )
