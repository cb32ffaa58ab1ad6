-- ===== src/Resolver/Endpoint.antt =====
-- `ParseEndpoint` and `Dialer` of client/balancer/resolver/resolver.go. `url.Parse` is Go's, and so is
-- the connection: both are arguments.
use kubebrain_client.Prelude.{
  ℕ, Bool, ◌||◌, Option, none, some, [], ◌∷◌, ◌++◌, Bytes, codes, bytes_eq, has_prefix,
  if◌then◌else◌, Result, err,
}

-- The parts of a `url.URL` that are read.
pub record Url : Type 0 where
  pub scheme : Bytes
  pub host : Bytes
  pub path : Bytes

-- What `ParseEndpoint` returns.
pub record Endpoint : Type 0 where
  pub proto : Bytes
  pub host : Bytes
  pub scheme : Bytes

-- `strings.Contains(s, "://")`
unfoldable pub has_separator : Bytes → Bool
has_separator [] = has_prefix (codes "://") []
has_separator (c ∷ s) = has_prefix (codes "://") (c ∷ s) || has_separator s

-- The early return
abbrev pub bare : Bytes → Endpoint
bare endpoint = record { proto = codes "tcp"; host = endpoint; scheme = [] }

-- The `switch` over the scheme
unfoldable pub endpoint_of : Url → Endpoint
endpoint_of url =
    if bytes_eq url.scheme (codes "http") || bytes_eq url.scheme (codes "https")
    then record { proto = codes "tcp"; host = url.host; scheme = url.scheme }
    else if bytes_eq url.scheme (codes "unix") || bytes_eq url.scheme (codes "unixs")
    then record { proto = codes "unix"; host = url.host ++ url.path; scheme = url.scheme }
    else record { proto = []; host = []; scheme = url.scheme }

-- A `context.Context`, as far as it is read: why it is done, if it is, and its deadline.
pub record Ctx (E : Type 0) : Type 0 where
  pub done : Option E
  pub deadline : Option ℕ

module _ (url_parse : Bytes → Option Url) where
  -- `ParseEndpoint`
  unfoldable pub parse_endpoint : Bytes → Endpoint
  unfolding has_separator endpoint_of
  parse_endpoint endpoint = elim (url_parse endpoint) [
    | none ↦ bare endpoint
    | some url ↦ if has_separator endpoint then endpoint_of url else bare endpoint
  ]

  -- `Dialer`; `dial_context` is that of a `net.Dialer` with a deadline.
  unfoldable pub dialer :
      {E Conn : Type 0} → (Option ℕ → Bytes → Bytes → Result E Conn) → Ctx E → Bytes → Result E Conn
  unfolding parse_endpoint
  dialer dial_context ctx dial_ep =
      let ep = parse_endpoint dial_ep in
      elim ctx.done [ some e ↦ err e | none ↦ dial_context ctx.deadline ep.proto ep.host ]
