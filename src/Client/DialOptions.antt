-- ===== src/Client/DialOptions.antt =====
-- The options with which client/client.go dials, and the limits of client/options.go. The options are
-- gRPC's; a dialer is known by the credentials of its client.
use kubebrain_client.Prelude.{
  ℕ, ◌-◌, ◌*◌, ◌^◌, ◌||◌, Option, none, some, List, [], ◌∷◌, ◌++◌, Bytes, codes, bytes_eq,
  if◌then◌else◌, ◌≡◌, ◌≢◌, refl, inl, inr, Option-cases,
}
use kubebrain_client.Prelude.Int.{ℤ, pos, is_pos}
use kubebrain_client.Resolver.Endpoint.{Url}
use kubebrain_client.Client.Config.{Config}

pub data CallOption : Type 0 where
  max_call_send_msg_size : ℤ → CallOption
  max_call_recv_msg_size : ℤ → CallOption

-- The credentials are a pointer, which may be nil.
pub data DialOption : Type 0 where
  with_transport_credentials : Option ℕ → DialOption
  with_insecure : DialOption
  with_context_dialer : Option ℕ → DialOption
  with_balancer_name : Bytes → DialOption
  with_default_call_options : List CallOption → DialOption

-- `Brain` of client/init.go
abbrev pub brain : Bytes
brain = codes "brain"

abbrev pub default_max_call_send_msg_size : CallOption
default_max_call_send_msg_size = max_call_send_msg_size (pos (2 * 1024 * 1024))

-- `math.MaxInt32`
abbrev pub default_max_call_recv_msg_size : CallOption
default_max_call_recv_msg_size = max_call_recv_msg_size (pos (2 ^ 31 - 1))

-- `getDailOpts`
unfoldable pub get_dail_opts : Bytes → Option ℕ → List DialOption
get_dail_opts scheme creds =
    if bytes_eq scheme (codes "https") || bytes_eq scheme (codes "unixs")
    then with_transport_credentials creds ∷ with_context_dialer creds ∷ []
    else with_insecure ∷ with_context_dialer creds ∷ []

module _ {Tls : Type 0} where
  -- `grpcMsgSizeOpts`
  unfoldable pub grpc_msg_size_opts : Config Tls → List CallOption
  grpc_msg_size_opts config =
      (if is_pos config.max_call_send_msg_size
        then max_call_send_msg_size config.max_call_send_msg_size
        else default_max_call_send_msg_size)
      ∷ (if is_pos config.max_call_recv_msg_size
          then max_call_recv_msg_size config.max_call_recv_msg_size
          else default_max_call_recv_msg_size)
      ∷ []

  -- What `dialWithBalancer` hands to `dial`, and `dial` to gRPC.
  unfoldable pub dial_options : Config Tls → Bytes → Option ℕ → List DialOption
  unfolding get_dail_opts grpc_msg_size_opts
  dial_options config scheme creds =
      (with_balancer_name brain ∷ with_default_call_options (grpc_msg_size_opts config) ∷ [])
      ++ get_dail_opts scheme creds

-- `initScheme`: `none` is the panic of an index out of range.
unfoldable pub init_scheme : (Bytes → Option Url) → List Bytes → Option Bytes
init_scheme url_parse [] = none
init_scheme url_parse (ep ∷ eps) = elim (url_parse ep) [ none ↦ some [] | some u ↦ some u.scheme ]

pub init_scheme_total :
    (url_parse : Bytes → Option Url) (eps : List Bytes)
    → eps ≢ []
    → (scheme : Bytes) × (init_scheme url_parse eps ≡ some scheme)
unfolding init_scheme
init_scheme_total url_parse [] some_ep = absurd (some_ep refl)
init_scheme_total url_parse (ep ∷ eps) some_ep = elim (Option-cases (url_parse ep)) [
  | inl e ↦ ([], rw (e, init_scheme) refl)
  | inr (u, e) ↦ (u.scheme, rw (e, init_scheme) refl)
]
