-- ===== src/Client/Credentials.antt =====
-- client/credentials.go: TLS credentials that name the host of the endpoint that was dialled.
--
-- The objects are behind pointers: a pointer is the place in the heap. The credentials that are
-- embedded are gRPC's, and so are the methods of a `net.Conn`: arguments. Each method is one step.
pub mod History
use kubebrain_client.Prelude.{
  ℕ, Option, none, some, List, [], ◌∷◌, ◌++◌, Bytes, Map, lookup, insert, length, get_elem?, set,
}
use kubebrain_client.Client.Config.{Config}
use kubebrain_client.Resolver.Endpoint.{Url, parse_endpoint}

-- `transportCredentials`; `embedded` is `TransportCredentials`.
pub record TransportCredentials (Tls Auth : Type 0) : Type 0 where
  pub embedded : Auth
  pub config : Config Tls
  pub addr_to_endpoint : Map Bytes

-- `credentials.NewTLS`, and methods of the credentials that it makes and of connections.
pub record Security (Tls Auth Conn Shaken : Type 0) : Type 0 where
  pub new_tls : Tls → Auth
  pub clone_tls : Auth → Auth
  pub shake : Auth → Bytes → Conn → Shaken
  pub remote_addr : Conn → Bytes

module _ {Tls Auth Conn Shaken : Type 0} (sec : Security Tls Auth Conn Shaken) where
  -- `newTransportCredentials`, where there is a `config.TLS`
  unfoldable pub new_transport_credentials :
      Config Tls
      → Tls
      → List (TransportCredentials Tls Auth)
      → List (TransportCredentials Tls Auth) × ℕ
  new_transport_credentials config tls heap = (
    heap ++ record { embedded = sec.new_tls tls; config = config; addr_to_endpoint = [] } ∷ [],
    length heap,
  )

  -- `actualAuth`
  unfoldable pub actual_auth : (Bytes → Option Url) → Bytes → Option Bytes → Bytes
  unfolding parse_endpoint
  actual_auth url_parse auth none = auth
  actual_auth url_parse auth (some dial_ep) = (parse_endpoint url_parse dial_ep).host

  -- `ClientHandshake`; `none` is a pointer to no object.
  unfoldable pub client_handshake :
      (Bytes → Option Url) → ℕ → Bytes → Conn → List (TransportCredentials Tls Auth) → Option Shaken
  unfolding actual_auth
  client_handshake url_parse t auth conn heap = elim (get_elem? heap t) [
    | none ↦ none
    | some c ↦
        let dial_ep = lookup (sec.remote_addr conn) c.addr_to_endpoint in
        some (sec.shake c.embedded (actual_auth url_parse auth dial_ep) conn)
  ]

  -- `Clone`: the map is copied.
  unfoldable pub clone :
      ℕ → List (TransportCredentials Tls Auth) → List (TransportCredentials Tls Auth) × ℕ
  clone t heap = elim (get_elem? heap t) [
    | none ↦ (heap, length heap)
    | some c ↦ (heap ++ record c { embedded = sec.clone_tls c.embedded } ∷ [], length heap)
  ]

  -- `updateAddrToEndpoint`; `none` is a nil connection.
  unfoldable pub update_addr_to_endpoint :
      ℕ
      → Bytes
      → Option Conn
      → List (TransportCredentials Tls Auth)
      → List (TransportCredentials Tls Auth)
  update_addr_to_endpoint t dial_ep none heap = heap
  update_addr_to_endpoint t dial_ep (some conn) heap = elim (get_elem? heap t) [
    | none ↦ heap
    | some c ↦
        set heap t
          (record c { addr_to_endpoint = insert (sec.remote_addr conn) dial_ep c.addr_to_endpoint })
  ]
