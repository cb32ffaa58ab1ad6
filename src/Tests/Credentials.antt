-- ===== src/Tests/Credentials.antt =====
-- Handshakes of client/credentials.go after dials and clones.
use kubebrain_client.Prelude.{
  ℕ, ◌≡◌, refl, none, some, List, [], ◌∷◌, Bytes, codes, bytes_eq, has_prefix, lookup, insert,
  get_elem?,
}
use kubebrain_client.Resolver.Endpoint.{has_separator, endpoint_of, parse_endpoint}
use kubebrain_client.Client.Credentials.{
  TransportCredentials, new_transport_credentials, actual_auth, client_handshake, clone,
  update_addr_to_endpoint,
}
use kubebrain_client.Client.Credentials.History.{
  Op, dials, clones, Log, perform, after, logs_of, Names, handshake-Names,
}
use kubebrain_client.Tests.Parsers.{parse_url}
use kubebrain_client.Tests.Lifecycle.{sec, config}

abbrev peer : Bytes
peer = codes "10.0.0.1:443"

-- The clone does not see the second dial of the original.
abbrev ops : List (Op Bytes)
ops =
    dials 0 (codes "https://a:1") (some peer)
    ∷ clones 0
    ∷ dials 0 (codes "https://b:1") (some peer)
    ∷ dials 1 (codes "https://d:1") none
    ∷ []

abbrev heap : List (TransportCredentials ℕ ℕ)
heap = record { embedded = 7; config = config; addr_to_endpoint = [] } ∷ []

abbrev the_clone : TransportCredentials ℕ ℕ
the_clone = record {
  embedded = 7;
  config = config;
  addr_to_endpoint = (peer, codes "https://a:1") ∷ [];
}

made_heap : (new_transport_credentials sec config 7 []).0 ≡ heap
unfolding new_transport_credentials
made_heap = refl

handshake-Names_example :
    (log : Log) × (get_elem? (logs_of sec ops ([] ∷ [])) 1 ≡ some log)
    × Names sec parse_url the_clone
        (codes "other")
        peer
        (lookup peer log)
        (client_handshake sec parse_url 1 (codes "other") peer (after sec ops heap))
unfolding perform update_addr_to_endpoint clone insert
handshake-Names_example =
    handshake-Names sec parse_url ops 1 (codes "other") peer heap ([] ∷ []) the_clone
      ((λ k. refl), tt) refl

clone_name :
    client_handshake sec parse_url 1 (codes "other") peer (after sec ops heap) ≡ some (codes "a:1")
unfolding client_handshake actual_auth parse_endpoint endpoint_of has_separator has_prefix lookup
    insert bytes_eq perform update_addr_to_endpoint clone
clone_name = refl
