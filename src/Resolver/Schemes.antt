-- ===== src/Resolver/Schemes.antt =====
-- Which network and host an endpoint names, for client/balancer/resolver/resolver.go.
use kubebrain_client.Prelude.{
  ◌≡◌, refl, ◌⊎◌, inl, inr, Bool, true, false, ◌||◌, Option, none, some, [], ◌++◌, arith, Bytes,
  codes, bytes_eq, bytes_eq_iff, Bool-cases, Option-cases,
}
use kubebrain_client.Resolver.Endpoint.{Url, has_separator, endpoint_of, parse_endpoint}

abbrev pub over_tcp : Bytes → Bool
over_tcp scheme = bytes_eq scheme (codes "http") || bytes_eq scheme (codes "https")

abbrev pub over_unix : Bytes → Bool
over_unix scheme = bytes_eq scheme (codes "unix") || bytes_eq scheme (codes "unixs")

-- A URL with one of four schemes names a host or a path; one with another scheme, nothing.
abbrev pub UrlLeads : Url → Bytes → Bytes → Type 0
UrlLeads u net host =
    ((over_tcp u.scheme ≡ true) × (net ≡ codes "tcp") × (host ≡ u.host))
    ⊎ ((over_unix u.scheme ≡ true) × (net ≡ codes "unix") × (host ≡ u.host ++ u.path))
    ⊎ ((over_tcp u.scheme ≡ false) × (over_unix u.scheme ≡ false) × (net ≡ []) × (host ≡ []))

-- What is no URL, or has no "://", is a host itself.
abbrev pub Leads : (Bytes → Option Url) → Bytes → Bytes → Bytes → Type 0
Leads url_parse ep net host =
    (((url_parse ep ≡ none) ⊎ (has_separator ep ≡ false)) × (net ≡ codes "tcp") × (host ≡ ep))
    ⊎ ((u : Url) × (url_parse ep ≡ some u) × (has_separator ep ≡ true) × UrlLeads u net host)

endpoint_of-UrlLeads : (u : Url) → UrlLeads u (endpoint_of u).proto (endpoint_of u).host
unfolding endpoint_of
endpoint_of-UrlLeads u = ground arith

pub parse_endpoint-Leads :
    (url_parse : Bytes → Option Url) (ep : Bytes)
    → Leads url_parse ep (parse_endpoint url_parse ep).proto (parse_endpoint url_parse ep).host
unfolding parse_endpoint
parse_endpoint-Leads url_parse ep = elim (Option-cases (url_parse ep)) [
  | inl e ↦ rw (e, parse_endpoint) (inl (inl refl, refl, refl))
  | inr (u, e) ↦ elim (Bool-cases (has_separator ep)) [
    | inl there ↦ rw (e, parse_endpoint, there) (inr (u, refl, refl, endpoint_of-UrlLeads u))
    | inr missing ↦ rw (e, parse_endpoint, missing) (inl (inr refl, refl, refl))
  ]
]

apart : (scheme : Bytes) → over_unix scheme ≡ true → over_tcp scheme ≡ false
unfolding bytes_eq
apart scheme h = ground (
  arith,
  h,
  bytes_eq_iff scheme (codes "http"),
  bytes_eq_iff scheme (codes "https"),
  bytes_eq_iff scheme (codes "unix"),
  bytes_eq_iff scheme (codes "unixs"),
)

endpoint_of_unique :
    (u : Url) (net host : Bytes)
    → UrlLeads u net host
    → ((endpoint_of u).proto ≡ net) × ((endpoint_of u).host ≡ host)
unfolding endpoint_of
endpoint_of_unique u net host l = ground (arith, l, apart u.scheme)

-- There is one network and one host.
pub parse_endpoint_unique :
    (url_parse : Bytes → Option Url) (ep net host : Bytes)
    → Leads url_parse ep net host
    → ((parse_endpoint url_parse ep).proto ≡ net) × ((parse_endpoint url_parse ep).host ≡ host)
unfolding parse_endpoint
parse_endpoint_unique url_parse ep net host (inl (inl e, n, h)) = ground (arith, e, n, h)
parse_endpoint_unique url_parse ep net host (inl (inr e, n, h)) = ground (arith, e, n, h)
parse_endpoint_unique url_parse ep net host (inr (u, e, there, l)) =
    rw (e, parse_endpoint, there) (endpoint_of_unique u net host l)
