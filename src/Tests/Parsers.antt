-- ===== src/Tests/Parsers.antt =====
-- Stand-ins for the parser of gRPC's targets and for `url.Parse`, and for gRPC's dialling.
use kubebrain_client.Prelude.{
  ℕ, ◌≡◌, ◌≢◌, refl, ap, ◌∙◌, inl, inr, Option, none, some, [], ◌∷◌, ◌++◌, arith, Bytes, codes, All,
  ◌==◌, if◌then◌else◌, Result, ok, err, Option-cases,
}
use kubebrain_client.Resolver.{Builder, build, close_resolver}
use kubebrain_client.Resolver.Runs.{dials, leaves, apply}
use kubebrain_client.Resolver.Endpoint.{Url, has_separator}
use kubebrain_client.Resolver.Target.{GrpcTarget, Splits}
use kubebrain_client.Client.Lifecycle.{Grpc}
use kubebrain_client.Client.Lifecycle.Opening.{IsGrpcDial}

abbrev pub upto : ℕ → Bytes → Bytes
upto sep [] = []
upto sep (c ∷ s) = let rest = upto sep s in if c == sep then [] else c ∷ rest

abbrev pub past : ℕ → Bytes → Bytes
past sep [] = []
past sep (c ∷ s) = let rest = past sep s in if c == sep then s else rest

abbrev pub two_on : Bytes → Bytes
two_on (x ∷ y ∷ s) = s
two_on s = s

abbrev pub parse_target : Bytes → GrpcTarget
parse_target t = record {
  scheme = upto b':' t;
  authority = upto b'/' (two_on (past b':' t));
  endpoint = past b'/' (two_on (past b':' t));
}

upto-past :
    (sep : ℕ) (s rest : Bytes)
    → All (λ c. c ≢ sep) s
    → (upto sep (s ++ sep ∷ rest) ≡ s) × (past sep (s ++ sep ∷ rest) ≡ rest)
upto-past sep [] rest p = (ground arith, ground arith)
upto-past sep (c ∷ s) rest p =
    let (before, behind) = upto-past sep s rest p.1 in
    (ground (arith, before, p.0), ground (arith, behind, p.0))

pub parse_target-Splits : Splits parse_target
parse_target-Splits s authority endpoint p q =
    let (before, behind) =
      upto-past b':' s (codes "//" ++ (authority ++ (codes "/" ++ endpoint))) p in
    let (auth, end) = upto-past b'/' authority endpoint q in
    λ i. record {
      scheme = before i;
      authority = (ap (λ t. upto b'/' (two_on t)) behind ∙ auth) i;
      endpoint = (ap (λ t. past b'/' (two_on t)) behind ∙ end) i;
    }

abbrev pub from : ℕ → Bytes → Bytes
from sep [] = []
from sep (c ∷ s) = let rest = from sep s in if c == sep then c ∷ s else rest

abbrev pub url_of : Bytes → Url
url_of s = record {
  scheme = upto b':' s;
  host = upto b'/' (two_on (past b':' s));
  path = from b'/' (two_on (past b':' s));
}

-- A text without "://" is no URL.
abbrev pub parse_url : Bytes → Option Url
parse_url s = if has_separator s then some (url_of s) else none

-- A dial builds one resolver, and fails if that fails.
abbrev dialled : Builder → Option Builder → Builder × Result Bytes ℕ
dialled b none = (b, err (codes "no group"))
dialled b (some c) = (c, ok 0)

abbrev pub grpc : Grpc Bytes ℕ
grpc = record {
  dial_context = λ t opts b. dialled b (build (parse_target t).authority b);
  close_conn = λ r b. close_resolver r b;
}

pub grpc-IsGrpcDial : IsGrpcDial grpc parse_target
unfolding apply
grpc-IsGrpcDial = record {
  splits = parse_target-Splits;
  dials = λ t opts b. elim (Option-cases (build (parse_target t).authority b)) [
    | inl e ↦ (dials (parse_target t).authority ∷ [], (tt, tt), rw (e, dialled) refl)
    | inr (c, e) ↦ (dials (parse_target t).authority ∷ [], (tt, tt), rw (e, dialled) refl)
  ];
  closes = λ r b. (leaves r ∷ [], (tt, tt), refl);
  builds = λ t opts b conn h. elim (Option-cases (build (parse_target t).authority b)) [
    | inl e ↦ absurd (ground (arith, h, e))
    | inr (c, e) ↦ rw (e, dialled) refl
  ];
}
