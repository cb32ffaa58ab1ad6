-- ===== src/Tests/LeaderChecker.antt =====
-- Runs of `checkLeader` of client/leader.go over two endpoints.
use kubebrain_client.Prelude.{
  ◌≡◌, refl, Bool, true, false, none, some, [], ◌∷◌, Bytes, All, codes, bytes_eq, ℕ, zero, suc,
  ◌++◌, Option, Result, ok, has_prefix, ◌≤◌, ◌+◌, ◌*◌, ◌⊎◌, inl, inr,
}
use kubebrain_client.LeaderChecker.{
  checking, offering, gone, Checker, leader_at, no_leader, checked, all_gone, started, check,
  accept, give_up, Reach, here, later,
}
use kubebrain_client.LeaderChecker.Invariant.{Listed}
use kubebrain_client.Prelude.Int.{pos}
use kubebrain_client.Resolver.Endpoint.{
  Url, Ctx, dialer, parse_endpoint, has_separator, endpoint_of,
}
use kubebrain_client.Client.Lifecycle.{LeaderChecker}
use kubebrain_client.LeaderChecker.Health.{
  HealthService, grpc_health_check, is_health, Serves, leader-Serves, Asked, check_dials,
}
use kubebrain_client.Resolver.Schemes.{Leads}
use kubebrain_client.Tests.Parsers.{parse_url}
use kubebrain_client.LeaderChecker.Settles.{IsSettled, Advances, check_settles}
use kubebrain_client.LeaderChecker.Answers.{no_leader_is_known}

abbrev a1 : Bytes
a1 = codes "a:1"

abbrev b1 : Bytes
b1 = codes "b:1"

abbrev only_b : Bytes → Bool
only_b ep = bytes_eq ep b1

abbrev none_healthy : Bytes → Bool
none_healthy ep = false

abbrev b_leads : Checker
b_leads = record {
  probes = record { endpoint = a1; phase = checking } ∷ record { endpoint = b1; phase = gone } ∷ [];
  expired = true;
  answer = some (record { addr = b1; failed = false });
}

found : Reach only_b (started (a1 ∷ b1 ∷ [])) b_leads
unfolding started checked bytes_eq leader_at
found =
    later (later here (check 1 (record { endpoint = b1; phase = checking }) refl refl))
      (accept 1 (record { endpoint = b1; phase = offering }) refl refl refl)

check_settles_example : (2 ≤ 2 * 2 + 1) × (IsSettled b_leads ⊎ Advances only_b b_leads)
unfolding found
check_settles_example = check_settles only_b (a1 ∷ b1 ∷ []) b_leads found

abbrev all_down : Checker
all_down = record {
  probes = record { endpoint = a1; phase = gone } ∷ record { endpoint = b1; phase = gone } ∷ [];
  expired = false;
  answer = none;
}

not_found : Reach none_healthy (started (a1 ∷ b1 ∷ [])) all_down
unfolding started checked
not_found =
    later (later here (check 1 (record { endpoint = b1; phase = checking }) refl refl))
      (check 0 (record { endpoint = a1; phase = checking }) refl refl)

abbrev given_up : Checker
given_up = record all_down { expired = true; answer = some no_leader }

no_leader_is_known_example : All (λ ep. none_healthy ep ≡ false) (a1 ∷ b1 ∷ [])
unfolding all_gone
no_leader_is_known_example =
    no_leader_is_known none_healthy (a1 ∷ b1 ∷ []) all_down given_up not_found refl refl
      (give_up refl refl) refl

-- Each endpoint is reached, and that of `b1` serves.
abbrev api : HealthService Bytes Bytes Bool
api = record {
  dial_context = λ target opts. ok target;
  check = λ conn. ok (bytes_eq conn (codes "passthrough:///" ++ b1));
  is_serving = λ status. status;
}

abbrev checker : LeaderChecker ℕ
checker = record {
  config = record {
    endpoints = a1 ∷ b1 ∷ [];
    tls = none;
    max_call_send_msg_size = pos 0;
    max_call_recv_msg_size = pos 0;
  };
  grpc_dial_opts = [];
}

served : Reach (is_health api parse_url checker) (started (a1 ∷ b1 ∷ [])) b_leads
unfolding started checked bytes_eq leader_at grpc_health_check parse_endpoint has_separator
    has_prefix
served =
    later (later here (check 1 (record { endpoint = b1; phase = checking }) refl refl))
      (accept 1 (record { endpoint = b1; phase = offering }) refl refl refl)

leader-Serves_example :
    (ep : Bytes) × (record { addr = b1; failed = false } ≡ leader_at ep)
    × Listed ep (a1 ∷ b1 ∷ [])
    × Serves api parse_url checker ep
leader-Serves_example =
    leader-Serves api parse_url checker b_leads (record { addr = b1; failed = false }) served refl
      refl

-- A connection is its network and its address.
abbrev dial_as : Option ℕ → Bytes → Bytes → Result Bytes (Bytes × Bytes)
dial_as deadline proto host = ok (proto, host)

abbrev live : Ctx Bytes
live = record { done = none; deadline = some 1 }

abbrev skip : ℕ → Bytes → Bytes
skip zero s = s
skip (suc n) [] = []
skip (suc n) (c ∷ s) = skip n s

-- gRPC cuts "passthrough:///" off; only a connection of a unix socket serves.
abbrev dialling : HealthService Bytes (Bytes × Bytes) Bytes
dialling = record {
  dial_context = λ target opts. dialer parse_url dial_as live (skip 15 target);
  check = λ conn. ok conn.0;
  is_serving = λ status. bytes_eq status (codes "unix");
}

abbrev socket : Url
socket = record { scheme = codes "unix"; host = []; path = codes "/run/s" }

socket-Leads : Leads parse_url (codes "unix:///run/s") (codes "unix") (codes "/run/s")
unfolding has_separator has_prefix bytes_eq
socket-Leads = inr (socket, refl, refl, inr (inl (refl, refl, refl)))

-- A socket in the file system: the check dials its path by TCP.
check_dials_example :
    Asked dialling
      (ok (codes "tcp", codes "/run/s"))
      (grpc_health_check dialling parse_url checker (codes "unix:///run/s"))
    × (dialer parse_url dial_as live (codes "unix:///run/s") ≡ ok (codes "unix", codes "/run/s"))
unfolding parse_endpoint has_separator has_prefix endpoint_of bytes_eq
check_dials_example =
    check_dials parse_url dialling checker dial_as (λ res. res) live (codes "unix:///run/s")
      (codes "unix") (codes "/run/s") (λ dial_ep. refl) socket-Leads refl refl
