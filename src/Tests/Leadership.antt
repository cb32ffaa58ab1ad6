-- ===== src/Tests/Leadership.antt =====
-- A client of client/client.go whose health checks find the leader that a write then goes to.
use mathlib.Core.List.Perm
use kubebrain_client.Prelude.{
  ℕ, refl, arith, Bool, true, some, [], ◌∷◌, Bytes, codes, ok, bytes_eq, bytes_eq_iff, has_prefix,
  ◌==◌, if◌then◌else◌,
}
use kubebrain_client.LeaderCtrl.{on_tick}
use kubebrain_client.LeaderCtrl.Index.{Holds}
use kubebrain_client.LeaderCtrl.Endpoints.{member}
use kubebrain_client.LeaderChecker.{
  Checker, checking, offering, gone, leader_at, checked, started, check, accept, Reach, here, later,
}
use kubebrain_client.LeaderChecker.Invariant.{Listed}
use kubebrain_client.LeaderChecker.Health.{HealthService, grpc_health_check, is_health, Serves}
use kubebrain_client.Resolver.Endpoint.{parse_endpoint, has_separator}
use kubebrain_client.Client.Lifecycle.{new_leader_checker}
use kubebrain_client.Rpc.Stubs.{create, get, full_name}
use kubebrain_client.Picker.{pick}
use kubebrain_client.Picker.Builder.{build}
use kubebrain_client.Picker.Routing.{Written, Served}
use kubebrain_client.Picker.Invariant.{listed}
use kubebrain_client.Routes.Followers.{client_reads_spread}
use kubebrain_client.Routes.Failover.{reads_of}
use kubebrain_client.Routes.Leadership.{writes_reach_server}
use kubebrain_client.Tests.Parsers.{parse_target, parse_url, grpc, grpc-IsGrpcDial}
use kubebrain_client.Tests.Lifecycle.{
  sec, config, endpoints, world, the_client, id, no_reply, a_leads, made, made_client, ran,
  meanwhile, then_world, at_a, at_b, both, endpoints-IsFresh,
}

-- Each endpoint is reached, and that of `a` serves.
abbrev api : HealthService Bytes ℕ Bool
api = record {
  dial_context = λ target opts. ok (if bytes_eq target (codes "passthrough:///a:1") then 1 else 0);
  check = λ conn. ok (conn == 1);
  is_serving = λ status. status;
}

abbrev b_ep : Bytes
b_ep = codes "https://b:1"

abbrev a_ep : Bytes
a_ep = codes "https://a:1"

abbrev a_found : Checker
a_found = record {
  probes =
      record { endpoint = b_ep; phase = checking } ∷ record { endpoint = a_ep; phase = gone } ∷ [];
  expired = true;
  answer = some a_leads;
}

found :
    Reach (is_health api parse_url the_client.lc) (started the_client.lc.config.endpoints) a_found
unfolding started checked bytes_eq leader_at grpc_health_check parse_endpoint has_separator
    has_prefix new_leader_checker
found =
    later (later here (check 1 (record { endpoint = a_ep; phase = checking }) refl refl))
      (accept 1 (record { endpoint = a_ep; phase = offering }) refl refl refl)

writes_reach_server_example :
    let (ctrl, bal) = build both then_world.ctrl in
    (record_id : ℕ) × Holds endpoints record_id [] ctrl.leader_index
    × ((ep : Bytes) × Listed ep endpoints
        × Serves api parse_url the_client.lc ep
        × Written both ep
            (pick
              (at_a ∷ at_b ∷ [])
              (reads_of bal.leader_record (on_tick record_id a_leads ctrl))
              (full_name create)
              bal).1)
unfolding member bytes_eq
writes_reach_server_example =
    writes_reach_server sec parse_url grpc parse_target grpc-IsGrpcDial api id no_reply a_leads
      a_leads config world made.1 [] 0 the_client meanwhile then_world.ctrl 1 create both
      (at_a ∷ at_b ∷ []) a_found (omega arith, tt) endpoints-IsFresh (λ k. refl) made_client ran
      refl refl (λ e. ground (arith, e)) (refl, (refl, tt)) (Perm.refl (at_a ∷ at_b ∷ [])) found
      refl refl

client_reads_spread_example :
    let (ctrl, bal) = build both then_world.ctrl in
    (record_id : ℕ) × Holds endpoints record_id [] ctrl.leader_index
    × Served both a_ep
        (pick
          (at_a ∷ at_b ∷ [])
          (reads_of bal.leader_record (on_tick record_id a_leads ctrl))
          (full_name get)
          bal).1
unfolding member bytes_eq listed
client_reads_spread_example =
    client_reads_spread sec parse_url grpc parse_target grpc-IsGrpcDial id no_reply a_leads a_leads
      config world made.1 [] 0 the_client meanwhile then_world.ctrl 1 get both (at_a ∷ at_b ∷ [])
      b_ep (omega arith, tt) endpoints-IsFresh (λ k. refl) made_client ran refl refl
      (refl, (refl, tt)) (Perm.refl (at_a ∷ at_b ∷ [])) refl (λ e. ground (arith, e)) refl
      (λ e. ground (arith, bytes_eq_iff b_ep a_ep, e))
