-- ===== src/Tests/Lifecycle.antt =====
-- A client of client/client.go that is made and closed.
use kubebrain_client.Prelude.{
  ◌≡◌, refl, arith, true, false, some, List, [], ◌∷◌, Bytes, codes, lookup, bytes_eq, insert,
  bytes_leb, has_prefix, ℕ,
}
use kubebrain_client.Prelude.Int.{pos}
use kubebrain_client.LeaderCtrl.{
  Answer, empty, register_cluster, update_cluster_amount, add_cluster, index_endpoints,
  new_leader_record, refresh_leader, get_leader_addr, get_leader, LeaderCtrl, Update, done, panics,
}
use kubebrain_client.LeaderCtrl.Endpoints.{member, marshal_endpoints}
use kubebrain_client.LeaderCtrl.Index.{IsFresh}
use kubebrain_client.Resolver.{build, new_resolver_group, set_addrs, update_states, add_resolver}
use kubebrain_client.Resolver.Runs.{no_groups, dials, after}
use kubebrain_client.Resolver.Endpoint.{has_separator}
use kubebrain_client.Resolver.Target.{target}
use kubebrain_client.Client.Config.{Config}
use kubebrain_client.Client.Credentials.{Security, new_transport_credentials}
use kubebrain_client.Client.DialOptions.{get_dail_opts, init_scheme}
use kubebrain_client.Client.Lifecycle.{
  ClientImpl, World, Made, client, credentials_of, finish, connect, target_of, new_client,
  make_client, close_client, new_rpc_client, new_leader_checker,
}
use kubebrain_client.Client.Lifecycle.Opening.{Left, make_client-Left}
use kubebrain_client.Client.Lifecycle.Closing.{Undone, close_undoes}
use kubebrain_client.Client.Lifecycle.Transport.{Uses, secured, client_secured}
use kubebrain_client.Picker.{Address}
use kubebrain_client.LeaderCtrl.RefCount.Spec.{Op as ClusterOp, register, tick, run}
use kubebrain_client.Tests.Parsers.{parse_target, parse_url, grpc, grpc-IsGrpcDial}

-- A handshake gives the name that it is for; a connection is its remote address.
abbrev pub sec : Security ℕ ℕ Bytes Bytes
sec = record {
  new_tls = λ tls. tls;
  clone_tls = λ auth. auth;
  shake = λ auth name conn. name;
  remote_addr = λ conn. conn;
}

abbrev pub endpoints : List Bytes
endpoints = codes "https://b:1" ∷ codes "https://a:1" ∷ []

abbrev pub config : Config ℕ
config = record {
  endpoints = endpoints;
  tls = some 7;
  max_call_send_msg_size = pos 0;
  max_call_recv_msg_size = pos 9;
}

abbrev pub world : World ℕ ℕ
world = record { builder = no_groups; ctrl = empty; heap = []; contexts = [] }

abbrev pub id : Bytes
id = codes "c"

abbrev pub a_leads : Answer
a_leads = record { addr = codes "https://a:1"; failed = false }

abbrev pub no_reply : Answer
no_reply = record { addr = []; failed = true }

abbrev pub made : Made Bytes ℕ ℕ × World ℕ ℕ
made = make_client sec parse_url grpc id no_reply a_leads config world

pub endpoints-IsFresh : IsFresh endpoints []
unfolding lookup member bytes_eq
endpoints-IsFresh = record {
  key = refl;
  absent = (refl, (refl, tt));
  distinct = (refl, (refl, tt));
}

make_client-Left_example : Left sec parse_url grpc id config [] 0 world made.0 made.1
make_client-Left_example =
    make_client-Left sec parse_url grpc parse_target grpc-IsGrpcDial id no_reply a_leads config
      world [] 0 (omega arith, tt) endpoints-IsFresh (λ k. refl)

abbrev pub the_client : ClientImpl ℕ ℕ
the_client = record {
  config = config;
  cc = 0;
  rg = 0;
  rpc_client = new_rpc_client 0;
  scheme = codes "https";
  creds = some 0;
  ctx = 0;
  lc = new_leader_checker config (get_dail_opts (codes "https") (some 0));
}

pub made_client : made ≡ (client the_client, made.1)
unfolding make_client new_client connect finish target_of target credentials_of
    new_transport_credentials init_scheme new_resolver_group set_addrs update_states build
    add_resolver lookup insert bytes_eq bytes_leb has_prefix has_separator register_cluster
    update_cluster_amount add_cluster index_endpoints new_leader_record refresh_leader
    get_leader_addr get_leader marshal_endpoints
made_client = refl

-- Another client of the cluster comes, a health check finds a leader, and gRPC builds a resolver.
abbrev pub meanwhile : List ClusterOp
meanwhile = register no_reply a_leads ∷ tick 0 a_leads ∷ []

abbrev pub ctrl_of : Update → LeaderCtrl
ctrl_of (done ctrl) = ctrl
ctrl_of (panics ctrl) = ctrl

abbrev pub then_world : World ℕ ℕ
then_world = record made.1 {
  ctrl = ctrl_of (run endpoints meanwhile made.1.ctrl);
  builder = after (dials id ∷ []) made.1.builder;
}

pub ran : run endpoints meanwhile made.1.ctrl ≡ done then_world.ctrl
unfolding run register_cluster update_cluster_amount lookup make_client has_separator has_prefix
    build set_addrs new_resolver_group insert bytes_eq target marshal_endpoints bytes_leb
    refresh_leader
ran = refl

close_undoes_example :
    Undone id endpoints [] 1 world (close_client sec parse_url grpc the_client then_world)
close_undoes_example =
    close_undoes sec parse_url grpc parse_target grpc-IsGrpcDial id no_reply a_leads config world []
      0 the_client made.1 meanwhile (dials id ∷ []) then_world 1 (omega arith, tt) endpoints-IsFresh
      (λ k. refl) made_client ran refl refl (tt, tt)

client_secured_example : Uses sec parse_url grpc (secured (some 0)) made.0
unfolding bytes_eq has_separator has_prefix
client_secured_example =
    client_secured sec parse_url grpc id no_reply a_leads config world (codes "https://b:1")
      (codes "https://a:1" ∷ []) refl

abbrev pub at_a : Address
at_a = record { addr = codes "https://a:1" }

abbrev pub at_b : Address
at_b = record { addr = codes "https://b:1" }

abbrev pub both : List (Address × ℕ)
both = (at_a, 1) ∷ (at_b, 2) ∷ []
