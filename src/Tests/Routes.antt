-- ===== src/Tests/Routes.antt =====
-- Calls of clients through pickers of client/balancer/picker/rw_separated.go.
use mathlib.Core.List.Perm
use kubebrain_client.Prelude.{
  refl, false, arith, codes, bytes_eq, bytes_eq_iff, [], ◌∷◌, err, true, ℕ, zero, suc, ◌≡◌, ◌≢◌,
  ◌⊎◌, List, Bytes, lookup,
}
use kubebrain_client.Rpc.Stubs.{full_name, create, Conn, get}
use kubebrain_client.Picker.{new, pick, Address, unavailable, last_addr}
use kubebrain_client.Picker.Invariant.{new-IsValid, listed, addrs, Entry}
use kubebrain_client.Routes.Failover.{reads_of, write_follows}
use kubebrain_client.LeaderCtrl.{Answer, LeaderCtrl, on_tick, empty, alloc, get_leader_record}
use kubebrain_client.Prelude.Int.{pos}
use kubebrain_client.Picker.Routing.{Written}
use kubebrain_client.Routes.{Reached, method_reaches}
use kubebrain_client.Client.Interface.{operations}
use kubebrain_client.Routes.Operations.{
  Dispatches, through, ReadsOver, WritesOver, operations_reach,
}
use kubebrain_client.Tests.Parsers.{parse_url, grpc}
use kubebrain_client.Tests.Lifecycle.{sec, the_client}
use kubebrain_client.Tests.Picker.{a1, b1, ready, visit, led}
use kubebrain_client.LeaderCtrl.Events.{Event, registers, ticks, after}
use kubebrain_client.Picker.Builder.{build}
use kubebrain_client.Routes.Orphan.{orphan_refuses}

method_reaches_example :
    Reached true ready (codes "b:1") (pick visit led (full_name get) (new 0 ready)).1
unfolding new listed bytes_eq
method_reaches_example =
    method_reaches get visit led (new 0 ready) (codes "a:1") (new-IsValid 0 ready) (Perm.refl visit)
      refl (λ e. ground (arith, e)) (omega arith) refl
      (λ e. ground (arith, bytes_eq_iff (codes "a:1") (codes "b:1")))

-- The leader moves from a:1 to b:1.
abbrev failover : LeaderCtrl
failover = record {
  leader_index = (codes "a:1", 0) ∷ [];
  records = record { amount = pos 1; leader = codes "a:1"; cancelled = false } ∷ [];
}

abbrev b_answers : Answer
b_answers = record { addr = codes "b:1"; failed = false }

write_follows_example :
    Written ready
      (codes "b:1")
      (pick visit (reads_of 0 (on_tick 0 b_answers failover)) (full_name create) (new 0 ready)).1
unfolding new
write_follows_example =
    write_follows create visit (new 0 ready) 0 b_answers
      (record { amount = pos 1; leader = codes "a:1"; cancelled = false }) failover refl
      (new-IsValid 0 ready) (Perm.refl visit) refl refl

-- Two endpoints of a cluster.
abbrev pair : List (Address × ℕ)
pair = (a1, 1) ∷ (b1, 2) ∷ []

abbrev eps : List Bytes
eps = codes "a:1" ∷ codes "b:1" ∷ []

-- The cluster is registered when a picker has been built, and its leader is found.
abbrev afterwards : List Event
afterwards = registers eps b_answers b_answers ∷ ticks 1 b_answers ∷ []

orphan_refuses_example :
    let (ctrl, bal) = build pair empty in
    pick [] (reads_of bal.leader_record (after afterwards ctrl)) (full_name get) bal
    ≡ (bal, unavailable)
unfolding build lookup listed bytes_eq last_addr get_leader_record alloc
orphan_refuses_example =
    orphan_refuses [] afterwards pair [] (full_name get) refl refl ((λ e. omega (arith, e)), tt)

-- A connection that answers every call with one error.
abbrev failing : Bytes → Conn Bytes
failing e = record {
  invoke_get = λ name req. err e;
  invoke_range = λ name req. err e;
  invoke_count = λ name req. err e;
  invoke_list_partition = λ name req. err e;
  invoke_create = λ name req. err e;
  invoke_update = λ name req. err e;
  invoke_delete = λ name req. err e;
  invoke_compact = λ name req. err e;
  stream_range = λ name req. err e;
  stream_watch = λ name req. err e;
}

-- A server answers with the name of its address.
abbrev servers : ℕ → Conn Bytes
servers zero = failing (codes "none")
servers (suc zero) = failing (codes "a:1")
servers (suc (suc zero)) = failing (codes "b:1")
servers (suc (suc (suc n))) = failing (codes "c:1")

abbrev leads_to : Bytes → Conn Bytes
leads_to name =
    through servers (failing (codes "no connection")) (pick visit led name (new 0 ready)).1

abbrev dispatcher : Conn Bytes
dispatcher = record {
  invoke_get = λ name. (leads_to name).invoke_get name;
  invoke_range = λ name. (leads_to name).invoke_range name;
  invoke_count = λ name. (leads_to name).invoke_count name;
  invoke_list_partition = λ name. (leads_to name).invoke_list_partition name;
  invoke_create = λ name. (leads_to name).invoke_create name;
  invoke_update = λ name. (leads_to name).invoke_update name;
  invoke_delete = λ name. (leads_to name).invoke_delete name;
  invoke_compact = λ name. (leads_to name).invoke_compact name;
  stream_range = λ name. (leads_to name).stream_range name;
  stream_watch = λ name. (leads_to name).stream_watch name;
}

dispatcher-Dispatches : Dispatches dispatcher leads_to
dispatcher-Dispatches = record {
  gets = λ name req. refl;
  ranges = λ name req. refl;
  counts = λ name req. refl;
  lists_partition = λ name req. refl;
  creates = λ name req. refl;
  updates = λ name req. refl;
  deletes = λ name req. refl;
  compacts = λ name req. refl;
  watches = λ name req. refl;
}

operations_reach_example :
    ((a : Bytes) × (sc : ℕ) × Entry a sc ready
      × (a ≢ codes "b:1")
      × ReadsOver (operations sec parse_url grpc (λ cc. dispatcher) the_client) (servers sc))
    × (((sc : ℕ) × Entry (codes "b:1") sc ready
          × WritesOver (operations sec parse_url grpc (λ cc. dispatcher) the_client) (servers sc))
        ⊎ ((listed (codes "b:1") (addrs ready) ≡ false)
            × WritesOver
                (operations sec parse_url grpc (λ cc. dispatcher) the_client)
                (failing (codes "no connection"))))
unfolding new listed bytes_eq
operations_reach_example =
    operations_reach sec parse_url grpc dispatcher servers (failing (codes "no connection")) visit
      led (new 0 ready) (codes "a:1") the_client dispatcher-Dispatches (new-IsValid 0 ready)
      (Perm.refl visit) refl (λ e. ground (arith, e)) (omega arith) refl
      (λ e. ground (arith, bytes_eq_iff (codes "a:1") (codes "b:1")))
