-- ===== src/Routes/Failover.antt =====
-- From a health check of client/balancer/picker/leader_ctrl.go to the next write through the picker
-- of client/balancer/picker/rw_separated.go.
use mathlib.Core.List.{Perm}
use mathlib.Core.Path.{subst}
use kubebrain_client.Prelude.{ℕ, ◌≡◌, refl, ◌∙◌, false, some, List, arith, get_elem?}
use kubebrain_client.LeaderCtrl.{Answer, LeaderRecord, LeaderCtrl, get_leader, on_tick}
use kubebrain_client.LeaderCtrl.Records.{set_leader-records}
use kubebrain_client.Rpc.Stubs.{Method, full_name}
use kubebrain_client.Picker.{Address, Picker, Reads, pick}
use kubebrain_client.Picker.Invariant.{addrs, IsValid}
use kubebrain_client.Picker.Routing.{Written, pick_write}
use kubebrain_client.Routes.{is_read, full_name-read}

-- What a call reads if nothing writes the record of the picker meanwhile.
abbrev pub reads_of : ℕ → LeaderCtrl → Reads
reads_of id ctrl = record {
  fast = get_leader id ctrl;
  locked = get_leader id ctrl;
  again = get_leader id ctrl;
}

pub get_leader-on_tick :
    (id : ℕ) (answer : Answer) (rec : LeaderRecord) (ctrl : LeaderCtrl)
    → answer.failed ≡ false
    → get_elem? ctrl.records id ≡ some rec
    → get_leader id (on_tick id answer ctrl) ≡ answer.addr
unfolding get_leader on_tick
get_leader-on_tick id answer rec ctrl fine there =
    ground (arith, fine, there, set_leader-records id answer.addr ctrl id)

-- After a round of the health check of the record of a picker that has found a leader, the next
-- call of Watch, Create, Update, Delete or Compact goes to a connection of that leader, if one is
-- ready, and is refused otherwise: whatever leader the picker had before, if the picker is valid,
-- the visit of the map takes each ready connection once, and nothing writes the record during the
-- call.
pub write_follows :
    {SubConn : Type 0} (method : Method) (order : List Address) (bal : Picker SubConn) (id : ℕ)
    (answer : Answer) (rec : LeaderRecord) (ctrl : LeaderCtrl)
    → is_read method ≡ false
    → IsValid bal
    → Perm order (addrs bal.addr_to_sc)
    → answer.failed ≡ false
    → get_elem? ctrl.records id ≡ some rec
    → Written bal.addr_to_sc answer.addr
        (pick order (reads_of id (on_tick id answer ctrl)) (full_name method) bal).1
write_follows method order bal id answer rec ctrl writes v p fine there =
    let r = reads_of id (on_tick id answer ctrl) in
    subst (λ l. Written bal.addr_to_sc l (pick order r (full_name method) bal).1)
      (get_leader-on_tick id answer rec ctrl fine there)
      (pick_write order r (full_name method) bal v p (full_name-read method ∙ writes) refl)
