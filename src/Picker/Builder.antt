-- ===== src/Picker/Builder.antt =====
-- client/balancer/picker/builder.go: gRPC hands the ready connections over, and gets a new picker. The
-- picker takes the leader record of the address that it visits last; log levels are left out.
use kubebrain_client.Prelude.{List, []}
use kubebrain_client.LeaderCtrl.{LeaderCtrl, get_leader_record}
use kubebrain_client.Picker.{Address, Picker, last_addr, new}

-- `builder.Build`
unfoldable pub build :
    {SubConn : Type 0} → List (Address × SubConn) → LeaderCtrl → LeaderCtrl × Picker SubConn
unfolding last_addr new get_leader_record
build ready ctrl =
    let (ctrl', id) = get_leader_record (last_addr ready []) ctrl in (ctrl', new id ready)
