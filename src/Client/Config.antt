-- ===== src/Client/Config.antt =====
-- `Config` of client/client.go, without the levels of the logs. `Tls` is Go's `tls.Config`.
use kubebrain_client.Prelude.{Option, List, Bytes}
use kubebrain_client.Prelude.Int.{ℤ}

pub record Config (Tls : Type 0) : Type 0 where
  pub endpoints : List Bytes
  pub tls : Option Tls
  pub max_call_send_msg_size : ℤ
  pub max_call_recv_msg_size : ℤ
