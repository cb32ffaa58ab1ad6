-- ===== src/LeaderCtrl/RefCount/Refresh.antt =====
-- A health check of client/balancer/picker/leader_ctrl.go keeps the count of a cluster.
use kubebrain_client.Prelude.{
  ℕ, zero, suc, ap, ◌∙◌, inl, inr, List, arith, Bytes, Map, lookup, ◌==◌, if◌then◌else◌, Bool-cases,
}
use kubebrain_client.LeaderCtrl.Records.{set_leader-index, set_leader-records}
use kubebrain_client.LeaderCtrl.{Answer, LeaderCtrl, set_leader, on_tick, refresh_leader}
use kubebrain_client.LeaderCtrl.Cases.{refresh_leader-cases}
use kubebrain_client.LeaderCtrl.RefCount.Spec.{Live, Tracks}

pub set_leader-Live :
    (i : ℕ) (l : Bytes) (id n : ℕ) (ctrl : LeaderCtrl)
    → Live id n ctrl
    → Live id n (set_leader i l ctrl)
set_leader-Live i l id n ctrl (old, e) =
    (if i == id then l else old, ground (arith, set_leader-records i l ctrl id))

set_leader-Tracks :
    (eps : List Bytes) (base : Map ℕ) (n i : ℕ) (l : Bytes) (ctrl : LeaderCtrl)
    → Tracks eps base n ctrl
    → Tracks eps base n (set_leader i l ctrl)
set_leader-Tracks eps base zero i l ctrl t = λ k. ap (lookup k) (set_leader-index i l ctrl) ∙ t k
set_leader-Tracks eps base (suc n) i l ctrl (id, holds, live) = (
  id,
  λ k. ap (lookup k) (set_leader-index i l ctrl) ∙ holds k,
  set_leader-Live i l id (suc n) ctrl live,
)

pub on_tick-Tracks :
    (eps : List Bytes) (base : Map ℕ) (n i : ℕ) (answer : Answer) (ctrl : LeaderCtrl)
    → Tracks eps base n ctrl
    → Tracks eps base n (on_tick i answer ctrl)
unfolding on_tick
on_tick-Tracks eps base n i answer ctrl t = elim (Bool-cases answer.failed) [
  | inl bad ↦ rw bad t
  | inr good ↦ rw good (set_leader-Tracks eps base n i answer.addr ctrl t)
]

pub refresh_leader-Tracks :
    (eps : List Bytes) (base : Map ℕ) (n : ℕ) (key : Bytes) (answer : Answer) (ctrl : LeaderCtrl)
    → Tracks eps base n ctrl
    → Tracks eps base n (refresh_leader key answer ctrl)
refresh_leader-Tracks eps base n key answer ctrl t = elim (refresh_leader-cases key answer ctrl) [
  | inl e ↦ rw e t
  | inr (id, _, e) ↦ rw e (set_leader-Tracks eps base n id answer.addr ctrl t)
]
