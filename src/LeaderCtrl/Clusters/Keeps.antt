-- ===== src/LeaderCtrl/Clusters/Keeps.antt =====
-- What health checks and lookups of client/balancer/picker/leader_ctrl.go keep of a cluster.
use kubebrain_client.Prelude.{
  ℕ, zero, suc, sym, ap, ◌∙◌, inl, inr, List, arith, Bytes, lookup, ==_iff, length, get_elem?_past,
  get_elem?-append, Bool-cases, Option-cases,
}
use kubebrain_client.LeaderCtrl.Records.{set_leader-index}
use kubebrain_client.LeaderCtrl.Cases.{refresh_leader-cases}
use kubebrain_client.LeaderCtrl.RefCount.Refresh.{set_leader-Live}
use kubebrain_client.LeaderCtrl.{
  Answer, LeaderRecord, LeaderCtrl, alloc, zero_record, set_leader, on_tick, get_leader_record,
  refresh_leader,
}
use kubebrain_client.LeaderCtrl.Clusters.{Follows}

set_leader-Follows :
    (eps : List Bytes) (n i : ℕ) (l : Bytes) (c : LeaderCtrl)
    → Follows eps n c
    → Follows eps n (set_leader i l c)
set_leader-Follows eps zero i l c f = λ k h. ap (lookup k) (set_leader-index i l c) ∙ f k h
set_leader-Follows eps (suc n) i l c (id, there, only, live) = (
  id,
  λ k h. ap (lookup k) (set_leader-index i l c) ∙ there k h,
  λ k h. only k (sym (ap (lookup k) (set_leader-index i l c)) ∙ h),
  set_leader-Live i l id (suc n) c live,
)

pub refresh_leader-Follows :
    (eps : List Bytes) (n : ℕ) (key : Bytes) (answer : Answer) (c : LeaderCtrl)
    → Follows eps n c
    → Follows eps n (refresh_leader key answer c)
refresh_leader-Follows eps n key answer c f = elim (refresh_leader-cases key answer c) [
  | inl e ↦ rw e f
  | inr (id, _, e) ↦ rw e (set_leader-Follows eps n id answer.addr c f)
]

pub on_tick-Follows :
    (eps : List Bytes) (n i : ℕ) (answer : Answer) (c : LeaderCtrl)
    → Follows eps n c
    → Follows eps n (on_tick i answer c)
unfolding on_tick
on_tick-Follows eps n i answer c f = elim (Bool-cases answer.failed) [
  | inl bad ↦ rw bad f
  | inr good ↦ rw good (set_leader-Follows eps n i answer.addr c f)
]

alloc-Follows :
    (eps : List Bytes) (n : ℕ) (rec : LeaderRecord) (c : LeaderCtrl)
    → Follows eps n c
    → Follows eps n (alloc rec c).0
unfolding alloc
alloc-Follows eps zero rec c f = f
alloc-Follows eps (suc n) rec c (id, there, only, (l, e)) = (
  id,
  there,
  only,
  (
    l,
    ground (
      arith,
      e,
      get_elem?_past c.records,
      get_elem?-append c.records rec id,
      ==_iff id (length c.records),
    ),
  ),
)

pub get_leader_record-Follows :
    (eps : List Bytes) (n : ℕ) (key : Bytes) (c : LeaderCtrl)
    → Follows eps n c
    → Follows eps n (get_leader_record key c).0
unfolding get_leader_record
get_leader_record-Follows eps n key c f = elim (Option-cases (lookup key c.leader_index)) [
  | inl e ↦ rw (e, get_leader_record) (alloc-Follows eps n zero_record c f)
  | inr (id, e) ↦ rw (e, get_leader_record) f
]
