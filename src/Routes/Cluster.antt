-- ===== src/Routes/Cluster.antt =====
-- From the registration of a cluster in client/balancer/picker/leader_ctrl.go, over a picker that
-- client/balancer/picker/builder.go builds, to the writes of its clients.
use mathlib.Core.List.{Perm}
use mathlib.Core.Path.{subst}
use kubebrain_client.Prelude.{
  ℕ, suc, ◌≡◌, ◌≢◌, refl, ap, sym, true, false, some, List, [], ◌∷◌, Bytes, Map, arith, All, lookup,
  get_elem?,
}
use kubebrain_client.LeaderCtrl.{Answer, LeaderRecord, LeaderCtrl, on_tick, get_leader_record}
use kubebrain_client.LeaderCtrl.Endpoints.{member}
use kubebrain_client.LeaderCtrl.Index.{own, Holds}
use kubebrain_client.LeaderCtrl.RefCount.Spec.{Tracks}
use kubebrain_client.Rpc.Stubs.{Method, full_name}
use kubebrain_client.Picker.{Address, Picker, last_addr, new, pick}
use kubebrain_client.Picker.Builder.{build}
use kubebrain_client.Picker.Invariant.{addrs, new-IsValid}
use kubebrain_client.Picker.Routing.{Written}
use kubebrain_client.Routes.{is_read}
use kubebrain_client.Routes.Failover.{reads_of, write_follows}

module _ {SubConn : Type 0} where
  -- All ready connections are to endpoints of the cluster.
  abbrev pub Within : List Bytes → List (Address × SubConn) → Type 0
  Within eps ready = All (λ e. member e.0.addr eps ≡ true) ready

  member-last_addr :
      (eps : List Bytes) (ready : List (Address × SubConn)) (key : Bytes)
      → Within eps ready
      → (ready ≡ [] → member key eps ≡ true)
      → member (last_addr ready key) eps ≡ true
  unfolding last_addr
  member-last_addr eps [] key w h = h refl
  member-last_addr eps ((a, sc) ∷ ready) key w h = member-last_addr eps ready a.addr w.1 (λ e. w.0)

  -- A picker over endpoints of a registered cluster shares the record of the cluster.
  build_shares :
      (eps : List Bytes) (base : Map ℕ) (id : ℕ) (ctrl : LeaderCtrl)
      (ready : List (Address × SubConn))
      → Holds eps id base ctrl.leader_index
      → ready ≢ []
      → Within eps ready
      → build ready ctrl ≡ (ctrl, new id ready)
  unfolding build own
  build_shares eps base id ctrl ready holds some_ready w =
      let key = last_addr ready [] in
      let listed = member-last_addr eps ready [] w (λ e. absurd (some_ready e)) in
      let found : lookup key ctrl.leader_index ≡ some id = ground (arith, holds key, listed) in
      let same : get_leader_record key ctrl ≡ (ctrl, id) =
        unfold get_leader_record in (ground (arith, found)) in
      ap (λ (r : LeaderCtrl × ℕ). (r.0, new r.1 ready)) same

  -- What a new picker over endpoints of a registered cluster is.
  pub cluster_build :
      (eps : List Bytes) (base : Map ℕ) (n : ℕ) (ctrl : LeaderCtrl)
      (ready : List (Address × SubConn))
      → Tracks eps base (suc n) ctrl
      → ready ≢ []
      → Within eps ready
      → (id : ℕ) × (rec : LeaderRecord) × Holds eps id base ctrl.leader_index
        × (get_elem? ctrl.records id ≡ some rec)
        × (build ready ctrl ≡ (ctrl, new id ready))
  cluster_build eps base n ctrl ready (id, holds, (l, there)) some_ready w =
      (id, _, holds, there, build_shares eps base id ctrl ready holds some_ready w)

  pub cluster_writes_follow :
      (method : Method) (eps : List Bytes) (base : Map ℕ) (n : ℕ) (ctrl : LeaderCtrl)
      (ready : List (Address × SubConn)) (order : List Address) (answer : Answer)
      → is_read method ≡ false
      → Tracks eps base (suc n) ctrl
      → ready ≢ []
      → Within eps ready
      → Perm order (addrs ready)
      → answer.failed ≡ false
      → let (ctrl', bal) = build ready ctrl in
        (id : ℕ) × Holds eps id base ctrl'.leader_index
        × Written ready answer.addr
            (pick order
              (reads_of bal.leader_record (on_tick id answer ctrl'))
              (full_name method)
              bal).1
  unfolding new
  cluster_writes_follow method eps base n ctrl ready order answer writes t some_ready w p fine =
      let (id, rec, holds, there, built) = cluster_build eps base n ctrl ready t some_ready w in
      let follows : Written ready answer.addr
          (pick order (reads_of id (on_tick id answer ctrl)) (full_name method) (new id ready)).1 =
        write_follows method order (new id ready) id answer rec ctrl writes (new-IsValid id ready) p
          fine there in
      subst
        (λ (r : LeaderCtrl × Picker SubConn).
          (i : ℕ) × Holds eps i base r.0.leader_index
          × Written ready answer.addr
              (pick order (reads_of r.1.leader_record (on_tick i answer r.0)) (full_name method)
                r.1).1)
        (sym built) (id, holds, follows)
