-- ===== src/LeaderCtrl/Events.antt =====
-- Everything that happens to the controller of client/balancer/picker/leader_ctrl.go, for any
-- clusters: the calls of clients, of new pickers, and the health checks.
use kubebrain_client.Prelude.{
  ℕ, ◌≡◌, ◌≢◌, Option, none, some, List, [], ◌∷◌, arith, Bytes, lookup, get_elem?-last,
}
use kubebrain_client.Prelude.Int.{negsuc}
use kubebrain_client.LeaderCtrl.Endpoints.{marshal_endpoints}
use kubebrain_client.LeaderCtrl.Leads.{left}
use kubebrain_client.LeaderCtrl.Orphan.{
  IsOrphan, update_cluster_amount-IsOrphan, refresh_leader-IsOrphan, register_cluster-IsOrphan,
  get_leader_record-IsOrphan, on_tick-IsOrphan,
}
use kubebrain_client.LeaderCtrl.Bounded.{
  Bounded, update_cluster_amount-Bounded, refresh_leader-Bounded, register_cluster-Bounded,
  get_leader_record-Bounded, on_tick-Bounded,
}
use kubebrain_client.LeaderCtrl.{
  Answer, LeaderCtrl, zero_record, empty, no_answer, on_tick, get_leader_record, update_leader,
  register_cluster, unregister_cluster,
}
use kubebrain_client.LeaderCtrl.RefCount.{unregister_lem}

pub data Event : Type 0 where
  registers : List Bytes → Answer → Answer → Event
  unregisters : List Bytes → Event
  refreshes : List Bytes → Option Answer → Event
  looks_up : Bytes → Event
  ticks : ℕ → Answer → Event

-- A panic of a registration is recovered by the caller.
unfoldable pub apply : Event → LeaderCtrl → LeaderCtrl
apply (registers eps first second) ctrl = left (register_cluster eps first second ctrl)
apply (unregisters eps) ctrl = left (unregister_cluster eps ctrl)
apply (refreshes eps answer) ctrl = update_leader eps answer ctrl
apply (looks_up key) ctrl = (get_leader_record key ctrl).0
apply (ticks id answer) ctrl = on_tick id answer ctrl

abbrev pub after : List Event → LeaderCtrl → LeaderCtrl
after [] ctrl = ctrl
after (e ∷ events) ctrl = after events (apply e ctrl)

-- No health check writes the record.
abbrev pub Unwatched : ℕ → List Event → Type 0
Unwatched id [] = Unit {0}
Unwatched id (registers eps first second ∷ events) = Unwatched id events
Unwatched id (unregisters eps ∷ events) = Unwatched id events
Unwatched id (refreshes eps answer ∷ events) = Unwatched id events
Unwatched id (looks_up key ∷ events) = Unwatched id events
Unwatched id (ticks i answer ∷ events) = (i ≢ id) × Unwatched id events

unregister_cluster-IsOrphan :
    (id : ℕ) (eps : List Bytes) (ctrl : LeaderCtrl)
    → IsOrphan id ctrl
    → IsOrphan id (left (unregister_cluster eps ctrl))
unregister_cluster-IsOrphan id eps ctrl v =
    rw (unregister_lem eps ctrl) (update_cluster_amount-IsOrphan id eps (negsuc 0) no_answer ctrl v)

unregister_cluster-Bounded :
    (eps : List Bytes) (ctrl : LeaderCtrl)
    → Bounded ctrl
    → Bounded (left (unregister_cluster eps ctrl))
unregister_cluster-Bounded eps ctrl v =
    rw (unregister_lem eps ctrl) (update_cluster_amount-Bounded eps (negsuc 0) no_answer ctrl v)

update_leader-IsOrphan :
    (id : ℕ) (eps : List Bytes) (answer : Option Answer) (ctrl : LeaderCtrl)
    → IsOrphan id ctrl
    → IsOrphan id (update_leader eps answer ctrl)
unfolding update_leader
update_leader-IsOrphan id eps none ctrl v = v
update_leader-IsOrphan id eps (some answer) ctrl v =
    refresh_leader-IsOrphan id (marshal_endpoints eps) answer ctrl v

update_leader-Bounded :
    (eps : List Bytes) (answer : Option Answer) (ctrl : LeaderCtrl)
    → Bounded ctrl
    → Bounded (update_leader eps answer ctrl)
unfolding update_leader
update_leader-Bounded eps none ctrl v = v
update_leader-Bounded eps (some answer) ctrl v =
    refresh_leader-Bounded (marshal_endpoints eps) answer ctrl v

pub after-IsOrphan :
    (id : ℕ) (events : List Event) (ctrl : LeaderCtrl)
    → Unwatched id events
    → IsOrphan id ctrl
    → IsOrphan id (after events ctrl)
unfolding apply
after-IsOrphan id [] ctrl u v = v
after-IsOrphan id (registers eps first second ∷ events) ctrl u v =
    after-IsOrphan id events _ u (register_cluster-IsOrphan id eps first second ctrl v)
after-IsOrphan id (unregisters eps ∷ events) ctrl u v =
    after-IsOrphan id events _ u (unregister_cluster-IsOrphan id eps ctrl v)
after-IsOrphan id (refreshes eps answer ∷ events) ctrl u v =
    after-IsOrphan id events _ u (update_leader-IsOrphan id eps answer ctrl v)
after-IsOrphan id (looks_up key ∷ events) ctrl u v =
    after-IsOrphan id events _ u (get_leader_record-IsOrphan id key ctrl v)
after-IsOrphan id (ticks i answer ∷ events) ctrl (other, u) v =
    after-IsOrphan id events _ u (on_tick-IsOrphan id i answer ctrl other v)

pub apply-Bounded : (e : Event) (ctrl : LeaderCtrl) → Bounded ctrl → Bounded (apply e ctrl)
unfolding apply
apply-Bounded (registers eps first second) ctrl v = register_cluster-Bounded eps first second ctrl v
apply-Bounded (unregisters eps) ctrl v = unregister_cluster-Bounded eps ctrl v
apply-Bounded (refreshes eps answer) ctrl v = update_leader-Bounded eps answer ctrl v
apply-Bounded (looks_up key) ctrl v = get_leader_record-Bounded key ctrl v
apply-Bounded (ticks i answer) ctrl v = on_tick-Bounded i answer ctrl v

after-Bounded :
    (events : List Event) (ctrl : LeaderCtrl) → Bounded ctrl → Bounded (after events ctrl)
after-Bounded [] ctrl v = v
after-Bounded (e ∷ events) ctrl v = after-Bounded events (apply e ctrl) (apply-Bounded e ctrl v)

pub empty-Bounded : (events : List Event) → Bounded (after events empty)
unfolding lookup
empty-Bounded events = after-Bounded events empty (λ k j h. ground (arith, h))

-- A picker that looks up a key which is not in the index gets an orphan.
pub looked_up-IsOrphan :
    (key : Bytes) (ctrl : LeaderCtrl)
    → Bounded ctrl
    → lookup key ctrl.leader_index ≡ none
    → IsOrphan (get_leader_record key ctrl).1 (get_leader_record key ctrl).0
unfolding get_leader_record
looked_up-IsOrphan key ctrl v e =
    rw (e, get_leader_record)
      (record {
        blank = get_elem?-last ctrl.records zero_record;
        unreached = λ k j h same. omega (arith, v k j h);
      })
