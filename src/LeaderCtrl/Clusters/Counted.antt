-- ===== src/LeaderCtrl/Clusters/Counted.antt =====
-- The clusters of one controller of client/balancer/picker/leader_ctrl.go are counted, each by
-- itself.
use mathlib.Core.Path.{subst}
use kubebrain_client.Prelude.{
  ℕ, suc, ◌≡◌, refl, ap, ◌∙◌, inl, inr, Option, none, some, List, [], ◌∷◌, arith, Bytes, lookup,
  ◌==◌, ==_iff, if◌then◌else◌, get_elem?, Bool-cases, Option-cases,
}
use kubebrain_client.Prelude.Int.{pos, negsuc}
use kubebrain_client.LeaderCtrl.Endpoints.{marshal_endpoints}
use kubebrain_client.LeaderCtrl.Leads.{left}
use kubebrain_client.LeaderCtrl.Bounded.{
  Bounded, update_cluster_amount-Bounded, refresh_leader-Bounded, get_leader_record-Bounded,
  on_tick-Bounded,
}
use kubebrain_client.LeaderCtrl.RefCount.{unregister_lem}
use kubebrain_client.LeaderCtrl.RefCount.Spec.{one_less}
use kubebrain_client.LeaderCtrl.{
  no_answer, Answer, LeaderCtrl, done, empty, on_tick, get_leader_record, update_leader,
  refresh_leader, register_cluster, unregister_cluster, after_amount,
}
use kubebrain_client.LeaderCtrl.Clusters.{
  Call, registers, unregisters, refreshes, looks_up, ticks, perform, run, counts, clients, Follows,
  Separate,
}
use kubebrain_client.LeaderCtrl.Clusters.Frame.{Spares}
use kubebrain_client.LeaderCtrl.Clusters.Moves.{one_more, one_fewer}
use kubebrain_client.LeaderCtrl.Clusters.Keeps.{
  refresh_leader-Follows, on_tick-Follows, get_leader_record-Follows,
}

module _ (clusters : List (List Bytes)) (s : Separate clusters) where
  -- Each cluster follows its number.
  record Inv (n : ℕ → ℕ) (c : LeaderCtrl) : Type 0 where
    bounded : Bounded c
    follows : (i : ℕ) (eps : List Bytes) → get_elem? clusters i ≡ some eps → Follows eps (n i) c

  -- One cluster changes, and the others are spared.
  moved :
      (n : ℕ → ℕ) (f : ℕ → ℕ) (i : ℕ) (eps : List Bytes) (c d : LeaderCtrl)
      → get_elem? clusters i ≡ some eps
      → Inv n c
      → Follows eps (f (n i)) d
      → Spares eps c d
      → (j : ℕ) (b : List Bytes) → get_elem? clusters j ≡ some b
      → Follows b (if i == j then f (n j) else n j) d
  moved n f i eps c d at v follows spares j b there = elim (Bool-cases (i == j)) [
    | inl same ↦
        let p : i ≡ j = (==_iff i j).0 same in
        let q : eps ≡ b = ground (arith, at, there, p) in
        rw same
          (subst (λ k. Follows b (f (n k)) d) p (subst (λ e. Follows e (f (n i)) d) q follows))
    | inr other ↦
        rw other (spares b (n j) (λ k. s.apart i j eps b k at there other) (v.follows j b there))
  ]

  -- A call for a cluster that is not there changes no number.
  uncounted :
      (n : ℕ → ℕ) (f : ℕ → ℕ) (i : ℕ) (c : LeaderCtrl)
      → get_elem? clusters i ≡ none
      → Inv n c
      → (j : ℕ) (b : List Bytes) → get_elem? clusters j ≡ some b
      → Follows b (if i == j then f (n j) else n j) c
  uncounted n f i c at v j b there = elim (Bool-cases (i == j)) [
    | inl same ↦ absurd (ground (arith, at, there, (==_iff i j).0 same))
    | inr other ↦ rw other (v.follows j b there)
  ]

  Performed : Call → (ℕ → ℕ) → LeaderCtrl → Type 0
  Performed call n c =
      (d : LeaderCtrl) × (perform clusters call c ≡ done d) × Inv (λ i. counts i call (n i)) d

  -- A registration is a change of the count and a refresh.
  registered :
      (n : ℕ → ℕ) (i : ℕ) (eps : List Bytes) (first second : Answer) (c : LeaderCtrl)
      → get_elem? clusters i ≡ some eps
      → Inv n c
      → (d : LeaderCtrl) × (register_cluster eps first second c ≡ done d)
        × Inv (λ j. if i == j then suc (n j) else n j) d
  unfolding register_cluster
  registered n i eps first second c at v =
      let (d, e, f, spares) =
        one_more eps first (n i) c (s.distinct i eps at) v.bounded (v.follows i eps at) in
      (
        refresh_leader (marshal_endpoints eps) second d,
        ap (after_amount eps second) e,
        record {
          bounded = refresh_leader-Bounded (marshal_endpoints eps) second d (
              subst (λ u. Bounded (left u)) e
                (update_cluster_amount-Bounded eps (pos 1) first c v.bounded));
          follows = λ j b there.
              refresh_leader-Follows b (if i == j then suc (n j) else n j) (marshal_endpoints eps)
                second d (moved n (λ k. suc k) i eps c d at v f spares j b there);
        },
      )

  unregistered :
      (n : ℕ → ℕ) (i : ℕ) (eps : List Bytes) (c : LeaderCtrl)
      → get_elem? clusters i ≡ some eps
      → Inv n c
      → (d : LeaderCtrl) × (unregister_cluster eps c ≡ done d)
        × Inv (λ j. if i == j then one_less (n j) else n j) d
  unregistered n i eps c at v =
      let (d, e, f, spares) = one_fewer eps no_answer (n i) c (v.follows i eps at) in
      (
        d,
        unregister_lem eps c ∙ e,
        record {
          bounded =
              subst (λ u. Bounded (left u)) e
                (update_cluster_amount-Bounded eps (negsuc 0) no_answer c v.bounded);
          follows = moved n one_less i eps c d at v f spares;
        },
      )

  refreshed :
      (n : ℕ → ℕ) (eps : List Bytes) (answer : Option Answer) (c : LeaderCtrl)
      → Inv n c
      → Inv n (update_leader eps answer c)
  unfolding update_leader
  refreshed n eps none c v = v
  refreshed n eps (some answer) c v = record {
    bounded = refresh_leader-Bounded (marshal_endpoints eps) answer c v.bounded;
    follows = λ j b there.
        refresh_leader-Follows b (n j) (marshal_endpoints eps) answer c (v.follows j b there);
  }

  step-Inv : (call : Call) (n : ℕ → ℕ) (c : LeaderCtrl) → Inv n c → Performed call n c
  unfolding Performed perform
  step-Inv (registers i first second) n c v = elim (Option-cases (get_elem? clusters i)) [
    | inl e ↦ (
      c,
      ground (arith, e),
      record { bounded = v.bounded; follows = uncounted n (λ k. suc k) i c e v },
    )
    | inr (eps, e) ↦
        let (d, p, w) = registered n i eps first second c e v in (d, ground (arith, e, p), w)
  ]
  step-Inv (unregisters i) n c v = elim (Option-cases (get_elem? clusters i)) [
    | inl e ↦ (
      c,
      ground (arith, e),
      record { bounded = v.bounded; follows = uncounted n one_less i c e v },
    )
    | inr (eps, e) ↦ let (d, p, w) = unregistered n i eps c e v in (d, ground (arith, e, p), w)
  ]
  step-Inv (refreshes i answer) n c v = elim (Option-cases (get_elem? clusters i)) [
    | inl e ↦ (c, ground (arith, e), v)
    | inr (eps, e) ↦ (update_leader eps answer c, ground (arith, e), refreshed n eps answer c v)
  ]
  step-Inv (looks_up key) n c v = (
    (get_leader_record key c).0,
    refl,
    record {
      bounded = get_leader_record-Bounded key c v.bounded;
      follows = λ j b there. get_leader_record-Follows b (n j) key c (v.follows j b there);
    },
  )
  step-Inv (ticks id answer) n c v = (
    on_tick id answer c,
    refl,
    record {
      bounded = on_tick-Bounded id answer c v.bounded;
      follows = λ j b there. on_tick-Follows b (n j) id answer c (v.follows j b there);
    },
  )

  run-Inv :
      (calls : List Call) (n : ℕ → ℕ) (c : LeaderCtrl)
      → Inv n c
      → (d : LeaderCtrl) × (run clusters calls c ≡ done d) × Inv (λ i. clients i calls (n i)) d
  unfolding run Performed
  run-Inv [] n c v = (c, refl, v)
  run-Inv (call ∷ calls) n c v =
      let (next, e, w) = step-Inv call n c v in
      let (last, e', w') = run-Inv calls (λ i. counts i call (n i)) next w in
      (last, rw (e, run) e', w')

  empty-Inv : Inv (λ i. 0) empty
  unfolding lookup
  empty-Inv = record { bounded = λ k j h. ground (arith, h); follows = λ i eps at k h. refl }

  -- Several clusters share the controller from its start: whatever calls of RegisterCluster,
  -- UnregisterCluster and UpdateClusterLeader their clients make, whatever keys new pickers look up
  -- and whatever health checks answer, in any order, nothing panics, and each cluster follows the
  -- number of its own clients: with none, no key of it is in the index, and with some, its keys,
  -- and no others, lead to one live record that counts them; if no two clusters have a key in
  -- common and none names an endpoint twice.
  pub clusters_counted :
      (calls : List Call) (i : ℕ) (eps : List Bytes)
      → get_elem? clusters i ≡ some eps
      → (ctrl : LeaderCtrl) × (run clusters calls empty ≡ done ctrl)
        × Follows eps (clients i calls 0) ctrl
  clusters_counted calls i eps at =
      let (ctrl, e, v) = run-Inv calls (λ j. 0) empty empty-Inv in (ctrl, e, v.follows i eps at)
