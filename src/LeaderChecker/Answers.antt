-- ===== src/LeaderChecker/Answers.antt =====
-- What `checkLeader` of client/leader.go answers.
use mathlib.Core.Path.{subst}
use kubebrain_client.Prelude.{
  ◌≡◌, ◌≢◌, refl, ap, inl, inr, Bool, true, false, none, some, List, [], ◌∷◌, Bytes, arith, All,
}
use kubebrain_client.LeaderCtrl.{Answer}
use kubebrain_client.LeaderChecker.{
  Phase, checking, offering, gone, Probe, Checker, leader_at, no_leader, checked, is_gone, all_gone,
  started, Step, check, accept, withdraw, give_up, expire, time_out, Reach, here, later,
}
use kubebrain_client.LeaderChecker.Invariant.{
  Listed, Probing, Right, Probing-set, Probing-expired, Probing-at,
}

module _ (healthy : Bytes → Bool) (eps : List Bytes) where
  record Inv (c : Checker) : Type 0 where
    probing : Probing healthy c.expired eps c.probes
    right : Right healthy eps c.answer

  started-Probing : (es : List Bytes) → Probing healthy false es (started es).probes
  unfolding started
  started-Probing [] = tt
  started-Probing (e ∷ es) =
      (refl, λ o. ground (arith, o), λ g. ground (arith, g), started-Probing es)

  started-Inv : Inv (started eps)
  unfolding started
  started-Inv = record { probing = started-Probing eps; right = tt }

  step-Inv : {c d : Checker} → Step healthy c d → Inv c → Inv d
  unfolding checked
  step-Inv {c} (check i p h e) v = record {
    probing =
        Probing-set healthy c.expired eps c.probes i p (checked (healthy p.endpoint) p) h refl
          (λ o. ground (arith, o)) (λ g calm. ground (arith, g)) v.probing;
    right = v.right;
  }
  step-Inv {c} (accept i p h e a) v = record {
    probing =
        Probing-set healthy true eps c.probes i p (record p { phase = gone }) h refl
          (λ o. ground (arith, o)) (λ g calm. ground (arith, calm))
          (Probing-expired healthy c.expired eps c.probes v.probing);
    right =
        let (fine, there) = Probing-at healthy c.expired eps c.probes i p h e v.probing in
        inr (p.endpoint, refl, fine, there);
  }
  step-Inv {c} (withdraw i p h e x) v = record {
    probing =
        Probing-set healthy c.expired eps c.probes i p (record p { phase = gone }) h refl
          (λ o. ground (arith, o)) (λ g calm. ground (arith, x, calm)) v.probing;
    right = v.right;
  }
  step-Inv {c} (give_up g a) v = record {
    probing = Probing-expired healthy c.expired eps c.probes v.probing;
    right = inl refl;
  }
  step-Inv {c} expire v = record {
    probing = Probing-expired healthy c.expired eps c.probes v.probing;
    right = v.right;
  }
  step-Inv {c} (time_out x a) v = record {
    probing = Probing-expired healthy c.expired eps c.probes v.probing;
    right = inl refl;
  }

  Reach-Inv : {c : Checker} → Reach healthy (started eps) c → Inv c
  Reach-Inv here = started-Inv
  Reach-Inv (later r st) = step-Inv st (Reach-Inv r)

  -- Whatever order the health checks end in: an answer of checkLeader without an error is the
  -- address of one of the endpoints, and one that was found healthy.
  pub leader_is_healthy :
      (c : Checker) (a : Answer)
      → Reach healthy (started eps) c
      → c.answer ≡ some a
      → a.failed ≡ false
      → (ep : Bytes) × (a ≡ leader_at ep) × (healthy ep ≡ true) × Listed ep eps
  leader_is_healthy c a r e fine = elim (subst (Right healthy eps) e (Reach-Inv r).right) [
    | inl missing ↦ absurd (ground (arith, ap (λ (b : Answer). b.failed) missing))
    | inr found ↦ found
  ]

  gone_of : (phase : Phase) → is_gone phase ≡ true → phase ≡ gone
  unfolding is_gone
  gone_of checking h = ground (arith, h)
  gone_of offering h = ground (arith, h)
  gone_of gone h = refl

  leader_no_leader : (ep : Bytes) → leader_at ep ≢ no_leader
  unfolding leader_at
  leader_no_leader ep e = ground (arith, ap (λ (b : Answer). b.failed) e)

  Probing-unhealthy :
      (es : List Bytes) (ps : List Probe)
      → all_gone ps ≡ true
      → Probing healthy false es ps
      → All (λ ep. healthy ep ≡ false) es
  unfolding all_gone is_gone
  Probing-unhealthy [] [] g v = tt
  Probing-unhealthy [] (p ∷ ps) g v = absurd v
  Probing-unhealthy (ep ∷ es) [] g v = absurd v
  Probing-unhealthy (ep ∷ es) (p ∷ ps) g (e, o, leaves, v) =
      (leaves (gone_of p.phase (ground arith)) refl, Probing-unhealthy es ps (ground arith) v)

  -- Before its second is over, checkLeader takes a step to the answer that there is no leader only
  -- if no endpoint is healthy.
  pub no_leader_is_known :
      (c d : Checker)
      → Reach healthy (started eps) c
      → c.expired ≡ false
      → c.answer ≡ none
      → Step healthy c d
      → d.answer ≡ some no_leader
      → All (λ ep. healthy ep ≡ false) eps
  no_leader_is_known c _ r x n (check i p h e) a = absurd (ground (arith, n, a))
  no_leader_is_known c _ r x n (accept i p h e u) a =
      absurd (leader_no_leader p.endpoint (ground (arith, a)))
  no_leader_is_known c _ r x n (withdraw i p h e w) a = absurd (ground (arith, n, a))
  no_leader_is_known c _ r x n (give_up g u) a =
      Probing-unhealthy eps c.probes g
        (subst (λ b. Probing healthy b eps c.probes) x (Reach-Inv r).probing)
  no_leader_is_known c _ r x n expire a = absurd (ground (arith, n, a))
  no_leader_is_known c _ r x n (time_out w u) a = absurd (ground (arith, w, x))
