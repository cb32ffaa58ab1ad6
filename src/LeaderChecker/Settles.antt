-- ===== src/LeaderChecker/Settles.antt =====
-- `checkLeader` of client/leader.go returns, and leaves no goroutine behind.
use kubebrain_client.Prelude.{
  ℕ, zero, suc, ◌+◌, ◌*◌, ◌≤◌, ◌<◌, ◌≡◌, refl, ap, inl, inr, ◌⊎◌, Bool, true, Option, none, some,
  List, [], ◌∷◌, Bytes, arith, get_elem?, set, length,
}
use kubebrain_client.LeaderCtrl.{Answer}
use kubebrain_client.LeaderChecker.{
  Phase, checking, offering, gone, Probe, Checker, leader_at, no_leader, returns, checked, is_gone,
  all_gone, started, Step, check, accept, withdraw, give_up, expire, time_out, Reach, here, later,
}

-- The steps that a goroutine has left at most, and those of all of them and of `checkLeader`.
abbrev effort : Phase → ℕ
effort checking = 2
effort offering = 1
effort gone = 0

abbrev total : List Probe → ℕ
total [] = 0
total (p ∷ ps) = effort p.phase + total ps

abbrev waits : Option Answer → ℕ
waits none = 1
waits (some a) = 0

abbrev pub left : Checker → ℕ
left c = total c.probes + waits c.answer

-- `checkLeader` has answered, the goroutines of the endpoints are gone, and the context is done, so
-- that the goroutine that waits for them does not wait to send.
abbrev pub IsSettled : Checker → Type 0
IsSettled c = ((a : Answer) × (c.answer ≡ some a)) × (all_gone c.probes ≡ true) × (c.expired ≡ true)

total-set :
    (ps : List Probe) (i : ℕ) (p q : Probe)
    → get_elem? ps i ≡ some p
    → effort q.phase < effort p.phase
    → total (set ps i q) < total ps
total-set [] i p q h less = cc
total-set (r ∷ ps) zero p q h less =
    let same : effort r.phase ≡ effort p.phase = ground arith in omega arith
total-set (r ∷ ps) (suc i) p q h less = omega (arith, total-set ps i p q h less)

module _ (healthy : Bytes → Bool) where
  -- The steps of a run, the end of the second not counted.
  abbrev pub moves : {c d : Checker} → Reach healthy c d → ℕ
  moves here = 0
  moves (later r (check i p h e)) = moves r + 1
  moves (later r (accept i p h e a)) = moves r + 1
  moves (later r (withdraw i p h e x)) = moves r + 1
  moves (later r (give_up g a)) = moves r + 1
  moves (later r expire) = moves r
  moves (later r (time_out x a)) = moves r + 1

  checked_less :
      (p : Probe)
      → p.phase ≡ checking
      → effort (checked (healthy p.endpoint) p).phase < effort p.phase
  unfolding checked
  checked_less p e = ground (arith, e)

  moves-left : {c d : Checker} (r : Reach healthy c d) → moves r + left d ≤ left c
  moves-left here = omega arith
  moves-left (later {d = d} r (check i p h e)) = omega (
    arith,
    moves-left r,
    total-set d.probes i p (checked (healthy p.endpoint) p) h (checked_less p e),
  )
  moves-left (later {d = d} r (accept i p h e a)) = omega (
    arith,
    moves-left r,
    total-set d.probes i p (record p { phase = gone }) h (rw e (omega arith)),
    ap waits a,
  )
  moves-left (later {d = d} r (withdraw i p h e x)) = omega (
    arith,
    moves-left r,
    total-set d.probes i p (record p { phase = gone }) h (rw e (omega arith)),
  )
  moves-left (later r (give_up g a)) = omega (arith, moves-left r, ap waits a)
  moves-left (later r expire) = moves-left r
  moves-left (later r (time_out x a)) = omega (arith, moves-left r, ap waits a)

  -- Once `checkLeader` has returned, the context is done.
  expired_after :
      {c d : Checker} → Reach healthy c d → c.answer ≡ none → (d.answer ≡ none) ⊎ (d.expired ≡ true)
  expired_after here u = inl u
  expired_after (later r (check i p h e)) u = expired_after r u
  expired_after (later r (accept i p h e a)) u = inr refl
  expired_after (later r (withdraw i p h e x)) u = expired_after r u
  expired_after (later r (give_up g a)) u = inr refl
  expired_after (later r expire) u = inr refl
  expired_after (later r (time_out x a)) u = inr refl

  -- A step that can be taken, and leaves less to do.
  abbrev pub Advances : Checker → Type 0
  Advances c = (d : Checker) × Step healthy c d × (left d < left c)

  offering_Advances :
      (c : Checker) (i : ℕ) (p : Probe)
      → get_elem? c.probes i ≡ some p
      → p.phase ≡ offering
      → (c.answer ≡ none) ⊎ (c.expired ≡ true)
      → Advances c
  offering_Advances c i p h e (inl u) = (
    returns (leader_at p.endpoint)
        (record c { probes = set c.probes i (record p { phase = gone }) }),
    accept i p h e u,
    omega (
      arith,
      total-set c.probes i p (record p { phase = gone }) h (rw e (omega arith)),
      ap waits u,
    ),
  )
  offering_Advances c i p h e (inr x) = (
    record c { probes = set c.probes i (record p { phase = gone }) },
    withdraw i p h e x,
    omega (arith, total-set c.probes i p (record p { phase = gone }) h (rw e (omega arith))),
  )

  checking_Advances :
      (c : Checker) (i : ℕ) (p : Probe)
      → get_elem? c.probes i ≡ some p
      → p.phase ≡ checking
      → Advances c
  checking_Advances c i p h e = (
    record c { probes = set c.probes i (checked (healthy p.endpoint) p) },
    check i p h e,
    omega (arith, total-set c.probes i p (checked (healthy p.endpoint) p) h (checked_less p e)),
  )

phase_cases : (phase : Phase) → ((phase ≡ checking) ⊎ (phase ≡ offering)) ⊎ (phase ≡ gone)
phase_cases checking = inl (inl refl)
phase_cases offering = inl (inr refl)
phase_cases gone = inr refl

answer_cases : (answer : Option Answer) → (answer ≡ none) ⊎ ((a : Answer) × (answer ≡ some a))
answer_cases none = inl refl
answer_cases (some a) = inr (a, refl)

-- All goroutines are done, or one is in its health check or offers its address.
busy_or_gone :
    (ps : List Probe)
    → (all_gone ps ≡ true)
      ⊎ ((i : ℕ) × (p : Probe) × (get_elem? ps i ≡ some p)
          × ((p.phase ≡ checking) ⊎ (p.phase ≡ offering)))
unfolding all_gone is_gone
busy_or_gone [] = inl refl
busy_or_gone (p ∷ ps) = elim (phase_cases p.phase) [
  | inl busy ↦ inr (0, p, refl, busy)
  | inr e ↦ elim (busy_or_gone ps) [
    | inl all ↦ inl (ground (arith, e, all))
    | inr (i, q, h, busy) ↦ inr (suc i, q, h, busy)
  ]
]

total-started : (eps : List Bytes) → left (started eps) ≡ 2 * length eps + 1
unfolding started
total-started [] = refl
total-started (ep ∷ eps) = omega (arith, total-started eps)

module _ (healthy : Bytes → Bool) (eps : List Bytes) where
  -- Whatever order the health checks end in, and whenever the second is over, checkLeader returns
  -- and leaves no goroutine behind, if each health check ends: no run has more steps than twice the
  -- number of endpoints and one, the end of the second not counted, and at every point either it
  -- has answered, the goroutines of the endpoints are gone and the context is done, or some step is
  -- possible that leaves less to do.
  pub check_settles :
      (c : Checker) (r : Reach healthy (started eps) c)
      → (moves healthy r ≤ 2 * length eps + 1) × (IsSettled c ⊎ Advances healthy c)
  unfolding started
  check_settles c r = (
    omega (arith, moves-left healthy r, total-started eps),
    elim (busy_or_gone c.probes) [
      | inl all ↦ elim (answer_cases c.answer) [
        | inl u ↦ inr (returns no_leader c, give_up all u, omega (arith, ap waits u))
        | inr (a, e) ↦ inl (
          (a, e),
          all,
          elim (expired_after healthy r refl) [ inl u ↦ ground (arith, e, u) | inr x ↦ x ],
        )
      ]
      | inr (i, p, h, inl e) ↦ inr (checking_Advances healthy c i p h e)
      | inr (i, p, h, inr e) ↦
          inr (offering_Advances healthy c i p h e (expired_after healthy r refl))
    ],
  )
