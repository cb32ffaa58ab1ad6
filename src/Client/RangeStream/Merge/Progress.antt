-- ===== src/Client/RangeStream/Merge/Progress.antt =====
-- The concurrent range stream of client/client_stream.go comes to an end.
use mathlib.Core.Path.{subst}
use kubebrain_client.Prelude.{
  All-join, All-set, All-get, ◌<◌, ◌≤◌, ◌+◌, ◌≢◌, All, ℕ, suc, ◌≡◌, refl, inl, inr, ◌⊎◌, Bool, true,
  false, some, List, [], ◌∷◌, arith, Bytes, Chan, get_elem?, Bool-cases, Option-cases,
}
use kubebrain_client.Client.Streams.{StreamRangeResponse}
use kubebrain_client.Client.RangeStream.Merge.{
  skipped, receiving, sending, ended, Task, Merge, Effect, advance, is_ended, all_ended, task_of,
  Step, go, skip, run, cancel, close, Reach, here, later, opened,
}
use kubebrain_client.Client.RangeStream.Merge.Invariant.{phase_cases, input_cases}
use kubebrain_client.Client.RangeStream.Merge.Measure.{
  queued, measure, go_less, skip_less, run_less, close_less,
}

module _ {E : Type 0} where
  -- A callback that can go on: its input is closed in the end, and it sends what it has.
  abbrev pub CanGo : Task E → Type 0
  CanGo t = (t.closed ≡ true) × (t.phase ≡ sending → t.input ≢ [])

  abbrev pub HasEnds : Merge E → Type 0
  HasEnds m = All (λ c. c.closed ≡ true) m.waiting × All CanGo m.tasks

  pub waiting_cases :
      (ws : List (Chan (StreamRangeResponse E)))
      → (ws ≡ [])
        ⊎ ((c : Chan (StreamRangeResponse E)) × (cs : List (Chan (StreamRangeResponse E))) × (ws
              ≡ c ∷ cs))
  waiting_cases [] = inl refl
  waiting_cases (c ∷ cs) = inr (c, cs, refl)

  pub busy :
      (ts : List (Task E))
      → All CanGo ts
      → (all_ended ts ≡ true)
        ⊎ ((i : ℕ) × (t : Task E) × (get_elem? ts i ≡ some t)
            × (is_ended t.phase ≡ false)
            × CanGo t)
  unfolding all_ended
  busy [] a = inl refl
  busy (t ∷ ts) a = elim (Bool-cases (is_ended t.phase)) [
    | inl over ↦ elim (busy ts a.1) [
      | inl rest ↦ inl (ground arith)
      | inr (i, u, h, e, c) ↦ inr (suc i, u, h, e, c)
    ]
    | inr going ↦ inr (0, t, refl, going, a.0)
  ]

  module _ (errorf : Bytes → E) where
    pub goes_on :
        (done : Bool) (t : Task E)
        → is_ended t.phase ≡ false
        → CanGo t
        → (f : Effect E) × (advance errorf done t ≡ some f)
    unfolding advance is_ended
    goes_on done t e c = elim (Option-cases (advance errorf done t)) [
      | inl stuck ↦ absurd (elim (phase_cases t.phase) [
        | inl p ↦ elim (input_cases t.input) [
          | inl none_left ↦ ground (arith, p, none_left, c.0)
          | inr (x, r, first) ↦ ground (arith, p, first)
        ]
        | inr (inl p) ↦ elim (input_cases t.input) [
          | inl none_left ↦ c.1 p none_left
          | inr (x, r, first) ↦ ground (arith, p, first)
        ]
        | inr (inr (how, p)) ↦ ground (arith, p)
      ])
      | inr (f, going) ↦ (f, going)
    ]

    advance-CanGo :
        (done : Bool) (t : Task E) (f : Effect E)
        → advance errorf done t ≡ some f
        → CanGo t
        → CanGo f.task
    unfolding advance
    advance-CanGo done t f e c = elim (phase_cases t.phase) [
      | inl p ↦ elim (input_cases t.input) [
        | inl none_left ↦ (ground (arith, p, none_left, c.0), λ h. ground (arith, p, none_left, h))
        | inr (x, r, first) ↦ (ground (arith, p, first, c.0), λ h. ground (arith, p, first, h))
      ]
      | inr (inl p) ↦ elim (input_cases t.input) [
        | inl none_left ↦ absurd (c.1 p none_left)
        | inr (x, r, first) ↦ (ground (arith, p, first, c.0), λ h. ground (arith, p, first, h))
      ]
      | inr (inr (how, p)) ↦ absurd (ground (arith, p))
    ]

    pub step-HasEnds : {m n : Merge E} → Step errorf m n → HasEnds m → HasEnds n
    step-HasEnds {m} (go c cs w) h =
        let all : All (λ c. c.closed ≡ true) (c ∷ cs) =
          subst (λ ws. All (λ c. c.closed ≡ true) ws) w h.0 in
        (all.1, All-join CanGo m.tasks (task_of receiving c) h.1 (all.0, λ s. ground (arith, s)))
    step-HasEnds {m} (skip c cs w limited done) h =
        let all : All (λ c. c.closed ≡ true) (c ∷ cs) =
          subst (λ ws. All (λ c. c.closed ≡ true) ws) w h.0 in
        (
          all.1,
          All-join CanGo m.tasks (task_of (ended skipped) c) h.1 (all.0, λ s. ground (arith, s)),
        )
    step-HasEnds {m} (run i t f there e) h = (
      h.0,
      All-set CanGo m.tasks i f.task h.1
          (advance-CanGo m.done t f e (All-get CanGo m.tasks i t there h.1)),
    )
    step-HasEnds cancel h = h
    step-HasEnds (close w e c) h = h

    pub Reach-HasEnds : {m n : Merge E} → Reach errorf m n → HasEnds m → HasEnds n
    Reach-HasEnds here h = h
    Reach-HasEnds (later r st) h = step-HasEnds st (Reach-HasEnds r h)

    -- While the output is open, there is a step that brings the end nearer.
    nearer :
        (m : Merge E)
        → HasEnds m
        → m.closed ≡ false
        → (o : Merge E) × Step errorf m o × (measure o < measure m)
    nearer m h going = elim (waiting_cases m.waiting) [
      | inr (c, cs, w) ↦ (_, go c cs w, go_less m c cs w)
      | inl w ↦ elim (busy m.tasks h.1) [
        | inl over ↦ (_, close w over going, close_less m going)
        | inr (i, t, there, e, c) ↦
            let (f, step) = goes_on m.done t e c in
            (_, run i t f there step, run_less errorf m i t f there step)
      ]
    ]

    -- The steps of a run, the cancelling of the caller's context not counted.
    abbrev pub moves : {m n : Merge E} → Reach errorf m n → ℕ
    moves here = 0
    moves (later r (go c cs w)) = moves r + 1
    moves (later r (skip c cs w limited done)) = moves r + 1
    moves (later r (run i t f there e)) = moves r + 1
    moves (later r cancel) = moves r
    moves (later r (close w e c)) = moves r + 1

    moves-measure : {m n : Merge E} (r : Reach errorf m n) → moves r + measure n ≤ measure m
    moves-measure here = omega arith
    moves-measure (later {n = n} r (go c cs w)) = omega (arith, moves-measure r, go_less n c cs w)
    moves-measure (later {n = n} r (skip c cs w limited done)) =
        omega (arith, moves-measure r, skip_less n c cs w)
    moves-measure (later {n = n} r (run i t f there e)) =
        omega (arith, moves-measure r, run_less errorf n i t f there e)
    moves-measure (later r cancel) = moves-measure r
    moves-measure (later {n = n} r (close w e c)) = omega (arith, moves-measure r, close_less n c)

    abbrev pub Advances : Merge E → Type 0
    Advances m = (o : Merge E) × Step errorf m o × (measure o < measure m)

    -- A concurrent range stream comes to an end: no run has more steps than three for each
    -- partition, two for each response and one, the cancelling of the caller's context not counted,
    -- and at every point the output is closed or some step of the callbacks, of the loop that
    -- starts them or of the goroutine that closes it is possible, and leaves less to do; if all the
    -- inputs are closed in the end.
    pub merge_ends :
        (n : ℕ) (cs : List (Chan (StreamRangeResponse E))) (m : Merge E)
        (r : Reach errorf (opened n cs) m)
        → All (λ c. c.closed ≡ true) cs
        → (moves r ≤ queued cs + 1) × ((m.closed ≡ true) ⊎ Advances m)
    unfolding opened
    merge_ends n cs m r ends = (
      omega (arith, moves-measure r),
      elim (Bool-cases m.closed) [
        | inl over ↦ inl over
        | inr going ↦ inr (nearer m (Reach-HasEnds r (ends, tt)) going)
      ],
    )
