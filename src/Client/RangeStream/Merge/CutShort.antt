-- ===== src/Client/RangeStream/Merge/CutShort.antt =====
-- What the concurrent range stream of client/client_stream.go may do if its context is done.
use mathlib.Core.List.{append-nil}
use kubebrain_client.Prelude.{
  All-join, All-set, All-get, All, ℕ, zero, suc, ◌<◌, ◌≡◌, ◌≢◌, refl, ap, sym, ◌∙◌, inl, inr, true,
  false, some, List, [], ◌++◌, arith, Bytes, Chan, Bool-cases,
}
use kubebrain_client.Client.Streams.{StreamRangeResponse}
use kubebrain_client.Client.RangeStream.Merge.{
  receiving, sending, Task, Merge, Effect, advance, task_of, Step, go, run, cancel, close, Reach,
  here, later, opened,
}
use kubebrain_client.Client.RangeStream.Merge.Invariant.{phase_cases, input_cases}
use kubebrain_client.Client.RangeStream.Merge.Measure.{measure, go_less, run_less, close_less}
use kubebrain_client.Client.RangeStream.Merge.Progress.{
  HasEnds, waiting_cases, busy, goes_on, step-HasEnds, Reach-HasEnds,
}

module _ {E : Type 0} (errorf : Bytes → E) where
  -- A callback that has no response in hand.
  abbrev pub IsIdle : Task E → Type 0
  IsIdle t = t.phase ≢ sending

  -- Once the context is done, it sends nothing more.
  advance-IsIdle :
      (t : Task E) (f : Effect E)
      → IsIdle t
      → advance errorf true t ≡ some f
      → (f.sent ≡ []) × IsIdle f.task
  unfolding advance
  advance-IsIdle t f idle e = elim (phase_cases t.phase) [
    | inl p ↦ elim (input_cases t.input) [
      | inl none_left ↦ (ground (arith, p, none_left, e), λ h. ground (arith, p, none_left, e, h))
      | inr (x, r, first) ↦ (ground (arith, p, first, e), λ h. ground (arith, p, first, e, h))
    ]
    | inr (inl p) ↦ absurd (idle p)
    | inr (inr (how, p)) ↦ absurd (ground (arith, p, e))
  ]

  -- The context is done, nobody has a response in hand, and all inputs are closed in the end.
  record IsCut (m : Merge E) : Type 0 where
    ends : HasEnds m
    done : m.done ≡ true
    idle : All IsIdle m.tasks

  quiet_step :
      (m : Merge E)
      → IsCut m
      → m.closed ≡ false
      → (o : Merge E) × Step errorf m o × (measure o < measure m) × IsCut o × (o.output ≡ m.output)
  quiet_step m v going = elim (waiting_cases m.waiting) [
    | inr (c, cs, w) ↦
        let step = go c cs w in
        (
          _,
          step,
          go_less m c cs w,
          record {
            ends = step-HasEnds errorf step v.ends;
            done = v.done;
            idle = All-join IsIdle m.tasks (task_of receiving c) v.idle (λ h. ground (arith, h));
          },
          refl,
        )
    | inl w ↦ elim (busy m.tasks v.ends.1) [
      | inl over ↦
          let step = close w over going in
          (
            _,
            step,
            close_less m going,
            record { ends = step-HasEnds errorf step v.ends; done = v.done; idle = v.idle },
            refl,
          )
      | inr (i, t, there, e, c) ↦
          let (f, moves) = goes_on errorf m.done t e c in
          let step = run i t f there moves in
          let (silent, still) =
            advance-IsIdle t f (All-get IsIdle m.tasks i t there v.idle)
              (ap (λ b. advance errorf b t) (sym v.done) ∙ moves) in
          (
            _,
            step,
            run_less errorf m i t f there moves,
            record {
              ends = step-HasEnds errorf step v.ends;
              done = ground (arith, v.done);
              idle = All-set IsIdle m.tasks i f.task v.idle still;
            },
            ap (λ sent. m.output ++ sent) silent ∙ append-nil m.output,
          )
    ]
  ]

  Reach-trans : {m n o : Merge E} → Reach errorf m n → Reach errorf n o → Reach errorf m o
  Reach-trans r here = r
  Reach-trans r (later s st) = later (Reach-trans r s) st

  quiet_run :
      (k : ℕ) (m : Merge E)
      → measure m < k
      → IsCut m
      → (o : Merge E) × Reach errorf m o × (o.closed ≡ true) × (o.output ≡ m.output)
  quiet_run zero m less v = absurd (omega arith)
  quiet_run (suc k) m less v = elim (Bool-cases m.closed) [
    | inl over ↦ (m, here, over, refl)
    | inr going ↦
        let (n, st, nearer, w, same) = quiet_step m v going in
        let (o, r, over, same') = quiet_run k n (omega arith) w in
        (o, Reach-trans (later here st) r, over, same' ∙ same)
  ]

  -- At every point of a concurrent range stream at which no callback has a response in hand, it may
  -- close its output with nothing more sent, no error either, whatever the partitions still have:
  -- the caller's context need only be done; if all the inputs are closed in the end.
  pub cut_short :
      (n : ℕ) (cs : List (Chan (StreamRangeResponse E))) (m : Merge E)
      → All (λ c. c.closed ≡ true) cs
      → Reach errorf (opened n cs) m
      → All IsIdle m.tasks
      → (o : Merge E) × Reach errorf m o × (o.closed ≡ true) × (o.output ≡ m.output)
  unfolding opened
  cut_short n cs m ends r idle =
      let cut = record m { done = true } in
      let (o, s, over, same) =
        quiet_run (suc (measure cut)) cut (omega arith)
          (record { ends = Reach-HasEnds errorf r (ends, tt); done = refl; idle = idle }) in
      (o, Reach-trans (later here cancel) s, over, same)
