-- ===== src/Client/RangeStream/Merge/Measure.antt =====
-- What the concurrent range stream of client/client_stream.go has left to do.
use kubebrain_client.Prelude.{
  ◌*◌, ◌<◌, if◌then◌else◌, ℕ, zero, suc, ◌+◌, ◌≡◌, ap, inl, inr, Bool, true, false, some, List, [],
  ◌∷◌, ◌++◌, ◌||◌, arith, Bytes, Chan, get_elem?, set, length,
}
use kubebrain_client.Client.Streams.{StreamRangeResponse}
use kubebrain_client.Client.RangeStream.Merge.{
  skipped, receiving, sending, ended, Task, Merge, Effect, advance, task_of,
}
use kubebrain_client.Client.RangeStream.Merge.Invariant.{phase_cases, input_cases}

module _ {E : Type 0} where
  -- The steps that a callback has left at most, and those of all of it.
  abbrev pub effort : Task E → ℕ
  effort t = elim t.phase [
    | receiving ↦ 2 + 2 * length t.input
    | sending ↦ 1 + 2 * length t.input
    | ended how ↦ 0
  ]

  abbrev pub total : List (Task E) → ℕ
  total [] = 0
  total (t ∷ ts) = effort t + total ts

  abbrev pub queued : List (Chan (StreamRangeResponse E)) → ℕ
  queued [] = 0
  queued (c ∷ cs) = 3 + 2 * length c.sent + queued cs

  abbrev pub measure : Merge E → ℕ
  measure m = queued m.waiting + total m.tasks + (if m.closed then 0 else 1)

  pub total-join : (ts : List (Task E)) (t : Task E) → total (ts ++ t ∷ []) ≡ total ts + effort t
  total-join [] t = omega arith
  total-join (u ∷ ts) t = omega (arith, total-join ts t)

  pub total-set :
      (ts : List (Task E)) (i : ℕ) (t u : Task E)
      → get_elem? ts i ≡ some t
      → effort u < effort t
      → total (set ts i u) < total ts
  total-set [] i t u h less = cc
  total-set (v ∷ ts) zero t u h less = let same : effort v ≡ effort t = ground arith in omega arith
  total-set (v ∷ ts) (suc i) t u h less = omega (arith, total-set ts i t u h less)

  module _ (errorf : Bytes → E) where
    pub advance_less :
        (done : Bool) (t : Task E) (f : Effect E)
        → advance errorf done t ≡ some f
        → effort f.task < effort t
    unfolding advance
    advance_less done t f e = elim (phase_cases t.phase) [
      | inl p ↦ elim (input_cases t.input) [
        | inl none_left ↦ ground (arith, p, none_left)
        | inr (x, r, first) ↦ ground (arith, p, first)
      ]
      | inr (inl p) ↦ elim (input_cases t.input) [
        | inl none_left ↦ absurd (ground (arith, p, none_left))
        | inr (x, r, first) ↦ ground (arith, p, first)
      ]
      | inr (inr (how, p)) ↦ absurd (ground (arith, p))
    ]

    -- Any step but the cancelling of the caller's context brings the end nearer.
    pub run_less :
        (m : Merge E) (i : ℕ) (t : Task E) (f : Effect E)
        → get_elem? m.tasks i ≡ some t
        → advance errorf m.done t ≡ some f
        → measure (record m {
          tasks = set m.tasks i f.task;
          output = m.output ++ f.sent;
          done = m.done || f.cancels;
        })
          < measure m
    run_less m i t f h e = omega (arith, total-set m.tasks i t f.task h (advance_less m.done t f e))

  pub go_less :
      (m : Merge E) (c : Chan (StreamRangeResponse E)) (cs : List (Chan (StreamRangeResponse E)))
      → m.waiting ≡ c ∷ cs
      → measure (record m { waiting = cs; tasks = m.tasks ++ task_of receiving c ∷ [] }) < measure m
  go_less m c cs w = omega (arith, ap queued w, total-join m.tasks (task_of receiving c))

  pub skip_less :
      (m : Merge E) (c : Chan (StreamRangeResponse E)) (cs : List (Chan (StreamRangeResponse E)))
      → m.waiting ≡ c ∷ cs
      → measure (record m { waiting = cs; tasks = m.tasks ++ task_of (ended skipped) c ∷ [] })
        < measure m
  skip_less m c cs w = omega (arith, ap queued w, total-join m.tasks (task_of (ended skipped) c))

  pub close_less :
      (m : Merge E) → m.closed ≡ false → measure (record m { closed = true }) < measure m
  close_less m c = rw c (omega arith)
