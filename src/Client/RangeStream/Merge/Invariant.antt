-- ===== src/Client/RangeStream/Merge/Invariant.antt =====
-- The invariant of the callbacks of client/client_stream.go.
use mathlib.Core.List.{append_assoc, append-nil}
use kubebrain_client.Prelude.{
  All-join, All-set, All, ℕ, zero, suc, ◌≡◌, refl, ap, ◌∙◌, sym, inl, inr, ◌⊎◌, ◌||◌, Bool, true,
  false, some, List, [], ◌∷◌, ◌++◌, arith, Bytes, Chan, get_elem?, set,
}
use kubebrain_client.Client.Streams.{StreamRangeResponse}
use kubebrain_client.Client.RangeStream.Merge.{
  Ended, finished, skipped, Phase, receiving, sending, ended, Task, Merge, Effect, advance,
  is_ended, all_ended, task_of, Step, go, skip, run, cancel, close, Reach, here, later, opened,
}
use kubebrain_client.Client.RangeStream.Merge.Parts.{
  Interleaved, nothing, joins, next, sent_of, Shares, Shares-join, Shares-set, set_same,
}

module _ {E : Type 0} where
  -- A callback that has ended has ended at the end of its input.
  abbrev pub IsClean : Task E → Type 0
  IsClean t = (how : Ended E) → t.phase ≡ ended how → (how ≡ finished) × (t.input ≡ [])

  pub phase_cases :
      (p : Phase E) → (p ≡ receiving) ⊎ (p ≡ sending) ⊎ ((how : Ended E) × (p ≡ ended how))
  phase_cases receiving = inl refl
  phase_cases sending = inr (inl refl)
  phase_cases (ended how) = inr (inr (how, refl))

  pub input_cases :
      (xs : List (StreamRangeResponse E))
      → (xs ≡ [])
        ⊎ ((x : StreamRangeResponse E) × (r : List (StreamRangeResponse E)) × (xs ≡ x ∷ r))
  input_cases [] = inl refl
  input_cases (x ∷ r) = inr (x, r, refl)

  pub ended_at :
      (ts : List (Task E)) (i : ℕ) (t : Task E)
      → all_ended ts ≡ true
      → get_elem? ts i ≡ some t
      → (how : Ended E) × (t.phase ≡ ended how)
  unfolding all_ended is_ended
  ended_at [] i t h e = cc
  ended_at (u ∷ ts) zero t h e = elim (phase_cases u.phase) [
    | inl p ↦ ground (arith, p)
    | inr (inl p) ↦ ground (arith, p)
    | inr (inr (how, p)) ↦ (how, ground (arith, p))
  ]
  ended_at (u ∷ ts) (suc i) t h e = ended_at ts i t (ground arith) e

  module _ (errorf : Bytes → E) where
    -- A step of a callback sends nothing and keeps the rest, or sends the first of it.
    advance_sends :
        (done : Bool) (t : Task E) (f : Effect E)
        → advance errorf done t ≡ some f
        → ((f.sent ≡ []) × (f.task.input ≡ t.input))
          ⊎ ((x : StreamRangeResponse E) × (f.sent ≡ x ∷ []) × (t.input ≡ x ∷ f.task.input))
    unfolding advance
    advance_sends done t f e = elim (phase_cases t.phase) [
      | inl p ↦ inl (ground (arith, p))
      | inr (inl p) ↦ elim (input_cases t.input) [
        | inl none_left ↦ absurd (ground (arith, p, none_left))
        | inr (x, r, first) ↦ inr (x, ground (arith, p, first), ground (arith, p, first))
      ]
      | inr (inr (how, p)) ↦ absurd (ground (arith, p))
    ]

    advance-IsClean :
        (done : Bool) (t : Task E) (f : Effect E)
        → advance errorf done t ≡ some f
        → (done || f.cancels) ≡ false
        → IsClean f.task
    unfolding advance
    advance-IsClean done t f e calm = λ how h. ground (arith, h)

    advance_ended :
        (done : Bool) (t : Task E) (f : Effect E) (how : Ended E)
        → t.phase ≡ ended how
        → advance errorf done t ≡ some f
        → ⊥
    unfolding advance
    advance_ended done t f how h e = ground (arith, h)

  -- What is true all along of callbacks with these inputs: each has sent a part of its input, from
  -- the start, and the output interleaves the parts; none has ended early while the context is not
  -- done; and the output is closed only after all have ended.
  pub record Inv (inputs : List (List (StreamRangeResponse E))) (m : Merge E) : Type 0 where
    pub parts : List (List (StreamRangeResponse E))
    pub joined : List (List (StreamRangeResponse E))
    pub shares : Shares m.tasks parts joined
    pub whole : joined ++ sent_of m.waiting ≡ inputs
    pub order : Interleaved parts m.output
    pub clean : m.done ≡ false → All IsClean m.tasks
    pub over : m.closed ≡ true → (m.waiting ≡ []) × (all_ended m.tasks ≡ true)

  opened-Inv : (n : ℕ) (cs : List (Chan (StreamRangeResponse E))) → Inv (sent_of cs) (opened n cs)
  unfolding opened
  opened-Inv n cs = record {
    parts = [];
    joined = [];
    shares = tt;
    whole = refl;
    order = nothing;
    clean = λ calm. tt;
    over = λ h. ground (arith, h);
  }

  -- One more callback is with the others.
  join-Inv :
      (inputs : List (List (StreamRangeResponse E))) (m : Merge E)
      (c : Chan (StreamRangeResponse E)) (cs : List (Chan (StreamRangeResponse E)))
      (phase : Phase E)
      → m.waiting ≡ c ∷ cs
      → (m.done ≡ false → IsClean (task_of phase c))
      → Inv inputs m
      → Inv inputs (record m { waiting = cs; tasks = m.tasks ++ task_of phase c ∷ [] })
  join-Inv inputs m c cs phase w ok v = record {
    parts = v.parts ++ [] ∷ [];
    joined = v.joined ++ c.sent ∷ [];
    shares = Shares-join m.tasks v.parts v.joined (task_of phase c) v.shares;
    whole =
        append_assoc v.joined (c.sent ∷ []) (sent_of cs)
        ∙ ap (λ ws. v.joined ++ sent_of ws) (sym w)
        ∙ v.whole;
    order = joins v.order;
    clean = λ calm. All-join IsClean m.tasks (task_of phase c) (v.clean calm) (ok calm);
    over = λ h. absurd (ground (arith, w, v.over h));
  }

  module _ (errorf : Bytes → E) where
    -- The output after a step of callback `i`, by what it sent.
    interleave :
        (parts : List (List (StreamRangeResponse E))) (out : List (StreamRangeResponse E)) (i : ℕ)
        (part sent : List (StreamRangeResponse E))
        → get_elem? parts i ≡ some part
        → (sent ≡ []) ⊎ ((x : StreamRangeResponse E) × (sent ≡ x ∷ []))
        → Interleaved parts out
        → Interleaved (set parts i (part ++ sent)) (out ++ sent)
    interleave parts out i part sent h (inl e) order =
        rw (e, append-nil part, append-nil out, set_same parts i part h) order
    interleave parts out i part sent h (inr (x, e)) order = rw e (next i part x h order)

    run-Inv :
        (inputs : List (List (StreamRangeResponse E))) (m : Merge E) (i : ℕ) (t : Task E)
        (f : Effect E)
        → get_elem? m.tasks i ≡ some t
        → advance errorf m.done t ≡ some f
        → Inv inputs m
        → Inv inputs (record m {
          tasks = set m.tasks i f.task;
          output = m.output ++ f.sent;
          done = m.done || f.cancels;
        })
    run-Inv inputs m i t f h e v =
        let how = advance_sends errorf m.done t f e in
        let rest : t.input ≡ f.sent ++ f.task.input = ground (arith, how) in
        let (part, there, shares) =
          Shares-set m.tasks v.parts v.joined i t f.task f.sent h rest v.shares in
        record {
          parts = set v.parts i (part ++ f.sent);
          joined = v.joined;
          shares = shares;
          whole = v.whole;
          order =
              interleave v.parts m.output i part f.sent there
                (elim how [ inl (n, _) ↦ inl n | inr (x, n, _) ↦ inr (x, n) ]) v.order;
          clean = λ calm.
              All-set IsClean m.tasks i f.task (v.clean (ground arith))
                (advance-IsClean errorf m.done t f e calm);
          over = λ closed.
              let (ending, p) = ended_at m.tasks i t (v.over closed).1 h in
              absurd (advance_ended errorf m.done t f ending p e);
        }

    step-Inv :
        (inputs : List (List (StreamRangeResponse E))) {m n : Merge E}
        → Step errorf m n
        → Inv inputs m
        → Inv inputs n
    step-Inv inputs {m} (go c cs w) v =
        join-Inv inputs m c cs receiving w (λ calm how h. ground (arith, h)) v
    step-Inv inputs {m} (skip c cs w limited done) v =
        join-Inv inputs m c cs (ended skipped) w (λ calm. absurd (ground (arith, calm, done))) v
    step-Inv inputs {m} (run i t f h e) v = run-Inv inputs m i t f h e v
    step-Inv inputs cancel v = record {
      parts = v.parts;
      joined = v.joined;
      shares = v.shares;
      whole = v.whole;
      order = v.order;
      clean = λ calm. absurd (ground (arith, calm));
      over = v.over;
    }
    step-Inv inputs (close w e c) v = record {
      parts = v.parts;
      joined = v.joined;
      shares = v.shares;
      whole = v.whole;
      order = v.order;
      clean = v.clean;
      over = λ closed. (w, e);
    }

    pub Reach-Inv :
        (n : ℕ) (cs : List (Chan (StreamRangeResponse E))) {m : Merge E}
        → Reach errorf (opened n cs) m
        → Inv (sent_of cs) m
    Reach-Inv n cs here = opened-Inv n cs
    Reach-Inv n cs (later r st) = step-Inv (sent_of cs) st (Reach-Inv n cs r)
