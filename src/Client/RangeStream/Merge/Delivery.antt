-- ===== src/Client/RangeStream/Merge/Delivery.antt =====
-- What comes out of the concurrent range stream of client/client_stream.go.
use mathlib.Core.List.{append-nil}
use kubebrain_client.Prelude.{
  All, ℕ, ◌≡◌, refl, ap, ◌∙◌, sym, true, false, List, [], ◌∷◌, ◌++◌, arith, Bytes, Chan,
}
use kubebrain_client.Client.Streams.{StreamRangeResponse}
use kubebrain_client.Client.RangeStream.Merge.{Task, Merge, all_ended, Reach, opened}
use kubebrain_client.Client.RangeStream.Merge.Parts.{Interleaved, sent_of, Shares, Starts}
use kubebrain_client.Client.RangeStream.Merge.Invariant.{IsClean, ended_at, Reach-Inv}

module _ {E : Type 0} (errorf : Bytes → E) where
  -- The parts that have come out, the first inputs' each, are the starts of these inputs.
  Shares-Starts :
      (ts : List (Task E)) (parts joined rest : List (List (StreamRangeResponse E)))
      → Shares ts parts joined
      → Starts parts (joined ++ rest)
  Shares-Starts [] [] joined rest s = tt
  Shares-Starts [] (part ∷ parts) inputs rest s = absurd s
  Shares-Starts (t ∷ ts) [] inputs rest s = absurd s
  Shares-Starts (t ∷ ts) (part ∷ parts) [] rest s = absurd s
  Shares-Starts (t ∷ ts) (part ∷ parts) (input ∷ inputs) rest s =
      ((t.input, s.0), Shares-Starts ts parts inputs rest s.1)

  Shares-whole :
      (ts : List (Task E)) (parts joined : List (List (StreamRangeResponse E)))
      → all_ended ts ≡ true
      → All IsClean ts
      → Shares ts parts joined
      → parts ≡ joined
  unfolding all_ended
  Shares-whole [] [] [] e a s = refl
  Shares-whole [] [] (input ∷ inputs) e a s = absurd s
  Shares-whole [] (part ∷ parts) inputs e a s = absurd s
  Shares-whole (t ∷ ts) [] inputs e a s = absurd s
  Shares-whole (t ∷ ts) (part ∷ parts) [] e a s = absurd s
  Shares-whole (t ∷ ts) (part ∷ parts) (input ∷ inputs) e a s =
      let (how, p) = ended_at (t ∷ ts) 0 t e refl in
      let whole : part ≡ input =
        sym (append-nil part) ∙ ap (λ r. part ++ r) (sym (a.0 how p).1) ∙ s.0 in
      ap (λ p. p ∷ parts) whole
      ∙ ap (λ ps. input ∷ ps) (Shares-whole ts parts inputs (ground arith) a.1 s.1)

  module _ (n : ℕ) (cs : List (Chan (StreamRangeResponse E))) (m : Merge E)
      (r : Reach errorf (opened n cs) m) where
    -- At any time, whatever has been cancelled or has failed, the output of a concurrent range
    -- stream interleaves starts of what the partitions' streams send: no response is twice in it,
    -- none is made up, and those of one partition are in their order, without a gap.
    pub merge_order :
        (parts : List (List (StreamRangeResponse E))) × Interleaved parts m.output
        × Starts parts (sent_of cs)
    merge_order =
        let v = Reach-Inv errorf n cs r in
        (
          v.parts,
          v.order,
          rw (← v.whole) (Shares-Starts m.tasks v.parts v.joined (sent_of m.waiting) v.shares),
        )

    -- If the output of a concurrent range stream is closed and the context is not done, then it
    -- interleaves all that the partitions' streams send: nothing is lost, with whatever limit of
    -- callbacks.
    pub merge_complete : m.closed ≡ true → m.done ≡ false → Interleaved (sent_of cs) m.output
    merge_complete closed calm =
        let v = Reach-Inv errorf n cs r in
        let (none_waits, e) = v.over closed in
        let same = Shares-whole m.tasks v.parts v.joined e (v.clean calm) v.shares in
        let all : v.parts ≡ sent_of cs =
          same
          ∙ sym (append-nil v.joined)
          ∙ ap (λ ws. v.joined ++ sent_of ws) (sym none_waits)
          ∙ v.whole in
        rw (← all) v.order
