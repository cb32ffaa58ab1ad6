-- ===== src/Client/Streams/Pipe/Flow.antt =====
-- What flows through the channel of a stream of client/client_stream.go.
use mathlib.Core.List.{append_assoc}
use kubebrain_client.Prelude.{
  ◌≤◌, ◌≡◌, refl, ap, ◌∙◌, sym, Bool, true, false, List, [], ◌∷◌, ◌++◌, arith, Chan, length,
  length-append,
}
use kubebrain_client.Rpc.Stubs.{Recv, message, eof, failure}
use kubebrain_client.Client.Streams.{send}
use kubebrain_client.Client.Streams.Delivery.{received, ending, delivers}
use kubebrain_client.Client.Streams.Pipe.{
  Phase, receiving, sending, ended, Pipe, capacity, started, after_recv, after_send, Step, recv,
  put, take, stop, Reach, here, later,
}

module _ {E M A : Type 0} (value : M → A) (error : E → A) where
  -- All that a stream delivers in the end.
  abbrev pub delivered : List (Recv E M) → Chan A
  delivered stream = delivers value error (received stream) (ending stream)

  -- What the goroutine still sends.
  abbrev pub pending : Phase A → List (Recv E M) → Chan A
  pending receiving stream = delivered stream
  pending (sending x false) stream = send x (delivered stream)
  pending (sending x true) stream = record { sent = x ∷ []; closed = true }
  pending ended stream = record { sent = []; closed = true }

  -- Nothing is lost, doubled or out of order between the stream and the reader.
  pub record Flows (stream : List (Recv E M)) (p : Pipe E M A) : Type 0 where
    pub order :
        p.received ++ (p.buffer ++ (pending p.phase p.incoming).sent) ≡ (delivered stream).sent
    pub end : (pending p.phase p.incoming).closed ≡ (delivered stream).closed
    pub bounded : length p.buffer ≤ capacity

  pub pending-after_recv :
      (x : Recv E M) (rest : List (Recv E M))
      → pending (after_recv value error x) rest ≡ delivered (x ∷ rest)
  unfolding after_recv
  pending-after_recv (message m) rest = refl
  pending-after_recv eof rest = refl
  pending-after_recv (failure e) rest = refl

  pub pending-after_send :
      (x : A) (breaks : Bool) (rest : List (Recv E M))
      → pending (sending x breaks) rest ≡ send x (pending (after_send value error breaks) rest)
  unfolding after_send
  pending-after_send x false rest = refl
  pending-after_send x true rest = refl

  step-Flows :
      (stream : List (Recv E M)) {p q : Pipe E M A}
      → Step value error p q
      → Flows stream p
      → Flows stream q
  step-Flows stream {p} (recv x rest e i) v =
      let same : pending (after_recv value error x) rest ≡ pending p.phase p.incoming =
        pending-after_recv x rest ∙ sym (ap delivered i) ∙ sym (ap (λ f. pending f p.incoming) e) in
      record {
        order = ap (λ c. p.received ++ (p.buffer ++ c.sent)) same ∙ v.order;
        end = ap (λ c. c.closed) same ∙ v.end;
        bounded = v.bounded;
      }
  step-Flows stream {p} (put x breaks e room) v =
      let same : pending p.phase p.incoming
          ≡ send x (pending (after_send value error breaks) p.incoming) =
        ap (λ f. pending f p.incoming) e ∙ pending-after_send x breaks p.incoming in
      record {
        order =
            ap (λ l. p.received ++ l)
              (append_assoc p.buffer (x ∷ [])
                (pending (after_send value error breaks) p.incoming).sent)
            ∙ sym (ap (λ c. p.received ++ (p.buffer ++ c.sent)) same)
            ∙ v.order;
        end = sym (ap (λ c. c.closed) same) ∙ v.end;
        bounded = omega (arith, length-append p.buffer (x ∷ []));
      }
  step-Flows stream {p} (take x xs r b) v = record {
    order =
        append_assoc p.received (x ∷ []) (xs ++ (pending p.phase p.incoming).sent)
        ∙ sym (ap (λ l. p.received ++ (l ++ (pending p.phase p.incoming).sent)) b)
        ∙ v.order;
    end = v.end;
    bounded = omega (arith, ap length b, v.bounded);
  }
  step-Flows stream stop v = record { order = v.order; end = v.end; bounded = v.bounded }

  pub Reach-Flows :
      (stream : List (Recv E M)) {p : Pipe E M A}
      → Reach value error (started stream) p
      → Flows stream p
  Reach-Flows stream here = record { order = refl; end = refl; bounded = omega arith }
  Reach-Flows stream (later r st) = step-Flows stream st (Reach-Flows stream r)
