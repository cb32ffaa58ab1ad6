-- ===== src/Client/Streams/Pipe/Leak.antt =====
-- What the goroutine of a stream of client/client_stream.go does if the reader stops.
use kubebrain_client.Prelude.{
  ℕ, ◌+◌, ◌≤◌, ◌<◌, ◌≡◌, ◌≢◌, refl, ap, ◌∙◌, false, List, [], ◌∷◌, arith, length, length-append,
}
use kubebrain_client.Rpc.Stubs.{Recv}
use kubebrain_client.Client.Streams.Pipe.{
  receiving, ended, Pipe, capacity, started, Step, recv, put, take, stop, Reach, here, later,
}
use kubebrain_client.Client.Streams.Pipe.Flow.{
  pending, pending-after_recv, pending-after_send, Reach-Flows,
}

module _ {E M A : Type 0} (value : M → A) (error : E → A) where
  -- The responses that are in the buffer, and those that the goroutine still has to send.
  abbrev pub unread : Pipe E M A → ℕ
  unread p = length p.buffer + length (pending value error p.phase p.incoming).sent

  -- Nobody reads, and there is more than fits.
  record IsAbandoned (p : Pipe E M A) : Type 0 where
    left_alone : p.reading ≡ false
    too_many : capacity < unread p
    bounded : length p.buffer ≤ capacity

  step-IsAbandoned :
      {p q : Pipe E M A}
      → Step value error p q
      → IsAbandoned p
      → IsAbandoned q × (q.received ≡ p.received)
  step-IsAbandoned {p} (recv x rest e i) v = (
    record {
      left_alone = v.left_alone;
      too_many = omega (
        arith,
        v.too_many,
        ap (λ c. length c.sent) (pending-after_recv value error x rest),
        ap (λ f. length (pending value error f p.incoming).sent) e,
        ap (λ s. length (pending value error receiving s).sent) i,
      );
      bounded = v.bounded;
    },
    refl,
  )
  step-IsAbandoned {p} (put x breaks e room) v = (
    record {
      left_alone = v.left_alone;
      too_many = omega (
        arith,
        v.too_many,
        length-append p.buffer (x ∷ []),
        ap (λ c. length c.sent) (pending-after_send value error x breaks p.incoming),
        ap (λ f. length (pending value error f p.incoming).sent) e,
      );
      bounded = omega (arith, length-append p.buffer (x ∷ []));
    },
    refl,
  )
  step-IsAbandoned {p} (take x xs reads b) v = absurd (ground (arith, reads, v.left_alone))
  step-IsAbandoned stop v =
      (record { left_alone = refl; too_many = v.too_many; bounded = v.bounded }, refl)

  reach-IsAbandoned :
      {p q : Pipe E M A}
      → Reach value error p q
      → IsAbandoned p
      → IsAbandoned q × (q.received ≡ p.received)
  reach-IsAbandoned here v = (v, refl)
  reach-IsAbandoned (later r st) v =
      let (w, same) = reach-IsAbandoned r v in
      let (w', same') = step-IsAbandoned st w in (w', same' ∙ same)

  -- If the reader of a range stream or of a watch stops while more than one response is in the
  -- buffer or still to be sent, the error of a stream that is cancelled among them, then the
  -- goroutine of the stream never ends and its channel is never closed, and nothing more is read.
  pub reader_leaves :
      (stream : List (Recv E M)) (p q : Pipe E M A)
      → Reach value error (started stream) p
      → p.reading ≡ false
      → capacity < unread p
      → Reach value error p q
      → (q.phase ≢ ended) × (q.received ≡ p.received)
  reader_leaves stream p q r alone many s =
      let (w, same) = reach-IsAbandoned s (record {
        left_alone = alone;
        too_many = many;
        bounded = (Reach-Flows value error stream r).bounded;
      }) in
      (
        λ e. omega (
          arith,
          w.too_many,
          w.bounded,
          ap (λ f. length (pending value error f q.incoming).sent) e,
        ),
        same,
      )
