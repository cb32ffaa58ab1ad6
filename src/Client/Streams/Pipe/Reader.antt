-- ===== src/Client/Streams/Pipe/Reader.antt =====
-- What the reader of a stream of client/client_stream.go gets.
use mathlib.Core.List.{append-nil}
use kubebrain_client.Prelude.{
  ℕ, ◌+◌, ◌*◌, ◌≤◌, ◌<◌, ◌≡◌, refl, ap, ◌∙◌, sym, inl, inr, ◌⊎◌, Bool, true, false, List, [], ◌∷◌,
  ◌++◌, arith, Chan, length, length-append,
}
use kubebrain_client.Rpc.Messages
use kubebrain_client.Rpc.Stubs.{Recv, message, eof, failure}
use kubebrain_client.Client.Streams.{
  StreamRangeResponse, WatchResponse, fetch_stream_range_resp, fetch_watch_resp,
}
use kubebrain_client.Client.Streams.Delivery.{
  range_value, range_error, watch_value, watch_failed, fetch_range_delivers, fetch_watch_delivers,
}
use kubebrain_client.Client.Streams.Pipe.{
  Phase, receiving, sending, ended, Pipe, capacity, started, after_recv, after_send, Step, recv,
  put, take, stop, Reach, here, later,
}
use kubebrain_client.Client.Streams.Pipe.Flow.{delivered, pending, Flows, Reach-Flows}

abbrev pub is_ended : {A : Type 0} → Phase A → Bool
is_ended receiving = false
is_ended (sending x breaks) = false
is_ended ended = true

abbrev effort : {A : Type 0} → Phase A → ℕ
effort receiving = 0
effort (sending x breaks) = 2
effort ended = 0

-- The steps that are left at most, while the reader reads on.
abbrev pub left : {E M A : Type 0} → Pipe E M A → ℕ
left p = 3 * length p.incoming + effort p.phase + length p.buffer

-- The reader has got a start of what the channel carries, and the buffer holds one response at most.
abbrev pub InOrder : {E M A : Type 0} → Chan A → Pipe E M A → Type 0
InOrder {E} {M} {A} c p =
    ((rest : List A) × (p.received ++ rest ≡ c.sent)) × (length p.buffer ≤ capacity)

module _ {E M A : Type 0} (value : M → A) (error : E → A) where
  abbrev pub Advances : Pipe E M A → Type 0
  Advances p = (q : Pipe E M A) × Step value error p q × (left q < left p)

  -- The reader has got all of it, and the channel is closed if it ever is.
  abbrev pub IsThrough : Chan A → Pipe E M A → Type 0
  IsThrough c p = (p.received ≡ c.sent) × (is_ended p.phase ≡ c.closed)

  effort-after_recv : (x : Recv E M) → effort (after_recv value error x) ≤ 2
  unfolding after_recv
  effort-after_recv (message m) = omega arith
  effort-after_recv eof = omega arith
  effort-after_recv (failure e) = omega arith

  effort-after_send : (breaks : Bool) → effort (after_send value error breaks) ≡ 0
  unfolding after_send
  effort-after_send false = refl
  effort-after_send true = refl

  buffer_cases : (xs : List A) → (xs ≡ []) ⊎ ((x : A) × (rest : List A) × (xs ≡ x ∷ rest))
  buffer_cases [] = inl refl
  buffer_cases (x ∷ rest) = inr (x, rest, refl)

  incoming_cases :
      (s : List (Recv E M))
      → (s ≡ []) ⊎ ((x : Recv E M) × (rest : List (Recv E M)) × (s ≡ x ∷ rest))
  incoming_cases [] = inl refl
  incoming_cases (x ∷ rest) = inr (x, rest, refl)

  phase_cases :
      (f : Phase A)
      → (f ≡ receiving) ⊎ (f ≡ ended) ⊎ ((x : A) × (breaks : Bool) × (f ≡ sending x breaks))
  phase_cases receiving = inl refl
  phase_cases ended = inr (inl refl)
  phase_cases (sending x breaks) = inr (inr (x, breaks, refl))

  -- With an empty buffer and nothing more to send, all has been received.
  through :
      (stream : List (Recv E M)) (p : Pipe E M A)
      → Flows value error stream p
      → p.buffer ≡ []
      → (pending value error p.phase p.incoming).sent ≡ []
      → (pending value error p.phase p.incoming).closed ≡ is_ended p.phase
      → IsThrough (delivered value error stream) p
  through stream p v b s c = (
    sym (append-nil p.received)
        ∙ sym (ap (λ l. p.received ++ (p.buffer ++ l)) s ∙ ap (λ l. p.received ++ (l ++ [])) b)
        ∙ v.order,
    sym c ∙ v.end,
  )

  pub never_stuck_reading :
      (stream : List (Recv E M)) (p : Pipe E M A)
      → Flows value error stream p
      → p.reading ≡ true
      → Advances p ⊎ IsThrough (delivered value error stream) p
  never_stuck_reading stream p v reads = elim (buffer_cases p.buffer) [
    | inr (x, rest, b) ↦ inl (
      record p { buffer = rest; received = p.received ++ x ∷ [] },
      take x rest reads b,
      omega (arith, ap length b),
    )
    | inl b ↦ elim (phase_cases p.phase) [
      | inl e ↦ elim (incoming_cases p.incoming) [
        | inl i ↦
            let still : pending value error p.phase p.incoming
                ≡ record { sent = []; closed = false } =
              ap (λ f. pending value error f p.incoming) e ∙ ap (delivered value error) i in
            inr (
              through stream p v b (ap (λ c. c.sent) still)
                (ap (λ c. c.closed) still ∙ sym (ap is_ended e)))
        | inr (x, rest, i) ↦ inl (
          record p { incoming = rest; phase = after_recv value error x },
          recv x rest e i,
          omega (arith, ap length i, effort-after_recv x, ap effort e),
        )
      ]
      | inr (inl e) ↦
          let over = ap (λ f. pending value error f p.incoming) e in
          inr (
            through stream p v b (ap (λ c. c.sent) over)
              (ap (λ c. c.closed) over ∙ sym (ap is_ended e)))
      | inr (inr (x, breaks, e)) ↦ inl (
        record p { phase = after_send value error breaks; buffer = p.buffer ++ x ∷ [] },
        put x breaks e (omega (arith, ap length b)),
        omega (arith, ap effort e, effort-after_send breaks, length-append p.buffer (x ∷ [])),
      )
    ]
  ]

  pub reach-InOrder :
      (stream : List (Recv E M)) (p : Pipe E M A)
      → Flows value error stream p
      → InOrder (delivered value error stream) p
  reach-InOrder stream p v =
      ((p.buffer ++ (pending value error p.phase p.incoming).sent, v.order), v.bounded)

  -- The steps of a run, the reader's leaving not counted.
  abbrev pub moves : {p q : Pipe E M A} → Reach value error p q → ℕ
  moves here = 0
  moves (later r (recv x rest e i)) = moves r + 1
  moves (later r (put x breaks e room)) = moves r + 1
  moves (later r (take x xs reads b)) = moves r + 1
  moves (later r stop) = moves r

  pub moves-left : {p q : Pipe E M A} (r : Reach value error p q) → moves r + left q ≤ left p
  moves-left here = omega arith
  moves-left (later r (recv x rest e i)) =
      omega (arith, moves-left r, ap length i, effort-after_recv x, ap effort e)
  moves-left (later {q = q} r (put x breaks e room)) =
      omega (
        arith,
        moves-left r,
        ap effort e,
        effort-after_send breaks,
        length-append q.buffer (x ∷ []),
      )
  moves-left (later r (take x xs reads b)) = omega (arith, moves-left r, ap length b)
  moves-left (later r stop) = moves-left r

module _ {E : Type 0} where
  -- The reader of a range stream that reads on gets a start of what the stream delivers, in order,
  -- over a channel that holds one response at most; a run has at most three steps for each message,
  -- and at every point some step is possible that leaves less to do, or the reader has got each
  -- message before the end of the stream and, if the stream breaks, one response with its error,
  -- and the channel is closed exactly if the stream ends.
  pub range_reader_gets :
      (stream : List (Recv E Messages.StreamRangeResponse))
      (p : Pipe E Messages.StreamRangeResponse (StreamRangeResponse E))
      (r : Reach range_value range_error (started stream) p)
      → p.reading ≡ true
      → (moves range_value range_error r ≤ 3 * length stream)
        × InOrder (fetch_stream_range_resp stream) p
        × (Advances range_value range_error p
            ⊎ IsThrough range_value range_error (fetch_stream_range_resp stream) p)
  range_reader_gets stream p r reads =
      let v = Reach-Flows range_value range_error stream r in
      rw (fetch_range_delivers stream) (
        omega (arith, moves-left range_value range_error r),
        reach-InOrder range_value range_error stream p v,
        never_stuck_reading range_value range_error stream p v reads,
      )

  -- The reader of a watch that reads on gets a start of what the stream delivers, in order, over a
  -- channel that holds one response at most; a run has at most three steps for each message, and at
  -- every point some step is possible that leaves less to do, or the reader has got each message
  -- before the end of the stream and, if the stream breaks, one response with its error, and the
  -- channel is closed exactly if the stream ends.
  pub watch_reader_gets :
      (stream : List (Recv E Messages.WatchResponse))
      (p : Pipe E Messages.WatchResponse (WatchResponse E))
      (r : Reach watch_value watch_failed (started stream) p)
      → p.reading ≡ true
      → (moves watch_value watch_failed r ≤ 3 * length stream)
        × InOrder (fetch_watch_resp stream) p
        × (Advances watch_value watch_failed p
            ⊎ IsThrough watch_value watch_failed (fetch_watch_resp stream) p)
  watch_reader_gets stream p r reads =
      let v = Reach-Flows watch_value watch_failed stream r in
      rw (fetch_watch_delivers stream) (
        omega (arith, moves-left watch_value watch_failed r),
        reach-InOrder watch_value watch_failed stream p v,
        never_stuck_reading watch_value watch_failed stream p v reads,
      )
