-- ===== src/Client/Streams/Delivery.antt =====
-- What the reader of a stream of client/client_stream.go receives.
use kubebrain_client.Prelude.{
  ◌≡◌, ◌≢◌, ◌↔◌, refl, ap, true, false, none, some, List, [], ◌∷◌, arith, Bytes, Chan,
}
use kubebrain_client.Rpc.Messages.{ResponseHeader}
use kubebrain_client.Rpc.Messages
use kubebrain_client.Rpc.Stubs.{Recv, message, eof, failure}
use kubebrain_client.Client.Streams.{
  StreamRangeResponse, WatchResponse, is_bookmark, send, fetch_stream_range_resp, fetch_watch_resp,
}

-- How a stream ends: it has not ended, or by `io.EOF`, or by an error.
pub data Ending (E : Type 0) : Type 0 where
  pending : Ending E
  over : Ending E
  broken : E → Ending E

module _ {E A : Type 0} where
  -- The messages before the end.
  abbrev pub received : List (Recv E A) → List A
  received [] = []
  received (eof ∷ stream) = []
  received (failure e ∷ stream) = []
  received (message m ∷ stream) = m ∷ received stream

  abbrev pub ending : List (Recv E A) → Ending E
  ending [] = pending
  ending (eof ∷ stream) = over
  ending (failure e ∷ stream) = broken e
  ending (message m ∷ stream) = ending stream

-- A channel with these values and then what the end of the stream gives.
abbrev pub delivers : {E A B : Type 0} → (A → B) → (E → B) → List A → Ending E → Chan B
delivers value error [] pending = record { sent = []; closed = false }
delivers value error [] over = record { sent = []; closed = true }
delivers value error [] (broken e) = record { sent = error e ∷ []; closed = true }
delivers value error (m ∷ ms) end = send (value m) (delivers value error ms end)

module _ {E : Type 0} where
  abbrev pub range_value : Messages.StreamRangeResponse → StreamRangeResponse E
  range_value m = record {
    range_response = m.range_response;
    stream_err = record { close_err = none; cancel_reason = m.err };
  }

  abbrev pub range_error : E → StreamRangeResponse E
  range_error e = record {
    range_response = none;
    stream_err = record { close_err = some e; cancel_reason = [] };
  }

  abbrev pub watch_value : Messages.WatchResponse → WatchResponse E
  watch_value m = record {
    header = m.header;
    events = m.events;
    stream_err = record { close_err = none; cancel_reason = m.err };
  }

  abbrev pub watch_failed : E → WatchResponse E
  watch_failed e = record {
    header = none;
    events = [];
    stream_err = record { close_err = some e; cancel_reason = [] };
  }

  -- The reader of a range stream gets each message before the end of the stream, in order; then, if
  -- the stream breaks, one response with its error; and the channel is closed exactly if the stream
  -- ends.
  pub fetch_range_delivers :
      (stream : List (Recv E Messages.StreamRangeResponse))
      → fetch_stream_range_resp stream
        ≡ delivers range_value range_error (received stream) (ending stream)
  unfolding fetch_stream_range_resp
  fetch_range_delivers [] = refl
  fetch_range_delivers (eof ∷ stream) = refl
  fetch_range_delivers (failure e ∷ stream) = refl
  fetch_range_delivers (message m ∷ stream) =
      ap (send (range_value m)) (fetch_range_delivers stream)

  -- The reader of a watch gets each message before the end of the stream, in order; then, if the
  -- stream breaks, one response with its error; and the channel is closed exactly if the stream
  -- ends.
  pub fetch_watch_delivers :
      (stream : List (Recv E Messages.WatchResponse))
      → fetch_watch_resp stream
        ≡ delivers watch_value watch_failed (received stream) (ending stream)
  unfolding fetch_watch_resp
  fetch_watch_delivers [] = refl
  fetch_watch_delivers (eof ∷ stream) = refl
  fetch_watch_delivers (failure e ∷ stream) = refl
  fetch_watch_delivers (message m ∷ stream) =
      ap (send (watch_value m)) (fetch_watch_delivers stream)

  -- A response that is not nil is a bookmark exactly if it has no error, no event, and a header
  -- whose revision is not 0, whatever error fmt.Errorf makes of the server's reason.
  is_bookmark_iff :
      (errorf : Bytes → E) (w : WatchResponse E)
      → (is_bookmark errorf (some w) ≡ true) ↔ (
          (w.stream_err.close_err ≡ none)
          × (w.stream_err.cancel_reason ≡ [])
          × (w.events ≡ [])
          × ((h : ResponseHeader) × (w.header ≡ some h) × (h.revision ≢ 0)))
  unfolding is_bookmark
  is_bookmark_iff errorf w = ground arith
