-- ===== src/Client/Streams.antt =====
-- client/client_stream.go, and the responses of client/interface.go. A channel is all that is sent
-- to it in the end, and whether it is closed; `Pipe` has the same loops a step at a time, with the
-- buffer of the channel and a reader that may stop.
pub mod Delivery
pub mod Pipe
use kubebrain_client.Prelude.{
  ℕ, suc, ◌+◌, ◌-◌, Bool, true, false, not, ◌&&◌, Option, none, some, List, [], ◌∷◌, Bytes, Result,
  ok, err, Chan, leb, ltb, ◌==◌, if◌then◌else◌, length, get_or,
}
use kubebrain_client.Prelude.Int.{pos}
use kubebrain_client.Rpc.Messages.{
  ResponseHeader, RangeRequest, RangeResponse, ListPartitionRequest, ListPartitionResponse, Event,
  WatchRequest,
}
use kubebrain_client.Rpc.Messages
use kubebrain_client.Rpc.Stubs.{
  Recv, message, eof, failure, Conn, read_list_partition, read_range_stream, watch_watch,
}
use kubebrain_client.Client.Options.{
  WatchOption, RangeStreamOption, RangeStreamRequest, decorate_all, decorate_watch_req,
  decorate_stream_range_req,
}

-- `streamErr`
pub record StreamErr (E : Type 0) : Type 0 where
  pub close_err : Option E
  pub cancel_reason : Bytes

pub record StreamRangeResponse (E : Type 0) : Type 0 where
  pub range_response : Option RangeResponse
  pub stream_err : StreamErr E

pub record WatchResponse (E : Type 0) : Type 0 where
  pub header : Option ResponseHeader
  pub events : List (Option Event)
  pub stream_err : StreamErr E

-- `ResponseHeader.GetRevision`, for a pointer that may be nil
unfoldable pub get_revision : Option ResponseHeader → ℕ
get_revision none = 0
get_revision (some m) = m.revision

unfoldable pub new_stream_err_with_reason : {E : Type 0} → Bytes → StreamErr E
new_stream_err_with_reason reason = record { close_err = none; cancel_reason = reason }

unfoldable pub new_stream_err_with_rpc_err : {E : Type 0} → E → StreamErr E
new_stream_err_with_rpc_err e = record { close_err = some e; cancel_reason = [] }

-- `streamErr.Err`; `fmt.Errorf` makes an error of a text.
module _ {E : Type 0} (errorf : Bytes → E) where
  unfoldable pub err_of : StreamErr E → Option E
  err_of s = elim s.close_err [
    | some e ↦ some e
    | none ↦ if length s.cancel_reason == 0 then none else some (errorf s.cancel_reason)
  ]

  is_nil : Option E → Bool
  is_nil none = true
  is_nil (some e) = false

  -- `WatchResponse.IsBookmark`
  unfoldable pub is_bookmark : Option (WatchResponse E) → Bool
  unfolding err_of is_nil get_revision
  is_bookmark none = false
  is_bookmark (some w) =
      is_nil (err_of w.stream_err) && length w.events == 0 && not (get_revision w.header == 0)

-- `ch <- a`, before what is sent later
abbrev pub send : {A : Type 0} → A → Chan A → Chan A
send a ch = record ch { sent = a ∷ ch.sent }

module _ {E : Type 0} where
  error_response : E → StreamRangeResponse E
  unfolding new_stream_err_with_rpc_err
  error_response e = record { range_response = none; stream_err = new_stream_err_with_rpc_err e }

  -- `ch <- resp; close(ch)`
  unfoldable pub one_error : E → Chan (StreamRangeResponse E)
  unfolding error_response
  one_error e = record { sent = error_response e ∷ []; closed = true }

  -- `fetchStreamRangeResp`: a stream that gives nothing more leaves the channel open.
  unfoldable pub fetch_stream_range_resp :
      List (Recv E Messages.StreamRangeResponse) → Chan (StreamRangeResponse E)
  unfolding one_error new_stream_err_with_reason
  fetch_stream_range_resp [] = record { sent = []; closed = false }
  fetch_stream_range_resp (eof ∷ stream) = record { sent = []; closed = true }
  fetch_stream_range_resp (failure e ∷ stream) = one_error e
  fetch_stream_range_resp (message m ∷ stream) =
      send
        (record {
          range_response = m.range_response;
          stream_err = new_stream_err_with_reason m.err;
        })
        (fetch_stream_range_resp stream)

  unfoldable pub watch_error : E → Chan (WatchResponse E)
  unfolding new_stream_err_with_rpc_err
  watch_error e = record {
    sent = record { header = none; events = []; stream_err = new_stream_err_with_rpc_err e } ∷ [];
    closed = true;
  }

  -- `fetchWatchResp`
  unfoldable pub fetch_watch_resp : List (Recv E Messages.WatchResponse) → Chan (WatchResponse E)
  unfolding watch_error new_stream_err_with_reason
  fetch_watch_resp [] = record { sent = []; closed = false }
  fetch_watch_resp (eof ∷ stream) = record { sent = []; closed = true }
  fetch_watch_resp (failure e ∷ stream) = watch_error e
  fetch_watch_resp (message m ∷ stream) =
      send
        (record {
          header = m.header;
          events = m.events;
          stream_err = new_stream_err_with_reason m.err;
        })
        (fetch_watch_resp stream)

  watch_opened : Result E (List (Recv E Messages.WatchResponse)) → Chan (WatchResponse E)
  unfolding watch_error fetch_watch_resp
  watch_opened (err e) = watch_error e
  watch_opened (ok stream) = fetch_watch_resp stream

unfoldable pub watch_request : Bytes → List WatchOption → WatchRequest
unfolding decorate_watch_req
watch_request key opts = decorate_all decorate_watch_req opts (record {
  key = key;
  end = [];
  revision = 0;
  filter = none;
  allow_watch_bookmarks = false;
  unrecognized = [];
})

-- `Watch`
unfoldable pub watch : {E : Type 0} → Conn E → Bytes → List WatchOption → Chan (WatchResponse E)
unfolding watch_request watch_opened watch_watch
watch cc key opts = watch_opened (watch_watch cc (watch_request key opts))
