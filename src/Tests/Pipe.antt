-- ===== src/Tests/Pipe.antt =====
-- Runs of the goroutines of streams of client/client_stream.go.
use kubebrain_client.Prelude.{
  ◌*◌, ◌≤◌, ◌≡◌, ◌≢◌, ◌⊎◌, refl, arith, true, false, none, List, [], ◌∷◌, Bytes, codes,
}
use kubebrain_client.Rpc.Messages
use kubebrain_client.Rpc.Stubs.{Recv, message, eof, failure}
use kubebrain_client.Client.Streams.{
  StreamRangeResponse, WatchResponse, fetch_stream_range_resp, fetch_watch_resp,
}
use kubebrain_client.Client.Streams.Delivery.{range_value, range_error, watch_value, watch_failed}
use kubebrain_client.Client.Streams.Pipe.{
  Pipe, sending, ended, started, after_recv, after_send, recv, put, take, stop, Reach, here, later,
}
use kubebrain_client.Client.Streams.Pipe.Leak.{reader_leaves}
use kubebrain_client.Client.Streams.Pipe.Reader.{
  InOrder, Advances, IsThrough, range_reader_gets, watch_reader_gets,
}

abbrev page : Messages.StreamRangeResponse
page = record { range_response = none; err = []; unrecognized = [] }

abbrev response : StreamRangeResponse Bytes
response = range_value page

abbrev pages : List (Recv Bytes Messages.StreamRangeResponse)
pages = message page ∷ message page ∷ failure (codes "EOF?") ∷ []

abbrev RangePipe : Type 0
RangePipe = Pipe Bytes Messages.StreamRangeResponse (StreamRangeResponse Bytes)

-- The reader has one page, and the goroutine the next in hand.
abbrev halfway : RangePipe
halfway = record {
  incoming = failure (codes "EOF?") ∷ [];
  phase = sending response false;
  buffer = [];
  received = response ∷ [];
  reading = true;
}

halfway_run : Reach range_value range_error (started pages) halfway
unfolding after_recv after_send
halfway_run =
    later
      (later
        (later
          (later here (recv (message page) (message page ∷ failure (codes "EOF?") ∷ []) refl refl))
          (put response false refl (omega arith)))
        (recv (message page) (failure (codes "EOF?") ∷ []) refl refl))
      (take response [] refl refl)

range_reader_gets_example :
    (4 ≤ 3 * 3)
    × InOrder (fetch_stream_range_resp pages) halfway
    × (Advances range_value range_error halfway
        ⊎ IsThrough range_value range_error (fetch_stream_range_resp pages) halfway)
unfolding halfway_run
range_reader_gets_example = range_reader_gets pages halfway halfway_run refl

abbrev news : Messages.WatchResponse
news = record { header = none; events = []; err = codes "compacted"; unrecognized = [] }

abbrev watched : List (Recv Bytes Messages.WatchResponse)
watched = message news ∷ eof ∷ []

abbrev closed : Pipe Bytes Messages.WatchResponse (WatchResponse Bytes)
closed = record {
  incoming = [];
  phase = ended;
  buffer = [];
  received = watch_value news ∷ [];
  reading = true;
}

closed_run : Reach watch_value watch_failed (started watched) closed
unfolding after_recv after_send
closed_run =
    later
      (later
        (later (later here (recv (message news) (eof ∷ []) refl refl))
          (put (watch_value news) false refl (omega arith)))
        (take (watch_value news) [] refl refl))
      (recv eof [] refl refl)

watch_reader_gets_example :
    (4 ≤ 3 * 2)
    × InOrder (fetch_watch_resp watched) closed
    × (Advances watch_value watch_failed closed
        ⊎ IsThrough watch_value watch_failed (fetch_watch_resp watched) closed)
unfolding closed_run
watch_reader_gets_example = watch_reader_gets watched closed closed_run refl

-- The reader stops at the first page, of which the buffer holds one and the goroutine the next.
abbrev left_alone : RangePipe
left_alone = record (started pages) { reading = false }

abbrev blocked : RangePipe
blocked = record {
  incoming = failure (codes "EOF?") ∷ [];
  phase = sending response false;
  buffer = response ∷ [];
  received = [];
  reading = false;
}

blocked_run : Reach range_value range_error left_alone blocked
unfolding after_recv after_send
blocked_run =
    later
      (later
        (later here (recv (message page) (message page ∷ failure (codes "EOF?") ∷ []) refl refl))
        (put response false refl (omega arith)))
      (recv (message page) (failure (codes "EOF?") ∷ []) refl refl)

reader_leaves_example : (blocked.phase ≢ ended) × (blocked.received ≡ [])
reader_leaves_example =
    reader_leaves range_value range_error pages left_alone blocked (later here stop) refl
      (omega arith) blocked_run
