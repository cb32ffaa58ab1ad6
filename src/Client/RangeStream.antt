-- ===== src/Client/RangeStream.antt =====
-- The range streams of client/client_stream.go: by one stream, or by one for each partition.
pub mod Partitions
pub mod Merge
pub mod Snapshot
use kubebrain_client.Prelude.{
  ℕ, zero, suc, ◌+◌, ◌-◌, Bool, true, false, Option, none, some, List, [], ◌∷◌, Bytes, Result, ok,
  err, Chan, leb, ◌==◌, if◌then◌else◌, length, get_or,
}
use kubebrain_client.Prelude.Int.{pos}
use kubebrain_client.Rpc.Messages.{
  ResponseHeader, RangeRequest, ListPartitionRequest, ListPartitionResponse,
}
use kubebrain_client.Rpc.Messages
use kubebrain_client.Rpc.Stubs.{Recv, Conn, read_list_partition, read_range_stream}
use kubebrain_client.Client.Options.{
  RangeStreamOption, RangeStreamRequest, decorate_all, decorate_stream_range_req,
}
use kubebrain_client.Client.Streams.{
  StreamRangeResponse, fetch_stream_range_resp, one_error, err_of,
}

-- `resp.Header.Revision`: a nil header is a panic, `none`.
header_revision : Option ResponseHeader → Option ℕ
header_revision none = none
header_revision (some h) = some h.revision

-- `if req.Revision == 0 { req.Revision = resp.Header.Revision }`
unfoldable pub pinned : RangeRequest → ListPartitionResponse → Option ℕ
unfolding header_revision
pinned req resp = if req.revision == 0 then header_revision resp.header else some req.revision

unfoldable pub list_of : RangeRequest → ListPartitionRequest
list_of req = record { key = req.key; end = req.end; unrecognized = [] }

-- The request for the range between two of the partition keys, by their places.
abbrev pub between : RangeRequest → List Bytes → ℕ → ℕ → ℕ → RangeRequest
between req keys rev i j = record req {
  key = get_or keys i [];
  end = get_or keys j [];
  revision = rev;
}

-- The request of `singleRangeStream`: from the first key to the last.
unfoldable pub single_request : RangeRequest → ListPartitionResponse → Option RangeRequest
unfolding pinned
single_request req resp = elim (pinned req resp) [
  | none ↦ none
  | some rev ↦ some (between req resp.partition_keys rev 0 (length resp.partition_keys - 1))
]

push : RangeRequest → Option (List RangeRequest) → Option (List RangeRequest)
push req none = none
push req (some reqs) = some (req ∷ reqs)

-- The loop of `concurrentRangeStream`, for the rounds that are left and the index.
unfoldable pub partition_loop :
    RangeRequest → ListPartitionResponse → ℕ → ℕ → Option (List RangeRequest)
unfolding pinned push
partition_loop req resp zero i = some []
partition_loop req resp (suc n) i = elim (pinned req resp) [
  | none ↦ none
  | some rev ↦
      push (between req resp.partition_keys rev i (i + 1)) (partition_loop req resp n (i + 1))
]

-- The requests of `concurrentRangeStream`; `pNum` may be -1, and the loop then does nothing.
unfoldable pub partition_requests :
    RangeRequest → ListPartitionResponse → Option (List RangeRequest)
unfolding partition_loop
partition_requests req resp = partition_loop req resp (length resp.partition_keys - 1) 0

module _ {E : Type 0} (cc : Conn E) where
  opened : Result E (List (Recv E Messages.StreamRangeResponse)) → Chan (StreamRangeResponse E)
  unfolding one_error fetch_stream_range_resp
  opened (err e) = one_error e
  opened (ok stream) = fetch_stream_range_resp stream

  -- `rangeStream`
  unfoldable pub range_stream : RangeRequest → Chan (StreamRangeResponse E)
  unfolding opened read_range_stream
  range_stream req = opened (read_range_stream cc req)

  -- `singleRangeStream`; `none` is the panic at a nil header.
  unfoldable pub single_range_stream : RangeRequest → Option (Chan (StreamRangeResponse E))
  unfolding list_of single_request range_stream one_error read_list_partition
  single_range_stream req = elim (read_list_partition cc (list_of req)) [
    | err e ↦ some (one_error e)
    | ok resp ↦
        if leb (length resp.partition_keys) 1
        then some (record { sent = []; closed = true })
        else elim (single_request req resp) [ none ↦ none | some req' ↦ some (range_stream req') ]
  ]

-- The request of `RangeStream` after its options.
unfoldable pub stream_request : Bytes → Bytes → List RangeStreamOption → RangeStreamRequest
unfolding decorate_stream_range_req
stream_request key end opts = decorate_all decorate_stream_range_req opts (record {
  range_request = record {
    key = key;
    end = end;
    limit = pos 0;
    revision = 0;
    filter = none;
    unrecognized = [];
  };
  max_concurrent = 1;
})
