-- ===== src/Client/RangeStream/Merge/Start.antt =====
-- What `RangeStream` of client/client_stream.go starts.
use kubebrain_client.Prelude.{
  ◌≡◌, ◌≢◌, inl, inr, Option, none, some, List, map, arith, Chan, ok, ◌==◌, Bool-cases,
}
use kubebrain_client.Rpc.Messages.{RangeRequest, ListPartitionResponse}
use kubebrain_client.Rpc.Stubs.{Conn, read_list_partition}
use kubebrain_client.Client.Options.{RangeStreamRequest}
use kubebrain_client.Client.Streams.{StreamRangeResponse}
use kubebrain_client.Client.RangeStream.{
  list_of, partition_requests, range_stream, single_range_stream,
}
use kubebrain_client.Client.RangeStream.Merge.{
  Merge, opened, single, merged, single_of, inputs_of, concurrent_range_stream, range_stream_of,
}

module _ {E : Type 0} (cc : Conn E) where
  some_single_ne :
      (c : Option (Chan (StreamRangeResponse E))) {m : Merge E} → single_of cc c ≢ some (merged m)
  unfolding single_of
  some_single_ne none e = ground arith
  some_single_ne (some c) e = ground arith

  -- A concurrent stream starts with one input for each request.
  pub range_stream-merged :
      (req : RangeStreamRequest) (resp : ListPartitionResponse) (reqs : List RangeRequest)
      (start : Merge E)
      → read_list_partition cc (list_of req.range_request) ≡ ok resp
      → partition_requests req.range_request resp ≡ some reqs
      → range_stream_of cc req ≡ some (merged start)
      → start ≡ opened req.max_concurrent (map (range_stream cc) reqs)
  unfolding range_stream_of concurrent_range_stream inputs_of
  range_stream-merged req resp reqs start l p e = elim (Bool-cases (req.max_concurrent == 1)) [
    | inl one ↦ absurd (
        some_single_ne (single_range_stream cc req.range_request) {m = start} (ground (arith, one)))
    | inr many ↦ ground (arith, many, l, p)
  ]

  pub range_stream-single :
      (req : RangeStreamRequest) (c : Chan (StreamRangeResponse E))
      → single_range_stream cc req.range_request ≡ some c
      → range_stream_of cc (record req { max_concurrent = 1 }) ≡ some (single c)
  unfolding range_stream_of single_of
  range_stream-single req c e = rw e
