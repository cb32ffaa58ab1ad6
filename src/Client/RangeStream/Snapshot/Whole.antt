-- ===== src/Client/RangeStream/Snapshot/Whole.antt =====
-- The range streams of client/client_stream.go, by one stream or by one for each partition, give the
-- same key-values of a snapshot.
use mathlib.Core.Path.{subst}
use mathlib.Core.List.{Perm}
use mathlib.Core.List.Perm
use kubebrain_client.Prelude.{
  ℕ, ◌≡◌, refl, ap, ◌∙◌, sym, true, false, Option, some, List, [], ◌∷◌, ◌++◌, map, arith, Bytes,
  Chan, ok, length,
}
use kubebrain_client.Prelude.Int.{pos}
use kubebrain_client.Rpc.Messages.{KeyValue, RangeFilter, RangeRequest, ListPartitionResponse}
use kubebrain_client.Rpc.Messages
use kubebrain_client.Rpc.Stubs.{message, eof, Conn, read_list_partition}
use kubebrain_client.Client.Options.{RangeStreamRequest}
use kubebrain_client.Client.Streams.{StreamRangeResponse, fetch_stream_range_resp}
use kubebrain_client.Client.RangeStream.{list_of, pinned, range_stream, single_range_stream}
use kubebrain_client.Client.RangeStream.Partitions.{
  IsSorted, tiles, last, last-ge, tiles-requests, single-last,
}
use kubebrain_client.Client.RangeStream.Merge.{Merge, Reach, single, merged, range_stream_of}
use kubebrain_client.Client.RangeStream.Merge.Start.{range_stream-merged, range_stream-single}
use kubebrain_client.Client.RangeStream.Merge.Parts.{sent_of}
use kubebrain_client.Client.RangeStream.Merge.Delivery.{merge_complete}
use kubebrain_client.Client.RangeStream.Snapshot.{within, served, key_values, HoldsSnapshot}
use kubebrain_client.Client.RangeStream.Snapshot.Split.{within_self, within-append}
use kubebrain_client.Client.RangeStream.Snapshot.Gather.{gathered, Interleaved-gathered}

module _ {E : Type 0} (cc : Conn E) (stored : ℕ → Option RangeFilter → List KeyValue)
    (holds : HoldsSnapshot cc stored) where
  fetched :
      (ms : List Messages.StreamRangeResponse)
      → (key_values (fetch_stream_range_resp {E = E} (map message ms ++ eof ∷ [])).sent ≡ served ms)
        × ((fetch_stream_range_resp {E = E} (map message ms ++ eof ∷ [])).closed ≡ true)
  unfolding fetch_stream_range_resp
  fetched [] = (refl, refl)
  fetched (m ∷ ms) = ground (arith, fetched ms)

  -- One stream gives the key-values of its range, and ends.
  streamed :
      (req : RangeRequest)
      → req.limit ≡ pos 0
      → (key_values (range_stream cc req).sent
          ≡ within req.key req.end (stored req.revision req.filter))
        × ((range_stream cc req).closed ≡ true)
  unfolding range_stream
  streamed req unlimited =
      let (ms, e, all) = holds.answers req unlimited in rw e ((fetched ms).0 ∙ all, (fetched ms).1)

  module _ (req : RangeRequest) (rev : ℕ) (unlimited : req.limit ≡ pos 0) where
    -- The streams of the partitions give the key-values of the whole.
    tiled :
        (a : Bytes) (keys : List Bytes)
        → IsSorted (a ∷ keys)
        → Perm
            (gathered (sent_of (map (range_stream cc) (tiles req rev (a ∷ keys)))))
            (within a (last a keys) (stored rev req.filter))
    unfolding tiles last
    tiled a [] s = rw (within_self a (stored rev req.filter)) (Perm.refl [])
    tiled a (b ∷ keys) s =
        rw (streamed (record req { key = a; end = b; revision = rev }) unlimited).0 (
          Perm.trans (Perm.append_left (within a b (stored rev req.filter)) (tiled b keys s.1))
            (within-append a b (last b keys) (stored rev req.filter) s.0 (last-ge b keys s.1)))

  -- The single stream gives the key-values from the first key to the last, and ends.
  single_whole :
      (req : RangeRequest) (resp : ListPartitionResponse) (rev : ℕ) (a : Bytes) (keys : List Bytes)
      → req.limit ≡ pos 0
      → read_list_partition cc (list_of req) ≡ ok resp
      → pinned req resp ≡ some rev
      → resp.partition_keys ≡ a ∷ keys
      → (c : Chan (StreamRangeResponse E)) × (single_range_stream cc req ≡ some c)
        × (key_values c.sent ≡ within a (last a keys) (stored rev req.filter))
        × (c.closed ≡ true)
  unfolding single_range_stream last
  single_whole req resp rev a [] unlimited l p e = (
    record { sent = []; closed = true },
    ground (arith, l, ap length e),
    sym (within_self a (stored rev req.filter)),
    refl,
  )
  single_whole req resp rev a (b ∷ keys) unlimited l p e =
      let whole : RangeRequest = record req { key = a; end = last b keys; revision = rev } in
      (
        range_stream cc whole,
        ground (arith, l, ap length e, single-last req resp rev a (b ∷ keys) p e),
        (streamed whole unlimited).0,
        (streamed whole unlimited).1,
      )

  -- A concurrent range stream that has closed its output without the context being done has given
  -- the same key-values as RangeStream gives with one stream, up to their order, and those are the
  -- stored ones from the first partition key up to the last: if the server answers each range
  -- stream without a limit with the key-values of the range that it holds at the revision and the
  -- end, the partition keys are in order and there is at least one, the revision is known, and
  -- there is no limit.
  pub streams_agree :
      (errorf : Bytes → E) (req : RangeStreamRequest) (resp : ListPartitionResponse) (rev : ℕ)
      (a : Bytes) (keys : List Bytes) (start m : Merge E)
      → req.range_request.limit ≡ pos 0
      → read_list_partition cc (list_of req.range_request) ≡ ok resp
      → pinned req.range_request resp ≡ some rev
      → resp.partition_keys ≡ a ∷ keys
      → IsSorted (a ∷ keys)
      → range_stream_of cc req ≡ some (merged start)
      → Reach errorf start m
      → m.closed ≡ true
      → m.done ≡ false
      → (c : Chan (StreamRangeResponse E)) × (range_stream_of cc (record req { max_concurrent = 1 })
          ≡ some (single c))
        × (c.closed ≡ true)
        × (key_values c.sent ≡ within a (last a keys) (stored rev req.range_request.filter))
        × Perm (key_values m.output) (key_values c.sent)
  streams_agree errorf req resp rev a keys start m unlimited l p e s starts r closed calm =
      let (c, one, all, over) = single_whole req.range_request resp rev a keys unlimited l p e in
      let reqs = tiles req.range_request rev (a ∷ keys) in
      let begun =
        range_stream-merged cc req resp reqs start l
          (tiles-requests req.range_request resp rev a keys p e) starts in
      let out =
        merge_complete errorf req.max_concurrent (map (range_stream cc) reqs) m
          (subst (λ n. Reach errorf n m) begun r) closed calm in
      (
        c,
        range_stream-single cc req c one,
        over,
        all,
        rw all (
            Perm.trans (Perm.symm (Interleaved-gathered out))
              (tiled req.range_request rev unlimited a keys s)),
      )
