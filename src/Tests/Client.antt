-- ===== src/Tests/Client.antt =====
-- Requests and streams of the client.
use kubebrain_client.Client.RangeStream.{pinned, single_request, partition_requests}
use kubebrain_client.Prelude.{
  ◌≡◌, ◌↔◌, refl, true, none, some, List, [], ◌∷◌, arith, Bytes, codes, bytes_leb, has_prefix, All,
  if◌then◌else◌, IsBytes,
}
use kubebrain_client.Prelude.Int.{pos}
use kubebrain_client.Keys.Prefix.{InRange}
use kubebrain_client.Rpc.Messages.{RangeRequest, ListPartitionResponse}
use kubebrain_client.Client.Options.{WatchOption, with_prefix, with_bookmark}
use kubebrain_client.Client.Streams.{WatchResponse, watch_request}
use kubebrain_client.Client.RangeStream.Partitions.{covers, covering, partitions_cover}
use kubebrain_client.Client.RequestLaws.{watch_prefix}

abbrev watch_opts : List WatchOption
watch_opts = WatchOption.with_revision 7 ∷ with_prefix ∷ with_bookmark ∷ []

slash_a-IsBytes : IsBytes (codes "/a")
slash_a-IsBytes = (omega arith, (omega arith, tt))

watch_prefix_example :
    (has_prefix (codes "/a") (codes "/a") ≡ true)
    ↔ InRange
        (watch_request (codes "/a") watch_opts).key
        (watch_request (codes "/a") watch_opts).end
        (codes "/a")
watch_prefix_example =
    watch_prefix (codes "/a") watch_opts (codes "/a") slash_a-IsBytes slash_a-IsBytes refl

abbrev bookmark : WatchResponse Bytes
bookmark = record {
  header = some (record { revision = 9; unrecognized = [] });
  events = [];
  stream_err = record { close_err = none; cancel_reason = [] };
}

abbrev pub all_pods : RangeRequest
all_pods = record {
  key = codes "/a";
  end = codes "/z";
  limit = pos 0;
  revision = 0;
  filter = none;
  unrecognized = [];
}

abbrev pub partitions : ListPartitionResponse
partitions = record {
  header = some (record { revision = 9; unrecognized = [] });
  partition_num = pos 2;
  partition_keys = codes "/a" ∷ codes "/m" ∷ codes "/z" ∷ [];
  unrecognized = [];
}

two_streams :
    partition_requests all_pods partitions
    ≡ some (
        record all_pods { key = codes "/a"; end = codes "/m"; revision = 9 }
        ∷ record all_pods { key = codes "/m"; end = codes "/z"; revision = 9 }
        ∷ [])
unfolding partition_requests
two_streams = refl

partitions_cover_example :
    (reqs : List RangeRequest) × (single : RangeRequest) × (partition_requests all_pods partitions
      ≡ some reqs)
    × (single_request all_pods partitions ≡ some single)
    × (covering (codes "/p") reqs ≡ (if covers (codes "/p") single then 1 else 0))
    × All (λ r. r ≡ record single { key = r.key; end = r.end }) reqs
unfolding pinned bytes_leb
partitions_cover_example =
    partitions_cover all_pods partitions 9 (codes "/p") (codes "/a") (codes "/m" ∷ codes "/z" ∷ [])
      refl refl (refl, (refl, tt))
