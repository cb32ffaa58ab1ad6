-- ===== src/Tests/Snapshot.antt =====
-- A run of RangeStream of client/client_stream.go over two partitions of a snapshot.
use mathlib.Core.List.{Perm, append-nil}
use kubebrain_client.Prelude.{
  ℕ, ◌≡◌, refl, true, false, Option, none, some, List, [], ◌∷◌, Bytes, codes, Chan, err, ok,
  bytes_leb, bytes_ltb,
}
use kubebrain_client.Rpc.Messages.{KeyValue, RangeFilter, RangeRequest}
use kubebrain_client.Rpc.Messages
use kubebrain_client.Rpc.Stubs.{Conn, message, eof, read_list_partition, read_range_stream}
use kubebrain_client.Client.Options.{RangeStreamRequest}
use kubebrain_client.Client.Streams.{StreamRangeResponse, err_of, fetch_stream_range_resp}
use kubebrain_client.Client.RangeStream.{
  list_of, pinned, range_stream, partition_requests, partition_loop,
}
use kubebrain_client.Client.RangeStream.Merge.{
  Phase, Task, Merge, Effect, receiving, sending, ended, finished, go, run, close, Reach, here,
  later, opened, single, merged, advance, all_ended, concurrent_range_stream, range_stream_of,
}
use kubebrain_client.Client.RangeStream.Partitions.{last}
use kubebrain_client.Client.RangeStream.Snapshot.{within, key_values, HoldsSnapshot}
use kubebrain_client.Client.RangeStream.Snapshot.Whole.{streams_agree}
use kubebrain_client.Tests.Client.{all_pods, partitions}

abbrev b : Bytes
b = codes "/b"

abbrev p : Bytes
p = codes "/p"

abbrev pod : Bytes → KeyValue
pod key = record { key = key; revision = 5; value = codes "pod"; unrecognized = [] }

abbrev stored : ℕ → Option RangeFilter → List KeyValue
stored rev filter = pod (b) ∷ pod (p) ∷ []

abbrev answer : RangeRequest → Messages.StreamRangeResponse
answer req = record {
  range_response = some (record {
    header = none;
    kvs = within req.key req.end (stored req.revision req.filter);
    more = false;
    unrecognized = [];
  });
  err = [];
  unrecognized = [];
}

abbrev refused : Bytes
refused = codes "refused"

abbrev server : Conn Bytes
server = record {
  invoke_get = λ name req. err refused;
  invoke_range = λ name req. err refused;
  invoke_count = λ name req. err refused;
  invoke_list_partition = λ name req. ok partitions;
  invoke_create = λ name req. err refused;
  invoke_update = λ name req. err refused;
  invoke_delete = λ name req. err refused;
  invoke_compact = λ name req. err refused;
  stream_range = λ name req. ok (message (answer req) ∷ eof ∷ []);
  stream_watch = λ name req. err refused;
}

server_holds : HoldsSnapshot server stored
unfolding read_range_stream
server_holds = record {
  answers = λ req unlimited.
      (answer req ∷ [], refl, append-nil (within req.key req.end (stored req.revision req.filter)));
}

abbrev request : RangeStreamRequest
request = record { range_request = all_pods; max_concurrent = 4 }

abbrev response : Bytes → StreamRangeResponse Bytes
response key = record {
  range_response =
      some (record { header = none; kvs = some (pod key) ∷ []; more = false; unrecognized = [] });
  stream_err = record { close_err = none; cancel_reason = [] };
}

abbrev channel : Bytes → Chan (StreamRangeResponse Bytes)
channel key = record { sent = response key ∷ []; closed = true }

abbrev start : Merge Bytes
start = record {
  limited = true;
  waiting = channel (b) ∷ channel (p) ∷ [];
  tasks = [];
  output = [];
  done = false;
  closed = false;
}

starts : range_stream_of server request ≡ some (merged start)
unfolding range_stream_of concurrent_range_stream opened partition_requests list_of
    read_list_partition read_range_stream range_stream fetch_stream_range_resp pinned partition_loop
    bytes_leb bytes_ltb
starts = refl

-- The second partition is read before the first.
abbrev complete : Merge Bytes
complete = record {
  limited = true;
  waiting = [];
  tasks =
      record { phase = ended finished; input = []; closed = true }
      ∷ record { phase = ended finished; input = []; closed = true }
      ∷ [];
  output = response (p) ∷ response (b) ∷ [];
  done = false;
  closed = true;
}

abbrev task : Phase Bytes → List (StreamRangeResponse Bytes) → Task Bytes
task phase input = record { phase = phase; input = input; closed = true }

abbrev quiet : Task Bytes → Effect Bytes
quiet t = record { task = t; sent = []; cancels = false }

-- What a callback does with one response, in three steps.
abbrev taken : Bytes → Effect Bytes
taken key = quiet (task sending (response key ∷ []))

abbrev passed_on : Bytes → Effect Bytes
passed_on key = record { task = task receiving []; sent = response key ∷ []; cancels = false }

abbrev over : Effect Bytes
over = quiet (task (ended finished) [])

complete_run : Reach (λ r. r) start complete
unfolding advance err_of all_ended
complete_run =
    let begun : Reach (λ r. r) start
        (record start {
          waiting = [];
          tasks = task receiving (response b ∷ []) ∷ task receiving (response p ∷ []) ∷ [];
        }) =
      later (later here (go (channel b) (channel p ∷ []) refl)) (go (channel p) [] refl) in
    let second : Reach (λ r. r) start
        (record start {
          waiting = [];
          tasks = task receiving (response b ∷ []) ∷ task (ended finished) [] ∷ [];
          output = response p ∷ [];
        }) =
      later
        (later (later begun (run 1 (task receiving (response p ∷ [])) (taken p) refl refl))
          (run 1 (task sending (response p ∷ [])) (passed_on p) refl refl))
        (run 1 (task receiving []) over refl refl) in
    later
      (later
        (later (later second (run 0 (task receiving (response b ∷ [])) (taken b) refl refl))
          (run 0 (task sending (response b ∷ [])) (passed_on b) refl refl))
        (run 0 (task receiving []) over refl refl))
      (close refl refl refl)

streams_agree_example :
    (c : Chan (StreamRangeResponse Bytes)) × (range_stream_of server
        (record request { max_concurrent = 1 })
      ≡ some (single c))
    × (c.closed ≡ true)
    × (key_values c.sent
        ≡ within (codes "/a") (last (codes "/a") (codes "/m" ∷ codes "/z" ∷ [])) (stored 9 none))
    × Perm (some (pod p) ∷ some (pod b) ∷ []) (key_values c.sent)
unfolding list_of read_list_partition pinned bytes_leb
streams_agree_example =
    streams_agree server stored server_holds (λ r. r) request partitions 9 (codes "/a")
      (codes "/m" ∷ codes "/z" ∷ []) start complete refl refl refl refl (refl, (refl, tt)) starts
      complete_run refl refl
