-- ===== src/Client/RangeStream/Snapshot.antt =====
-- What the range streams of client/client_stream.go give of a snapshot that the server holds.
pub mod Split
pub mod Gather
pub mod Whole
use kubebrain_client.Prelude.{
  ℕ, ◌≡◌, Bool, Option, none, some, List, [], ◌∷◌, ◌++◌, ◌&&◌, map, Bytes, Result, ok, bytes_leb,
  bytes_ltb, if◌then◌else◌,
}
use kubebrain_client.Prelude.Int.{pos}
use kubebrain_client.Rpc.Messages.{KeyValue, RangeFilter, RangeRequest, RangeResponse}
use kubebrain_client.Rpc.Messages
use kubebrain_client.Rpc.Stubs.{Recv, message, eof, Conn, read_range_stream}
use kubebrain_client.Client.Streams.{StreamRangeResponse}

-- The key-values from one key up to another, the other left out, as a server sends them.
abbrev pub within : Bytes → Bytes → List KeyValue → List (Option KeyValue)
within a b [] = []
within a b (kv ∷ kvs) =
    if bytes_leb a kv.key && bytes_ltb kv.key b then some kv ∷ within a b kvs else within a b kvs

abbrev pub page : Option RangeResponse → List (Option KeyValue)
page none = []
page (some resp) = resp.kvs

-- The key-values of the messages of a server, and of the responses that a caller reads.
abbrev pub served : List Messages.StreamRangeResponse → List (Option KeyValue)
served [] = []
served (m ∷ ms) = page m.range_response ++ served ms

abbrev pub key_values : {E : Type 0} → List (StreamRangeResponse E) → List (Option KeyValue)
key_values [] = []
key_values (r ∷ rs) = page r.range_response ++ key_values rs

-- A server that holds a list of key-values for each revision and filter answers every range stream
-- without a limit: with messages that have the key-values of the range, in their order, and the end.
pub record HoldsSnapshot {E : Type 0} (cc : Conn E)
    (stored : ℕ → Option RangeFilter → List KeyValue) : Type 0 where
  pub answers :
      (req : RangeRequest)
      → req.limit ≡ pos 0
      → (ms : List Messages.StreamRangeResponse) × (read_range_stream cc req
          ≡ ok (map message ms ++ eof ∷ []))
        × (served ms ≡ within req.key req.end (stored req.revision req.filter))
