-- ===== src/Rpc/Size.antt =====
-- The `Size` methods of api/v2rpc/rpc.pb.go, one function for each message; `none` is the nil
-- receiver. A length is an `int`, and is taken to fit it.
use kubebrain_client.Prelude.{
  ℕ, ◌+◌, Bool, true, false, Option, none, some, List, [], ◌∷◌, Bytes, ◌==◌, if◌then◌else◌, length,
}
use kubebrain_client.Prelude.Int.{ℤ, pos, negsuc, u64, u64_of}
use kubebrain_client.Rpc.Varint.{sov_rpc}
use kubebrain_client.Rpc.Messages.{
  ResponseHeader, KeyValue, GetRequest, GetResponse, RangeFilter, RangeRequest, RangeResponse,
  StreamRangeResponse, CountRequest, CountResponse, ListPartitionRequest, ListPartitionResponse,
  Event, WatchRequest, WatchResponse, CreateRequest, CreateResponse, UpdateRequest, UpdateResponse,
  DeleteRequest, DeleteResponse, CompactRequest, CompactResponse,
}

-- `if x != 0 { n += 1 + sovRpc(uint64(x)) }`
unfoldable pub varint_part : ℕ → ℕ
varint_part x = if x == 0 then 0 else 1 + sov_rpc (u64 x)

unfoldable pub int_part : ℤ → ℕ
int_part (pos n) = varint_part n
int_part (negsuc n) = 1 + sov_rpc (u64_of (negsuc n))

-- `n += 1 + l + sovRpc(uint64(l))`
unfoldable pub delimited_part : ℕ → ℕ
delimited_part l = 1 + l + sov_rpc (u64 l)

unfoldable pub bytes_part : Bytes → ℕ
bytes_part b = if length b == 0 then 0 else delimited_part (length b)

-- `if b { n += 2 }`
unfoldable pub bool_part : Bool → ℕ
bool_part true = 2
bool_part false = 0

-- `if m.F != nil { l = m.F.Size(); n += 1 + l + sovRpc(uint64(l)) }`
unfoldable pub pointer_part {ℓ} : {A : Type ℓ} → (Option A → ℕ) → Option A → ℕ
pointer_part size none = 0
pointer_part size (some m) = delimited_part (size (some m))

-- `for _, e := range m.F { l = e.Size(); n += 1 + l + sovRpc(uint64(l)) }`
unfoldable pub repeated_part {ℓ} : {A : Type ℓ} → (A → ℕ) → List A → ℕ
repeated_part size [] = 0
repeated_part size (e ∷ es) = delimited_part (size e) + repeated_part size es

unfoldable pub response_header : Option ResponseHeader → ℕ
response_header none = 0
response_header (some m) = varint_part m.revision + length m.unrecognized

unfoldable pub key_value : Option KeyValue → ℕ
key_value none = 0
key_value (some m) =
    bytes_part m.key + varint_part m.revision + bytes_part m.value + length m.unrecognized

unfoldable pub get_request : Option GetRequest → ℕ
get_request none = 0
get_request (some m) = bytes_part m.key + varint_part m.revision + length m.unrecognized

unfoldable pub get_response : Option GetResponse → ℕ
get_response none = 0
get_response (some m) =
    pointer_part response_header m.header + pointer_part key_value m.kv + length m.unrecognized

unfoldable pub range_filter : Option RangeFilter → ℕ
range_filter none = 0
range_filter (some m) =
    int_part m.hash
    + bytes_part m.trim_prefix
    + int_part m.shard_count
    + int_part m.shard_index
    + length m.unrecognized

unfoldable pub range_request : Option RangeRequest → ℕ
range_request none = 0
range_request (some m) =
    bytes_part m.key
    + bytes_part m.end
    + int_part m.limit
    + varint_part m.revision
    + pointer_part range_filter m.filter
    + length m.unrecognized

unfoldable pub range_response : Option RangeResponse → ℕ
range_response none = 0
range_response (some m) =
    pointer_part response_header m.header
    + repeated_part key_value m.kvs
    + bool_part m.more
    + length m.unrecognized

unfoldable pub stream_range_response : Option StreamRangeResponse → ℕ
stream_range_response none = 0
stream_range_response (some m) =
    pointer_part range_response m.range_response + bytes_part m.err + length m.unrecognized

unfoldable pub count_request : Option CountRequest → ℕ
count_request none = 0
count_request (some m) =
    bytes_part m.key + bytes_part m.end + pointer_part range_filter m.filter + length m.unrecognized

unfoldable pub count_response : Option CountResponse → ℕ
count_response none = 0
count_response (some m) =
    pointer_part response_header m.header + varint_part m.count + length m.unrecognized

unfoldable pub list_partition_request : Option ListPartitionRequest → ℕ
list_partition_request none = 0
list_partition_request (some m) = bytes_part m.key + bytes_part m.end + length m.unrecognized

unfoldable pub list_partition_response : Option ListPartitionResponse → ℕ
list_partition_response none = 0
list_partition_response (some m) =
    pointer_part response_header m.header
    + int_part m.partition_num
    + repeated_part length m.partition_keys
    + length m.unrecognized

unfoldable pub event : Option Event → ℕ
event none = 0
event (some m) =
    int_part m.type
    + pointer_part key_value m.kv
    + varint_part m.revision
    + varint_part m.timestamp
    + length m.unrecognized

unfoldable pub watch_request : Option WatchRequest → ℕ
watch_request none = 0
watch_request (some m) =
    bytes_part m.key
    + bytes_part m.end
    + varint_part m.revision
    + pointer_part range_filter m.filter
    + bool_part m.allow_watch_bookmarks
    + length m.unrecognized

unfoldable pub watch_response : Option WatchResponse → ℕ
watch_response none = 0
watch_response (some m) =
    pointer_part response_header m.header
    + repeated_part event m.events
    + bytes_part m.err
    + length m.unrecognized

unfoldable pub create_request : Option CreateRequest → ℕ
create_request none = 0
create_request (some m) =
    bytes_part m.key + bytes_part m.value + int_part m.lease + length m.unrecognized

unfoldable pub create_response : Option CreateResponse → ℕ
create_response none = 0
create_response (some m) =
    pointer_part response_header m.header + bool_part m.succeeded + length m.unrecognized

unfoldable pub update_request : Option UpdateRequest → ℕ
update_request none = 0
update_request (some m) = pointer_part key_value m.kv + int_part m.lease + length m.unrecognized

unfoldable pub update_response : Option UpdateResponse → ℕ
update_response none = 0
update_response (some m) =
    pointer_part response_header m.header
    + bool_part m.succeeded
    + pointer_part key_value m.kv
    + length m.unrecognized

unfoldable pub delete_request : Option DeleteRequest → ℕ
delete_request none = 0
delete_request (some m) = bytes_part m.key + varint_part m.revision + length m.unrecognized

unfoldable pub delete_response : Option DeleteResponse → ℕ
delete_response none = 0
delete_response (some m) =
    pointer_part response_header m.header
    + bool_part m.succeeded
    + pointer_part key_value m.kv
    + length m.unrecognized

unfoldable pub compact_request : Option CompactRequest → ℕ
compact_request none = 0
compact_request (some m) = varint_part m.revision + bool_part m.physical + length m.unrecognized

unfoldable pub compact_response : Option CompactResponse → ℕ
compact_response none = 0
compact_response (some m) = pointer_part response_header m.header + length m.unrecognized
