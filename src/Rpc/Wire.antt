-- ===== src/Rpc/Wire.antt =====
-- The wire format of the messages of api/v2rpc/rpc.proto, as protobuf defines it, independently of
-- the `Size` methods: a field is a tag, eight times its number plus the wire type, and its value;
-- a field with its default value is left out. Every field number here is below 16, so that a tag
-- is one byte.
use kubebrain_client.Prelude.{
  ℕ, Bool, true, false, Option, none, some, List, [], ◌∷◌, ◌++◌, Bytes, ◌==◌, if◌then◌else◌, length,
}
use kubebrain_client.Prelude.Int.{ℤ, pos, negsuc, u64, u64_of}
use kubebrain_client.Rpc.Varint.{varint}
use kubebrain_client.Rpc.Messages.{
  ResponseHeader, KeyValue, GetRequest, GetResponse, RangeFilter, RangeRequest, RangeResponse,
  StreamRangeResponse, CountRequest, CountResponse, ListPartitionRequest, ListPartitionResponse,
  Event, WatchRequest, WatchResponse, CreateRequest, CreateResponse, UpdateRequest, UpdateResponse,
  DeleteRequest, DeleteResponse, CompactRequest, CompactResponse,
}

unfoldable pub varint_field : ℕ → ℕ → Bytes
varint_field tag x = if x == 0 then [] else tag ∷ varint 10 (u64 x)

unfoldable pub int_field : ℕ → ℤ → Bytes
int_field tag (pos n) = varint_field tag n
int_field tag (negsuc n) = tag ∷ varint 10 (u64_of (negsuc n))

unfoldable pub delimited : ℕ → Bytes → Bytes
delimited tag b = tag ∷ (varint 10 (u64 (length b)) ++ b)

unfoldable pub bytes_field : ℕ → Bytes → Bytes
bytes_field tag [] = []
bytes_field tag (x ∷ xs) = delimited tag (x ∷ xs)

unfoldable pub bool_field : ℕ → Bool → Bytes
bool_field tag true = tag ∷ 1 ∷ []
bool_field tag false = []

unfoldable pub pointer_field {ℓ} : {A : Type ℓ} → ℕ → (Option A → Bytes) → Option A → Bytes
pointer_field tag encode none = []
pointer_field tag encode (some m) = delimited tag (encode (some m))

unfoldable pub repeated_field {ℓ} : {A : Type ℓ} → ℕ → (A → Bytes) → List A → Bytes
repeated_field tag encode [] = []
repeated_field tag encode (e ∷ es) = delimited tag (encode e) ++ repeated_field tag encode es

unfoldable pub raw : Bytes → Bytes
raw b = b

unfoldable pub response_header : Option ResponseHeader → Bytes
response_header none = []
response_header (some m) = varint_field 8 m.revision ++ m.unrecognized

unfoldable pub key_value : Option KeyValue → Bytes
key_value none = []
key_value (some m) =
    bytes_field 10 m.key
    ++ (varint_field 16 m.revision ++ (bytes_field 26 m.value ++ m.unrecognized))

unfoldable pub get_request : Option GetRequest → Bytes
get_request none = []
get_request (some m) = bytes_field 10 m.key ++ (varint_field 16 m.revision ++ m.unrecognized)

unfoldable pub get_response : Option GetResponse → Bytes
get_response none = []
get_response (some m) =
    pointer_field 10 response_header m.header ++ (pointer_field 18 key_value m.kv ++ m.unrecognized)

unfoldable pub range_filter : Option RangeFilter → Bytes
range_filter none = []
range_filter (some m) =
    int_field 8 m.hash
    ++ (bytes_field 18 m.trim_prefix
        ++ (int_field 24 m.shard_count ++ (int_field 32 m.shard_index ++ m.unrecognized)))

unfoldable pub range_request : Option RangeRequest → Bytes
range_request none = []
range_request (some m) =
    bytes_field 10 m.key
    ++ (bytes_field 18 m.end
        ++ (int_field 24 m.limit
            ++ (varint_field 32 m.revision
                ++ (pointer_field 42 range_filter m.filter ++ m.unrecognized))))

unfoldable pub range_response : Option RangeResponse → Bytes
range_response none = []
range_response (some m) =
    pointer_field 10 response_header m.header
    ++ (repeated_field 18 key_value m.kvs ++ (bool_field 24 m.more ++ m.unrecognized))

unfoldable pub stream_range_response : Option StreamRangeResponse → Bytes
stream_range_response none = []
stream_range_response (some m) =
    pointer_field 10 range_response m.range_response ++ (bytes_field 18 m.err ++ m.unrecognized)

unfoldable pub count_request : Option CountRequest → Bytes
count_request none = []
count_request (some m) =
    bytes_field 10 m.key
    ++ (bytes_field 18 m.end ++ (pointer_field 26 range_filter m.filter ++ m.unrecognized))

unfoldable pub count_response : Option CountResponse → Bytes
count_response none = []
count_response (some m) =
    pointer_field 10 response_header m.header ++ (varint_field 16 m.count ++ m.unrecognized)

unfoldable pub list_partition_request : Option ListPartitionRequest → Bytes
list_partition_request none = []
list_partition_request (some m) = bytes_field 10 m.key ++ (bytes_field 18 m.end ++ m.unrecognized)

unfoldable pub list_partition_response : Option ListPartitionResponse → Bytes
list_partition_response none = []
list_partition_response (some m) =
    pointer_field 10 response_header m.header
    ++ (int_field 16 m.partition_num ++ (repeated_field 26 raw m.partition_keys ++ m.unrecognized))

unfoldable pub event : Option Event → Bytes
event none = []
event (some m) =
    int_field 8 m.type
    ++ (pointer_field 18 key_value m.kv
        ++ (varint_field 24 m.revision ++ (varint_field 32 m.timestamp ++ m.unrecognized)))

unfoldable pub watch_request : Option WatchRequest → Bytes
watch_request none = []
watch_request (some m) =
    bytes_field 10 m.key
    ++ (bytes_field 18 m.end
        ++ (pointer_field 26 range_filter m.filter
            ++ (varint_field 32 m.revision
                ++ (bool_field 40 m.allow_watch_bookmarks ++ m.unrecognized))))

unfoldable pub watch_response : Option WatchResponse → Bytes
watch_response none = []
watch_response (some m) =
    pointer_field 10 response_header m.header
    ++ (repeated_field 18 event m.events ++ (bytes_field 42 m.err ++ m.unrecognized))

unfoldable pub create_request : Option CreateRequest → Bytes
create_request none = []
create_request (some m) =
    bytes_field 10 m.key ++ (bytes_field 18 m.value ++ (int_field 24 m.lease ++ m.unrecognized))

unfoldable pub create_response : Option CreateResponse → Bytes
create_response none = []
create_response (some m) =
    pointer_field 10 response_header m.header ++ (bool_field 16 m.succeeded ++ m.unrecognized)

unfoldable pub update_request : Option UpdateRequest → Bytes
update_request none = []
update_request (some m) =
    pointer_field 10 key_value m.kv ++ (int_field 16 m.lease ++ m.unrecognized)

unfoldable pub update_response : Option UpdateResponse → Bytes
update_response none = []
update_response (some m) =
    pointer_field 10 response_header m.header
    ++ (bool_field 16 m.succeeded ++ (pointer_field 26 key_value m.kv ++ m.unrecognized))

unfoldable pub delete_request : Option DeleteRequest → Bytes
delete_request none = []
delete_request (some m) = bytes_field 10 m.key ++ (varint_field 16 m.revision ++ m.unrecognized)

unfoldable pub delete_response : Option DeleteResponse → Bytes
delete_response none = []
delete_response (some m) =
    pointer_field 10 response_header m.header
    ++ (bool_field 16 m.succeeded ++ (pointer_field 26 key_value m.kv ++ m.unrecognized))

unfoldable pub compact_request : Option CompactRequest → Bytes
compact_request none = []
compact_request (some m) = varint_field 8 m.revision ++ (bool_field 16 m.physical ++ m.unrecognized)

unfoldable pub compact_response : Option CompactResponse → Bytes
compact_response none = []
compact_response (some m) = pointer_field 10 response_header m.header ++ m.unrecognized
