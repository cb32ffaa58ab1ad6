-- ===== src/Rpc/Message.antt =====
-- Any message, by its pointer: what `proto.Message` ranges over in api/v2rpc/rpc.pb.go.
use kubebrain_client.Prelude.{ℕ, ◌≡◌, sym, Option, Bytes, length}
use kubebrain_client.Rpc.Messages.{
  ResponseHeader, KeyValue, GetRequest, GetResponse, RangeFilter, RangeRequest, RangeResponse,
  StreamRangeResponse, CountRequest, CountResponse, ListPartitionRequest, ListPartitionResponse,
  Event, WatchRequest, WatchResponse, CreateRequest, CreateResponse, UpdateRequest, UpdateResponse,
  DeleteRequest, DeleteResponse, CompactRequest, CompactResponse,
}
use kubebrain_client.Rpc.Lengths.{
  length-response_header, length-key_value, length-get_request, length-get_response,
  length-range_filter, length-range_request, length-range_response, length-stream_range_response,
  length-count_request, length-count_response, length-list_partition_request,
  length-list_partition_response, length-event, length-watch_request, length-watch_response,
  length-create_request, length-create_response, length-update_request, length-update_response,
  length-delete_request, length-delete_response, length-compact_request, length-compact_response,
}
use kubebrain_client.Rpc.Size
use kubebrain_client.Rpc.Wire

pub data Message : Type 0 where
  response_header : Option ResponseHeader → Message
  key_value : Option KeyValue → Message
  get_request : Option GetRequest → Message
  get_response : Option GetResponse → Message
  range_filter : Option RangeFilter → Message
  range_request : Option RangeRequest → Message
  range_response : Option RangeResponse → Message
  stream_range_response : Option StreamRangeResponse → Message
  count_request : Option CountRequest → Message
  count_response : Option CountResponse → Message
  list_partition_request : Option ListPartitionRequest → Message
  list_partition_response : Option ListPartitionResponse → Message
  event : Option Event → Message
  watch_request : Option WatchRequest → Message
  watch_response : Option WatchResponse → Message
  create_request : Option CreateRequest → Message
  create_response : Option CreateResponse → Message
  update_request : Option UpdateRequest → Message
  update_response : Option UpdateResponse → Message
  delete_request : Option DeleteRequest → Message
  delete_response : Option DeleteResponse → Message
  compact_request : Option CompactRequest → Message
  compact_response : Option CompactResponse → Message

-- The `Size` method of the message.
pub size : Message → ℕ
size (response_header m) = Size.response_header m
size (key_value m) = Size.key_value m
size (get_request m) = Size.get_request m
size (get_response m) = Size.get_response m
size (range_filter m) = Size.range_filter m
size (range_request m) = Size.range_request m
size (range_response m) = Size.range_response m
size (stream_range_response m) = Size.stream_range_response m
size (count_request m) = Size.count_request m
size (count_response m) = Size.count_response m
size (list_partition_request m) = Size.list_partition_request m
size (list_partition_response m) = Size.list_partition_response m
size (event m) = Size.event m
size (watch_request m) = Size.watch_request m
size (watch_response m) = Size.watch_response m
size (create_request m) = Size.create_request m
size (create_response m) = Size.create_response m
size (update_request m) = Size.update_request m
size (update_response m) = Size.update_response m
size (delete_request m) = Size.delete_request m
size (delete_response m) = Size.delete_response m
size (compact_request m) = Size.compact_request m
size (compact_response m) = Size.compact_response m

pub encode : Message → Bytes
encode (response_header m) = Wire.response_header m
encode (key_value m) = Wire.key_value m
encode (get_request m) = Wire.get_request m
encode (get_response m) = Wire.get_response m
encode (range_filter m) = Wire.range_filter m
encode (range_request m) = Wire.range_request m
encode (range_response m) = Wire.range_response m
encode (stream_range_response m) = Wire.stream_range_response m
encode (count_request m) = Wire.count_request m
encode (count_response m) = Wire.count_response m
encode (list_partition_request m) = Wire.list_partition_request m
encode (list_partition_response m) = Wire.list_partition_response m
encode (event m) = Wire.event m
encode (watch_request m) = Wire.watch_request m
encode (watch_response m) = Wire.watch_response m
encode (create_request m) = Wire.create_request m
encode (create_response m) = Wire.create_response m
encode (update_request m) = Wire.update_request m
encode (update_response m) = Wire.update_response m
encode (delete_request m) = Wire.delete_request m
encode (delete_response m) = Wire.delete_response m
encode (compact_request m) = Wire.compact_request m
encode (compact_response m) = Wire.compact_response m

-- Size of any message, nil pointers and unknown fields included, is the number of bytes that the
-- wire format takes for it.
pub size-encode : (m : Message) → size m ≡ length (encode m)
unfolding size encode
size-encode (response_header m) = sym (length-response_header m)
size-encode (key_value m) = sym (length-key_value m)
size-encode (get_request m) = sym (length-get_request m)
size-encode (get_response m) = sym (length-get_response m)
size-encode (range_filter m) = sym (length-range_filter m)
size-encode (range_request m) = sym (length-range_request m)
size-encode (range_response m) = sym (length-range_response m)
size-encode (stream_range_response m) = sym (length-stream_range_response m)
size-encode (count_request m) = sym (length-count_request m)
size-encode (count_response m) = sym (length-count_response m)
size-encode (list_partition_request m) = sym (length-list_partition_request m)
size-encode (list_partition_response m) = sym (length-list_partition_response m)
size-encode (event m) = sym (length-event m)
size-encode (watch_request m) = sym (length-watch_request m)
size-encode (watch_response m) = sym (length-watch_response m)
size-encode (create_request m) = sym (length-create_request m)
size-encode (create_response m) = sym (length-create_response m)
size-encode (update_request m) = sym (length-update_request m)
size-encode (update_response m) = sym (length-update_response m)
size-encode (delete_request m) = sym (length-delete_request m)
size-encode (delete_response m) = sym (length-delete_response m)
size-encode (compact_request m) = sym (length-compact_request m)
size-encode (compact_response m) = sym (length-compact_response m)
