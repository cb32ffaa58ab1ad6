-- ===== src/Rpc/Lengths.antt =====
-- The `Size` methods against the wire format: each gives the length of the encoding.
pub mod Fields
use kubebrain_client.Prelude.{
  ℕ, ◌≡◌, ap, refl, Bool, true, false, Option, none, some, List, [], ◌∷◌, arith, Bytes, length,
  length-append,
}
use kubebrain_client.Prelude.Int.{ℤ, pos, negsuc, u64, u64_of}
use kubebrain_client.Rpc.Varint.{varint, sov_rpc-varint}
use kubebrain_client.Rpc.Messages.{
  ResponseHeader, KeyValue, GetRequest, GetResponse, RangeFilter, RangeRequest, RangeResponse,
  StreamRangeResponse, CountRequest, CountResponse, ListPartitionRequest, ListPartitionResponse,
  Event, WatchRequest, WatchResponse, CreateRequest, CreateResponse, UpdateRequest, UpdateResponse,
  DeleteRequest, DeleteResponse, CompactRequest, CompactResponse,
}
use kubebrain_client.Rpc.Size.{
  varint_part, int_part, delimited_part, bytes_part, bool_part, pointer_part, repeated_part,
}
use kubebrain_client.Rpc.Wire.{
  varint_field, int_field, delimited, bytes_field, bool_field, pointer_field, repeated_field, raw,
}
use kubebrain_client.Rpc.Size
use kubebrain_client.Rpc.Wire
use kubebrain_client.Rpc.Lengths.Fields.{
  field_lengths, length-pointer_field, length-repeated_field, length-varint_field, length-int_field,
  length-delimited, length-bytes_field, length-bool_field,
}

pub length-response_header :
    (m : Option ResponseHeader) → length (Wire.response_header m) ≡ Size.response_header m
unfolding Wire.response_header Size.response_header
length-response_header none = refl
length-response_header (some m) = simp field_lengths (omega arith)

pub length-key_value : (m : Option KeyValue) → length (Wire.key_value m) ≡ Size.key_value m
unfolding Wire.key_value Size.key_value
length-key_value none = refl
length-key_value (some m) = simp field_lengths (omega arith)

pub length-get_request : (m : Option GetRequest) → length (Wire.get_request m) ≡ Size.get_request m
unfolding Wire.get_request Size.get_request
length-get_request none = refl
length-get_request (some m) = simp field_lengths (omega arith)

pub length-get_response :
    (m : Option GetResponse) → length (Wire.get_response m) ≡ Size.get_response m
unfolding Wire.get_response Size.get_response
length-get_response none = refl
length-get_response (some m) =
    simp
      (
        field_lengths,
        length-pointer_field Wire.response_header Size.response_header length-response_header 10
            m.header,
        length-pointer_field Wire.key_value Size.key_value length-key_value 18 m.kv,
      )
      (omega arith)

pub length-range_filter :
    (m : Option RangeFilter) → length (Wire.range_filter m) ≡ Size.range_filter m
unfolding Wire.range_filter Size.range_filter
length-range_filter none = refl
length-range_filter (some m) = simp field_lengths (omega arith)

pub length-range_request :
    (m : Option RangeRequest) → length (Wire.range_request m) ≡ Size.range_request m
unfolding Wire.range_request Size.range_request
length-range_request none = refl
length-range_request (some m) =
    simp
      (
        field_lengths,
        length-pointer_field Wire.range_filter Size.range_filter length-range_filter 42 m.filter,
      )
      (omega arith)

pub length-range_response :
    (m : Option RangeResponse) → length (Wire.range_response m) ≡ Size.range_response m
unfolding Wire.range_response Size.range_response
length-range_response none = refl
length-range_response (some m) =
    simp
      (
        field_lengths,
        length-pointer_field Wire.response_header Size.response_header length-response_header 10
            m.header,
        length-repeated_field Wire.key_value Size.key_value length-key_value 18 m.kvs,
      )
      (omega arith)

pub length-stream_range_response :
    (m : Option StreamRangeResponse)
    → length (Wire.stream_range_response m) ≡ Size.stream_range_response m
unfolding Wire.stream_range_response Size.stream_range_response
length-stream_range_response none = refl
length-stream_range_response (some m) =
    simp
      (
        field_lengths,
        length-pointer_field Wire.range_response Size.range_response length-range_response 10
            m.range_response,
      )
      (omega arith)

pub length-count_request :
    (m : Option CountRequest) → length (Wire.count_request m) ≡ Size.count_request m
unfolding Wire.count_request Size.count_request
length-count_request none = refl
length-count_request (some m) =
    simp
      (
        field_lengths,
        length-pointer_field Wire.range_filter Size.range_filter length-range_filter 26 m.filter,
      )
      (omega arith)

pub length-count_response :
    (m : Option CountResponse) → length (Wire.count_response m) ≡ Size.count_response m
unfolding Wire.count_response Size.count_response
length-count_response none = refl
length-count_response (some m) =
    simp
      (
        field_lengths,
        length-pointer_field Wire.response_header Size.response_header length-response_header 10
            m.header,
      )
      (omega arith)

pub length-list_partition_request :
    (m : Option ListPartitionRequest)
    → length (Wire.list_partition_request m) ≡ Size.list_partition_request m
unfolding Wire.list_partition_request Size.list_partition_request
length-list_partition_request none = refl
length-list_partition_request (some m) = simp field_lengths (omega arith)

pub length-list_partition_response :
    (m : Option ListPartitionResponse)
    → length (Wire.list_partition_response m) ≡ Size.list_partition_response m
unfolding Wire.list_partition_response Size.list_partition_response raw
length-list_partition_response none = refl
length-list_partition_response (some m) =
    simp
      (
        field_lengths,
        length-pointer_field Wire.response_header Size.response_header length-response_header 10
            m.header,
        length-repeated_field raw length (λ b. refl) 26 m.partition_keys,
      )
      (omega arith)

pub length-event : (m : Option Event) → length (Wire.event m) ≡ Size.event m
unfolding Wire.event Size.event
length-event none = refl
length-event (some m) =
    simp
      (field_lengths, length-pointer_field Wire.key_value Size.key_value length-key_value 18 m.kv)
      (omega arith)

pub length-watch_request :
    (m : Option WatchRequest) → length (Wire.watch_request m) ≡ Size.watch_request m
unfolding Wire.watch_request Size.watch_request
length-watch_request none = refl
length-watch_request (some m) =
    simp
      (
        field_lengths,
        length-pointer_field Wire.range_filter Size.range_filter length-range_filter 26 m.filter,
      )
      (omega arith)

pub length-watch_response :
    (m : Option WatchResponse) → length (Wire.watch_response m) ≡ Size.watch_response m
unfolding Wire.watch_response Size.watch_response
length-watch_response none = refl
length-watch_response (some m) =
    simp
      (
        field_lengths,
        length-pointer_field Wire.response_header Size.response_header length-response_header 10
            m.header,
        length-repeated_field Wire.event Size.event length-event 18 m.events,
      )
      (omega arith)

pub length-create_request :
    (m : Option CreateRequest) → length (Wire.create_request m) ≡ Size.create_request m
unfolding Wire.create_request Size.create_request
length-create_request none = refl
length-create_request (some m) = simp field_lengths (omega arith)

pub length-create_response :
    (m : Option CreateResponse) → length (Wire.create_response m) ≡ Size.create_response m
unfolding Wire.create_response Size.create_response
length-create_response none = refl
length-create_response (some m) =
    simp
      (
        field_lengths,
        length-pointer_field Wire.response_header Size.response_header length-response_header 10
            m.header,
      )
      (omega arith)

pub length-update_request :
    (m : Option UpdateRequest) → length (Wire.update_request m) ≡ Size.update_request m
unfolding Wire.update_request Size.update_request
length-update_request none = refl
length-update_request (some m) =
    simp
      (field_lengths, length-pointer_field Wire.key_value Size.key_value length-key_value 10 m.kv)
      (omega arith)

pub length-update_response :
    (m : Option UpdateResponse) → length (Wire.update_response m) ≡ Size.update_response m
unfolding Wire.update_response Size.update_response
length-update_response none = refl
length-update_response (some m) =
    simp
      (
        field_lengths,
        length-pointer_field Wire.response_header Size.response_header length-response_header 10
            m.header,
        length-pointer_field Wire.key_value Size.key_value length-key_value 26 m.kv,
      )
      (omega arith)

pub length-delete_request :
    (m : Option DeleteRequest) → length (Wire.delete_request m) ≡ Size.delete_request m
unfolding Wire.delete_request Size.delete_request
length-delete_request none = refl
length-delete_request (some m) = simp field_lengths (omega arith)

pub length-delete_response :
    (m : Option DeleteResponse) → length (Wire.delete_response m) ≡ Size.delete_response m
unfolding Wire.delete_response Size.delete_response
length-delete_response none = refl
length-delete_response (some m) =
    simp
      (
        field_lengths,
        length-pointer_field Wire.response_header Size.response_header length-response_header 10
            m.header,
        length-pointer_field Wire.key_value Size.key_value length-key_value 26 m.kv,
      )
      (omega arith)

pub length-compact_request :
    (m : Option CompactRequest) → length (Wire.compact_request m) ≡ Size.compact_request m
unfolding Wire.compact_request Size.compact_request
length-compact_request none = refl
length-compact_request (some m) = simp field_lengths (omega arith)

pub length-compact_response :
    (m : Option CompactResponse) → length (Wire.compact_response m) ≡ Size.compact_response m
unfolding Wire.compact_response Size.compact_response
length-compact_response none = refl
length-compact_response (some m) =
    simp
      (
        field_lengths,
        length-pointer_field Wire.response_header Size.response_header length-response_header 10
            m.header,
      )
      (omega arith)
