-- ===== src/Rpc/Messages.antt =====
-- The messages of api/v2rpc/rpc.pb.go. A pointer is an `Option`, with `none` for nil; `uint64` is
-- ℕ, `int64` and the open enums are ℤ. `XXX_unrecognized` keeps the bytes of unknown fields; the
-- size cache of the protobuf runtime is left out.
use kubebrain_client.Prelude.{ℕ, Bool, Option, List, Bytes}
use kubebrain_client.Prelude.Int.{ℤ, pos}

-- `RangeFilter_Hash`
abbrev pub hash_md5 : ℤ
hash_md5 = pos 0

abbrev pub hash_sha1 : ℤ
hash_sha1 = pos 1

-- `Event_EventType`
abbrev pub event_create : ℤ
event_create = pos 0

abbrev pub event_put : ℤ
event_put = pos 1

abbrev pub event_delete : ℤ
event_delete = pos 2

pub record ResponseHeader : Type 0 where
  pub revision : ℕ
  pub unrecognized : Bytes

pub record KeyValue : Type 0 where
  pub key : Bytes
  pub revision : ℕ
  pub value : Bytes
  pub unrecognized : Bytes

pub record GetRequest : Type 0 where
  pub key : Bytes
  pub revision : ℕ
  pub unrecognized : Bytes

pub record GetResponse : Type 0 where
  pub header : Option ResponseHeader
  pub kv : Option KeyValue
  pub unrecognized : Bytes

pub record RangeFilter : Type 0 where
  pub hash : ℤ
  pub trim_prefix : Bytes
  pub shard_count : ℤ
  pub shard_index : ℤ
  pub unrecognized : Bytes

pub record RangeRequest : Type 0 where
  pub key : Bytes
  pub end : Bytes
  pub limit : ℤ
  pub revision : ℕ
  pub filter : Option RangeFilter
  pub unrecognized : Bytes

pub record RangeResponse : Type 0 where
  pub header : Option ResponseHeader
  pub kvs : List (Option KeyValue)
  pub more : Bool
  pub unrecognized : Bytes

pub record StreamRangeResponse : Type 0 where
  pub range_response : Option RangeResponse
  pub err : Bytes
  pub unrecognized : Bytes

pub record CountRequest : Type 0 where
  pub key : Bytes
  pub end : Bytes
  pub filter : Option RangeFilter
  pub unrecognized : Bytes

pub record CountResponse : Type 0 where
  pub header : Option ResponseHeader
  pub count : ℕ
  pub unrecognized : Bytes

pub record ListPartitionRequest : Type 0 where
  pub key : Bytes
  pub end : Bytes
  pub unrecognized : Bytes

pub record ListPartitionResponse : Type 0 where
  pub header : Option ResponseHeader
  pub partition_num : ℤ
  pub partition_keys : List Bytes
  pub unrecognized : Bytes

pub record Event : Type 0 where
  pub type : ℤ
  pub kv : Option KeyValue
  pub revision : ℕ
  pub timestamp : ℕ
  pub unrecognized : Bytes

pub record WatchRequest : Type 0 where
  pub key : Bytes
  pub end : Bytes
  pub revision : ℕ
  pub filter : Option RangeFilter
  pub allow_watch_bookmarks : Bool
  pub unrecognized : Bytes

pub record WatchResponse : Type 0 where
  pub header : Option ResponseHeader
  pub events : List (Option Event)
  pub err : Bytes
  pub unrecognized : Bytes

pub record CreateRequest : Type 0 where
  pub key : Bytes
  pub value : Bytes
  pub lease : ℤ
  pub unrecognized : Bytes

pub record CreateResponse : Type 0 where
  pub header : Option ResponseHeader
  pub succeeded : Bool
  pub unrecognized : Bytes

pub record UpdateRequest : Type 0 where
  pub kv : Option KeyValue
  pub lease : ℤ
  pub unrecognized : Bytes

pub record UpdateResponse : Type 0 where
  pub header : Option ResponseHeader
  pub succeeded : Bool
  pub kv : Option KeyValue
  pub unrecognized : Bytes

pub record DeleteRequest : Type 0 where
  pub key : Bytes
  pub revision : ℕ
  pub unrecognized : Bytes

pub record DeleteResponse : Type 0 where
  pub header : Option ResponseHeader
  pub succeeded : Bool
  pub kv : Option KeyValue
  pub unrecognized : Bytes

pub record CompactRequest : Type 0 where
  pub revision : ℕ
  pub physical : Bool
  pub unrecognized : Bytes

pub record CompactResponse : Type 0 where
  pub header : Option ResponseHeader
  pub unrecognized : Bytes
