-- ===== src/Client/Options.antt =====
-- client/options.go, and the option interfaces of client/interface.go. An interface is the type of
-- the options that implement it; `CountOption` and `ListPartitionOption` have none.
use kubebrain_client.Prelude.{ℕ, true, List, [], ◌∷◌}
use kubebrain_client.Prelude.Int.{ℤ}
use kubebrain_client.Keys.{prefix_end}
use kubebrain_client.Rpc.Messages.{
  GetRequest, RangeRequest, CountRequest, ListPartitionRequest, WatchRequest, CreateRequest,
  UpdateRequest, DeleteRequest, CompactRequest,
}

pub data CreateOption : Type 0 where
  with_ttl : ℤ → CreateOption

pub data UpdateOption : Type 0 where
  with_ttl : ℤ → UpdateOption

pub data GetOption : Type 0 where
  with_revision : ℕ → GetOption

pub data DeleteOption : Type 0 where
  with_revision : ℕ → DeleteOption

pub data CompactOption : Type 0 where
  with_revision : ℕ → CompactOption

pub data RangeOption : Type 0 where
  with_revision : ℕ → RangeOption
  with_limit : ℤ → RangeOption

pub data WatchOption : Type 0 where
  with_revision : ℕ → WatchOption
  with_prefix : WatchOption
  with_bookmark : WatchOption

pub data RangeStreamOption : Type 0 where
  with_revision : ℕ → RangeStreamOption
  with_limit : ℤ → RangeStreamOption
  with_max_concurrent : ℕ → RangeStreamOption

pub data CountOption : Type 0 where

pub data ListPartitionOption : Type 0 where

-- `RangeStreamRequest`
pub record RangeStreamRequest : Type 0 where
  pub range_request : RangeRequest
  pub max_concurrent : ℕ

unfoldable pub decorate_create_req : CreateOption → CreateRequest → CreateRequest
decorate_create_req (with_ttl ttl) req = record req { lease = ttl }

unfoldable pub decorate_update_req : UpdateOption → UpdateRequest → UpdateRequest
decorate_update_req (with_ttl ttl) req = record req { lease = ttl }

unfoldable pub decorate_get_req : GetOption → GetRequest → GetRequest
decorate_get_req (with_revision rev) req = record req { revision = rev }

unfoldable pub decorate_delete_req : DeleteOption → DeleteRequest → DeleteRequest
decorate_delete_req (with_revision rev) req = record req { revision = rev }

unfoldable pub decorate_compact_req : CompactOption → CompactRequest → CompactRequest
decorate_compact_req (with_revision rev) req = record req { revision = rev }

unfoldable pub decorate_range_req : RangeOption → RangeRequest → RangeRequest
decorate_range_req (with_revision rev) req = record req { revision = rev }
decorate_range_req (with_limit limit) req = record req { limit = limit }

unfoldable pub decorate_watch_req : WatchOption → WatchRequest → WatchRequest
decorate_watch_req (with_revision rev) req = record req { revision = rev }
decorate_watch_req with_prefix req = record req { end = prefix_end req.key }
decorate_watch_req with_bookmark req = record req { allow_watch_bookmarks = true }

unfoldable pub decorate_stream_range_req :
    RangeStreamOption → RangeStreamRequest → RangeStreamRequest
decorate_stream_range_req (with_revision rev) req = record req {
  range_request = record (req.range_request) { revision = rev };
}
decorate_stream_range_req (with_limit limit) req = record req {
  range_request = record (req.range_request) { limit = limit };
}
decorate_stream_range_req (with_max_concurrent n) req = record req { max_concurrent = n }

unfoldable pub decorate_count_req : CountOption → CountRequest → CountRequest
decorate_count_req opt req = elim opt [ ]

unfoldable pub decorate_list_partition_req :
    ListPartitionOption → ListPartitionRequest → ListPartitionRequest
decorate_list_partition_req opt req = elim opt [ ]

-- `for _, opt := range opts { opt.decorate…(req) }`
abbrev pub decorate_all {ℓ κ} : {O : Type ℓ} {R : Type κ} → (O → R → R) → List O → R → R
decorate_all decorate [] req = req
decorate_all decorate (opt ∷ opts) req = decorate_all decorate opts (decorate opt req)
