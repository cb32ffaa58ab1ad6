-- ===== src/Client/Unary.antt =====
-- client/client_unary.go: one request and its response. A function `…_request` is the request as it
-- is after the options.
use kubebrain_client.Prelude.{ℕ, Option, none, some, List, [], false, Bytes, pair_of}
use kubebrain_client.Prelude.Int.{pos}
use kubebrain_client.Rpc.Messages.{
  GetRequest, GetResponse, RangeRequest, RangeResponse, CountRequest, CountResponse,
  ListPartitionRequest, ListPartitionResponse, CreateRequest, CreateResponse, UpdateRequest,
  UpdateResponse, DeleteRequest, DeleteResponse, CompactRequest, CompactResponse,
}
use kubebrain_client.Rpc.Stubs.{
  Conn, read_get, read_range, read_count, read_list_partition, write_create, write_update,
  write_delete, write_compact,
}
use kubebrain_client.Client.Options.{
  CreateOption, UpdateOption, GetOption, DeleteOption, CompactOption, RangeOption, CountOption,
  ListPartitionOption, decorate_all, decorate_create_req, decorate_update_req, decorate_get_req,
  decorate_delete_req, decorate_compact_req, decorate_range_req, decorate_count_req,
  decorate_list_partition_req,
}

unfoldable pub create_request : Bytes → Bytes → List CreateOption → CreateRequest
unfolding decorate_create_req
create_request key val opts =
    decorate_all decorate_create_req opts
      (record { key = key; value = val; lease = pos 0; unrecognized = [] })

unfoldable pub update_request : Bytes → Bytes → ℕ → List UpdateOption → UpdateRequest
unfolding decorate_update_req
update_request key val rev opts = decorate_all decorate_update_req opts (record {
  kv = some (record { key = key; revision = rev; value = val; unrecognized = [] });
  lease = pos 0;
  unrecognized = [];
})

unfoldable pub get_request : Bytes → List GetOption → GetRequest
unfolding decorate_get_req
get_request key opts =
    decorate_all decorate_get_req opts (record { key = key; revision = 0; unrecognized = [] })

unfoldable pub range_request : Bytes → Bytes → List RangeOption → RangeRequest
unfolding decorate_range_req
range_request start end opts = decorate_all decorate_range_req opts (record {
  key = start;
  end = end;
  limit = pos 0;
  revision = 0;
  filter = none;
  unrecognized = [];
})

unfoldable pub delete_request : Bytes → List DeleteOption → DeleteRequest
unfolding decorate_delete_req
delete_request key opts =
    decorate_all decorate_delete_req opts (record { key = key; revision = 0; unrecognized = [] })

unfoldable pub compact_request : ℕ → List CompactOption → CompactRequest
unfolding decorate_compact_req
compact_request rev opts =
    decorate_all decorate_compact_req opts
      (record { revision = rev; physical = false; unrecognized = [] })

unfoldable pub count_request : Bytes → Bytes → List CountOption → CountRequest
unfolding decorate_count_req
count_request start end opts =
    decorate_all decorate_count_req opts
      (record { key = start; end = end; filter = none; unrecognized = [] })

unfoldable pub list_partition_request :
    Bytes → Bytes → List ListPartitionOption → ListPartitionRequest
unfolding decorate_list_partition_req
list_partition_request start end opts =
    decorate_all decorate_list_partition_req opts
      (record { key = start; end = end; unrecognized = [] })

module _ {E : Type 0} (cc : Conn E) where
  unfoldable pub create : Bytes → Bytes → List CreateOption → Option CreateResponse × Option E
  unfolding create_request write_create
  create key val opts = pair_of (write_create cc (create_request key val opts))

  unfoldable pub update : Bytes → Bytes → ℕ → List UpdateOption → Option UpdateResponse × Option E
  unfolding update_request write_update
  update key val rev opts = pair_of (write_update cc (update_request key val rev opts))

  unfoldable pub get : Bytes → List GetOption → Option GetResponse × Option E
  unfolding get_request read_get
  get key opts = pair_of (read_get cc (get_request key opts))

  unfoldable pub range : Bytes → Bytes → List RangeOption → Option RangeResponse × Option E
  unfolding range_request read_range
  range start end opts = pair_of (read_range cc (range_request start end opts))

  unfoldable pub delete : Bytes → List DeleteOption → Option DeleteResponse × Option E
  unfolding delete_request write_delete
  delete key opts = pair_of (write_delete cc (delete_request key opts))

  unfoldable pub compact : ℕ → List CompactOption → Option CompactResponse × Option E
  unfolding compact_request write_compact
  compact rev opts = pair_of (write_compact cc (compact_request rev opts))

  unfoldable pub count : Bytes → Bytes → List CountOption → Option CountResponse × Option E
  unfolding count_request read_count
  count start end opts = pair_of (read_count cc (count_request start end opts))

  unfoldable pub list_partition :
      Bytes → Bytes → List ListPartitionOption → Option ListPartitionResponse × Option E
  unfolding list_partition_request read_list_partition
  list_partition start end opts =
      pair_of (read_list_partition cc (list_partition_request start end opts))
