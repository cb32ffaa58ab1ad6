-- ===== src/Rpc/Stubs.antt =====
-- The client stubs of api/v2rpc/rpc.pb.go. The connection is gRPC's: for each method it takes the
-- full name and the request, and answers with the response or an error. A stream is the list of what
-- its `RecvMsg` gives; `NewStream`, `SendMsg` and `CloseSend` answer together. A stub gives back nil
-- with an error and a pointer without one, which is a `Result`.
use kubebrain_client.Prelude.{List, Bytes, codes, Result}
use kubebrain_client.Rpc.Messages.{
  GetRequest, GetResponse, RangeRequest, RangeResponse, StreamRangeResponse, CountRequest,
  CountResponse, ListPartitionRequest, ListPartitionResponse, WatchRequest, WatchResponse,
  CreateRequest, CreateResponse, UpdateRequest, UpdateResponse, DeleteRequest, DeleteResponse,
  CompactRequest, CompactResponse,
}

-- One `RecvMsg`: a message, `io.EOF`, or another error.
pub data Recv (E A : Type 0) : Type 0 where
  message : A → Recv E A
  eof : Recv E A
  failure : E → Recv E A

pub record Conn (E : Type 0) : Type 0 where
  pub invoke_get : Bytes → GetRequest → Result E GetResponse
  pub invoke_range : Bytes → RangeRequest → Result E RangeResponse
  pub invoke_count : Bytes → CountRequest → Result E CountResponse
  pub invoke_list_partition : Bytes → ListPartitionRequest → Result E ListPartitionResponse
  pub invoke_create : Bytes → CreateRequest → Result E CreateResponse
  pub invoke_update : Bytes → UpdateRequest → Result E UpdateResponse
  pub invoke_delete : Bytes → DeleteRequest → Result E DeleteResponse
  pub invoke_compact : Bytes → CompactRequest → Result E CompactResponse
  pub stream_range : Bytes → RangeRequest → Result E (List (Recv E StreamRangeResponse))
  pub stream_watch : Bytes → WatchRequest → Result E (List (Recv E WatchResponse))

pub data Method : Type 0 where
  get range range_stream count list_partition watch create update delete compact : Method

-- The names that the stubs pass to the connection.
unfoldable pub full_name : Method → Bytes
full_name get = codes "/Read/Get"
full_name range = codes "/Read/Range"
full_name range_stream = codes "/Read/RangeStream"
full_name count = codes "/Read/Count"
full_name list_partition = codes "/Read/ListPartition"
full_name watch = codes "/Watch/Watch"
full_name create = codes "/Write/Create"
full_name update = codes "/Write/Update"
full_name delete = codes "/Write/Delete"
full_name compact = codes "/Write/Compact"

module _ {E : Type 0} (cc : Conn E) where
  -- `readClient`
  unfoldable pub read_get : GetRequest → Result E GetResponse
  read_get req = cc.invoke_get (full_name get) req

  unfoldable pub read_range : RangeRequest → Result E RangeResponse
  read_range req = cc.invoke_range (full_name range) req

  unfoldable pub read_count : CountRequest → Result E CountResponse
  read_count req = cc.invoke_count (full_name count) req

  unfoldable pub read_list_partition : ListPartitionRequest → Result E ListPartitionResponse
  read_list_partition req = cc.invoke_list_partition (full_name list_partition) req

  unfoldable pub read_range_stream : RangeRequest → Result E (List (Recv E StreamRangeResponse))
  read_range_stream req = cc.stream_range (full_name range_stream) req

  -- `watchClient`
  unfoldable pub watch_watch : WatchRequest → Result E (List (Recv E WatchResponse))
  watch_watch req = cc.stream_watch (full_name watch) req

  -- `writeClient`
  unfoldable pub write_create : CreateRequest → Result E CreateResponse
  write_create req = cc.invoke_create (full_name create) req

  unfoldable pub write_update : UpdateRequest → Result E UpdateResponse
  write_update req = cc.invoke_update (full_name update) req

  unfoldable pub write_delete : DeleteRequest → Result E DeleteResponse
  write_delete req = cc.invoke_delete (full_name delete) req

  unfoldable pub write_compact : CompactRequest → Result E CompactResponse
  write_compact req = cc.invoke_compact (full_name compact) req
