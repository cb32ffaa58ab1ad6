-- ===== src/Client/Interface.antt =====
-- The interface of client/interface.go, and the client as an implementation of it.
use kubebrain_client.Prelude.{ℕ, Bool, Option, List, Bytes, Chan}
use kubebrain_client.Rpc.Messages.{
  GetResponse, RangeResponse, CountResponse, ListPartitionResponse, CreateResponse, UpdateResponse,
  DeleteResponse, CompactResponse,
}
use kubebrain_client.Rpc.Stubs.{Conn}
use kubebrain_client.Client.Options.{
  CreateOption, UpdateOption, GetOption, DeleteOption, CompactOption, RangeOption, CountOption,
  ListPartitionOption, WatchOption, RangeStreamOption,
}
use kubebrain_client.Resolver.Endpoint.{Url}
use kubebrain_client.Client.Credentials.{Security}
use kubebrain_client.Client.Unary
use kubebrain_client.Client.Streams.{WatchResponse, watch}
use kubebrain_client.Client.RangeStream.{stream_request}
use kubebrain_client.Client.RangeStream.Merge.{Stream, range_stream_of}
use kubebrain_client.Client.Lifecycle.{ClientImpl, World, Grpc, close_client}

-- `Client`, with the errors `E` and the state `W` that `Close` changes. `Watch` and `RangeStream` give
-- channels; a range stream may panic at a nil header.
pub record Client (E W : Type 0) : Type 0 where
  pub create : Bytes → Bytes → List CreateOption → Option CreateResponse × Option E
  pub update : Bytes → Bytes → ℕ → List UpdateOption → Option UpdateResponse × Option E
  pub get : Bytes → List GetOption → Option GetResponse × Option E
  pub range : Bytes → Bytes → List RangeOption → Option RangeResponse × Option E
  pub delete : Bytes → List DeleteOption → Option DeleteResponse × Option E
  pub compact : ℕ → List CompactOption → Option CompactResponse × Option E
  pub watch : Bytes → List WatchOption → Chan (WatchResponse E)
  pub range_stream : Bytes → Bytes → List RangeStreamOption → Option (Stream E)
  pub count : Bytes → Bytes → List CountOption → Option CountResponse × Option E
  pub list_partition :
      Bytes → Bytes → List ListPartitionOption → Option ListPartitionResponse × Option E
  pub close : W → Bool × W

-- The operations of `clientImpl`. Each goes through the stubs of the service that it belongs to.
module _ {Tls Auth Link Shaken E Cc : Type 0} (sec : Security Tls Auth Link Shaken) where
  unfoldable pub operations :
      (Bytes → Option Url)
      → Grpc E Cc
      → (Cc → Conn E)
      → ClientImpl Tls Cc
      → Client E (World Tls Auth)
  unfolding close_client
  operations url_parse grpc conn c = record {
    create = Unary.create (conn c.rpc_client.write_client);
    update = Unary.update (conn c.rpc_client.write_client);
    get = Unary.get (conn c.rpc_client.read_client);
    range = Unary.range (conn c.rpc_client.read_client);
    delete = Unary.delete (conn c.rpc_client.write_client);
    compact = Unary.compact (conn c.rpc_client.write_client);
    watch = watch (conn c.rpc_client.watch_client);
    range_stream = λ start end opts.
        range_stream_of (conn c.rpc_client.read_client) (stream_request start end opts);
    count = Unary.count (conn c.rpc_client.read_client);
    list_partition = Unary.list_partition (conn c.rpc_client.read_client);
    close = close_client sec url_parse grpc c;
  }
