-- ===== src/Routes/Operations.antt =====
-- Where the operations of client/interface.go go over a connection that asks the picker of
-- client/balancer/picker/rw_separated.go.
use mathlib.Core.List.{Perm}
use kubebrain_client.Prelude.{
  ◌≡◌, ◌≢◌, ◌<◌, ◌^◌, refl, ◌⊎◌, inl, inr, ap, ◌∙◌, true, false, Option, none, some, List, [],
  Bytes, ℕ,
}
use kubebrain_client.Rpc.Messages.{
  GetRequest, RangeRequest, CountRequest, ListPartitionRequest, WatchRequest, CreateRequest,
  UpdateRequest, DeleteRequest, CompactRequest,
}
use kubebrain_client.Rpc.Stubs.{
  Conn, Method, get, range, count, list_partition, watch, create, update, delete, compact,
  full_name, read_get, read_range, read_count, read_list_partition, watch_watch, write_create,
  write_update, write_delete, write_compact,
}
use kubebrain_client.Picker.{
  Address, Picker, Outcome, Reads, picked, unavailable, panics, deadlock, pick,
}
use kubebrain_client.Picker.Invariant.{listed, addrs, Entry, IsValid}
use kubebrain_client.Routes.{is_read, full_name-read, method_reaches}
use kubebrain_client.Resolver.Endpoint.{Url}
use kubebrain_client.Client.Options.{
  CreateOption, UpdateOption, GetOption, DeleteOption, CompactOption, RangeOption, CountOption,
  ListPartitionOption, WatchOption,
}
use kubebrain_client.Client.Unary
use kubebrain_client.Client.Streams
use kubebrain_client.Client.Credentials.{Security}
use kubebrain_client.Client.Interface.{Client, operations}
use kubebrain_client.Client.Lifecycle.{ClientImpl, Grpc}

-- The connection hands each call to the one that its method's name leads to.
pub record Dispatches {E : Type 0} (conn : Conn E) (to : Bytes → Conn E) : Type 0 where
  pub gets :
      (name : Bytes) (req : GetRequest) → conn.invoke_get name req ≡ (to name).invoke_get name req
  pub ranges :
      (name : Bytes) (req : RangeRequest)
      → conn.invoke_range name req ≡ (to name).invoke_range name req
  pub counts :
      (name : Bytes) (req : CountRequest)
      → conn.invoke_count name req ≡ (to name).invoke_count name req
  pub lists_partition :
      (name : Bytes) (req : ListPartitionRequest)
      → conn.invoke_list_partition name req ≡ (to name).invoke_list_partition name req
  pub creates :
      (name : Bytes) (req : CreateRequest)
      → conn.invoke_create name req ≡ (to name).invoke_create name req
  pub updates :
      (name : Bytes) (req : UpdateRequest)
      → conn.invoke_update name req ≡ (to name).invoke_update name req
  pub deletes :
      (name : Bytes) (req : DeleteRequest)
      → conn.invoke_delete name req ≡ (to name).invoke_delete name req
  pub compacts :
      (name : Bytes) (req : CompactRequest)
      → conn.invoke_compact name req ≡ (to name).invoke_compact name req
  pub watches :
      (name : Bytes) (req : WatchRequest)
      → conn.stream_watch name req ≡ (to name).stream_watch name req

-- The operations of a client for reads, and those for writes, are those over connection `k`.
abbrev pub ReadsOver : {E W : Type 0} → Client E W → Conn E → Type 0
ReadsOver ops k =
    ((key : Bytes) (opts : List GetOption) → ops.get key opts ≡ Unary.get k key opts)
    × ((start end : Bytes) (opts : List RangeOption)
        → ops.range start end opts ≡ Unary.range k start end opts)
    × ((start end : Bytes) (opts : List CountOption)
        → ops.count start end opts ≡ Unary.count k start end opts)
    × ((start end : Bytes) (opts : List ListPartitionOption)
        → ops.list_partition start end opts ≡ Unary.list_partition k start end opts)

abbrev pub WritesOver : {E W : Type 0} → Client E W → Conn E → Type 0
WritesOver ops k =
    ((key val : Bytes) (opts : List CreateOption)
      → ops.create key val opts ≡ Unary.create k key val opts)
    × ((key val : Bytes) (rev : ℕ) (opts : List UpdateOption)
        → ops.update key val rev opts ≡ Unary.update k key val rev opts)
    × ((key : Bytes) (opts : List DeleteOption) → ops.delete key opts ≡ Unary.delete k key opts)
    × ((rev : ℕ) (opts : List CompactOption) → ops.compact rev opts ≡ Unary.compact k rev opts)
    × ((key : Bytes) (opts : List WatchOption) → ops.watch key opts ≡ Streams.watch k key opts)

-- The connection of a call: the picked one, and `refused` where there is none.
abbrev pub through : {E SubConn : Type 0} → (SubConn → Conn E) → Conn E → Outcome SubConn → Conn E
through conns refused (picked (some sc) a) = conns sc
through conns refused (picked none a) = refused
through conns refused unavailable = refused
through conns refused panics = refused
through conns refused deadlock = refused

-- `Pick` looks at the method's name for the service only.
same_pick :
    {SubConn : Type 0} (order : List Address) (r : Reads) (m n : Method) (bal : Picker SubConn)
    → is_read m ≡ is_read n
    → (pick order r (full_name m) bal).1 ≡ (pick order r (full_name n) bal).1
unfolding pick
same_pick order r m n bal e = rw (full_name-read m, pick, full_name-read n, e) refl

module _ {Tls Auth Link Shaken E Cc : Type 0} (sec : Security Tls Auth Link Shaken)
    (url_parse : Bytes → Option Url) (grpc : Grpc E Cc) where
  reads_over :
      (conn : Conn E) (to : Bytes → Conn E) (k : Conn E) (c : ClientImpl Tls Cc)
      → Dispatches conn to
      → ((m : Method) → is_read m ≡ true → to (full_name m) ≡ k)
      → ReadsOver (operations sec url_parse grpc (λ cc. conn) c) k
  unfolding operations Unary.get Unary.range Unary.count Unary.list_partition read_get read_range
      read_count read_list_partition
  reads_over conn to k c d e = (
    λ key opts. rw (d.gets, e get refl) refl,
    λ start end opts. rw (d.ranges, e range refl) refl,
    λ start end opts. rw (d.counts, e count refl) refl,
    λ start end opts. rw (d.lists_partition, e list_partition refl) refl,
  )

  writes_over :
      (conn : Conn E) (to : Bytes → Conn E) (k : Conn E) (c : ClientImpl Tls Cc)
      → Dispatches conn to
      → ((m : Method) → is_read m ≡ false → to (full_name m) ≡ k)
      → WritesOver (operations sec url_parse grpc (λ cc. conn) c) k
  unfolding operations Unary.create Unary.update Unary.delete Unary.compact Streams.watch
      write_create write_update write_delete write_compact watch_watch
  writes_over conn to k c d e = (
    λ key val opts. rw (d.creates, e create refl) refl,
    λ key val rev opts. rw (d.updates, e update refl) refl,
    λ key opts. rw (d.deletes, e delete refl) refl,
    λ rev opts. rw (d.compacts, e compact refl) refl,
    λ key opts. rw (d.watches, e watch refl) refl,
  )

  -- If gRPC hands each call on the client's connection to the ready connection that Pick gives for
  -- the method, then the next Get, Range, Count or ListPartition of the client is that operation
  -- over one ready connection to another address than the leader's, and the next Create, Update,
  -- Delete, Compact or Watch is that operation over a ready connection to the leader, or over none
  -- if the leader is not ready: in a valid picker that has made fewer than 2 ^ 63 reads, if the
  -- visit of the map takes each ready connection once, the two reads of the leader by the call
  -- agree on an address and some other address is ready.
  pub operations_reach :
      {SubConn : Type 0} (conn : Conn E) (conns : SubConn → Conn E) (refused : Conn E)
      (order : List Address) (r : Reads) (bal : Picker SubConn) (addr : Bytes)
      (c : ClientImpl Tls Cc)
      → Dispatches conn (λ name. through conns refused (pick order r name bal).1)
      → IsValid bal
      → Perm order (addrs bal.addr_to_sc)
      → r.fast ≡ r.locked
      → r.fast ≢ []
      → bal.next_reader < 2 ^ 63
      → listed addr (addrs bal.addr_to_sc) ≡ true
      → addr ≢ r.fast
      → let ops = operations sec url_parse grpc (λ cc. conn) c in
        ((a : Bytes) × (sc : SubConn) × Entry a sc bal.addr_to_sc
          × (a ≢ r.fast)
          × ReadsOver ops (conns sc))
        × (((sc : SubConn) × Entry r.fast sc bal.addr_to_sc × WritesOver ops (conns sc))
            ⊎ ((listed r.fast (addrs bal.addr_to_sc) ≡ false) × WritesOver ops refused))
  operations_reach conn conns refused order r bal addr c d v p stable known small ready other =
      let to = λ (name : Bytes). through conns refused (pick order r name bal).1 in
      let (a, sc, e, t, apart) =
        method_reaches get order r bal addr v p stable known small ready other in
      (
        (
          a,
          sc,
          t,
          apart,
          reads_over conn to (conns sc) c d
              (λ m reads. ap (through conns refused) (same_pick order r m get bal reads ∙ e)),
        ),
        elim (method_reaches create order r bal addr v p stable known small ready other) [
          | inl (_, (sc', e', t')) ↦ inl (
            sc',
            t',
            writes_over conn to (conns sc') c d (λ m writes.
                ap (through conns refused) (same_pick order r m create bal writes ∙ e')),
          )
          | inr (l, e') ↦ inr (
            l,
            writes_over conn to refused c d (λ m writes.
                ap (through conns refused) (same_pick order r m create bal writes ∙ e')),
          )
        ],
      )
