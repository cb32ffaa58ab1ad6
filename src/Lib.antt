-- ===== src/Lib.antt =====
-- The KubeBrain client: a Go library that reads and writes a replicated key-value store through
-- gRPC.
--
-- The parts, and how they interact
--
-- A caller's operation (client/client_unary.go, client/client_stream.go) becomes a request, which
-- the options (client/options.go, client/interface.go) change one after the other. The stub of the
-- method (api/v2rpc/rpc.pb.go) passes its full name and the request to gRPC, which asks the picker
-- (client/balancer/picker/rw_separated.go) for a connection: a method under "/Read" goes to the
-- followers in turn, all else to the leader. The picker reads the leader from a record that the
-- leader controller (client/balancer/picker/leader_ctrl.go) keeps for the endpoints of each
-- cluster, and that a health check of the cluster (client/leader.go) writes every second.
-- `NewClient` (client/client.go) opens a group of the resolver
-- (client/balancer/resolver/resolver.go), dials through it with the credentials of
-- client/credentials.go, and registers the cluster; gRPC then has a picker built over the
-- connections that are ready (client/balancer/picker/builder.go). A message goes over the wire with
-- the size that its Size method announces. A watch of a prefix and a range stream over partitions
-- split the space of keys into half-open ranges (client/util.go, client/client_stream.go).
--
-- The files
--
-- - Prelude: names of the libraries passed on; Go's strings and byte slices (Prelude/Text,
--   Prelude/TextOrder), slices (Prelude/Lists), maps as association lists (Prelude/Assoc), int64
--   values as signed numbers (Prelude/Int), results and channels (Prelude/Go).
-- - Keys: `prefixEnd` of client/util.go; Keys/Prefix is about the range it ends.
-- - Rpc/Messages, Rpc/Size, Rpc/Varint, Rpc/Stubs: the structs, the Size methods, `sovRpc` and the
--   client stubs of api/v2rpc/rpc.pb.go. Rpc/Wire is the wire format of protocol buffers, written
--   down by itself; Rpc/Lengths measures it and Rpc/Message joins all messages.
-- - Picker: client/balancer/picker/rw_separated.go, one function for each of its methods (`Pick`
--   is `pick`, `pickReader` is `pick_reader`, and so on). Picker/Invariant, Picker/Split,
--   Picker/Routing, Picker/Rotation and Picker/Hazards are about it. Picker/Concurrent has calls
--   that run at the same time, with Picker/Concurrent/Ends, Picker/Concurrent/Counter and
--   Picker/Concurrent/Safety, and Picker/Concurrent/Hang and Picker/Concurrent/Stuck for calls that
--   wait for ever. Picker/Builder is client/balancer/picker/builder.go.
-- - LeaderCtrl: client/balancer/picker/leader_ctrl.go in the same way, with the pointers to leader
--   records as places in a heap. LeaderCtrl/Endpoints has `marshalEndpoints`; LeaderCtrl/Index,
--   LeaderCtrl/Records, LeaderCtrl/RefCount, LeaderCtrl/Leader and LeaderCtrl/Clash are about the
--   rest. LeaderCtrl/Clusters has several clusters in one controller, with
--   LeaderCtrl/Clusters/Frame, LeaderCtrl/Clusters/Moves, LeaderCtrl/Clusters/Keeps and
--   LeaderCtrl/Clusters/Counted. LeaderCtrl/Events is all that happens to the controller,
--   LeaderCtrl/Orphan and LeaderCtrl/Bounded are about records that no key leads to (with
--   LeaderCtrl/Cases and LeaderCtrl/Leads), and LeaderCtrl/Key is about the key of a cluster.
-- - Client/Options, Client/Unary, Client/Streams, Client/RangeStream: client/options.go,
--   client/client_unary.go, the watch and the fetching loops of client/client_stream.go, and its
--   range streams. Client/RequestLaws, Client/Streams/Delivery and Client/RangeStream/Partitions
--   are about them.
-- - Client/Streams/Pipe: the fetching loops a step at a time, with the buffer of the channel and
--   its reader; Client/Streams/Pipe/Flow, Client/Streams/Pipe/Reader and Client/Streams/Pipe/Leak
--   are about them.
-- - Client/RangeStream/Merge: the callbacks of a concurrent range stream and the group of
--   client/util.go that runs them, as steps that interleave. Client/RangeStream/Merge/Parts,
--   Client/RangeStream/Merge/Invariant, Client/RangeStream/Merge/Delivery,
--   Client/RangeStream/Merge/Measure, Client/RangeStream/Merge/Progress,
--   Client/RangeStream/Merge/CutShort and Client/RangeStream/Merge/Start are about them.
-- - Client/RangeStream/Snapshot: what range streams give of the key-values that a server holds;
--   Client/RangeStream/Snapshot/Split, Client/RangeStream/Snapshot/Gather and
--   Client/RangeStream/Snapshot/Whole.
-- - Client/Config, Client/DialOptions, Client/Lifecycle: client/client.go, with the limits of
--   client/options.go; Client/Lifecycle/Opening, Client/Lifecycle/Afterwards,
--   Client/Lifecycle/Closing and Client/Lifecycle/Transport are about it. Client/Interface is the
--   interface of client/interface.go. Client/Credentials is client/credentials.go, and
--   Client/Credentials/History says what it implements.
-- - LeaderChecker: the health checks of client/leader.go, as steps too; LeaderChecker/Invariant
--   and LeaderChecker/Answers are about what it answers, LeaderChecker/Settles about its end.
--   LeaderChecker/Health is the check of one endpoint.
-- - Resolver: the groups of client/balancer/resolver/resolver.go; Resolver/States and
--   Resolver/Runs are about what their connections know, Resolver/Keeps about what gRPC leaves
--   alone. Resolver/Endpoint is `ParseEndpoint` and `Dialer`, Resolver/Schemes says what an
--   endpoint names, Resolver/Target is `Target`, and
--   Resolver/Race splits `addResolver` where it gives up its lock.
-- - Routes: which server each operation reaches, from the method names to the picker;
--   Routes/Failover starts from a health check, Routes/Cluster from the registration of a cluster,
--   Routes/Session, Routes/Leadership and Routes/Followers from `NewClient`, and Routes/Orphan
--   from a picker that is built too early. Routes/Operations is about the operations of the
--   interface over a connection that asks the picker.
-- - Tests: runs at concrete inputs.
--
-- State, numbers and bounds
--
-- A method with a pointer receiver takes its state and returns the new one. What other goroutines
-- or the runtime decide is an argument: the order in which Go visits a map, what a call finds when
-- it reads the leader, what a health check answers, what a stream receives. Where the interleaving
-- of goroutines matters, they are a step relation, and the runs are what it reaches. A panic and a
-- call that waits for ever are outcomes of their own. uint64 values are natural numbers; the
-- counter of the picker wraps at 2 ^ 64 and its sign is that of the int64. `bits.Len64` runs for at
-- most 64 rounds and a varint has at most ten bytes, which is enough for 64 bits. All loops are
-- structural. A run of steps has no fuel: a number that each step lowers bounds its length.
--
-- What is not modelled
--
-- Logging and its levels (client/init.go), and the getters, descriptors and server side of
-- api/v2rpc/rpc.pb.go. What other code does is an argument: gRPC's connections, dialling, parsing
-- of targets and health service, TLS, `url.Parse`, `net.Dialer` and `uuid`. Resolver/Target and
-- Client/Lifecycle/Opening say what is relied on: targets are taken apart as gRPC documents it, and
-- gRPC changes the resolver only by `Build` and by closing resolvers, with one `Build` in a dial
-- that succeeds. Contexts are kept as cancelled or not; deadlines are passed on. The reader of a
-- concurrent range stream is taken to read on to the end; only Client/Streams/Pipe has one that may
-- stop. A read of the picker holds its read lock for one step, in which other reads may only count
-- on; that a waiting writer keeps the read from the lock that it has already is a step of its own. A
-- leader record does not keep the health check of its first client: what the check answers is an
-- argument of each round. The context of a range stream's group is followed until its callbacks have
-- ended, not past the `Wait` that cancels it.
pub mod Client
pub mod Keys
pub mod LeaderChecker
pub mod LeaderCtrl
pub mod Picker
pub mod Prelude
pub mod Resolver
pub mod Routes
pub mod Rpc
pub mod Tests
