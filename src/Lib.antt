-- ===== src/Lib.antt =====
-- The session management function: the parts of internal/ that keep state and decide.
--
-- - Pool: internal/context/pool/lazyReusePool.go, the pool that hands out UE addresses and takes
--   them back for late reuse. A linked list of segments is a list, a method a function from the pool
--   to the new pool and its result. `Reserve` takes fuel, two rounds a segment: each segment is
--   visited once and cut at most once, and the second half of a cut is visited and left alone.
--   lazyReusePool's `Min`, `Max`, `Remain` and its printing only read fields and have no definition.
-- - Net: what the program uses of Go's net and encoding/binary, which are not part of it: an address
--   as its bytes, `Uint32` and `PutUint32`, `To4`, `Contains`.
-- - UeIpPool: internal/context/ue_ip_pool.go, a subnet over such a pool. `net.ParseCIDR` is handed
--   over as its result. A panic on a short address is a value of the model.
-- - Topology: internal/context/snssai.go and the nodes of internal/context/user_plane_information.go,
--   with the slices that a UPF of internal/context/upf.go serves. Two nodes are the same where their
--   places are; texts are ASCII.
-- - Topology/Links: the links between the nodes, `LinksFromConfiguration` and `UpNodeDelete` of the same
--   file, with the cached default paths.
-- - Topology/Search: `getPathBetween`, the depth-first search for a path of one slice. Its fuel bounds
--   the depth by the number of nodes, and every call on the stack has marked a node of its own.
-- - Selection: `SelectUPFAndAllocUEIP` and `ReleaseUEIP` of internal/context/user_plane_information.go
--   over a store of pools. The answers of `rand.Intn` are a parameter, and so is the list of anchors.
-- - Rules: the PDRs, FARs, BARs, QERs and URRs of a UPF, of internal/context/upf.go and
--   internal/context/pfcp_rules.go. The generator of identifiers is a parameter with its promises.
-- - UrrTable: the table of a session's URRs and their reference counts, of
--   internal/context/pfcp_rules.go. A count is a Go `int`, which can fall below zero.
-- - Session: `IsAllowedPDUSessionType` of internal/context/sm_context.go, the choice of a session's type.
-- - UeSessions: internal/context/sm_ue.go, how many sessions each UE has.
-- - Qfi: the identifiers of a session's QoS flows, of internal/context/sm_context.go and
--   internal/context/sm_context_policy.go, over the generator of Rules.
-- - Pfcp: the rules of internal/context/pfcp_rules.go, how internal/pfcp/message/build.go puts them
--   into a message, and its requests that establish and modify a session. The orders in which Go
--   ranges over the maps of QERs and URRs are parameters.
-- - Qos: the conversions of bit rates of internal/util/qos_convert.go and the flows of
--   internal/context/qos_flow.go with what NAS and NGAP messages say of them. `ParseFloat` and the
--   constants of the ngap library are parameters; a panic is a value.
-- - DataPath: the data paths of internal/context/datapath.go. Chain has the nodes in a store, linked
--   both ways; the copy of a path takes as fuel a round for each node. Tunnel has the tunnels of a
--   path's nodes, over the tables of Rules and the PFCP sessions of internal/context/sm_context.go.
--   Forwarding has what their PDRs and FARs say, with the interfaces of internal/context/upf.go, and
--   Quality has the QERs of `AddQoS`.
--
-- The mutexes are not modelled: one operation runs at a time, each to its end. What is
-- logged is left out. The handlers of HTTP, NGAP, NAS and PFCP messages and the encoding of
-- those messages are not modelled.
pub mod Common
pub mod Pool
pub mod Net
pub mod UeIpPool
pub mod Topology
pub mod Selection
pub mod Rules
pub mod UrrTable
pub mod Session
pub mod UeSessions
pub mod Qfi
pub mod DataPath
pub mod Qos
pub mod Pfcp
