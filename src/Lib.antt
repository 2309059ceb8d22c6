-- ===== src/Lib.antt =====
-- A verification library for the services of this repository: proxyd, the RPC proxy, and some of the
-- services around the nodes: the peer manager, the signer, the monitor of conductors, the acceptance
-- tester and the proxy of conditional transactions. These share no code with proxyd and none with
-- one another.
--
-- proxyd answers JSON-RPC requests from groups of backends. Its server screens the requests of an
-- HTTP call, puts them into batches and hands those to backend groups, which send them to one
-- backend after another. In a consensus-aware group a poller asks each backend for its blocks, bans
-- those that misbehave, and resolves the highest block that the candidates agree on; a tracker keeps
-- that block, in memory or shared over Redis; the rewriter puts it in the place of block tags in the
-- requests that are forwarded, and refuses block numbers
-- beyond it. Sliding windows count the requests
-- and errors of a backend, from which its health is read, and rate limiters count those of a client.
--
-- Base: shared names, tests, lists and their permutations, 64-bit words, integers, and the results
--   of Go calls.
-- Json: the JSON values that requests and replies are made of.
-- Hex, EthRpc: the codecs of go-ethereum that proxyd imports, as interfaces with their laws;
--   EthRpc/Strokes is an instance of them.
-- Rpc: proxyd/rpc.go, the requests and responses, with ValidateRPCReq and NewRPCErrorRes.
-- Consensus and its children: proxyd/consensus_poller.go.
--   Consensus has the data (backendState, Backend); Reply has fetchBlock, getPeerCount and isInSync;
--   Poll has UpdateBackend, Ban, Unban and setBackendState; Candidates has FilterCandidates and
--   getConsensusCandidates; Walk and Group have UpdateBackendGroupConsensus. Proofs are in Rounds,
--   Lag, Agreement, LowestBlocks and Resolution.
-- Tracker and its children: proxyd/consensus_tracker.go. Tracker has the tracker in memory, Redis
--   has stateHeartbeat and postPayload; proofs are in Leadership.
-- Rewrite and its children: proxyd/rewriter.go. Proofs are in Bounds, Params and Ranges.
-- Forward and its children: proxyd/backend.go. Send has doForward, Attempts has Backend.Forward and
--   the loop over the backends, Sorting has sortBatchRPCResponse, Overrides has OverrideResponses
--   and OverwriteConsensusResponses, Balance has orderedBackendsForRequest of a group without a
--   consensus and loadBalancedConsensusGroup, Group has BackendGroup.Forward. Proofs are in SortOrder,
--   Counts, Receipts, InOrder, GroupOrder, Order, Failover, Balance and Group.
-- Cache and its children: proxyd/cache.go and proxyd/methods.go. Cache has the caches of texts,
--   Methods has newRPCCache, GetRPC and PutRPC with StaticMethodHandler. Proofs are in Stores, Hits
--   and ReadBack.
-- Window and its children: proxyd/pkg/avg-sliding-window/sliding.go. Window has AddWithTime, advance
--   and the readers, Buckets the linked hash map as an interface. Proofs are in Eviction, Sums and
--   Points.
-- Limits and Limits/Counts: proxyd/frontend_rate_limiter.go, and the proofs.
-- Server and its children: proxyd/server.go. Intake and Batch have handleBatchRPC; proofs are in
--   Slots, Waiting, Taken, Distinct, Minibatch, Ready, Loops and Answers. The backend groups are
--   behind an interface there. Backends fills it with the loop of ForwardRequestToBackendGroup over
--   the backends of a group without a consensus and without a multicall; Forward/InOrder and
--   Forward/GroupOrder have the proofs on the IDs and the order of what such a group answers. Echo has
--   one for the tests.
-- Http and its children: proxyd/server.go around that. Settings has NewServer, Context has
--   populateContext and stripXFF, Limit has isLimited and rateLimitSender, which fill the interface
--   of Server with the limiters of Limits, Handle has HandleRPC and the functions that write a
--   response. Proofs are in Sizes, Replies and Senders.
-- WebSocket and its children: proxyd/backend.go (WSProxier) and proxyd/string_set.go. Pumps has
--   clientPump, backendPump and their interleaving; proofs are in Screened.
-- Peers and its children: peer-mgmt-service/pkg/pms/network.go and poll.go. Poll has the tick of a
--   network (cleanup, poll, updateGraph, resolveState), Connect has connectPeer. Proofs are in
--   Index, Missing and Calls.
-- Signer and its children: op-signer/service. Service has ReadConfig, GetAuthConfigForClient,
--   SignTransaction and SignBlockPayload. Proofs are in Authorized, Payload and Config.
-- Nat and its children: op-nat/gate.go, suite.go, test.go, validator.go and nat.go. Run has the Run
--   of tests, suites and gates, and Start with its table. Proofs are in Summary.
-- Conductors and its children: op-conductor-mon/pkg/monitor/poll.go and poller.go. Poll has Tick.
--   Proofs are in States and Leaders.
-- TxProxy and TxProxy/Forwarded: op-txproxy/conditional_txs.go, SendRawTransactionConditional, and
--   the proofs.
--
-- Conventions: a uint64 is a natural number with its wrap-around written out; an instant is a
-- number of nanoseconds; a result that may be a panic is an Option or a Call, with the panic as a
-- value; what a function reads from outside (the clock, replies, Redis, the order in which Go
-- ranges over a map) is an argument. A mutex makes the code that it guards one step.
--
-- Fuel: the walk back of UpdateBackendGroupConsensus takes one unit for each block that it tries.
-- One more than the distance from the lowest latest block to a block that all candidates have in
-- common is enough. Without such a block the loop of the source goes on past block 0 by
-- wrap-around, so no amount of fuel would do.
--
-- The other loops recurse on a list, or on the number of retries or minibatches that are left.
--
-- Not modelled: of proxyd, the HTTP servers, back-off between retries, metrics, logs, options and
-- configuration files, and the goroutines that call the rounds; of the other services, the schedules
-- that call their ticks, metrics, logs, and the reading of files; and op-ufm and cci-stats, which
-- measure and query other services.
pub mod Base
pub mod Json
pub mod Hex
pub mod EthRpc
pub mod Rewrite
pub mod Tracker
pub mod Consensus
pub mod Rpc
pub mod Forward
pub mod Cache
pub mod Window
pub mod Limits
pub mod Server
pub mod Http
pub mod Nat
pub mod Conductors
pub mod WebSocket
pub mod TxProxy
pub mod Peers
pub mod Signer
