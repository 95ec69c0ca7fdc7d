-- ===== src/Lib.antt =====
-- A verification of styx, a plugin runtime whose host and plugin exchange calls through shared
-- memory.
--
-- The parts, and how they interact. A region of shared memory holds, for each direction, a ring of
-- 64-byte descriptors and an arena of payload slabs. A sender takes a slab from its arena, writes
-- the payload, fills a descriptor and pushes it; the receiver peeks the descriptor, reads the slab
-- and advances the ring, and the sender then frees the slab. The geometry of rings and arenas is
-- computed once from a configuration, and admission control checks it against the number of calls
-- in flight; the layout page carries it to the other process, which checks it before use. A receiver
-- with nothing to read parks on an eventfd, and a sender that finds it parked writes the eventfd.
-- Above the transport, the request table matches responses with calls, each direction of a stream
-- counts its credit, and a stream message over one frame's limit goes as a train of fragments.
--
-- Which file models what (paths from the repository's root):
--   Descriptor        internal/ring/descriptor.go: the fields as bytes of the slot
--   Ring              internal/ring/ring.go: New, Push, Peek, Advance, Pop, Len, Full, Empty;
--                     Ring/Queue is the queue that Ring/Refine relates it to; Ring/Interleave has
--                     both sides as steps, one for each atomic load, store or part of a slot write
--   Geometry          internal/shm/layout.go: the checks and sums from a configuration to a layout
--   Page              internal/shm/layout.go and region.go: the layout page in memory, as CreateRegion
--                     derives and writes it, and (Page/Parse) as the attaching side checks it,
--                     where a slice past the mapped bytes panics; Page/Total is what the same checks
--                     give on a memory without an end, which the proofs go through
--   Arena             internal/arena/arena.go, slab.go, sizeclass.go: New, Alloc, Free, Validate
--   Admission         internal/transport/shm/admission.go: the checks at startup
--   Calls             internal/rpcruntime/table.go: the request table; Calls/Races has any number of
--                     callers as steps, one for each lookup, compare-and-swap, send or delete, and
--                     the history of a run: the transitions asked for, and those that ended calls
--   Credit            internal/rpcruntime/credit.go: the counter; Credit/Acks has both ends of one
--                     direction with the messages and acknowledgements between them
--   Parking           internal/event/parkstate.go, spin.go, eventfd.go and the producer's signal and
--                     the poisoning in internal/transport/shm/transport.go and poison.go: the words
--                     that the sides share, with one step for each access to them
--   Streams           internal/rpcruntime/stream.go, chunk_recv.go, chunk_policy.go: the inbound
--                     messages of a stream; Streams/Send has stream.go's SendMsg and chunk_send.go
--   Inbound           internal/transport/shm/transport.go: the checks of an inbound descriptor
--   Leases            internal/rpcruntime/lease.go: the leases of running handlers and the answers owed
--   Registry          idregistry.go: the names that generated code registers for routing IDs
--   Health            internal/supervisor/health.go: the verdict on two heartbeats and the tracker of a
--                     lasting wedge, as supervisor.go's heartbeat loop uses them
--   Base              shared tests on numbers, lists, bytes and machine words
--
-- Conventions. A method of a Go type is a function of the same name in snake case; its receiver is
-- a record that it takes and returns. An unsigned word is a native number with its wrap-around
-- written out; a signed one is Base.Int.ℤ. An error is `none`, `false` or a constructor of the
-- component's own error type, named for the sentinel that errors.Is finds. A panic is an outcome of
-- its own (Base.Outcome) where the code slices untrusted memory. A Go pointer that may be nil is an
-- Option.
--
-- Fuel and bounds. The only loop without a structural bound is mintArenaID, which repeats while the
-- counter's next value is 0; its model takes fuel, of which two rounds suffice: two successive
-- values of a 64-bit counter are not both 0. Counters that the code says never wrap (call IDs, the
-- credit's cumulative counts) are bounded by a premise of the step that raises them.
--
-- Answers of a transport's Send are a list: a retry loop without a bound in the code runs along it,
-- and where the list ends the call has not returned.
--
-- Not modelled: the writing of a payload into the arena; mapping, sockets, processes, timers and channels'
-- blocking; the eventfd but for its counter, and failures and interruptions of its reads and writes;
-- the memory model below sequential consistency of the shared words (Go's atomics are sequentially
-- consistent), except that a slot write may be seen torn; of a stream, its opening, its
-- acknowledgement frames and its teardown beyond the outcome recorded by a failed send; the transport
-- and the lifecycle above the parts named here.
pub mod Base
pub mod Descriptor
pub mod Ring
pub mod Geometry
pub mod Page
pub mod Arena
pub mod Credit
pub mod Admission
pub mod Calls
pub mod Parking
pub mod Streams
pub mod Inbound
pub mod Health
pub mod Registry
pub mod Leases
