-- ===== src/Lib.antt =====
-- Models of the Gateway-gRPC repository: an HTTP gateway that forwards requests to an echo backend,
-- over gRPC or over ring buffers in shared memory.
--
-- The program's parts and how they interact. The gateway (gateway/src) turns an HTTP request into an
-- `EchoRequest` and hands it to a transport; the backend (backend/src) answers with an
-- `EchoResponse`. Over shared memory the two processes share a request buffer and a response buffer
-- (shared-memory/src/shm.rs). The polling transport reads the response buffer until something is
-- there; the eventfd transport and the Unix-socket transport give each request an identifier, keep
-- the calls that wait in a map, and are told of messages by event counters or by bytes on a socket.
--
-- Which file models which part:
--   Shm        shared-memory/src/lib.rs: `ShmError`, `ShmConfig`, and the outcome of a call, which
--              may also fault: leave the mapping, or panic.
--   Ring       shared-memory/src/shm.rs: `write` and `read` of `SharedMemoryRingBuffer`, with their
--              index arithmetic, byte copies and early returns. Queue is the bounded queue that they
--              implement; Ring/Inv the invariant and the bytes that a ring holds; Ring/Write and
--              Ring/Read the two calls; Ring/Refine the refinement; Ring/Fault where it fails.
--   Setup      shared-memory/src/shm.rs: `create`, `open` and `drop`, over shm_open, ftruncate,
--              mmap and munmap.
--   Startup    the names of the two buffers, how the backend creates them (backend/src/main.rs and
--              `new` of the servers) and how the gateway waits for them (gateway/src/transport.rs).
--              Startup/Sockets has `new` of the multiplexed servers and of their transports up to the
--              socket; Boot has the whole of `new` of these transports.
--   Handshake  `send_eventfd` of backend/src/shm_server_eventfd.rs and `recv_eventfd` of
--              gateway/src/shm_transport_eventfd.rs, over a socket that carries descriptors.
--   EventFd    shared-memory/src/eventfd.rs, and the `signal_eventfd` and `wait_eventfd` of
--              gateway/src/shm_transport_eventfd.rs and backend/src/shm_server_eventfd.rs, over a
--              kernel of which the laws of eventfd(2) are asked.
--   Signals    the writers and the reader of one ring buffer and its event counter as a step
--              relation, in every order of their steps.
--   Pool       gateway/src/transport.rs: `ConnectionPool` and `LoadBalancer`.
--   Transport  gateway/src/transport.rs: `wait_for_shm`, and `call` of the polling `ShmTransport`.
--   Backend    backend/src/main.rs: `echo`, and `run_shm_server` round by round. RoundTrip joins it to
--              Transport.
--   Service    backend/src/main.rs: `compute`.
--   Stream     backend/src/main.rs: `stream_echo`, the steps of its task and of the receiver of its
--              channel.
--   Mux        gateway/src/shm_transport_eventfd.rs and gateway/src/shm_transport_uds.rs: the map of
--              pending requests, the two listeners, the start of a call and its wait.
--   Server     backend/src/shm_server_eventfd.rs and backend/src/shm_server_uds.rs: the request loops
--              and the task of a request. MuxTrip and UdsTrip join it to Mux, over the exchange of
--              Trip; UdsTrip has the listener's task of the Unix-socket transport too. InFlight joins
--              them for any number of calls of the eventfd transport at a time.
--   System     the multiplexed transports with their servers, as systems whose calls, request loop, tasks
--              and listener take their steps in any order, over the operations of Mux and Server.
--              System/Inv says where each call is; System/Calls, Tasks, Batches and Hears are the steps;
--              System/Errors has the errors that calls return from their starts;
--              System/Uds is the system of the Unix-socket transport.
--   Http       gateway/src/main.rs: `handle_request`.
--   Dispatch   gateway/src/transport.rs: `TransportEnum`; and the HTTP handler over a transport that
--              may keep it waiting.
--   Grpc       gateway/src/transport.rs: `TcpTransport` and `UdsTransport`, with the HTTP handler before
--              them and `echo` behind them.
--   Metrics    gateway/src/metrics.rs: the latency histogram, the registry of connections, the
--              report, and the Prometheus text over printed numbers (`Display`).
--   Proto      proto/src/echo.proto: the messages, and what is asked of their serialisers.
--   Launch     `main` of gateway/src/main.rs and backend/src/main.rs: the choice of a transport and
--              of a service; the options themselves are in Startup/Strangers.
-- Prelude and Bytes hold what the parts share; Samples holds test data.
--
-- State and operations. An operation takes the state that it reads and returns the state that it
-- leaves beside its result. `usize` and `u64` are natural numbers whose operations wrap at 2 ^ 64
-- (`add_usize`, `sub_usize`), as in a release build. A mapping is its header, its bytes by their
-- offset and its length; a copy that leaves it is a fault, and no state is given for what comes after.
-- A `write` and a `read` are one step each: each side holds its lock for the call, and the two sides
-- touch disjoint bytes. Clocks and delays are arguments. In the systems the start of a call and a task
-- are one step each, a batch may be of any length, and a loop may be woken at any time; they keep a
-- record of the calls that have been made, of those whose message could not be written, and of the
-- errors with which starts have ended. A call has an identifier and a channel that no earlier call
-- had, and every serialised message has a byte at least.
--
-- Bounds and fuel. The ring is valid with a capacity of at most 2 ^ 32 bytes; the program's is 2 ^ 26.
-- `wait_for_shm` runs on 51 rounds of fuel, which is the number of its attempts. The loop of the
-- Unix-socket listener runs on fuel, one round more than there are messages, and the bounds of the
-- histogram on 25 rounds, which are enough for doubling a microsecond to ten seconds. The polling
-- loop runs over the turns that its environment gives it, and ends at the latest at the first that
-- finds the time up. `recv_eventfd` runs on fuel, of which one round is enough for a descriptor that
-- is there. `compute` is a structural loop of at most 10000 rounds.
--
-- Parameters for code that is not here: the serialisers (`Codec`), the kernel (`EventKernel`,
-- `ShmOs`, `FdSocket`, `Sockets`), floating-point numbers (`Floats`, `Trigonometry`) and their
-- printing (`Display`), JSON values with their printing and text of the HTTP handler (`Libraries`), the
-- client of tonic (`Tonic`), whose connections keep to their limit and whose calls run the service's
-- handler, and what the transports of `TransportEnum` do (`Calls`).
--
-- Not modelled: the servers of hyper and tonic, with the start of the two gRPC services and
-- `run_http_server`, which only bind an address or a path and hand the connections to the libraries; the
-- parsing of options and logging.
-- Memory orderings are not modelled either.
pub mod Prelude
pub mod Shm
pub mod Queue
pub mod Ring
pub mod Pool
pub mod Bytes
pub mod Proto
pub mod Backend
pub mod Transport
pub mod Samples
pub mod RoundTrip
pub mod EventFd
pub mod Mux
pub mod Server
pub mod MuxTrip
pub mod Signals
pub mod Setup
pub mod Service
pub mod Stream
pub mod Startup
pub mod Grpc
pub mod Handshake
pub mod Trip
pub mod UdsTrip
pub mod Dispatch
pub mod Http
pub mod InFlight
pub mod System
pub mod Boot
pub mod Launch
pub mod Metrics
