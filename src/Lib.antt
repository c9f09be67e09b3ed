-- ===== src/Lib.antt =====
-- The CVBD block driver of QEMU over shared memory: clients in QEMU send block requests through
-- message queues in shared memory to a server process, which serves them from files.
--
-- The parts, and the files that model them:
--   * Chunk (NonAlignedCopy.h): the iterator that cuts a request into pieces at block boundaries.
--   * Iov (SharedMemClientASync.cpp, `iov_to_buf` and `iov_from_buf`): copies between the vector
--     of a request and the array of a message.
--   * Message (SharedMemShared.h): requests, replies, constants and the `init` functions. A union is
--     the member stored last; what a cast to another member reads is the parameter `Layout`.
--     Message/Sizes has the sizes of the messages on a 64-bit Linux.
--   * Host: what the program takes from outside, as records of operations and documented laws, with
--     two machines that satisfy them: Host/Simple has one file and one reply queue, Host/Double two.
--   * Queues (the constructors in SharedMemServer.h, SharedMemClient.cpp and
--     SharedMemClientASync.cpp, and `main` of server.c): how the queues are made and opened; and
--     what `~SharedMemServer` sends. Queues/Starting is the server from `main` to its first request,
--     and Queues/Ending what becomes of the destructor.
--   * Server (server.c, `IOHandler`, and SharedMemServer.h, `handle_requests`): the state is the
--     disk, `errno`, the heap of `VolumeState`s by address, and the two queues; one function per
--     handler, `dispatch` for the chain of tests, `round` for the loop's body. Server/Descriptors is
--     about the volumes and the descriptors that are open for them.
--   * Aio (cvbd.c, `cvbd_finish_aio`): the control block of a request and its completion.
--   * AsyncClient (SharedMemClientASync.cpp): the client object with its reply thread; one function
--     per `send_…`, `handle_co_reply` with `co_reply_round` for its body, and the C wrappers;
--     AsyncClient/Making and AsyncClient/Ending are the constructor and the destructor, and
--     AsyncClient/Blocking the two methods that wait for their answer.
--   * Cvbd (cvbd.c): the coroutine functions, each cut at its `qemu_coroutine_yield`, and
--     `cvbd_complete_aio`, the bottom half that lets them go on; Cvbd/Lifetime is `cvbd_open`,
--     `cvbd_close` and `cvbd_getlength`, and Cvbd/Lifetime/Running joins the server's start, the
--     opening and what follows.
--   * Uri (cvbd.c and cvbd_syncio.c): the parsing of the volume's file name.
--   * SyncClient (SharedMemClient.cpp): the client of the synchronous driver, over a `Port`: the two
--     queues with everything behind them. SyncClient/Device is the contract that it relies on.
--   * SyncIo (cvbd_syncio.c): `cvbd_read` and `cvbd_write`, with their loops over the chunk iterator;
--     SyncIo/Lifetime is `cvbd_open`, `cvbd_close` and a device's whole life.
--   * System: one client and the server over the same queues, as a sequence of steps; System/Volume
--     is the server as a port of the synchronous client that keeps the contract. System/Sequential
--     is the server as one array of bytes with requests in their order, System/Sequential/Stopping
--     its loop up to a stop message, and System/Sequential/Several and Shared are its one queue with
--     the requests of many volumes, an array of bytes for each.
--     System/Flight is the step relation of many coroutines, the server and the reply thread in any
--     order, with the invariant of its reachable states (Starts, Serves, Answers and Resumes show that
--     steps keep it); Linear compares these states with the array of bytes, Completes runs the threads
--     until nothing is left, Delivery follows one read (with Blocks, Futures, Reads and Later), and
--     Barrier one flush (with Results).
--
-- Code that can fail in several ways returns an `Outcome`: a value and the next state, a thrown
-- exception, or a stop (a failed assertion, undefined behaviour, a wait that nothing ends). Pointers
-- are addresses into a store, so a null or dangling pointer is a stop and not a value.
--
-- Bounds: 64-bit offsets and sizes keep their wrap-around in Cvbd and SyncIo (`in_bytes`, `to_i64`,
-- `to_u64`); the chunk iterator works on exact integers, and Chunk/Bounds shows when its `ssize_t`
-- values fit; the request counter `id` is exact, so fewer than 2^31 requests are assumed. Fuel:
-- `pieces` takes a number of rounds, and the length of the request is enough; `cvbd_write` and
-- `cvbd_read` give their loops one round more, and the loops stop where rounds run out;
-- `handle_requests` and `handle_co_reply` take a number of rounds because the threads run for ever,
-- and one round more than there are messages before a stop message ends `handle_requests`.
--
-- Requests and replies lie in separate shared memories, so that a volume whose name is that of
-- the request queue is not covered. In System/Volume, and so in SyncIo/Lifetime, the server's
-- thread serves a request as soon as it is sent. `cvbd_open` of Cvbd/Lifetime takes an argument
-- for the order of its wait and the signal, `First`; AsyncClient/Waiting compares the two for the
-- client alone. System/Flight has all orders of the reads, writes, flushes and requests for the
-- size of one client with an open volume; a step that ends the process or blocks for good is no
-- step of it, and between the parts of a step, which is a call up to its `yield`, one request
-- served or one answer taken, no other thread runs. `g_slice_new` returns an address that is not
-- in use. The byte that ends a volume's name in a request is one that the new buffer happens to
-- hold.
--
-- Not modelled: the joining of threads; the buffers and queue objects that destructors
-- free while threads still use them; `close(vdiskid_t&)` of server.c, which nothing calls and which
-- uses names that are declared nowhere; the registration with QEMU; and logging.
pub mod Common
pub mod Chunk
pub mod Iov
pub mod Message
pub mod Host
pub mod Queues
pub mod Server
pub mod Aio
pub mod AsyncClient
pub mod Cvbd
pub mod Uri
pub mod SyncClient
pub mod SyncIo
pub mod System
