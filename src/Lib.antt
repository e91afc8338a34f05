-- ===== src/Lib.antt =====
-- A model of fiberexec, a C++ library that runs fibers on a pool of threads and suspends them on
-- io_uring operations. Paths are from the root of the repository.
--
-- How the parts work together. A pool (`fiber_pool` in src/fiber_context.cpp) has a queue of tasks and
-- one `io_uring_scheduler` for each thread. A post pushes a task and writes a token to an eventfd that
-- every thread reads through its ring; the thread that gets the token makes a fiber of the task. A fiber
-- calls the functions of src/async_io.cpp, which take an entry of the thread's ring, prepare it, submit
-- it with the address of a handler as user data, and wait; the scheduler's loop over the completions
-- calls the handler, which wakes the fiber. Stop tokens queue cancellations that the scheduler submits.
-- On top are objects that keep one entry armed for many completions (multishot acceptor and receiver),
-- pools of registered buffers and descriptors whose free lists are channels, and the stdexec senders
-- `run`, `bulk` and `sync_wait`.
--
-- Files.
--   Base and below: shared names, Boolean tests, lists on native numbers, signed integers, ranges and
--     counts, slots of equal width, `std::bit_ceil`.
--   Runtime/Abi, Runtime/Uring, Runtime/Thread: error numbers and flag bits; entries and the ring as
--     lists; a worker thread and the monad of code that throws. A write through a null entry is the
--     outcome `fault`.
--   Scheduler (src/fiber_context.cpp): post, stop, the handling of completions, the cancel queue.
--     Scheduler/System interleaves posters, threads and the kernel; Handling, Wakeups,
--     Cancels and Stopped prove.
--     Scheduler/Setup (with include/fiberexec/context.hpp) constructs the pool, the rings and what a
--     worker sets up; Scheduler/Suspend is `suspend_until` with the loop that it ends in;
--     Scheduler/Shutdown interleaves the workers' last wait with the ends of fibers and `stop`.
--   Task (include/fiberexec/task.hpp): the type-erased callable, stored inline or on the heap, in a memory
--     of tasks and objects; Task/Ops has the view of its user, and the modules below prove.
--   Context (include/fiberexec/context.hpp): handles, the schedule sender and its bridge between stop
--     tokens; Context/Bulk (include/fiberexec/detail/fiber_bulk.hpp) leads a bulk from its start to its
--     tasks.
--   FiberOps (include/fiberexec/detail/fiber_ops.hpp, async_helpers.hpp, and the helpers of
--     src/fiber_context.cpp): submit_and_wait and its timeout and linked forms, stop callbacks.
--   AsyncIo (src/async_io.cpp, include/fiberexec/fd_ref.hpp): the calls, and in AsyncIo/Request the
--     description that they are held to; AsyncIo/Untimed and AsyncIo/Timed follow one call without and
--     with a timeout, AsyncIo/Runs one call after another.
--   MultishotAcceptor, MultishotRecv (src/multishot_acceptor.cpp, src/multishot_recv.cpp): the objects,
--     and in their System modules the steps of kernel and fiber. MultishotAcceptor/Closing
--     and both Destruction modules follow the destructors through their drains.
--   Channel (include/fiberexec/channel.hpp), FixedBufferPool (src/fixed_buffer_pool.cpp), FixedFdTable
--     (src/fixed_fd_table.cpp): bounded channels and the pools that use them as free lists;
--     FixedBufferPool/Handles moves, assigns and destroys handles.
--   FiberBulk (include/fiberexec/detail/fiber_bulk.hpp): the fibers of a bulk operation, interleaved by
--     their atomic operations.
--   Run, SyncWait (include/fiberexec/run.hpp, sync_wait.hpp): how a callable's end reaches a receiver,
--     and how a waiting fiber gets it. Run/Sender has the sender and its operation; SyncWait/Handshake
--     interleaves the completer with the waiting fiber, by what each does under the mutex.
--   EchoServerPool (examples/echo_server_pool.cpp): the accept loop and the workers round a channel, in
--     any interleaving (Connections, Moves, Progress, Ends), and the handling of one connection (Echo).
--   EchoToFile (examples/echo_to_file.cpp): the handling of a connection that is logged to a file.
--     Exchange is the loop that both servers run, with the sessions that it comes to.
--   Tests: runs on concrete kernels, threads and a list as the channel.
--
-- Parameters. The kernel is the record `Kernel` of Runtime/Uring: whether an entry is vacant, what a
-- submission and a registration return, and which results completions carry; `Serves` is a kernel
-- that always has a vacant entry and takes every submission. A submission that does not fail hands
-- over every entry that was written. Boost's buffered channel is the record `BoostChannel` with the
-- laws `IsDocumented`, which speak of rings whose size is a power of two of at least 2. Virtual calls of handlers are a function argument of the scheduler's loop.
-- Time and the waits of io_uring are the record `Waiting` of Scheduler/Suspend, and the system calls
-- of a construction the record `Os` of Scheduler/Setup.
--
-- Bounds. Sizes and indices are natural numbers with the casts of the source written out (`% 2 ^ 16`,
-- `% 2 ^ 32`); sums and products of `std::size_t` are taken not to overflow. The fuel is that of
-- the destructors' drain loops, which wait for the kernel: the batches of completions to come are an
-- argument, a function of what was submitted or shut down, and running out of either is the result `hanging`; and that of the loop over a connection's
-- messages. The theorems on them say how much is enough.
--
-- Not modelled: stack switching and the queues of Boost.Fiber (a wait is over when its state says so;
-- in Scheduler/Shutdown and SyncWait/Handshake the queue of the condition variable is a stage),
-- memory orders (each atomic operation, and the handling of each completion, is one step), exceptions
-- that leave a thread, an allocation that fails, the sender types and concepts that only route
-- stdexec at compile time, the test clients of the two servers, and the other programs under
-- examples, benchmarks and tests.
pub mod Base
pub mod Runtime
pub mod FiberOps
pub mod Channel
pub mod Exchange
pub mod EchoToFile
pub mod EchoServerPool
pub mod FixedBufferPool
pub mod AsyncIo
pub mod FixedFdTable
pub mod Scheduler
pub mod FiberBulk
pub mod Run
pub mod SyncWait
pub mod Task
pub mod Context
pub mod Tests
pub mod MultishotAcceptor
pub mod MultishotRecv
