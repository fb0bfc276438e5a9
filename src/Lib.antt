-- ===== src/Lib.antt =====
-- sheepcoro: coroutines over io_uring, their scheduler and what they wait on.
--
-- The program. A scheduler (include/coro/scheduler.hpp, src/scheduler.cpp) owns a number of
-- contexts (include/coro/context.hpp, src/context.cpp), each a thread with an engine
-- (include/coro/engine.hpp, src/engine.cpp) that runs coroutines from its task queue and handles
-- the completions of its io_uring (include/coro/uring_proxy.hpp). Coroutines wait on mutexes,
-- events, latches, wait groups and channels (include/coro/comp, src/comp); what wakes a coroutine
-- submits its handle to the context it waited on.
--
-- The files. A source file's path is below include/coro, or src where it says so or ends in cpp.
--   Base        names, Boolean tests, lists and words that all files share.
--   Awaiters    the awaiters that mutex, event and wait_group link into lists: the fields m_next
--               and m_ctx of every awaiter as functions of its address, the counts of
--               register_wait and unregister_wait, and the handles submitted so far. 0 is nullptr.
--   Mutex       comp/mutex.hpp and comp/mutex.cpp. A function for each atomic access; the word is
--               0, 1 (locked without waiting) or the address of the last waiter.
--   Event       comp/event.hpp and comp/event.cpp. The word is 0, 1 (set) or an awaiter. Valued is
--               event<T>, over Container.
--   WaitGroup   comp/wait_group.hpp and comp/wait_group.cpp.
--   Latch       comp/latch.hpp, over Event. System has the threads that count it down.
--   Channel     comp/channel.hpp. One body of send and recv over a store of values, and the three
--               stores: Ring for any capacity, Masked for powers of two, Slot for capacity 0. System
--               has the senders, receivers and closers that wait and are woken.
--   CondVar     comp/condition_variable.hpp and comp/condition_variable.cpp: its list, a function for
--               each section under the spinlock, the coroutines that wait with a mutex, and apart from
--               that what one wait does to the count of waiting tasks.
--   Spinlock    spinlock.hpp, a function for each atomic access.
--   Io          io/io_info.hpp, io/base_awaiter.hpp, io/io_awaiter.hpp, src/io/io_awaiter.cpp and the
--               awaiter of timer.hpp, over the counters of engine.hpp and engine.cpp. Each class of
--               awaiters is a constructor of Awaiter; System has the kernel's steps between.
--   Tcp         io/net/tcp/tcp.hpp and src/io/net/tcp/tcp.cpp: the connector over FixedFds, its
--               operations as awaiters of Io, and the constructors of server and client.
--   FixedFds    marked_buffer.hpp, the registered files of uring_proxy.hpp, io/base_io_type.hpp.
--   Scheduler   the flags and the stop token of scheduler.cpp, and dispatcher.hpp.
--   Engine      engine.hpp, engine.cpp, clean of task.hpp and process_work of context.cpp.
--               Its module Loop is run of context.cpp without a scheduler.
--   Wakeup      run of context.cpp, poll_submit, submit_task and wake_up of engine.cpp and the eventfd
--               of uring_proxy.hpp, as one context's thread, other threads and the kernel run them.
--   Lifecycle   the constructor, init and deinit of uring_proxy.hpp, init and deinit of engine.cpp
--               and the thread of context::start, which has Loop between them.
--   Task        the ownership of frames in task.hpp. Its public constructor is given a handle of an
--               attached frame that exists and that no task has; a handle that handle() & has copied
--               out of a task that keeps it would give the frame two owners.
--   Call        co_await of a task in task.hpp: the promises, the continuation and the symmetric
--               transfer to it, and exec_task of engine.cpp. A body is what it co_awaits, returns or
--               throws; Call.Promises is the interface of a promise, which Container and promise<void>
--               fill.
--   Container   both versions of detail/container.hpp.
--   Timer       the calls of timer.hpp that add to its seconds and nanoseconds.
--
-- Interleavings. Mutex, Event, WaitGroup, Scheduler, CondVar, Channel and Latch each have a module
-- System, and Spinlock has its like: a program counter for each coroutine or thread, and a step
-- relation with one step for each atomic access of the source, in which any number of coroutines
-- run. In Event an awaiter waits once, and its memory may be reused once its coroutine has
-- finished, but not between the submit of the coroutine and the read of m_next in
-- resume_all_awaiter; the source does not keep it from being reused then. In CondVar a step is a
-- section under the spinlock or a test of the predicate, what the predicates read is written by
-- the holder of the mutex only, and the mutex is the lock with a queue that Mutex.Refinement shows
-- mutex.cpp to be. In Channel.System a step is what a sender, a receiver or a closer does between
-- two places where others may run, over the same lock and the lists of two condition variables;
-- one that notify_one has taken off its list may come to the mutex later than in the source, where
-- the notifier takes it there before its unlock. In Io.System the steps are those of one engine's
-- thread and of the kernel, no batch of completions is longer than m_urc, past whose end a longer
-- one would be written, and in Wakeup.System of one context's thread, of any number of threads
-- that submit to it or stop it, and of the kernel, which signals the eventfd fewer than 2 ^ 24
-- times between two reads. There a submission that finds the queue full is no step, since it
-- changes neither the queue nor the eventfd. Accesses are sequentially consistent: the memory
-- orders of the source are not modelled. A weak compare-exchange may fail for no reason. A
-- compare-exchange and a plain field access made with it by its owner are one step.
--
-- Machine words. size_t, int32_t and int64_t counts are bit patterns below 2 ^ 64, 2 ^ 32 and
-- 2 ^ 64, and every operation on them wraps. Descriptors are natural numbers. In Io.System fewer than
-- 2 ^ 62 operations are outstanding, each of which takes memory.
--
-- Fuel. submit_task of the engine recurses at most kMaxRecursiveDepth deep, and its fuel is a round
-- for each level that is left. The loops that walk a list of awaiters take a number of rounds, and
-- return none when it runs out; the theorems about them are for a number no less than the length
-- of the list. The loop of base_io_awaiter takes a list of how many entries the kernel takes at each
-- submit. Call.Returns counts the steps of a body, which are the fuel that its run takes: run is
-- exec_task for a task that is not detached, and again for the coroutine that has suspended.
--
-- Parameters. liburing is the record FixedFds.Uring of the calls the code makes, and what its
-- documentation says of them is FixedFds.IsKernel. The prep calls of liburing are taken to leave the
-- flags of an entry, which the awaiters set before them. Engine takes the task queue, with
-- IsTaskQueue for what it keeps, the completions, and what coroutines and callbacks do, as the
-- list of their calls of the engine up to their next suspension. In Call a body is a parameter too.
-- Tcp.Sockets.Calls is what the system's socket calls and inet_pton return. Lifecycle.Os is the calls
-- that open, bind and close what an engine needs, with Lifecycle.IsOs for what they do.
--
-- Not modelled. The start of threads, join and the thread-local pointers, sockets, what a
-- coroutine's body computes, logging, macros and concepts, and vendored code. Of uring_proxy,
-- peek_uring, wait_uring, seen_cqe_entry and handle_for_each_cqe, which nothing calls. Of timer.hpp,
-- set_by_duration and set_by_timepoint, whose get_kernel_timespec does not compile. In Engine a
-- write to the eventfd never waits for room; in Wakeup it may. In Channel itself the operations
-- run one after the other, and a call that would wait on a condition variable ends as one that
-- waits; Channel.System has the waits.
pub mod Base
pub mod Awaiters
pub mod Mutex
pub mod Event
pub mod WaitGroup
pub mod Channel
pub mod FixedFds
pub mod Scheduler
pub mod Latch
pub mod Engine
pub mod Task
pub mod Container
pub mod Timer
pub mod CondVar
pub mod Spinlock
pub mod Io
pub mod Tcp
pub mod Call
pub mod Wakeup
pub mod Lifecycle
