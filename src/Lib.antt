-- ===== src/Lib.antt =====
-- Verification of the thread pool executor of this repository.
--
-- The program runs tasks on a pool of threads. CPUThreadPoolExecutor
-- (ThreadPool/executors/CPUThreadPoolExecutor.{h,cpp}) takes tasks into a BlockingQueue
-- (ThreadPool/executors/task_queue) and its workers take them out; its base ThreadPoolExecutor
-- (ThreadPool/executors/ThreadPoolExecutor.{h,cpp}) counts the threads, starts, stops and joins
-- them. The queue of tasks is made of MPMCQueues (ThreadPool/MPMCQueue.h).
--
-- Which file models what:
-- - Prelude and its children: tests, lists and integers over native numbers.
-- - Priority: the index of a priority, in PriorityLifoSemMPMCQueue::addWithPriority (queue_index) and
--   PriorityUnboundedBlockingQueue::translatePriority (translate_priority).
-- - TaskQueue: the record BlockingQueue, what the executor asks of a task queue;
--   TaskQueue/Bounded: the record BoundedQueue, what a priority queue asks of an MPMCQueue;
--   TaskQueue/PriorityLifoSem: PriorityLifoSemMPMCQueue over the second, with its laws, its
--   constructor, and PriorityLifoSem/Interface, which makes it an instance of the first;
--   PriorityLifoSem/Threads: its calls with any number of threads, a look at one queue at a time.
--   TaskQueue/Semaphore: what the queues ask of folly's semaphore; TaskQueue/LifoSem and
--   TaskQueue/Unbounded: LifoSemMPMCQueue and PriorityUnboundedBlockingQueue, with any number of
--   threads that add and take.
-- - Pool/Task: Task, CPUTask, Thread, runTask (run_task). Pool/ThreadList: ThreadList.
-- - Pool/State, Pool/Resize, Pool/Submit, Pool/Stats: the fields of both executors (Pool), addThreads,
--   stopThreads, removeThreads, setNumThreads, stop, join, tryTimeoutThread, ensureActiveThreads,
--   ensureMaxActiveThreads, ensureJoined, addObserver, removeObserver, addImpl, the constructors and
--   getPoolStats. A function other than ensureMaxActiveThreads, a loop of ensureActiveThreads on fuel,
--   is one section under threadListLock_; Pool/Worker has those of threadRun. A number of threads
--   that a section returns is the argument of the joinStoppedThreads after it.
-- - Pool/System: the sections, the queue operations and the stops of a worker between them as steps
--   that interleave, with joins_due for the threads that callers have yet to join. A section that
--   ends in QueueFullException is a step as well. IsOrderly singles out what the theorems about
--   shutdown ask for and the code does not see to: no section ends in that exception, and no stop or
--   join begins while a thread is still to stop.
-- - Mpmc/Stride: computeStride, idx and turn. Mpmc/Slot: SingleElementQueue. Mpmc/Queue: the operations
--   of MPMCQueueBase. Mpmc/Tickets: threads that draw tickets in one step and use them in a later one.
--   Mpmc/Obtain: how the calls that may fail draw a ticket, a load and a compare-and-swap at a time.
--   Mpmc/Size: size, isEmpty and isFull while others draw tickets.
--   Mpmc/Dynamic: the queue that grows: initQueue, tryExpand and maybeUpdateFromClosed, each as one
--   section; Dynamic/Threads: the sequence lock around them, an atomic access at a time;
--   Dynamic/Values: what is in the slots of its arrays, and the uses of tickets there;
--   Dynamic/Calls: the loops of tryObtainReadyPushTicket and its four companions.
--   Mpmc/Lifetime: the constructors, moves and destructors of both queues and of their slots, with
--   the arrays that are allocated.
-- - Baton: ThreadPool/synchronization/Baton.h, one wait and one post, an atomic access at a time.
-- - Spin: ThreadPool/synchronization/WaitOptions.h and detail/Spin.h. Futex: ThreadPool/detail/Futex.h,
--   Futex-inl.h and Futex.cpp.
-- - Observers: getQueueObserver, and the destructor of CPUThreadPoolExecutor as far as it deletes
--   observers, with any number of calls an access at a time.
-- - WorkerIds: ThreadIdWorkerProvider of ThreadPool/executors/QueueObserver.cpp.
-- - Executor: ThreadPool/Executor.h and Executor.cpp: Executor/Token, the KeepAlive objects with the
--   flags in their pointers; Executor/Blocking, the list of blocking guards of a thread.
-- - KeepAlive: ThreadPool/DefaultKeepAliveExecutor.h and joinKeepAliveOnce.
-- - Examples: concrete instances and runs.
--
-- What comes from outside is a parameter: folly's TurnSequencer (Mpmc/Slot), folly's
-- constexpr_clamp (Clamp of Priority), folly's LifoSem (Semaphore), its set of unbounded queues
-- (QueueSet of TaskQueue/Unbounded) and its parking lot (ParkingLot of Futex). The kernel's futex
-- reports TIMEDOUT only to a wait with a deadline (Baton). A function object is a number, a clock
-- reading an argument. The factory of observers makes any observer not yet alive.
--
-- Between components, two records with laws are parameters of the client: BlockingQueue, which
-- PriorityLifoSem/Interface fills, and BoundedQueue. The latter stands for one MPMCQueue in calls
-- that do not overlap. Lists fill it in the examples; for the model of MPMCQueue itself, Mpmc/Queue,
-- its laws are theorems of Mpmc/Tickets/Quiet, of queues that are quiet and whose tickets fit.
--
-- Bounds: counts of live threads are plain numbers; where size_t wraps (getPoolStats), the wrap is
-- written out, and so are those of int8_t, uint32_t and uint64_t in priorities, turns and slots.
-- The conversion of an expiration to nanoseconds wraps as int64_t does (is_overdue); that of a
-- futex's deadline from one clock to another is over unbounded integers. Tickets are plain numbers
-- and are followed while they fit (Fits): below 2^59, so that the product with a stride does not
-- wrap, and with fewer than 2^25 turns, so that the sequencer does not. The constructor of the
-- priority queue runs on fuel; it is shown to end for 1 to 127 priorities of a capacity above 0.
-- ensureMaxActiveThreads runs on fuel; one more than the active threads that are missing is
-- enough. The loops that draw a ticket of a queue that grows run on fuel for two rounds, enough
-- where no other thread moves; the fixed queue's on fuel for one round more than there are tickets
-- drawn in the meantime, and so size; the spin loops on fuel up to the reading of the clock that
-- ends them. An expansion is followed while tickets are below 2^58 (the offset shares its word
-- with the number of the array).
--
-- Not modelled: the calls with a timeout beyond the ticket that they draw;
-- the baton that only spins; the calls of queue observers around the queue, the guards and
-- the collection of thread ids in threadRun, the registry of pools and the names of threads; the
-- hand-over of a KeepAlive to a function; the log of uncaught exceptions.
pub mod Prelude
pub mod Priority
pub mod Spin
pub mod Futex
pub mod Observers
pub mod WorkerIds
pub mod Baton
pub mod KeepAlive
pub mod Executor
pub mod Mpmc
pub mod TaskQueue
pub mod Pool
pub mod Examples
