-- ===== src/Lib.antt =====
-- A verification library of the RK01 real-time kernel: its lists, queues, memory partitions, ring
-- buffers, timeouts, scheduler, task handles, dynamic objects, most-recent-message buffers,
-- message queues, semaphores, mutexes, sleep queues and task events, as functions on explicit state, with the theorems
-- that make them correct.
--
-- How the parts of the program work together. core/src/klist.c links nodes; the ready queues, the wait
-- queues and the ownership lists of the mutexes are such lists. core/src/ksch.c keeps one ready queue
-- for each priority and a bitmap of the queues that have tasks, and switches to the head of the most
-- urgent one. The services (core/src/ksema.c, kmutex.c, ksleepq.c, ktaskevents.c) put the running task
-- into a wait queue, ask for a switch, and make a waiter ready; with a timeout they arm the task's
-- node in the delta list of core/src/ktimer.c, which the tick handler counts down. A mutex may pass
-- the priority of its waiters on to its owner. core/inc/kobjs.h has the header that every object
-- begins with; core/src/kmem.c hands out blocks of a pool; core/src/kdynobjs.c creates objects in such
-- pools and gives out handles in place of addresses; core/src/kmrm.c keeps the most recent message in
-- a buffer that its readers lease; core/src/kringbuf.c is a queue of fixed-size elements, in which a
-- message queue (core/src/kmesgq.c) keeps what no receiver waits for.
--
-- Which file models what (functions by their names in the source, in snake case, without the prefix):
--   Base       names of the libraries passed on, machine words, memory, bits, lists without repetition
--   Err        the return codes
--   Obj        core/inc/kobjs.h: the header and its checks
--   KList      core/src/klist.c, on a heap of nodes; Refine: on the sequence of the linked nodes
--   RingBuf    core/src/kringbuf.c, on a memory of words; Refine: on the sequence of the elements
--   Mem        core/src/kmem.c, on a memory of words; the free list is the list of the free blocks
--   Delta      core/src/ktimer.c: the delta list; Tick: tick arithmetic
--   Kernel     the state that the services share: task control blocks, queues, globals, objects
--   Sched      core/src/ksch.c: Queue, Resched, Prio and Switch have the definitions, the others the
--              proofs (Bitmap, Dispatch, Order, Inherit, Linked, Apply, Wake; Same, Chain and Frame: what is
--              left alone)
--   Handle     core/src/ksch.c: the registry of the tasks and their handles
--   DynObj     core/src/kdynobjs.c: Defs has the registry and the handles of the objects, Family what
--              creation and destruction do for each kind, Kinds the four kinds; the proofs are in
--              Laws (published handles), Stale, Sound, Blocks and Destroy
--   Mrm        core/src/kmrm.c: Words has the copies of messages, in the memory of the pools and their free
--              lists, Defs the buffers and the leases, Ops the calls, Life their beginning and the end of a
--              task; the proofs are in Leases, Counts, Recent and Readers
--   Mesgq      core/src/kmesgq.c: Defs has what the calls share, Ops the calls, Broadcast the steps of
--              a broadcast; the proofs are in Laws, Sound and Keep (the invariant), Drain (reset), Reach
--              (the states reached), Deliver, Stays and Buffer (where a message goes) and Fifo (runs of
--              calls)
--   PostProc   core/src/ksystasks.c: the jobs that calls from an interrupt leave to the post-processing task
--   Timeout    core/src/ktimer.c and the tick handler of core/src/ksch.c on the whole kernel; Tick: the
--              loop over the expired timeouts
--   Sema, Mutex, SleepQ, Event
--              core/src/ksema.c, kmutex.c, ksleepq.c, ktaskevents.c
-- The Tests modules apply the theorems to concrete states.
--
-- How state is modelled. Below the services a queue is the list of the tasks' ids; that the linked
-- nodes behave as such a list is the subject of KList. An operation takes the kernel and returns it,
-- with the error code where it has one. A critical section makes a call atomic. A call that blocks has
-- two halves: up to the request of the context switch, and from the point where the task runs again.
-- The task in RK_gRunPtr is an argument of the calls. Addresses are numbers and NULL is 0, or a missing
-- pointer is `none`. Words have 32 bits and wrap; where
-- an address counts words of four bytes, there are 2^30 of them.
--
-- The configuration modelled: a release build (NDEBUG) with error checks on, where K_ERR_HANDLER,
-- K_PANIC and K_ASSERT do nothing and every call returns its code; mutexes, semaphores and sleep queues
-- on, most-recent-message buffers and message queues, without the callback of a send; other messages,
-- callout timers and condition variables off; 31 as the least urgent priority of a task
-- and 32 for the idle task. Calls arrive in privileged mode, so no task has a system call pending.
--
-- Bounds. The propagation of priorities runs on fuel, RK_NTHREADS tasks at most, which a chain of
-- owners that has no cycle does not exceed; the loop over expired timeouts takes as many turns as
-- nodes are linked; all other loops are recursions on the list they run through.
--
-- Not modelled: the resolution of handles inside the services, which take the object it gives; the
-- loop of the post-processing task; task creation and termination, messages other than those of
-- message queues, signals, shared memory, the system call layer, trace and logger, the ports and the
-- applications. A queue operation on a task that the queue does not link corrupts two lists in the
-- source; the model has it for linked tasks only.
pub mod Base
pub mod Err
pub mod Obj
pub mod Mem
pub mod Mesgq
pub mod Delta
pub mod PostProc
pub mod RingBuf
pub mod Kernel
pub mod KList
pub mod Handle
pub mod DynObj
pub mod Mrm
pub mod Sched
pub mod Timeout
pub mod Sema
pub mod Mutex
pub mod SleepQ
pub mod Event
