-- ===== src/Lib.antt =====
-- The ntsync library: the NT synchronisation objects (semaphores, mutexes, events) of the Linux ntsync
-- driver in user space, in a file that several processes map. This development models src/core.rs and
-- the C interface src/ffi.rs (paths from the repository's root). Numbers are natural numbers; a `u32` or
-- a `u64` wraps around where the source's arithmetic does, written out as `% 2 ^ 32` or `% 2 ^ 64`.
--
--   Base     shared names: tests into Bool, lists, a memory as a function, the signed errno values
--   Word     the packing of an object's state into the 64-bit word `w0` (`pack_sem`, `pack_mutex`, ...)
--   Region   the shared region: header, 16384 slots, 8192 waiter nodes; handles and `Region::slot`; a
--            call as a function from a region to a result and a region; what its process brings (`Env`)
--   Cas      the compare-exchange loop that every lock-free operation is
--   Object   the rounds of these loops, `is_locked`, `try_acquire`, `rollback_acquire`. Object.State says
--            what the driver does with a semaphore, a mutex and an event, Object.Refines relates the two
--   Waiter   the pool of waiter nodes, the waiter list of an object, `wake_object`. Waiter.Wf is the
--            invariant of the pool and all lists together
--   Signal   `sem_release`, `mutex_unlock`, `mutex_kill`, `event_set`, `event_reset`, `event_pulse` and the
--            reads, each from the handle to the wake
--   Holder   `holder_add` and `holder_remove`
--   Sweep    the sweep of what dead processes left: scan, liveness cache, reaping. Sweep.Auto is the
--            rate-limited sweep of waiting threads, `auto_sweep_dead`
--   Slot     `alloc_slot`, the `create_*` functions, `retain`, `release`, `close`
--   Satisfy  `try_satisfy`, the attempt of a wait to take any or all of its objects
--   Wait     what `wait` does before it may block: argument checks, validation, one attempt
--   Block    the loop of `wait` when it blocks: a turn under the lock (`Block.locked_cycle`), the spin
--            (Block.Spinning), the sleep and the loop (Block.Asleep), the whole of `wait` (Block.Whole).
--            Block.Account says what a waiter holds between and after the turns,
--            Block.Signaled what the signals do to it
--   Spin     the budgets of the spinning waits
--   Lock     the guard of the region lock and its signal mask
--   Open     `resolve_path`, `try_open_and_map`, `open_and_map`, `init`
--   Ffi      the C interface of src/ffi.rs: errno values, pointers, the entry points; Ffi.Wait has those
--            that wait and `ntsync_init`
--   Steps    the history of a region: the steps of all processes and the regions that they reach
--   Spec     what the calls promise: a table of objects by handle, and the calls on it. Spec.View is the
--            table that a region stands for, Spec.Changes what keeps a region sound, Spec.Requests the
--            calls as requests and what each may do to the table, Spec.Histories their sequences,
--            Spec.Polled the polls, Spec.Waits the whole waits that they are, Spec.Retained what a holder keeps
--   Tests    runs on concrete regions
--
-- An operation looks its handle up (`Region.find`), runs its loop on the word of the slot (`Cas.cas_loop`
-- on a round of Object) and wakes the slot's waiters (Waiter); the operations that change the table or
-- the lists run under the region lock and are functions on regions.
--
-- Concurrency. A loop of compare-exchanges takes the list of what other threads do to the word between a
-- load and the compare-exchange after it.
-- `try_satisfy` takes the list of what they do to the region between two of its objects. Under the region
-- lock no other thread writes the lists or the table. A turn of a blocking wait (`Turn`) has what the
-- others do in each phase without the lock, what the clock says and what the futex call answers.
--
-- Bounds and fuel. The walk of `wake_object` has fuel for 8193 steps, enough for every list of distinct
-- nodes of the pool; on a list that is not well formed the walk of the source may never end, where the
-- model stops. Both sweeps have fuel for one more chunk than there are entries to visit. The loop of a
-- blocking wait, which may wait for ever, is a recursion on the list of the turns that it takes. All other
-- loops are recursions on what is left of a range or on the list of the other threads' actions. Spec follows
-- the table for fewer than 2 ^ 18 requests, one after the other, since a handle carries 18 bits of a
-- generation and each request frees a slot once at most.
--
-- What other code does is a parameter: whether a process exists (`kill`), whether the region opens
-- and its lock can be taken, the clock, the answers of the system calls, and what a futex sleep ends with.
--
-- Not modelled: the debug log and its dump of a stuck wait, the watchdog, the statistics and the time
-- stamps that only they read, which are output; memory orderings; the tests, benchmarks and simulations
-- of the other files of src/.
pub mod Base
pub mod Word
pub mod Region
pub mod Cas
pub mod Object
pub mod Waiter
pub mod Signal
pub mod Holder
pub mod Sweep
pub mod Slot
pub mod Satisfy
pub mod Wait
pub mod Spin
pub mod Block
pub mod Ffi
pub mod Lock
pub mod Open
pub mod Steps
pub mod Spec
mod Tests
