-- ===== src/Lib.antt =====
-- Atom: a capability-based kernel. Its parts that carry logic of their own are modelled here;
-- the files are those under kernel/src unless a path says otherwise.
--
-- Cap models cap.rs. `Cap.Permissions`, `Cap.Capability`, `Cap.Audit` and `Cap.Table` have its
-- types; `Cap.Manager` has `CapabilityManager` and the functions of the module over one state:
-- the counter of handles, the global map, the audit log, the threads, and the ticks that stamp
-- an entry of the log. Thread models the control blocks and the list of thread.rs, since each
-- thread holds its own table of capabilities. Syscall.Capabilities models the handlers of
-- syscall/mod.rs for the calls that make, revoke, derive and transfer capabilities; `Run.run`
-- runs a sequence of calls, each with the current thread that the scheduler answered. `Mm.Pmm`
-- models mm/pmm.rs, the bitmap of physical pages and its counters. Sched models sched.rs over
-- the list of threads, and Syscall.Threads the thread calls, whose switches of the processor's
-- context appear as the pair of threads they are called with; `Syscall.Threads.Create` has
-- sys_thread_create over scheduler and page allocator, and Syscall.Queries the capability calls
-- that only ask. SharedMem models shared_mem.rs over the page allocator; mapping is given the
-- two operations on page tables as a record, `SharedMem.Mapping.PageTables`, on a state with
-- the same allocator, and `SharedMem.Mapping.Paged` has them from vm.rs. `Mm.Vm` models
-- mm/vm.rs: a table is the words at its physical address, `Mm.Vm.Tables` has the walk that
-- makes tables and map_page, `Mm.Vm.Access` what only walks, `Mm.Vm.Tree` and the modules after
-- it the shape of the tables. Syscall.Regions has the calls on shared regions. Ipc models
-- ipc.rs: `Ipc.Message`, `Ipc.Metrics` and `Ipc.Trace` its types, and `Ipc.Ports` the manager
-- of ports over one state with the scheduler that it wakes threads in and the shared regions
-- that messages name; `Ipc.Ports.Run` runs a sequence of its operations. Syscall.Ipc has the
-- calls on it; `sys_ipc_recv` is in two parts, before and after the switch to another thread.
-- Prelude has what the others share.
--
-- Handles, thread ids and addresses are natural numbers; a counter or a word that can wrap has
-- its `% 2 ^ w`. A `BTreeMap` is an association list in ascending order of keys. A lock is held
-- for the whole of an operation and the kernel runs on one core, so an operation is one step.
-- `revoke` calls itself through the tree of capabilities, which nothing in its code bounds; it
-- runs here on fuel for the depth, the number of capabilities plus one, and always returns:
-- each call removes one. The walk of `detect_deadlock` runs on the number of steps its own
-- counter allows. The loops of the page allocator are recursion on the number of pages left to
-- look at.
--
-- Not modelled: boot, descriptor tables, interrupts, context switches and the processor's cache
-- of translations (assembly and memory-mapped hardware), logging, graphics, and the userspace
-- drivers.
pub mod Cap
pub mod Ipc
pub mod Mm
pub mod Prelude
pub mod Sched
pub mod SharedMem
pub mod Syscall
pub mod Thread
