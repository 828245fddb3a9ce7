-- ===== src/Syscall/Threads/Create.antt =====
-- kernel/src/syscall/mod.rs, `sys_thread_create`: over the scheduler with its threads, the page
-- allocator, and the counter of `ThreadId::new`.
pub mod Granted
pub mod Tests
use atom.Prelude.{
  ℕ, ◌+◌, ◌*◌, ◌%◌, ◌/◌, ◌^◌, Option, none, some, Bool, true, false, not, ◌==◌, ◌||◌, if◌then◌else◌,
}
use atom.Cap.Permissions.{write}
use atom.Cap.Capability.{ResourceType, thread}
use atom.Thread
use atom.Thread.{ThreadPriority}
use atom.Mm.Pmm
use atom.Mm.Pmm.{alloc_pages}
use atom.Sched
use atom.Sched.{add_thread}
use atom.Syscall.Codes.{einval, eperm, enomem}

pub record State : Type 0 where
  pub sched : Sched.State
  pub pmm : Pmm.State
  pub next_id : ℕ

abbrev pub kernel_stack_size : ℕ
kernel_stack_size = 16 * 1024

-- `matches!(resource, ResourceType::Thread(_))`
unfoldable pub is_thread : ResourceType → Bool
is_thread (thread _) = true
is_thread _ = false

-- `ThreadId::new`, whose `AtomicU64` wraps.
unfoldable pub new_thread_id : State → ℕ × State
new_thread_id s = (s.next_id, record s { next_id = (s.next_id + 1) % 2 ^ 64 })

-- The thread made once its stack, which ends at `stack_top`, is allocated.
unfoldable pub spawn : ℕ → State → ℕ × State
spawn stack_top s =
    let (id, s1) = new_thread_id s in
    let new_thread = Thread.new id stack_top kernel_stack_size 0 ThreadPriority.normal in
    let (tid, sched) = add_thread new_thread s1.sched in (tid, record s1 { sched = sched })

-- What follows the allocation of the stack.
unfoldable pub create_on : Option ℕ × Pmm.State → State → ℕ × State
create_on (none, pmm) s = (enomem, record s { pmm = pmm })
create_on (some addr, pmm) s = spawn (addr + kernel_stack_size) (record s { pmm = pmm })

-- What the call does for its caller: the check of the capability, the stack, and the thread.
unfoldable pub create_as : ℕ → State → ℕ × State
create_as caller s =
    if not (Thread.validate_capability_by_type caller write is_thread s.sched.threads)
    then (eperm, s)
    else create_on (alloc_pages (kernel_stack_size / 4096) s.pmm) s

unfoldable pub create_for : Option ℕ → State → ℕ × State
create_for none s = (einval, s)
create_for (some caller) s = create_as caller s

unfoldable pub sys_thread_create : ℕ → ℕ → ℕ → State → ℕ × State
sys_thread_create entry_point stack_ptr flags s =
    if (entry_point == 0) || (stack_ptr == 0) then (einval, s) else create_for s.sched.current s
