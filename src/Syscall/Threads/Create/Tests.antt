-- ===== src/Syscall/Threads/Create/Tests.antt =====
-- `sys_thread_create` by a thread that holds a capability of a thread with the permission to write.
use atom.Prelude.{◌≡◌, refl, [], ◌∷◌, none}
use atom.Cap.Capability.{Capability, thread}
use atom.Thread.{Thread, ThreadState, ThreadPriority, find_thread}
use atom.Thread.States.{state_of}
use atom.Mm.Pmm.Tests.{small, small-Inv}
use atom.Syscall.Threads.Tests.{busy, thread_of}
use atom.Syscall.Threads.Create.{State, sys_thread_create}
use atom.Syscall.Threads.Create.Granted.{Outcome, sys_thread_create-Outcome}

abbrev may_create : Capability
may_create = record {
  handle = 7;
  resource = thread 2;
  permissions = record { bits = 2 };
  owner = 2;
  parent = none;
  children = [];
}

abbrev creator : Thread
creator = record (thread_of 2 ThreadState.running ThreadPriority.normal) {
  capability_table = record { capabilities = (7, may_create) ∷ []; owner = 2 };
}

abbrev kernel : State
kernel = record { sched = record busy { threads = creator ∷ [] }; pmm = small; next_id = 5 }

id_fresh : state_of 5 kernel.sched.threads ≡ none
unfolding state_of find_thread
id_fresh = refl

sys_thread_create-Outcome_example : Outcome kernel (sys_thread_create 4096 8192 0 kernel)
sys_thread_create-Outcome_example = sys_thread_create-Outcome 4096 8192 0 kernel small-Inv id_fresh
