-- ===== src/Syscall/Ipc/Create.antt =====
-- kernel/src/syscall/mod.rs, `sys_ipc_create_port`: a port and the capability for it, over ipc.rs and
-- the capability manager, which share the list of threads and the timer.
use atom.Prelude.{ℕ, none, some}
use atom.Cap.Permissions.{read, write, union}
use atom.Cap.Capability.{ipc_port}
use atom.Cap.Manager
use atom.Ipc.Ports.{State, create_port}
use atom.Syscall.Capabilities.{create_and_attach}
use atom.Syscall.Codes.{einval}

-- The manager's state with the threads and the ticks of the port's, and back.
unfoldable pub shared : State → Manager.State → Manager.State
shared s caps = record caps { threads = s.sched.threads; ticks = s.ticks }

unfoldable pub with_threads : Manager.State → State → State
with_threads caps s = record s { sched = record s.sched { threads = caps.threads } }

-- Whether the capability was made and attached changes nothing of the answer.
unfoldable pub sys_ipc_create_port : State → Manager.State → ℕ × (State × Manager.State)
sys_ipc_create_port s caps = elim s.sched.current [
  | none ↦ (einval, (s, caps))
  | some owner ↦
      let (port_id, s') = create_port owner s in
      let (code, caps') =
        create_and_attach (ipc_port port_id) owner (union read write) (shared s' caps) in
      (port_id, (with_threads caps' s', caps'))
]
