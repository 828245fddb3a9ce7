-- ===== src/Syscall/Ipc/Tests.antt =====
-- Thread 5 runs and owns port 1, on which no message is queued.
use atom.Prelude.{◌≡◌, refl, [], ◌∷◌, some}
use atom.Prelude.BTreeMap.{get}
use atom.Sched
use atom.Ipc.Trace
use atom.Ipc.Ports.{State, new_port}
use atom.Syscall.Codes.{edeadlk}
use atom.Syscall.Ipc.{returns, sys_ipc_recv}
use atom.Syscall.Ipc.Own.{sys_ipc_recv-own}

abbrev server : State
server = record {
  next_port = 2;
  ports = (1, new_port 1 5) ∷ [];
  waiting_threads = [];
  trace = Trace.new;
  sched = record Sched.new { current = some 5 };
  regions = [];
  ticks = 0;
}

sys_ipc_recv-own_example : (sys_ipc_recv 1 4096 64 1000 server).0 ≡ returns edeadlk []
unfolding get new_port
sys_ipc_recv-own_example = sys_ipc_recv-own 1 4096 64 1000 (new_port 1 5) server refl refl refl refl
