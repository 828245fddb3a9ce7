-- ===== src/Syscall/Ipc/Own.antt =====
-- kernel/src/syscall/mod.rs, `sys_ipc_recv`: a thread that waits for a message on a port of its own.
use atom.Prelude.{
  ℕ, ◌≡◌, refl, ap, ◌∙◌, List, [], Option, none, some, true, false, ◌==◌, Result, ok, err, arith,
}
use atom.Prelude.BTreeMap.{get, get-insert}
use atom.Thread.{ThreadPriority}
use atom.Sched.{get_priority}
use atom.Ipc.Message.{Message}
use atom.Ipc.Ports.{State, PortState, IpcError, put, current_time_ms, deadlock_detected}
use atom.Ipc.Ports.Receive.{try_recv, pop}
use atom.Ipc.Ports.Wait.{block_recv, detect_deadlock}
use atom.Ipc.Ports.Deadlock.{Leads, detect_deadlock_iff}
use atom.Syscall.Codes.{edeadlk}
use atom.Syscall.Ipc.{returns, sys_ipc_recv, after_try, after_block, block_code, deadline_of}

try_recv-empty :
    (port_id caller : ℕ) (port : PortState) (s : State)
    → get port_id s.ports ≡ some port
    → port.messages ≡ []
    → try_recv port_id caller s ≡ (ok none, put port_id port s.trace s)
unfolding try_recv pop
try_recv-empty port_id caller port s e empty =
    rw (e, try_recv)
      (ap
        (λ (ms : List Message).
          let st = pop s.regions (current_time_ms s) port_id caller ms (port, s.trace) in
          (st.0, put port_id st.1.0 st.1.1 s))
        empty)

block_recv-own :
    (port_id : ℕ) (priority : ThreadPriority) (deadline : Option ℕ) (port : PortState) (s : State)
    → get port_id s.ports ≡ some port
    → block_recv port_id port.owner priority deadline s ≡ (err deadlock_detected, s)
unfolding block_recv
block_recv-own port_id priority deadline port s e =
    let cycle : detect_deadlock port.owner port_id s ≡ true =
      (detect_deadlock_iff port.owner port_id s).1 (0, Leads.owned port_id port e refl) in
    rw (e, block_recv, cycle) refl

-- A thread that owns a port on which no message is queued, and that calls `sys_ipc_recv` on it with a
-- time to wait, never waits: the call returns `EDEADLK` at once.
pub sys_ipc_recv-own :
    (port_id buffer_ptr buffer_size timeout_ms : ℕ) (port : PortState) (s : State)
    → s.sched.current ≡ some port.owner
    → get port_id s.ports ≡ some port
    → port.messages ≡ []
    → (timeout_ms == 0) ≡ false
    → (sys_ipc_recv port_id buffer_ptr buffer_size timeout_ms s).0 ≡ returns edeadlk []
unfolding sys_ipc_recv after_try after_block block_code put
sys_ipc_recv-own port_id buffer_ptr buffer_size timeout_ms port s running e empty wait =
    let s1 = put port_id port s.trace s in
    let there : get port_id s1.ports ≡ some port =
      get-insert port_id port_id port s.ports ∙ ground arith in
    rw (running, sys_ipc_recv)
      (ap
          (λ (x : Result (Option Message) IpcError × State).
            (after_try port_id port.owner buffer_ptr buffer_size timeout_ms x).0)
          (try_recv-empty port_id port.owner port s e empty)
        ∙ rw wait (
            ap (λ (x : Result (Unit {0}) IpcError × State). (after_block port.owner x).0)
              (block_recv-own port_id (get_priority port.owner s1.sched)
                (deadline_of timeout_ms s1.ticks) port s1 there)))
