-- ===== src/Ipc/Ports/Sound/Always.antt =====
-- kernel/src/ipc.rs: what holds of every port, over any sequence of operations.
use atom.Prelude.{List, [], ◌∷◌}
use atom.Ipc.Ports.{State}
use atom.Ipc.Ports.Run.{
  Op, step, run, creates, closes, sends, sends_batch, receives, receives_batch, blocks, ticks,
}
use atom.Ipc.Ports.Sound.{
  IsSound, block_recv-IsSound, close_port-IsSound, create_port-IsSound, handle_timeouts-IsSound,
}
use atom.Ipc.Ports.Sound.Sent.{send-IsSound, send_batch-IsSound}
use atom.Ipc.Ports.Sound.Taken.{try_recv-IsSound, recv_batch-IsSound}

pub step-IsSound : (op : Op) (s : State) → IsSound s.ports → IsSound (step op s).ports
unfolding step
step-IsSound (creates owner) s w = create_port-IsSound owner s w
step-IsSound (closes port_id caller) s w = close_port-IsSound port_id caller s w
step-IsSound (sends port_id message) s w = send-IsSound port_id message s w
step-IsSound (sends_batch port_id messages) s w = send_batch-IsSound port_id messages s w
step-IsSound (receives port_id caller) s w = try_recv-IsSound port_id caller s w
step-IsSound (receives_batch port_id caller max_count) s w =
    recv_batch-IsSound port_id caller max_count s w
step-IsSound (blocks port_id caller priority deadline) s w =
    block_recv-IsSound port_id caller priority deadline s w
step-IsSound (ticks now) s w = handle_timeouts-IsSound now (record s { ticks = now }) w

-- After any sequence of operations every port stands under its own id, its queue holds at most
-- `max_queue_depth` messages, and it keeps a waiter's priority exactly if a receiver is blocked on
-- it, if this held before.
pub run-IsSound : (ops : List Op) (s : State) → IsSound s.ports → IsSound (run ops s).ports
unfolding run
run-IsSound [] s w = w
run-IsSound (op ∷ ops) s w = run-IsSound ops (step op s) (step-IsSound op s w)
