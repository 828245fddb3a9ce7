-- ===== src/Ipc/Ports/Run.antt =====
-- kernel/src/ipc.rs: any sequence of the manager's operations.
use atom.Prelude.{ℕ, List, [], ◌∷◌, Option}
use atom.Thread.{ThreadPriority}
use atom.Ipc.Message.{Message}
use atom.Ipc.Ports.{State, create_port, close_port}
use atom.Ipc.Ports.Send.{send, send_batch}
use atom.Ipc.Ports.Receive.{try_recv, recv_batch}
use atom.Ipc.Ports.Wait.{block_recv, handle_timeouts}

pub data Op : Type 0 where
  -- `owner`
  creates : ℕ → Op
  -- `port_id`, `caller`
  closes : ℕ → ℕ → Op
  sends : ℕ → Message → Op
  sends_batch : ℕ → List Message → Op
  -- `port_id`, `caller`, and how many
  receives : ℕ → ℕ → Op
  receives_batch : ℕ → ℕ → ℕ → Op
  blocks : ℕ → ℕ → ThreadPriority → Option ℕ → Op
  -- The timer interrupt, with the ticks counted.
  ticks : ℕ → Op

unfoldable pub step : Op → State → State
step (creates owner) s = (create_port owner s).1
step (closes port_id caller) s = (close_port port_id caller s).1
step (sends port_id message) s = (send port_id message s).1
step (sends_batch port_id messages) s = (send_batch port_id messages s).1
step (receives port_id caller) s = (try_recv port_id caller s).1
step (receives_batch port_id caller max_count) s = (recv_batch port_id caller max_count s).1
step (blocks port_id caller priority deadline) s = (block_recv port_id caller priority deadline s).1
step (ticks now) s = handle_timeouts now (record s { ticks = now })

unfoldable pub run : List Op → State → State
run [] s = s
run (op ∷ ops) s = run ops (step op s)
