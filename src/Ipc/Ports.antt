-- ===== src/Ipc/Ports.antt =====
-- kernel/src/ipc.rs, `IpcManager`: ports with bounded queues of messages and the threads that wait on
-- them. `State` joins its fields with what its operations reach: the counter of `PortId::new`, the
-- scheduler, the shared regions, and the timer's ticks, of which each is 10 ms.
pub mod Send
pub mod Receive
pub mod Wait
pub mod Deadlock
pub mod Keeps
pub mod Acyclic
pub mod Run
pub mod Sound
pub mod Fifo
use atom.Prelude.{
  ℕ, ◌+◌, ◌*◌, ◌%◌, ◌^◌, List, [], ◌∷◌, Option, none, some, Bool, not, ◌==◌, if◌then◌else◌, Result,
  ok, err, length,
}
use atom.Prelude.BTreeMap
use atom.Prelude.BTreeMap.{BTreeMap, values}
use atom.Thread.{ThreadPriority}
use atom.Sched
use atom.SharedMem.{SharedRegion}
use atom.Ipc.Message.{Message}
use atom.Ipc.Metrics.{IpcPortMetrics, IpcPortStats, no_metrics, to_stats}
use atom.Ipc.Trace.{IpcTraceBuffer, IpcTraceEvent, snapshot}

abbrev pub max_message_size : ℕ
max_message_size = 256

abbrev pub zero_copy_threshold : ℕ
zero_copy_threshold = 128

abbrev pub max_batch_size : ℕ
max_batch_size = 32

abbrev pub max_queue_depth : ℕ
max_queue_depth = 64

pub data IpcError : Type 0 where
  invalid_port permission_denied message_too_large port_busy would_block batch_too_large timeout
        queue_full deadlock_detected invalid_shared_region requires_shared_memory
        shared_memory_payload_conflict :
      IpcError

pub record PortState : Type 0 where
  pub id : ℕ
  pub owner : ℕ
  pub messages : List Message
  pub receiver_blocked : Option ℕ
  pub max_waiter_priority : Option ThreadPriority
  pub metrics : IpcPortMetrics

-- `PortState::new`
unfoldable pub new_port : ℕ → ℕ → PortState
new_port id owner = record {
  id = id;
  owner = owner;
  messages = [];
  receiver_blocked = none;
  max_waiter_priority = none;
  metrics = no_metrics;
}

pub record WaiterInfo : Type 0 where
  pub port : ℕ
  pub deadline : Option ℕ

pub record State : Type 0 where
  pub next_port : ℕ
  pub ports : BTreeMap PortState
  pub waiting_threads : BTreeMap WaiterInfo
  pub trace : IpcTraceBuffer
  pub sched : Sched.State
  pub regions : BTreeMap SharedRegion
  pub ticks : ℕ

abbrev pub current_time_ms : State → ℕ
current_time_ms s = s.ticks * 10 % 2 ^ 64

-- What `get_mut` writes back: a port and the trace.
unfoldable pub put : ℕ → PortState → IpcTraceBuffer → State → State
put port_id port trace s = record s { ports = BTreeMap.insert port_id port s.ports; trace = trace }

unfoldable pub create_port : ℕ → State → ℕ × State
create_port owner s = (
  s.next_port,
  record s {
    next_port = (s.next_port + 1) % 2 ^ 64;
    ports = BTreeMap.insert s.next_port (new_port s.next_port owner) s.ports;
  },
)

unfoldable pub port_owner : ℕ → State → Option ℕ
port_owner port_id s = elim (BTreeMap.get port_id s.ports) [
  | none ↦ none
  | some port ↦ some port.owner
]

unfoldable pub close_port : ℕ → ℕ → State → Result (Unit {0}) IpcError × State
close_port port_id caller s = elim (BTreeMap.get port_id s.ports) [
  | none ↦ (err invalid_port, s)
  | some port ↦
      if not (port.owner == caller)
      then (err permission_denied, s)
      else (ok tt, record s { ports = BTreeMap.remove port_id s.ports })
]

unfoldable pub get_max_waiter_priority : ℕ → State → Option ThreadPriority
get_max_waiter_priority port_id s = elim (BTreeMap.get port_id s.ports) [
  | none ↦ none
  | some port ↦ port.max_waiter_priority
]

unfoldable pub get_trace_events : ℕ → State → List IpcTraceEvent
get_trace_events max_events s = snapshot max_events s.trace

unfoldable pub port_stats : ℕ → State → Result IpcPortStats IpcError
port_stats port_id s = elim (BTreeMap.get port_id s.ports) [
  | none ↦ err invalid_port
  | some port ↦ ok (to_stats port.metrics)
]

pub record IpcStats : Type 0 where
  pub total_ports : ℕ
  pub total_messages : ℕ
  pub blocked_threads : ℕ

-- The sum of the queues' lengths.
unfoldable pub sum_messages : List PortState → ℕ
sum_messages [] = 0
sum_messages (port ∷ ports) = length port.messages + sum_messages ports

unfoldable pub get_stats : State → IpcStats
get_stats s = record {
  total_ports = length s.ports;
  total_messages = sum_messages (values s.ports);
  blocked_threads = length s.waiting_threads;
}
