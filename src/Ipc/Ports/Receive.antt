-- ===== src/Ipc/Ports/Receive.antt =====
-- kernel/src/ipc.rs: `try_recv` and `recv_batch`.
use atom.Prelude.{ℕ, zero, suc, min, List, [], ◌∷◌, ◌++◌, Option, none, some, Result, ok, err}
use atom.Prelude.BTreeMap
use atom.Prelude.BTreeMap.{BTreeMap}
use atom.SharedMem.{SharedRegion}
use atom.Ipc.Message.{Message}
use atom.Ipc.Metrics.{record_receive}
use atom.Ipc.Trace.{IpcTraceBuffer, IpcTraceEvent, push}
use atom.Ipc.Trace
use atom.Ipc.Ports.{State, PortState, IpcError, put, current_time_ms, max_batch_size, invalid_port}
use atom.Ipc.Ports.Send.{validate_payload_and_size}

-- A message that has left the queue, with the size that was found.
unfoldable pub deliver :
    ℕ
    → ℕ
    → ℕ
    → Message
    → Result ℕ IpcError
    → PortState × IpcTraceBuffer
    → Result (Option Message) IpcError × (PortState × IpcTraceBuffer)
deliver now port_id caller message (err e) st = (err e, st)
deliver now port_id caller message (ok size) (port, trace) = (
  ok (some message),
  (
    record port { metrics = record_receive size message.timestamp_ms now port.metrics },
    push
        (record {
          timestamp_ms = now;
          kind = Trace.receive;
          port = port_id;
          sender = message.sender;
          receiver = some caller;
          size = size;
        })
        trace,
  ),
)

-- `pop_front` and what follows, on a port whose queue is given.
unfoldable pub pop :
    BTreeMap SharedRegion
    → ℕ
    → ℕ
    → ℕ
    → List Message
    → PortState × IpcTraceBuffer
    → Result (Option Message) IpcError × (PortState × IpcTraceBuffer)
pop regions now port_id caller [] st = (ok none, st)
pop regions now port_id caller (message ∷ messages) (port, trace) =
    deliver now port_id caller message (validate_payload_and_size regions message)
      (record port { messages = messages }, trace)

unfoldable pub try_recv : ℕ → ℕ → State → Result (Option Message) IpcError × State
try_recv port_id caller s = elim (BTreeMap.get port_id s.ports) [
  | none ↦ (err invalid_port, s)
  | some port ↦
      let (answer, (port', trace)) =
        pop s.regions (current_time_ms s) port_id caller port.messages (port, s.trace) in
      (answer, put port_id port' trace s)
]

-- The loop of `recv_batch` with `n` rounds left.
unfoldable pub pop_many :
    BTreeMap SharedRegion
    → ℕ
    → ℕ
    → ℕ
    → ℕ
    → List Message
    → PortState × IpcTraceBuffer
    → Result (List Message) IpcError × (PortState × IpcTraceBuffer)
pop_many regions now port_id caller zero messages st = (ok messages, st)
pop_many regions now port_id caller (suc n) messages st =
    let (answer, st') = pop regions now port_id caller st.0.messages st in
    elim answer [
      | err e ↦ (err e, st')
      | ok none ↦ (ok messages, st')
      | ok (some message) ↦ pop_many regions now port_id caller n (messages ++ message ∷ []) st'
    ]

unfoldable pub recv_batch : ℕ → ℕ → ℕ → State → Result (List Message) IpcError × State
recv_batch port_id caller max_count s = elim (BTreeMap.get port_id s.ports) [
  | none ↦ (err invalid_port, s)
  | some port ↦
      let (answer, (port', trace)) =
        pop_many s.regions (current_time_ms s) port_id caller (min max_count max_batch_size) []
          (port, s.trace) in
      (answer, put port_id port' trace s)
]
