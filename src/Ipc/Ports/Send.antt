-- ===== src/Ipc/Ports/Send.antt =====
-- kernel/src/ipc.rs: `validate_payload_and_size`, `send` and `send_batch`.
use atom.Prelude.{
  ℕ, ◌+◌, List, [], ◌∷◌, ◌++◌, Option, none, some, not, ltb, leb, ◌==◌, if◌then◌else◌, Result, ok,
  err, length,
}
use atom.Prelude.BTreeMap
use atom.Prelude.BTreeMap.{BTreeMap}
use atom.Sched
use atom.SharedMem.{SharedRegion, SharedMemError, RegionInfo, get_region_info}
use atom.Ipc.Message.{Message}
use atom.Ipc.Metrics.{record_send}
use atom.Ipc.Trace.{IpcTraceBuffer, IpcTraceEvent, push}
use atom.Ipc.Trace
use atom.Ipc.Ports.{
  State, PortState, IpcError, put, current_time_ms, max_message_size, zero_copy_threshold,
  max_batch_size, max_queue_depth, invalid_port, message_too_large, batch_too_large, queue_full,
  invalid_shared_region, requires_shared_memory, shared_memory_payload_conflict,
}

-- The size of the region, or the error `get_region_info` is turned into.
unfoldable pub region_size : Result RegionInfo SharedMemError → Result ℕ IpcError
region_size (err e) = err invalid_shared_region
region_size (ok info) = ok info.size

unfoldable pub validate_payload_and_size : BTreeMap SharedRegion → Message → Result ℕ IpcError
validate_payload_and_size regions message = elim message.shared_region [
  | some region ↦
      if not (length message.payload == 0)
      then err shared_memory_payload_conflict
      else region_size (get_region_info region regions)
  | none ↦
      if ltb max_message_size (length message.payload)
      then err message_too_large
      else if ltb zero_copy_threshold (length message.payload)
      then err requires_shared_memory
      else ok (length message.payload)
]

-- A message without a time gets the current one.
unfoldable pub stamp : ℕ → Message → Message
stamp now message =
    if message.timestamp_ms == 0 then record message { timestamp_ms = now } else message

-- A message enters the queue, the metrics and the trace.
unfoldable pub enqueue : ℕ → ℕ → Message → PortState × IpcTraceBuffer → PortState × IpcTraceBuffer
enqueue port_id size message (port, trace) = (
  record port {
    messages = port.messages ++ message ∷ [];
    metrics = record_send size message.timestamp_ms port.metrics;
  },
  push
      (record {
        timestamp_ms = message.timestamp_ms;
        kind = Trace.send;
        port = port_id;
        sender = message.sender;
        receiver = none;
        size = size;
      })
      trace,
)

-- `send` on a port that is there, with the size that was found.
unfoldable pub send_sized :
    ℕ → Message → PortState → Result ℕ IpcError → State → Result (Unit {0}) IpcError × State
send_sized port_id message port (err e) s = (err e, s)
send_sized port_id message port (ok size) s =
    if leb max_queue_depth (length port.messages)
    then (err queue_full, s)
    else let (port', trace) =
        enqueue port_id size (stamp (current_time_ms s) message) (port, s.trace) in
      (ok tt, put port_id port' trace s)

unfoldable pub send : ℕ → Message → State → Result (Unit {0}) IpcError × State
send port_id message s = elim (BTreeMap.get port_id s.ports) [
  | none ↦ (err invalid_port, s)
  | some port ↦ send_sized port_id message port (validate_payload_and_size s.regions message) s
]

-- One more message and its size, or the first error.
unfoldable pub prepared :
    Message
    → Result ℕ IpcError
    → Result (List (Message × ℕ)) IpcError
    → Result (List (Message × ℕ)) IpcError
prepared message (err e) rest = err e
prepared message (ok size) (err e) = err e
prepared message (ok size) (ok rest) = ok ((message, size) ∷ rest)

unfoldable pub prepare :
    BTreeMap SharedRegion → ℕ → List Message → Result (List (Message × ℕ)) IpcError
prepare regions now [] = ok []
prepare regions now (message ∷ messages) =
    prepared (stamp now message) (validate_payload_and_size regions message)
      (prepare regions now messages)

unfoldable pub enqueue_all :
    ℕ → List (Message × ℕ) → PortState × IpcTraceBuffer → PortState × IpcTraceBuffer
enqueue_all port_id [] st = st
enqueue_all port_id ((message, size) ∷ rest) st =
    enqueue_all port_id rest (enqueue port_id size message st)

-- `port.receiver_blocked.take()`: the receiver that waits, if there is one, is woken.
unfoldable pub wake : ℕ → PortState → IpcTraceBuffer → Option ℕ → State → State
wake port_id port trace none s = put port_id port trace s
wake port_id port trace (some receiver_id) s =
    let s' =
      put port_id (record port { receiver_blocked = none; max_waiter_priority = none }) trace s in
    record s' {
      waiting_threads = BTreeMap.remove receiver_id s'.waiting_threads;
      sched = Sched.restore_original_priority receiver_id (Sched.mark_ready receiver_id s'.sched);
    }

-- `send_batch` on a port that is there, with the messages prepared.
unfoldable pub send_prepared :
    ℕ → PortState → Result (List (Message × ℕ)) IpcError → State → Result ℕ IpcError × State
send_prepared port_id port (err e) s = (err e, s)
send_prepared port_id port (ok messages) s =
    if ltb max_queue_depth (length port.messages + length messages)
    then (err queue_full, s)
    else let (port', trace) = enqueue_all port_id messages (port, s.trace) in
      (ok (length messages), wake port_id port' trace port'.receiver_blocked s)

unfoldable pub send_batch : ℕ → List Message → State → Result ℕ IpcError × State
send_batch port_id messages s =
    if length messages == 0
    then (ok 0, s)
    else if ltb max_batch_size (length messages)
    then (err batch_too_large, s)
    else elim (BTreeMap.get port_id s.ports) [
      | none ↦ (err invalid_port, s)
      | some port ↦ send_prepared port_id port (prepare s.regions (current_time_ms s) messages) s
    ]
