-- ===== src/Syscall/Ipc/Batch.antt =====
-- kernel/src/syscall/mod.rs: the calls that send and receive batches, and that read the trace.
use atom.Prelude.{
  ℕ, zero, suc, ◌+◌, ◌%◌, ◌^◌, min, List, [], ◌∷◌, map, none, some, ◌==◌, ltb, unwrap_or,
  if◌then◌else◌, Result, ok, err, length, take,
}
use atom.Ipc.Message.{Message, new}
use atom.Ipc.Trace.{IpcTraceEvent, as_u64}
use atom.Ipc.Ports.{State, IpcError, queue_full, current_time_ms, max_batch_size, get_trace_events}
use atom.Ipc.Ports.Send.{send_batch}
use atom.Ipc.Ports.Receive.{recv_batch}
use atom.Syscall.Codes.{esuccess, einval, ewouldblock}

-- The messages that are sent: `n` of them from number `i` on, each with its number as type and as its
-- only byte. Nothing is read from the caller's memory.
unfoldable pub numbered : ℕ → ℕ → ℕ → ℕ → List Message
numbered zero i sender now = []
numbered (suc n) i sender now =
    new sender (i % 2 ^ 32) (i % 256 ∷ []) now ∷ numbered n (i + 1) sender now

batch_code : Result ℕ IpcError → ℕ
batch_code (ok sent_count) = sent_count
batch_code (err queue_full) = ewouldblock
batch_code (err _) = einval

unfoldable pub sys_ipc_send_batch : ℕ → ℕ → State → ℕ × State
unfolding batch_code
sys_ipc_send_batch port_id count s =
    if count == 0
    then (esuccess, s)
    else if ltb max_batch_size count
    then (einval, s)
    else elim s.sched.current [
      | none ↦ (einval, s)
      | some sender ↦
          let (result, s') = send_batch port_id (numbered count 0 sender (current_time_ms s)) s in
          (batch_code result, s')
    ]

count_code : Result (List Message) IpcError → ℕ
count_code (ok messages) = length messages
count_code (err e) = einval

-- The count alone is answered: nothing is written to the caller's buffer.
unfoldable pub sys_ipc_recv_batch : ℕ → ℕ → State → ℕ × State
unfolding count_code
sys_ipc_recv_batch port_id max_count s =
    if max_count == 0
    then (0, s)
    else if ltb max_batch_size max_count
    then (einval, s)
    else elim s.sched.current [
      | none ↦ (einval, s)
      | some caller ↦
          let (result, s') = recv_batch port_id caller max_count s in (count_code result, s')
    ]

pub record RawIpcTraceEvent : Type 0 where
  pub timestamp_ms : ℕ
  pub kind : ℕ
  pub port_id : ℕ
  pub sender : ℕ
  pub receiver : ℕ
  pub size : ℕ

-- `RawIpcTraceEvent::from`
unfoldable pub raw_event : IpcTraceEvent → RawIpcTraceEvent
raw_event event = record {
  timestamp_ms = event.timestamp_ms;
  kind = as_u64 event.kind;
  port_id = event.port;
  sender = event.sender;
  receiver = unwrap_or event.receiver 0;
  size = event.size;
}

-- How many events there are, and those written to the buffer.
unfoldable pub sys_ipc_trace_read : ℕ → ℕ → State → ℕ × List RawIpcTraceEvent
sys_ipc_trace_read buffer_ptr max_events s =
    if max_events == 0
    then (0, [])
    else let events = get_trace_events max_events s in
      (
        length events,
        if buffer_ptr == 0
            then []
            else map raw_event (take (min (length events) max_events) events),
      )
