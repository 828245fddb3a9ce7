-- ===== src/Syscall/Ipc.antt =====
-- kernel/src/syscall/mod.rs: the calls that close a port, send to one and receive from one, over
-- ipc.rs. The bytes that a call reads from the caller's memory are an argument, those that it writes
-- are part of its answer.
pub mod Own
pub mod Create
pub mod Batch
pub mod Delegate
pub mod WaitAny
mod Tests
use atom.Prelude.{
  ℕ, ◌+◌, ◌/◌, ◌%◌, ◌^◌, min, List, [], ◌∷◌, Option, none, some, Bool, not, ◌==◌, ◌||◌, ltb,
  if◌then◌else◌, Result, ok, err, length, take,
}
use atom.Thread.{ThreadState}
use atom.Sched.{get_priority, set_thread_state, on_timer_tick, switch_between}
use atom.Ipc.Message.{Message, new}
use atom.Ipc.Metrics.{IpcPortStats}
use atom.Ipc.Ports.{
  State, IpcError, invalid_port, permission_denied, message_too_large, queue_full, would_block,
  port_busy, deadlock_detected, close_port, port_stats, current_time_ms, max_message_size,
}
use atom.Ipc.Ports.Send.{send}
use atom.Ipc.Ports.Receive.{try_recv}
use atom.Ipc.Ports.Wait.{block_recv}
use atom.Syscall.Codes.{
  max_u64, esuccess, einval, eperm, ebusy, emsgsize, etimedout, ewouldblock, edeadlk,
}

close_code : Result (Unit {0}) IpcError → ℕ
close_code (ok _) = esuccess
close_code (err permission_denied) = eperm
close_code (err _) = einval

unfoldable pub sys_ipc_close_port : ℕ → State → ℕ × State
unfolding close_code
sys_ipc_close_port port_id s = elim s.sched.current [
  | none ↦ (einval, s)
  | some caller ↦ let (result, s') = close_port port_id caller s in (close_code result, s')
]

-- The code of `sys_ipc_send`, by the time the caller would wait.
send_code : ℕ → Result (Unit {0}) IpcError → ℕ
send_code timeout_ms (ok _) = esuccess
send_code timeout_ms (err message_too_large) = emsgsize
send_code timeout_ms (err queue_full) = if timeout_ms == 0 then ewouldblock else etimedout
send_code timeout_ms (err would_block) = if timeout_ms == 0 then ewouldblock else etimedout
send_code timeout_ms (err _) = einval

-- The message that is sent has no payload.
unfoldable pub sys_ipc_send : ℕ → ℕ → ℕ → ℕ → State → ℕ × State
unfolding send_code
sys_ipc_send port_id msg_type payload_len timeout_ms s =
    if ltb max_message_size payload_len then (emsgsize, s) else elim s.sched.current [
      | none ↦ (einval, s)
      | some sender ↦
          let message = new sender (msg_type % 2 ^ 32) [] (current_time_ms s) in
          let (result, s') = send port_id message s in (send_code timeout_ms result, s')
    ]

-- The code of `sys_ipc_send_async`, which is that of `sys_ipc_send` with no time to wait.
send_async_code : Result (Unit {0}) IpcError → ℕ
send_async_code (ok _) = esuccess
send_async_code (err message_too_large) = emsgsize
send_async_code (err queue_full) = ewouldblock
send_async_code (err would_block) = ewouldblock
send_async_code (err _) = einval

-- The payload, of which `bytes` stand at the pointer.
unfoldable pub payload_of : ℕ → ℕ → List ℕ → List ℕ
payload_of payload_ptr payload_len bytes =
    if (payload_len == 0) || (payload_ptr == 0) then [] else take payload_len bytes

unfoldable pub sys_ipc_send_async : ℕ → ℕ → ℕ → ℕ → List ℕ → State → ℕ × State
unfolding send_async_code
sys_ipc_send_async port_id msg_type payload_ptr payload_len bytes s =
    if ltb max_message_size payload_len then (emsgsize, s) else elim s.sched.current [
      | none ↦ (einval, s)
      | some sender ↦
          let payload = payload_of payload_ptr payload_len bytes in
          let message = new sender (msg_type % 2 ^ 32) payload (current_time_ms s) in
          let (result, s') = send port_id message s in (send_async_code result, s')
    ]

-- What is copied to the buffer, and how many bytes.
unfoldable pub copy_message : ℕ → ℕ → Message → ℕ × List ℕ
copy_message buffer_ptr buffer_size message =
    let bytes_to_copy = min (length message.payload) buffer_size in
    (
      bytes_to_copy,
      if (buffer_ptr == 0) || (bytes_to_copy == 0) then [] else take bytes_to_copy message.payload,
    )

received_answer : ℕ → ℕ → ℕ → Result (Option Message) IpcError → ℕ × List ℕ
received_answer buffer_ptr buffer_size when_empty (ok (some message)) =
    copy_message buffer_ptr buffer_size message
received_answer buffer_ptr buffer_size when_empty (ok none) = (when_empty, [])
received_answer buffer_ptr buffer_size when_empty (err e) = (einval, [])

unfoldable pub sys_ipc_try_recv : ℕ → ℕ → ℕ → State → (ℕ × List ℕ) × State
unfolding received_answer
sys_ipc_try_recv port_id buffer_ptr buffer_size s = elim s.sched.current [
  | none ↦ ((einval, []), s)
  | some caller ↦
      let (result, s') = try_recv port_id caller s in
      (received_answer buffer_ptr buffer_size ewouldblock result, s')
]

-- `sys_ipc_recv` returns a code and what it has written, or it blocks, with the switch that is made.
pub data Recv : Type 0 where
  returns : ℕ → List ℕ → Recv
  blocks : Option (ℕ × ℕ) → Recv

-- The deadline in ticks, of 10 ms each.
unfoldable pub deadline_of : ℕ → ℕ → Option ℕ
deadline_of timeout_ms ticks =
    if timeout_ms == max_u64 then none else some ((ticks + (timeout_ms + 9) % 2 ^ 64 / 10) % 2 ^ 64)

block_code : IpcError → ℕ
block_code port_busy = ebusy
block_code deadlock_detected = edeadlk
block_code _ = einval

-- What follows `block_receive`.
unfoldable pub after_block : ℕ → Result (Unit {0}) IpcError × State → Recv × State
unfolding block_code
after_block caller (err e, s) = (returns (block_code e) [], s)
after_block caller (ok _, s) =
    let (choice, sched) = on_timer_tick (set_thread_state caller ThreadState.blocked s.sched) in
    (blocks (switch_between choice), record s { sched = sched })

-- What follows the first `try_receive_message`.
unfoldable pub after_try :
    ℕ → ℕ → ℕ → ℕ → ℕ → Result (Option Message) IpcError × State → Recv × State
after_try port_id caller buffer_ptr buffer_size timeout_ms (ok (some message), s) =
    let (code, bytes) = copy_message buffer_ptr buffer_size message in (returns code bytes, s)
after_try port_id caller buffer_ptr buffer_size timeout_ms (err e, s) = (returns einval [], s)
after_try port_id caller buffer_ptr buffer_size timeout_ms (ok none, s) =
    if timeout_ms == 0
    then (returns ewouldblock [], s)
    else after_block caller
        (block_recv port_id caller (get_priority caller s.sched) (deadline_of timeout_ms s.ticks) s)

unfoldable pub sys_ipc_recv : ℕ → ℕ → ℕ → ℕ → State → Recv × State
sys_ipc_recv port_id buffer_ptr buffer_size timeout_ms s = elim s.sched.current [
  | none ↦ (returns einval [], s)
  | some caller ↦
      after_try port_id caller buffer_ptr buffer_size timeout_ms (try_recv port_id caller s)
]

-- The rest of `sys_ipc_recv`, once the thread that blocked runs again.
unfoldable pub resume_recv : ℕ → ℕ → ℕ → ℕ → State → (ℕ × List ℕ) × State
unfolding received_answer
resume_recv port_id caller buffer_ptr buffer_size s =
    let (result, s') = try_recv port_id caller s in
    (received_answer buffer_ptr buffer_size etimedout result, s')

-- The code, and the statistics that are written to the pointer.
unfoldable pub sys_ipc_port_stats : ℕ → ℕ → State → ℕ × Option IpcPortStats
sys_ipc_port_stats port_id stats_ptr s = elim (port_stats port_id s) [
  | err e ↦ (einval, none)
  | ok stats ↦ (esuccess, if stats_ptr == 0 then none else some stats)
]
