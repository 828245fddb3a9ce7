-- ===== src/Syscall/Ipc/Delegate.antt =====
-- kernel/src/syscall/mod.rs, `sys_ipc_send_with_cap`: a message that carries a capability.
use atom.Prelude.{
  ℕ, ◌/◌, ◌%◌, ◌^◌, [], none, some, Bool, true, false, not, ◌==◌, ltb, if◌then◌else◌, Result, ok,
  err,
}
use atom.Cap.Permissions.{write, grant}
use atom.Cap.Capability.{ResourceType, ipc_port}
use atom.Thread.{has_capability, validate_capability_by_type}
use atom.Ipc.Message.{Message, new_with_grant, new_with_move}
use atom.Ipc.Ports.{State, IpcError, message_too_large, current_time_ms, max_message_size}
use atom.Ipc.Ports.Send.{send}
use atom.Syscall.Capabilities.{from_raw_bits}
use atom.Syscall.Codes.{esuccess, einval, eperm, emsgsize}

-- The resource is the port.
unfoldable pub is_port : ℕ → ResourceType → Bool
is_port port_id (ipc_port id) = id == port_id
is_port port_id resource = false

delegate_code : Result (Unit {0}) IpcError → ℕ
delegate_code (ok _) = esuccess
delegate_code (err message_too_large) = emsgsize
delegate_code (err _) = einval

-- MOVE if the upper half of the word is set, else GRANT with its lower half as permissions.
unfoldable pub delegation : ℕ → ℕ → ℕ → ℕ → ℕ → Message
delegation sender msg_type cap_handle mode_or_perms now =
    if not (mode_or_perms / 2 ^ 32 == 0)
    then new_with_move sender (msg_type % 2 ^ 32) [] cap_handle now
    else new_with_grant sender (msg_type % 2 ^ 32) [] cap_handle (from_raw_bits mode_or_perms) now

-- What the sender holds is in the scheduler's list of threads.
unfoldable pub send_as : ℕ → ℕ → ℕ → ℕ → ℕ → State → ℕ × State
unfolding delegate_code
send_as sender port_id msg_type cap_handle mode_or_perms s =
    if not (validate_capability_by_type sender write (is_port port_id) s.sched.threads)
    then (eperm, s)
    else if not (has_capability sender cap_handle s.sched.threads)
    then (eperm, s)
    else if not (validate_capability_by_type sender grant (λ resource. true) s.sched.threads)
    then (eperm, s)
    else let (result, s') =
        send port_id (delegation sender msg_type cap_handle mode_or_perms (current_time_ms s)) s in
      (delegate_code result, s')

unfoldable pub sys_ipc_send_with_cap : ℕ → ℕ → ℕ → ℕ → ℕ → State → ℕ × State
sys_ipc_send_with_cap port_id msg_type payload_len cap_handle mode_or_perms s =
    if ltb max_message_size payload_len then (emsgsize, s) else elim s.sched.current [
      | none ↦ (einval, s)
      | some sender ↦ send_as sender port_id msg_type cap_handle mode_or_perms s
    ]
