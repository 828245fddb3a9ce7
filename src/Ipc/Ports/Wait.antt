-- ===== src/Ipc/Ports/Wait.antt =====
-- kernel/src/ipc.rs: `block_recv`, `detect_deadlock` and `handle_timeouts`.
use atom.Prelude.{
  ℕ, zero, suc, ◌+◌, List, [], ◌∷◌, Option, none, some, Bool, true, false, ltb, leb, ◌==◌,
  if◌then◌else◌, is_some, Result, ok, err, length,
}
use atom.Prelude.BTreeMap
use atom.Prelude.BTreeMap.{BTreeMap}
use atom.Thread.{ThreadPriority, rank}
use atom.Sched
use atom.Ipc.Ports.{
  State, PortState, WaiterInfo, IpcError, invalid_port, deadlock_detected, port_busy,
}

-- The loop of `detect_deadlock` from a port on, with `n` rounds left.
unfoldable pub follow : BTreeMap PortState → BTreeMap WaiterInfo → ℕ → ℕ → ℕ → Bool
follow ports waiting start zero port_id = false
follow ports waiting start (suc n) port_id = elim (BTreeMap.get port_id ports) [
  | none ↦ false
  | some port ↦ if port.owner == start then true else elim (BTreeMap.get port.owner waiting) [
    | none ↦ false
    | some info ↦ follow ports waiting start n info.port
  ]
]

-- The loop runs while `steps <= ports.len() + waiting.len()`, from 0 on.
unfoldable pub detect_deadlock : ℕ → ℕ → State → Bool
detect_deadlock start target_port s =
    follow s.ports s.waiting_threads start (suc (length s.ports + length s.waiting_threads))
      target_port

-- `Ord::max` of two priorities, of which the second is returned if they are equal.
unfoldable pub max_priority : ThreadPriority → ThreadPriority → ThreadPriority
max_priority p q = if ltb (rank q) (rank p) then p else q

unfoldable pub raise : Option ThreadPriority → ThreadPriority → ThreadPriority
raise none caller_priority = caller_priority
raise (some p) caller_priority = max_priority p caller_priority

-- The port keeps the receiver, the map of waiting threads the port and the deadline.
unfoldable pub wait_on : ℕ → ℕ → ThreadPriority → Option ℕ → PortState → State → State
wait_on port_id caller caller_priority deadline port s = record s {
  ports =
      BTreeMap.insert port_id
        (record port {
          receiver_blocked = some caller;
          max_waiter_priority = some (raise port.max_waiter_priority caller_priority);
        })
        s.ports;
  waiting_threads =
      BTreeMap.insert caller (record { port = port_id; deadline = deadline }) s.waiting_threads;
}

unfoldable pub block_recv :
    ℕ → ℕ → ThreadPriority → Option ℕ → State → Result (Unit {0}) IpcError × State
block_recv port_id caller caller_priority deadline s = elim (BTreeMap.get port_id s.ports) [
  | none ↦ (err invalid_port, s)
  | some port ↦
      if detect_deadlock caller port_id s
      then (err deadlock_detected, s)
      else if is_some port.receiver_blocked
      then (err port_busy, s)
      else (ok tt, wait_on port_id caller caller_priority deadline port s)
]

-- `current_ticks >= deadline`, if there is one.
unfoldable pub has_expired : ℕ → Option ℕ → Bool
has_expired current_ticks none = false
has_expired current_ticks (some deadline) = leb deadline current_ticks

unfoldable pub expired : ℕ → BTreeMap WaiterInfo → List (ℕ × ℕ)
expired current_ticks [] = []
expired current_ticks ((tid, info) ∷ waiting) =
    let rest = expired current_ticks waiting in
    if has_expired current_ticks info.deadline then (tid, info.port) ∷ rest else rest

-- `receiver_blocked == Some(tid)`
unfoldable pub is_receiver : ℕ → Option ℕ → Bool
is_receiver tid none = false
is_receiver tid (some receiver) = receiver == tid

unfoldable pub release : ℕ → PortState → PortState
release tid port =
    if is_receiver tid port.receiver_blocked
    then record port { receiver_blocked = none; max_waiter_priority = none }
    else port

unfoldable pub release_ports : List (ℕ × ℕ) → BTreeMap PortState → BTreeMap PortState
release_ports [] ports = ports
release_ports ((tid, port_id) ∷ rest) ports =
    release_ports rest (elim (BTreeMap.get port_id ports) [
      | none ↦ ports
      | some port ↦ BTreeMap.insert port_id (release tid port) ports
    ])

unfoldable pub remove_waiting : List (ℕ × ℕ) → BTreeMap WaiterInfo → BTreeMap WaiterInfo
remove_waiting [] waiting = waiting
remove_waiting ((tid, port_id) ∷ rest) waiting = remove_waiting rest (BTreeMap.remove tid waiting)

unfoldable pub wake_all : List (ℕ × ℕ) → Sched.State → Sched.State
wake_all [] sched = sched
wake_all ((tid, port_id) ∷ rest) sched =
    wake_all rest (Sched.restore_original_priority tid (Sched.mark_ready tid sched))

unfoldable pub handle_timeouts : ℕ → State → State
handle_timeouts current_ticks s =
    let due = expired current_ticks s.waiting_threads in
    if length due == 0 then s else record s {
      ports = release_ports due s.ports;
      waiting_threads = remove_waiting due s.waiting_threads;
      sched = wake_all due s.sched;
    }
