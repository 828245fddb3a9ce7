-- ===== src/Ipc/Ports/Sound.antt =====
-- kernel/src/ipc.rs: what holds of every port between operations.
pub mod Sent
pub mod Taken
pub mod Always
use atom.Prelude.{
  ℕ, zero, suc, ◌+◌, ◌-◌, ◌*◌, ◌≤◌, ◌<◌, ◌≡◌, refl, sym, ap, ◌∙◌, subst, ◌⊎◌, inl, inr, List, [],
  ◌∷◌, ◌++◌, Option, none, some, Bool, true, false, ◌==◌, not, ltb, leb, is_some, if◌then◌else◌,
  Result, ok, err, arith, length, length-append, min, Bool-cases, Option-cases,
}
use atom.Prelude.BTreeMap.{BTreeMap, get, insert, remove, get-insert, get-remove}
use atom.Thread.{ThreadPriority}
use atom.SharedMem.{SharedRegion}
use atom.Ipc.Message.{Message}
use atom.Ipc.Trace.{IpcTraceBuffer}
use atom.Ipc.Ports.{
  State, PortState, IpcError, put, create_port, new_port, close_port, max_queue_depth,
  current_time_ms, max_batch_size,
}
use atom.Ipc.Ports.Send.{
  send, send_sized, send_batch, send_prepared, enqueue, enqueue_all, stamp, wake, prepare,
  validate_payload_and_size,
}
use atom.Ipc.Ports.Receive.{try_recv, recv_batch, pop, pop_many, deliver}
use atom.Ipc.Ports.Wait.{
  block_recv, wait_on, raise, detect_deadlock, handle_timeouts, release, release_ports, is_receiver,
  expired,
}
use atom.Ipc.Ports.Run.{
  Op, step, run, creates, closes, sends, sends_batch, receives, receives_batch, blocks, ticks,
}

pub record IsPort (id : ℕ) (port : PortState) : Type 0 where
  pub own_id : port.id ≡ id
  pub bounded : length port.messages ≤ max_queue_depth
  -- There is a priority exactly if a receiver waits.
  pub waited : is_some port.receiver_blocked ≡ is_some port.max_waiter_priority

abbrev pub IsSound : BTreeMap PortState → Type 0
IsSound ports = (id : ℕ) (port : PortState) → get id ports ≡ some port → IsPort id port

pub IsSound-insert :
    (id : ℕ) (port : PortState) (ports : BTreeMap PortState)
    → IsPort id port
    → IsSound ports
    → IsSound (insert id port ports)
IsSound-insert id port ports v w k c e = elim (Bool-cases (id == k)) [
  | inl here ↦
      let same : port ≡ c = ground (arith, e, here, get-insert id k port ports) in
      let key : id ≡ k = ground (arith, here) in
      subst (λ (x : PortState). IsPort k x) same (subst (λ (n : ℕ). IsPort n port) key v)
  | inr other ↦ w k c (ground (arith, e, other, get-insert id k port ports))
]

pub IsSound-remove :
    (id : ℕ) (ports : BTreeMap PortState) → IsSound ports → IsSound (remove id ports)
IsSound-remove id ports w k c e = w k c (ground (arith, e, get-remove id k ports))

pub block_recv-IsSound :
    (port_id caller : ℕ) (priority : ThreadPriority) (deadline : Option ℕ) (s : State)
    → IsSound s.ports
    → IsSound (block_recv port_id caller priority deadline s).1.ports
unfolding block_recv wait_on
block_recv-IsSound port_id caller priority deadline s w =
    elim (Option-cases (get port_id s.ports)) [
      | inl e ↦ rw (e, block_recv) w
      | inr (port, e) ↦ elim (Bool-cases (detect_deadlock caller port_id s)) [
        | inl dead ↦ rw (e, block_recv, dead) w
        | inr alive ↦ elim (Bool-cases (is_some port.receiver_blocked)) [
          | inl busy ↦ rw (e, block_recv, alive, busy) w
          | inr free ↦
              let v = w port_id port e in
              rw (e, block_recv, alive, free)
                (IsSound-insert port_id
                  (record port {
                    receiver_blocked = some caller;
                    max_waiter_priority = some (raise port.max_waiter_priority priority);
                  })
                  s.ports (record { own_id = v.own_id; bounded = v.bounded; waited = refl }) w)
        ]
      ]
    ]

pub release-IsPort : (id tid : ℕ) (port : PortState) → IsPort id port → IsPort id (release tid port)
unfolding release
release-IsPort id tid port v = elim (Bool-cases (is_receiver tid port.receiver_blocked)) [
  | inl his ↦ rw his (record { own_id = v.own_id; bounded = v.bounded; waited = refl })
  | inr other ↦ rw other v
]

pub release_ports-IsSound :
    (due : List (ℕ × ℕ)) (ports : BTreeMap PortState)
    → IsSound ports
    → IsSound (release_ports due ports)
unfolding release_ports
release_ports-IsSound [] ports w = w
release_ports-IsSound ((tid, port_id) ∷ due) ports w = elim (Option-cases (get port_id ports)) [
  | inl e ↦ rw (e, release_ports) (release_ports-IsSound due ports w)
  | inr (port, e) ↦
      rw (e, release_ports)
        (release_ports-IsSound due (insert port_id (release tid port) ports) (
          IsSound-insert port_id (release tid port) ports
            (release-IsPort port_id tid port (w port_id port e)) w))
]

pub handle_timeouts-IsSound :
    (now : ℕ) (s : State) → IsSound s.ports → IsSound (handle_timeouts now s).ports
unfolding handle_timeouts
handle_timeouts-IsSound now s w =
    let due = expired now s.waiting_threads in
    elim (Bool-cases (length due == 0)) [
      | inl none_due ↦ rw none_due w
      | inr some_due ↦ rw some_due (release_ports-IsSound due s.ports w)
    ]

pub close_port-IsSound :
    (port_id caller : ℕ) (s : State)
    → IsSound s.ports
    → IsSound (close_port port_id caller s).1.ports
unfolding close_port
close_port-IsSound port_id caller s w = elim (Option-cases (get port_id s.ports)) [
  | inl e ↦ rw (e, close_port) w
  | inr (port, e) ↦ elim (Bool-cases (port.owner == caller)) [
    | inr stranger ↦ rw (e, close_port, stranger) w
    | inl own ↦ rw (e, close_port, own) (IsSound-remove port_id s.ports w)
  ]
]

pub create_port-IsSound :
    (owner : ℕ) (s : State) → IsSound s.ports → IsSound (create_port owner s).1.ports
unfolding create_port new_port
create_port-IsSound owner s w =
    IsSound-insert s.next_port (new_port s.next_port owner) s.ports
      (record { own_id = refl; bounded = omega arith; waited = refl }) w
