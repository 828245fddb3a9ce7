-- ===== src/Ipc/Ports/Sound/Sent.antt =====
-- kernel/src/ipc.rs: `send` and `send_batch` keep what holds of every port.
use atom.Prelude.{
  ℕ, ◌+◌, ◌≤◌, refl, inl, inr, List, [], ◌∷◌, Option, none, some, ◌==◌, ltb, leb, Result, ok, err,
  arith, length, length-append, Bool-cases, Option-cases,
}
use atom.Prelude.BTreeMap.{get}
use atom.Ipc.Message.{Message}
use atom.Ipc.Trace.{IpcTraceBuffer}
use atom.Ipc.Ports.{
  State, PortState, IpcError, put, max_queue_depth, current_time_ms, max_batch_size,
}
use atom.Ipc.Ports.Send.{
  send, send_sized, send_batch, send_prepared, enqueue, enqueue_all, stamp, wake, prepare,
  validate_payload_and_size,
}
use atom.Ipc.Ports.Sound.{IsPort, IsSound, IsSound-insert}

pub enqueue_all-IsPort :
    (id port_id : ℕ) (messages : List (Message × ℕ)) (st : PortState × IpcTraceBuffer)
    → length st.0.messages + length messages ≤ 64
    → IsPort id st.0
    → IsPort id (enqueue_all port_id messages st).0
unfolding enqueue_all enqueue
enqueue_all-IsPort id port_id [] st room v = v
enqueue_all-IsPort id port_id ((message, size) ∷ messages) (port, trace) room v =
    enqueue_all-IsPort id port_id messages (enqueue port_id size message (port, trace))
      (omega (arith, length-append port.messages (message ∷ [])))
      (record {
        own_id = v.own_id;
        bounded = omega (arith, length-append port.messages (message ∷ []));
        waited = v.waited;
      })

pub send_sized-IsSound :
    (port_id : ℕ) (message : Message) (port : PortState) (size : Result ℕ IpcError) (s : State)
    → IsPort port_id port
    → IsSound s.ports
    → IsSound (send_sized port_id message port size s).1.ports
unfolding send_sized put enqueue enqueue_all
send_sized-IsSound port_id message port (err e) s v w = w
send_sized-IsSound port_id message port (ok size) s v w =
    let stamped = stamp (current_time_ms s) message in
    elim (Bool-cases (leb max_queue_depth (length port.messages))) [
      | inl full ↦ rw full w
      | inr room ↦ rw room (
          IsSound-insert port_id (enqueue port_id size stamped (port, s.trace)).0 s.ports
            (enqueue_all-IsPort port_id port_id ((stamped, size) ∷ []) (port, s.trace)
              (ground (arith, room)) v)
            w)
    ]

pub send-IsSound :
    (port_id : ℕ) (message : Message) (s : State)
    → IsSound s.ports
    → IsSound (send port_id message s).1.ports
unfolding send
send-IsSound port_id message s w = elim (Option-cases (get port_id s.ports)) [
  | inl e ↦ rw (e, send) w
  | inr (port, e) ↦
      rw (e, send)
        (send_sized-IsSound port_id message port (validate_payload_and_size s.regions message) s
          (w port_id port e) w)
]

pub wake-IsSound :
    (port_id : ℕ) (port : PortState) (trace : IpcTraceBuffer) (receiver : Option ℕ) (s : State)
    → IsPort port_id port
    → IsSound s.ports
    → IsSound (wake port_id port trace receiver s).ports
unfolding wake put
wake-IsSound port_id port trace none s v w = IsSound-insert port_id port s.ports v w
wake-IsSound port_id port trace (some receiver) s v w =
    IsSound-insert port_id (record port { receiver_blocked = none; max_waiter_priority = none })
      s.ports (record { own_id = v.own_id; bounded = v.bounded; waited = refl }) w

pub send_prepared-IsSound :
    (port_id : ℕ) (port : PortState) (messages : Result (List (Message × ℕ)) IpcError) (s : State)
    → IsPort port_id port
    → IsSound s.ports
    → IsSound (send_prepared port_id port messages s).1.ports
unfolding send_prepared
send_prepared-IsSound port_id port (err e) s v w = w
send_prepared-IsSound port_id port (ok messages) s v w =
    let st = enqueue_all port_id messages (port, s.trace) in
    elim (Bool-cases (ltb max_queue_depth (length port.messages + length messages))) [
      | inl full ↦ rw full w
      | inr room ↦ rw room (
          wake-IsSound port_id st.0 st.1 st.0.receiver_blocked s
            (enqueue_all-IsPort port_id port_id messages (port, s.trace) (ground (arith, room)) v)
            w)
    ]

pub send_batch-IsSound :
    (port_id : ℕ) (messages : List Message) (s : State)
    → IsSound s.ports
    → IsSound (send_batch port_id messages s).1.ports
unfolding send_batch
send_batch-IsSound port_id messages s w = elim (Bool-cases (length messages == 0)) [
  | inl empty ↦ rw empty w
  | inr filled ↦ elim (Bool-cases (ltb max_batch_size (length messages))) [
    | inl large ↦ rw (filled, large) w
    | inr small ↦ elim (Option-cases (get port_id s.ports)) [
      | inl e ↦ rw (filled, small, e) w
      | inr (port, e) ↦
          rw (filled, small, e)
            (send_prepared-IsSound port_id port (prepare s.regions (current_time_ms s) messages) s
              (w port_id port e) w)
    ]
  ]
]
