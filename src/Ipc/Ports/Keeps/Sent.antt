-- ===== src/Ipc/Ports/Keeps/Sent.antt =====
-- kernel/src/ipc.rs: `send` and `send_batch` change no owner and make no thread wait.
use atom.Prelude.{
  ℕ, ◌+◌, ◌≡◌, inl, inr, refl, List, [], ◌∷◌, Option, none, some, ◌==◌, ltb, leb, Result, ok, err,
  length, Bool-cases, Option-cases,
}
use atom.Prelude.BTreeMap.{get}
use atom.Ipc.Message.{Message}
use atom.Ipc.Trace.{IpcTraceBuffer}
use atom.Ipc.Ports.{
  State, PortState, IpcError, put, current_time_ms, max_queue_depth, max_batch_size,
}
use atom.Ipc.Ports.Send.{
  send, send_sized, send_batch, send_prepared, enqueue, enqueue_all, stamp, wake, prepare,
  validate_payload_and_size,
}
use atom.Ipc.Ports.Keeps.{Keeps, Keeps-put, Owners-insert, Waits-remove, unchanged}

pub owner-enqueue_all :
    (port_id : ℕ) (messages : List (Message × ℕ)) (st : PortState × IpcTraceBuffer)
    → st.0.owner ≡ (enqueue_all port_id messages st).0.owner
unfolding enqueue_all enqueue
owner-enqueue_all port_id [] st = refl
owner-enqueue_all port_id ((message, size) ∷ messages) (port, trace) =
    owner-enqueue_all port_id messages (enqueue port_id size message (port, trace))

pub send_sized-Keeps :
    (port_id : ℕ) (message : Message) (port : PortState) (size : Result ℕ IpcError) (s : State)
    → get port_id s.ports ≡ some port
    → Keeps s (send_sized port_id message port size s).1
unfolding send_sized enqueue
send_sized-Keeps port_id message port (err e) s f = unchanged s
send_sized-Keeps port_id message port (ok size) s f =
    let st = enqueue port_id size (stamp (current_time_ms s) message) (port, s.trace) in
    elim (Bool-cases (leb max_queue_depth (length port.messages))) [
      | inl full ↦ rw full (unchanged s)
      | inr room ↦ rw room (Keeps-put port_id port st.0 st.1 s f refl)
    ]

pub send-Keeps : (port_id : ℕ) (message : Message) (s : State) → Keeps s (send port_id message s).1
unfolding send
send-Keeps port_id message s = elim (Option-cases (get port_id s.ports)) [
  | inl e ↦ rw (e, send) (unchanged s)
  | inr (port, e) ↦
      rw (e, send)
        (send_sized-Keeps port_id message port (validate_payload_and_size s.regions message) s e)
]

pub wake-Keeps :
    (port_id : ℕ) (port port' : PortState) (trace : IpcTraceBuffer) (receiver : Option ℕ)
    (s : State)
    → get port_id s.ports ≡ some port
    → port.owner ≡ port'.owner
    → Keeps s (wake port_id port' trace receiver s)
unfolding wake put
wake-Keeps port_id port port' trace none s e own = Keeps-put port_id port port' trace s e own
wake-Keeps port_id port port' trace (some receiver) s e own = record {
  owners =
      Owners-insert port_id port
        (record port' { receiver_blocked = none; max_waiter_priority = none }) s.ports e own;
  waits = Waits-remove receiver s.waiting_threads;
  next = refl;
}

pub send_prepared-Keeps :
    (port_id : ℕ) (port : PortState) (messages : Result (List (Message × ℕ)) IpcError) (s : State)
    → get port_id s.ports ≡ some port
    → Keeps s (send_prepared port_id port messages s).1
unfolding send_prepared
send_prepared-Keeps port_id port (err e) s f = unchanged s
send_prepared-Keeps port_id port (ok messages) s f =
    let st = enqueue_all port_id messages (port, s.trace) in
    elim (Bool-cases (ltb max_queue_depth (length port.messages + length messages))) [
      | inl full ↦ rw full (unchanged s)
      | inr room ↦ rw room (
          wake-Keeps port_id port st.0 st.1 st.0.receiver_blocked s f
            (owner-enqueue_all port_id messages (port, s.trace)))
    ]

pub send_batch-Keeps :
    (port_id : ℕ) (messages : List Message) (s : State) → Keeps s (send_batch port_id messages s).1
unfolding send_batch
send_batch-Keeps port_id messages s = elim (Bool-cases (length messages == 0)) [
  | inl empty ↦ rw empty (unchanged s)
  | inr filled ↦ elim (Bool-cases (ltb max_batch_size (length messages))) [
    | inl large ↦ rw (filled, large) (unchanged s)
    | inr small ↦ elim (Option-cases (get port_id s.ports)) [
      | inl e ↦ rw (filled, small, e) (unchanged s)
      | inr (port, e) ↦
          rw (filled, small, e)
            (send_prepared-Keeps port_id port (prepare s.regions (current_time_ms s) messages) s e)
    ]
  ]
]
