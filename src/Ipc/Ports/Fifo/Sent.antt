-- ===== src/Ipc/Ports/Fifo/Sent.antt =====
-- kernel/src/ipc.rs: what `send` and `send_batch` put into a queue.
use mathlib.Core.List.{append-nil, append_assoc}
use atom.Prelude.{
  ℕ, ◌+◌, ◌≡◌, inl, inr, refl, sym, ap, ◌∙◌, subst, List, [], ◌∷◌, ◌++◌, map, Option, none, some,
  false, ◌==◌, ltb, leb, Result, ok, err, arith, length, All, Bool-cases, Option-cases,
}
use atom.Prelude.BTreeMap.{BTreeMap, get}
use atom.SharedMem.{SharedRegion}
use atom.Ipc.Message.{Message}
use atom.Ipc.Trace.{IpcTraceBuffer}
use atom.Ipc.Ports.{
  State, PortState, IpcError, put, current_time_ms, max_queue_depth, max_batch_size,
}
use atom.Ipc.Ports.Send.{
  send, send_sized, send_batch, send_prepared, enqueue, enqueue_all, stamp, wake, prepare, prepared,
  validate_payload_and_size,
}
use atom.Ipc.Ports.Fifo.{
  one_accepted, all_accepted, IsValid, IsDeliverable, validate-stamp, All-append, queue-get, Moves,
  stays, replaced,
}

send_sized-Moves :
    (q : ℕ) (message : Message) (port : PortState) (size : Result ℕ IpcError) (s : State)
    → get q s.ports ≡ some port
    → validate_payload_and_size s.regions message ≡ size
    → IsDeliverable s
    → let answer = send_sized q message port size s in
      Moves q s answer.1 (one_accepted answer.0 (stamp (current_time_ms s) message)) []
unfolding send_sized one_accepted put enqueue
send_sized-Moves q message port (err e) s found valid v = stays q s v
send_sized-Moves q message port (ok size) s found valid v =
    let now = current_time_ms s in
    elim (Bool-cases (leb max_queue_depth (length port.messages))) [
      | inl full ↦ rw full (stays q s v)
      | inr room ↦ rw room (
          replaced q port (enqueue q size (stamp now message) (port, s.trace)).0
            (stamp now message ∷ []) [] s
            (put q (enqueue q size (stamp now message) (port, s.trace)).0
              (enqueue q size (stamp now message) (port, s.trace)).1 s)
            found refl refl refl
            (All-append (IsValid s.regions) port.messages (stamp now message ∷ [])
              (subst (All (IsValid s.regions)) (queue-get q port s.ports found) (v q))
              ((size, validate-stamp s.regions now message ∙ valid), tt))
            v)
    ]

pub send-Moves :
    (q : ℕ) (message : Message) (s : State)
    → IsDeliverable s
    → Moves q s
        (send q message s).1
        (one_accepted (send q message s).0 (stamp (current_time_ms s) message))
        []
unfolding send one_accepted
send-Moves q message s v = elim (Option-cases (get q s.ports)) [
  | inl e ↦ rw (e, send, one_accepted) (stays q s v)
  | inr (port, e) ↦
      rw (e, send)
        (send_sized-Moves q message port (validate_payload_and_size s.regions message) s e refl v)
]

-- The messages of a prepared batch.
messages_of : List (Message × ℕ) → List Message
messages_of [] = []
messages_of ((message, size) ∷ rest) = message ∷ messages_of rest

prepare-stamp :
    (regions : BTreeMap SharedRegion) (now : ℕ) (messages : List Message) (ps : List (Message × ℕ))
    → prepare regions now messages ≡ ok ps
    → (messages_of ps ≡ map (stamp now) messages) × All (IsValid regions) (messages_of ps)
unfolding prepare messages_of prepared
prepare-stamp regions now [] ps e =
    let none_left : [] ≡ ps = cc in
    subst
      (λ (xs : List (Message × ℕ)). (messages_of xs ≡ []) × All (IsValid regions) (messages_of xs))
      none_left (refl, tt)
prepare-stamp regions now (message ∷ messages) ps e =
    go (validate_payload_and_size regions message) (prepare regions now messages) refl
      (prepare-stamp regions now messages) e
  where
    go :
        (size : Result ℕ IpcError) (rest : Result (List (Message × ℕ)) IpcError)
        → validate_payload_and_size regions message ≡ size
        → ((qs : List (Message × ℕ))
            → rest ≡ ok qs
            → (messages_of qs ≡ map (stamp now) messages) × All (IsValid regions) (messages_of qs))
        → prepared (stamp now message) size rest ≡ ok ps
        → (messages_of ps ≡ map (stamp now) (message ∷ messages))
          × All (IsValid regions) (messages_of ps)
    go (err e) rest valid ih f = absurd (cc f)
    go (ok size) (err e) valid ih f = absurd (cc f)
    go (ok size) (ok qs) valid ih f =
        let (same, all) = ih qs refl in
        let split : (stamp now message, size) ∷ qs ≡ ps = cc in
        subst
          (λ (xs : List (Message × ℕ)).
            (messages_of xs ≡ map (stamp now) (message ∷ messages))
            × All (IsValid regions) (messages_of xs))
          split
          (
            ap (◌∷◌ (stamp now message)) same,
            ((size, validate-stamp regions now message ∙ valid), all),
          )

messages-enqueue_all :
    (q : ℕ) (ps : List (Message × ℕ)) (st : PortState × IpcTraceBuffer)
    → (enqueue_all q ps st).0.messages ≡ st.0.messages ++ messages_of ps
unfolding enqueue_all enqueue messages_of
messages-enqueue_all q [] st = sym (append-nil st.0.messages)
messages-enqueue_all q ((message, size) ∷ ps) (port, trace) =
    messages-enqueue_all q ps (enqueue q size message (port, trace))
    ∙ append_assoc port.messages (message ∷ []) (messages_of ps)

All-IsValid :
    (q : ℕ) (port port' : PortState) (acc : List Message) (s : State)
    → get q s.ports ≡ some port
    → port'.messages ≡ port.messages ++ acc
    → All (IsValid s.regions) acc
    → IsDeliverable s
    → All (IsValid s.regions) port'.messages
All-IsValid q port port' acc s e longer valid v = subst (All (IsValid s.regions)) (sym longer) (
    All-append (IsValid s.regions) port.messages acc
      (subst (All (IsValid s.regions)) (queue-get q port s.ports e) (v q)) valid)

wake-Moves :
    (q : ℕ) (port port' : PortState) (trace : IpcTraceBuffer) (receiver : Option ℕ)
    (acc : List Message) (s : State)
    → get q s.ports ≡ some port
    → port'.messages ≡ port.messages ++ acc
    → All (IsValid s.regions) acc
    → IsDeliverable s
    → Moves q s (wake q port' trace receiver s) acc []
unfolding wake put
wake-Moves q port port' trace none acc s e longer valid v =
    replaced q port port' acc [] s (put q port' trace s) e refl refl (sym longer)
      (All-IsValid q port port' acc s e longer valid v) v
wake-Moves q port port' trace (some receiver) acc s e longer valid v =
    replaced q port (record port' { receiver_blocked = none; max_waiter_priority = none }) acc [] s
      (wake q port' trace (some receiver) s) e refl refl (sym longer)
      (All-IsValid q port port' acc s e longer valid v) v

send_prepared-Moves :
    (q : ℕ) (port : PortState) (messages : List Message) (ps : Result (List (Message × ℕ)) IpcError)
    (s : State)
    → get q s.ports ≡ some port
    → prepare s.regions (current_time_ms s) messages ≡ ps
    → IsDeliverable s
    → let answer = send_prepared q port ps s in
      Moves q s answer.1 (all_accepted answer.0 (map (stamp (current_time_ms s)) messages)) []
unfolding send_prepared all_accepted
send_prepared-Moves q port messages (err e) s found made v = stays q s v
send_prepared-Moves q port messages (ok ps) s found made v =
    let now = current_time_ms s in
    let st = enqueue_all q ps (port, s.trace) in
    let (same, valid) = prepare-stamp s.regions now messages ps made in
    elim (Bool-cases (ltb max_queue_depth (length port.messages + length ps))) [
      | inl full ↦ rw full (stays q s v)
      | inr room ↦ rw room (
          wake-Moves q port st.0 st.1 st.0.receiver_blocked (map (stamp now) messages) s found
            (messages-enqueue_all q ps (port, s.trace) ∙ ap (◌++◌ port.messages) same)
            (subst (All (IsValid s.regions)) same valid) v)
    ]

pub send_batch-Moves :
    (q : ℕ) (messages : List Message) (s : State)
    → IsDeliverable s
    → Moves q s
        (send_batch q messages s).1
        (all_accepted (send_batch q messages s).0 (map (stamp (current_time_ms s)) messages))
        []
unfolding send_batch all_accepted
send_batch-Moves q [] s v = stays q s v
send_batch-Moves q (message ∷ messages) s v =
    let filled : (length (message ∷ messages) == 0) ≡ false = ground arith in
    elim (Bool-cases (ltb max_batch_size (length (message ∷ messages)))) [
      | inl large ↦ rw (filled, large) (stays q s v)
      | inr small ↦ elim (Option-cases (get q s.ports)) [
        | inl e ↦ rw (filled, small, e, send_batch, all_accepted) (stays q s v)
        | inr (port, e) ↦
            rw (filled, small, e, send_batch)
              (send_prepared-Moves q port (message ∷ messages)
                (prepare s.regions (current_time_ms s) (message ∷ messages)) s e refl v)
      ]
    ]
