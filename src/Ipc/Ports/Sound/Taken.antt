-- ===== src/Ipc/Ports/Sound/Taken.antt =====
-- kernel/src/ipc.rs: `try_recv` and `recv_batch` keep what holds of every port.
use atom.Prelude.{
  ℕ, zero, suc, ◌≤◌, ◌≡◌, refl, ◌⊎◌, inl, inr, List, [], ◌∷◌, ◌++◌, Option, none, some, Result, ok,
  err, arith, length, min, Option-cases,
}
use atom.Prelude.BTreeMap.{BTreeMap, get}
use atom.SharedMem.{SharedRegion}
use atom.Ipc.Message.{Message}
use atom.Ipc.Trace.{IpcTraceBuffer}
use atom.Ipc.Ports.{State, PortState, IpcError, put, current_time_ms, max_batch_size}
use atom.Ipc.Ports.Send.{validate_payload_and_size}
use atom.Ipc.Ports.Receive.{try_recv, recv_batch, pop, pop_many, deliver}
use atom.Ipc.Ports.Sound.{IsPort, IsSound, IsSound-insert}

pub answer-cases :
    (answer : Result (Option Message) IpcError)
    → ((e : IpcError) × (answer ≡ err e))
      ⊎ ((answer ≡ ok none) ⊎ ((message : Message) × (answer ≡ ok (some message))))
answer-cases (err e) = inl (e, refl)
answer-cases (ok none) = inr (inl refl)
answer-cases (ok (some message)) = inr (inr (message, refl))

module _ (regions : BTreeMap SharedRegion) (now port_id caller : ℕ) where
  deliver-IsPort :
      (id : ℕ) (message : Message) (size : Result ℕ IpcError) (st : PortState × IpcTraceBuffer)
      → IsPort id st.0
      → IsPort id (deliver now port_id caller message size st).1.0
  unfolding deliver
  deliver-IsPort id message (err e) st v = v
  deliver-IsPort id message (ok size) (port, trace) v = record {
    own_id = v.own_id;
    bounded = v.bounded;
    waited = v.waited;
  }

  pop-IsPort :
      (id : ℕ) (messages : List Message) (st : PortState × IpcTraceBuffer)
      → length messages ≤ 64
      → IsPort id st.0
      → IsPort id (pop regions now port_id caller messages st).1.0
  unfolding pop
  pop-IsPort id [] st h v = v
  pop-IsPort id (message ∷ messages) (port, trace) h v =
      deliver-IsPort id message (validate_payload_and_size regions message)
        (record port { messages = messages }, trace)
        (record { own_id = v.own_id; bounded = omega arith; waited = v.waited })

  pop_many-IsPort :
      (id n : ℕ) (messages : List Message) (st : PortState × IpcTraceBuffer)
      → IsPort id st.0
      → IsPort id (pop_many regions now port_id caller n messages st).1.0
  unfolding pop_many
  pop_many-IsPort id zero messages st v = v
  pop_many-IsPort id (suc n) messages st v =
      let next = pop regions now port_id caller st.0.messages st in
      let kept = pop-IsPort id st.0.messages st v.bounded v in
      elim (answer-cases next.0) [
        | inl (e, f) ↦ rw (f, pop_many) kept
        | inr (inl f) ↦ rw (f, pop_many) kept
        | inr (inr (message, f)) ↦
            rw (f, pop_many) (pop_many-IsPort id n (messages ++ message ∷ []) next.1 kept)
      ]

pub try_recv-IsSound :
    (port_id caller : ℕ) (s : State) → IsSound s.ports → IsSound (try_recv port_id caller s).1.ports
unfolding try_recv put
try_recv-IsSound port_id caller s w = elim (Option-cases (get port_id s.ports)) [
  | inl e ↦ rw (e, try_recv) w
  | inr (port, e) ↦
      let v = w port_id port e in
      rw (e, try_recv)
        (IsSound-insert port_id
          (pop s.regions (current_time_ms s) port_id caller port.messages (port, s.trace)).1.0
          s.ports
          (pop-IsPort s.regions (current_time_ms s) port_id caller port_id port.messages
            (port, s.trace) v.bounded v)
          w)
]

pub recv_batch-IsSound :
    (port_id caller max_count : ℕ) (s : State)
    → IsSound s.ports
    → IsSound (recv_batch port_id caller max_count s).1.ports
unfolding recv_batch put
recv_batch-IsSound port_id caller max_count s w = elim (Option-cases (get port_id s.ports)) [
  | inl e ↦ rw (e, recv_batch) w
  | inr (port, e) ↦
      let n = min max_count max_batch_size in
      let now = current_time_ms s in
      rw (e, recv_batch)
        (IsSound-insert port_id (pop_many s.regions now port_id caller n [] (port, s.trace)).1.0
          s.ports
          (pop_many-IsPort s.regions now port_id caller port_id n [] (port, s.trace)
            (w port_id port e))
          w)
]
