-- ===== src/Ipc/Ports/Keeps/Taken.antt =====
-- kernel/src/ipc.rs: `try_recv` and `recv_batch` change no owner and make no thread wait.
use atom.Prelude.{
  ℕ, zero, suc, ◌≡◌, inl, inr, refl, ◌∙◌, min, List, [], ◌∷◌, ◌++◌, Result, ok, err, Option-cases,
}
use atom.Prelude.BTreeMap.{BTreeMap, get}
use atom.SharedMem.{SharedRegion}
use atom.Ipc.Message.{Message}
use atom.Ipc.Trace.{IpcTraceBuffer}
use atom.Ipc.Ports.{State, PortState, IpcError, current_time_ms, max_batch_size}
use atom.Ipc.Ports.Send.{validate_payload_and_size}
use atom.Ipc.Ports.Receive.{try_recv, recv_batch, pop, pop_many, deliver}
use atom.Ipc.Ports.Sound.Taken.{answer-cases}
use atom.Ipc.Ports.Keeps.{Keeps, Keeps-put, unchanged}

module _ (regions : BTreeMap SharedRegion) (now port_id caller : ℕ) where
  owner-deliver :
      (message : Message) (size : Result ℕ IpcError) (st : PortState × IpcTraceBuffer)
      → st.0.owner ≡ (deliver now port_id caller message size st).1.0.owner
  unfolding deliver
  owner-deliver message (err e) st = refl
  owner-deliver message (ok size) (port, trace) = refl

  owner-pop :
      (messages : List Message) (st : PortState × IpcTraceBuffer)
      → st.0.owner ≡ (pop regions now port_id caller messages st).1.0.owner
  unfolding pop
  owner-pop [] st = refl
  owner-pop (message ∷ messages) (port, trace) =
      owner-deliver message (validate_payload_and_size regions message)
        (record port { messages = messages }, trace)

  owner-pop_many :
      (n : ℕ) (messages : List Message) (st : PortState × IpcTraceBuffer)
      → st.0.owner ≡ (pop_many regions now port_id caller n messages st).1.0.owner
  unfolding pop_many
  owner-pop_many zero messages st = refl
  owner-pop_many (suc n) messages st =
      let next = pop regions now port_id caller st.0.messages st in
      let kept = owner-pop st.0.messages st in
      elim (answer-cases next.0) [
        | inl (e, f) ↦ rw (f, pop_many) kept
        | inr (inl f) ↦ rw (f, pop_many) kept
        | inr (inr (message, f)) ↦
            rw (f, pop_many) (kept ∙ owner-pop_many n (messages ++ message ∷ []) next.1)
      ]

pub try_recv-Keeps : (port_id caller : ℕ) (s : State) → Keeps s (try_recv port_id caller s).1
unfolding try_recv
try_recv-Keeps port_id caller s = elim (Option-cases (get port_id s.ports)) [
  | inl e ↦ rw (e, try_recv) (unchanged s)
  | inr (port, e) ↦
      let st = pop s.regions (current_time_ms s) port_id caller port.messages (port, s.trace) in
      rw (e, try_recv)
        (Keeps-put port_id port st.1.0 st.1.1 s e
          (owner-pop s.regions (current_time_ms s) port_id caller port.messages (port, s.trace)))
]

pub recv_batch-Keeps :
    (port_id caller max_count : ℕ) (s : State) → Keeps s (recv_batch port_id caller max_count s).1
unfolding recv_batch
recv_batch-Keeps port_id caller max_count s = elim (Option-cases (get port_id s.ports)) [
  | inl e ↦ rw (e, recv_batch) (unchanged s)
  | inr (port, e) ↦
      let n = min max_count max_batch_size in
      let now = current_time_ms s in
      let st = pop_many s.regions now port_id caller n [] (port, s.trace) in
      rw (e, recv_batch)
        (Keeps-put port_id port st.1.0 st.1.1 s e
          (owner-pop_many s.regions now port_id caller n [] (port, s.trace)))
]
