-- ===== src/Ipc/Ports/Fifo/Taken.antt =====
-- kernel/src/ipc.rs: what `try_recv` and `recv_batch` take from a queue.
use mathlib.Core.List.{append-nil, append_assoc}
use atom.Prelude.{
  ℕ, zero, suc, ◌≡◌, ◌⊎◌, inl, inr, refl, sym, ap, ◌∙◌, subst, min, List, [], ◌∷◌, ◌++◌, Option,
  none, some, Result, ok, All, Option-cases,
}
use atom.Prelude.BTreeMap.{BTreeMap, get}
use atom.SharedMem.{SharedRegion}
use atom.Ipc.Message.{Message}
use atom.Ipc.Trace.{IpcTraceBuffer}
use atom.Ipc.Ports.{State, PortState, IpcError, put, current_time_ms, max_batch_size}
use atom.Ipc.Ports.Receive.{try_recv, recv_batch, pop, pop_many, deliver}
use atom.Ipc.Ports.Fifo.{
  one_received, all_received, IsValid, IsDeliverable, queue-get, Moves, stays, replaced,
}

module _ (regions : BTreeMap SharedRegion) (now q caller : ℕ) where
  -- From a queue whose messages can be delivered the first is taken, if there is one.
  pop-cases :
      (messages : List Message) (st : PortState × IpcTraceBuffer)
      → st.0.messages ≡ messages
      → All (IsValid regions) messages
      → let answer = pop regions now q caller messages st in
        ((answer.0 ≡ ok none) × (messages ≡ []) × (answer.1.0.messages ≡ []))
        ⊎ ((message : Message) × (answer.0 ≡ ok (some message))
            × (messages ≡ message ∷ answer.1.0.messages)
            × All (IsValid regions) answer.1.0.messages)
  unfolding pop deliver
  pop-cases [] st e valid = inl (refl, refl, e)
  pop-cases (message ∷ messages) (port, trace) e ((size, valid), rest) =
      inr (message, rw (valid, deliver) refl, rw (valid, deliver) refl, rw (valid, deliver) rest)

  pop-Moves :
      (messages : List Message) (st : PortState × IpcTraceBuffer)
      → st.0.messages ≡ messages
      → All (IsValid regions) messages
      → let answer = pop regions now q caller messages st in
        (messages ++ [] ≡ one_received answer.0 ++ answer.1.0.messages)
        × All (IsValid regions) answer.1.0.messages
  unfolding one_received
  pop-Moves messages st e valid =
      let left = (pop regions now q caller messages st).1.0.messages in
      elim (pop-cases messages st e valid) [
        | inl (none_taken, empty, none_left) ↦ (
          append-nil messages
              ∙ empty
              ∙ sym none_left
              ∙ ap (λ (a : Result (Option Message) IpcError). one_received a ++ left)
                  (sym none_taken),
          subst (All (IsValid regions)) (sym none_left) tt,
        )
        | inr (message, taken, split, rest) ↦ (
          append-nil messages
              ∙ split
              ∙ ap (λ (a : Result (Option Message) IpcError). one_received a ++ left) (sym taken),
          rest,
        )
      ]

  -- `recv_batch` on such a queue fails never: what it answers and what is left are the queue.
  pop_many-Moves :
      (n : ℕ) (acc : List Message) (st : PortState × IpcTraceBuffer)
      → All (IsValid regions) st.0.messages
      → let answer = pop_many regions now q caller n acc st in
        (acc ++ st.0.messages ≡ all_received answer.0 ++ answer.1.0.messages)
        × All (IsValid regions) answer.1.0.messages
  unfolding pop_many all_received
  pop_many-Moves zero acc st valid = (refl, valid)
  pop_many-Moves (suc n) acc st valid =
      let st' = (pop regions now q caller st.0.messages st).1 in
      elim (pop-cases st.0.messages st refl valid) [
        | inl (none_taken, empty, none_left) ↦
            rw (none_taken, pop_many)
              (
                ap (◌++◌ acc) (empty ∙ sym none_left),
                subst (All (IsValid regions)) (sym none_left) tt,
              )
        | inr (message, taken, split, rest) ↦
            let (same, valid') = pop_many-Moves n (acc ++ message ∷ []) st' rest in
            rw (taken, pop_many)
              (
                ap (◌++◌ acc) split ∙ sym (append_assoc acc (message ∷ []) st'.0.messages) ∙ same,
                valid',
              )
      ]

pub try_recv-Moves :
    (q caller : ℕ) (s : State)
    → IsDeliverable s
    → Moves q s (try_recv q caller s).1 [] (one_received (try_recv q caller s).0)
unfolding try_recv one_received put
try_recv-Moves q caller s v = elim (Option-cases (get q s.ports)) [
  | inl e ↦ rw (e, try_recv, one_received) (stays q s v)
  | inr (port, e) ↦
      let now = current_time_ms s in
      let answer = pop s.regions now q caller port.messages (port, s.trace) in
      let (same, valid) =
        pop-Moves s.regions now q caller port.messages (port, s.trace) refl
          (subst (All (IsValid s.regions)) (queue-get q port s.ports e) (v q)) in
      rw (e, try_recv)
        (replaced q port answer.1.0 [] (one_received answer.0) s (put q answer.1.0 answer.1.1 s) e
          refl refl same valid v)
]

pub recv_batch-Moves :
    (q caller max_count : ℕ) (s : State)
    → IsDeliverable s
    → Moves q s
        (recv_batch q caller max_count s).1
        []
        (all_received (recv_batch q caller max_count s).0)
unfolding recv_batch all_received put
recv_batch-Moves q caller max_count s v = elim (Option-cases (get q s.ports)) [
  | inl e ↦ rw (e, recv_batch, all_received) (stays q s v)
  | inr (port, e) ↦
      let now = current_time_ms s in
      let n = min max_count max_batch_size in
      let answer = pop_many s.regions now q caller n [] (port, s.trace) in
      let (same, valid) =
        pop_many-Moves s.regions now q caller n [] (port, s.trace)
          (subst (All (IsValid s.regions)) (queue-get q port s.ports e) (v q)) in
      rw (e, recv_batch)
        (replaced q port answer.1.0 [] (all_received answer.0) s (put q answer.1.0 answer.1.1 s) e
          refl refl (append-nil port.messages ∙ same) valid v)
]
