-- ===== src/Ipc/Ports/Acyclic/Always.antt =====
-- kernel/src/ipc.rs: no thread waits for itself, over any sequence of operations.
use atom.Prelude.{
  ℕ, ◌+◌, ◌^◌, ◌≤◌, ◌<◌, ◌≡◌, inl, inr, refl, subst, List, [], ◌∷◌, Option, some, ◌==◌, is_some,
  arith, length, Bool-cases, Option-cases,
}
use atom.Prelude.BTreeMap.{get, insert, get-insert}
use atom.Thread.{ThreadPriority}
use atom.Ipc.Ports.{State, PortState, WaiterInfo, create_port}
use atom.Ipc.Ports.Wait.{block_recv, wait_on, detect_deadlock, raise}
use atom.Ipc.Ports.Deadlock.{detect_deadlock_iff}
use atom.Ipc.Ports.Keeps.{Owners-insert, Keeps, close_port-Keeps, handle_timeouts-Keeps}
use atom.Ipc.Ports.Run.{
  Op, step, run, creates, closes, sends, sends_batch, receives, receives_batch, blocks, ticks,
}
use atom.Ipc.Ports.Acyclic.{IsSafe, IsSafe-Keeps, create_port-IsSafe}
use atom.Ipc.Ports.Acyclic.Edge.{acyclic-edge}
use atom.Ipc.Ports.Keeps.Sent.{send-Keeps, send_batch-Keeps}
use atom.Ipc.Ports.Keeps.Taken.{try_recv-Keeps, recv_batch-Keeps}

pub block_recv-IsSafe :
    (port_id caller : ℕ) (priority : ThreadPriority) (deadline : Option ℕ) (s : State)
    → IsSafe s
    → IsSafe (block_recv port_id caller priority deadline s).1
unfolding block_recv wait_on
block_recv-IsSafe port_id caller priority deadline s v = elim (Option-cases (get port_id s.ports)) [
  | inl e ↦ rw (e, block_recv) v
  | inr (port, e) ↦ elim (Bool-cases (detect_deadlock caller port_id s)) [
    | inl dead ↦ rw (e, block_recv, dead) v
    | inr alive ↦ elim (Bool-cases (is_some port.receiver_blocked)) [
      | inl busy ↦ rw (e, block_recv, alive, busy) v
      | inr free ↦
          let edge : WaiterInfo = record { port = port_id; deadline = deadline } in
          let port' : PortState = record port {
            receiver_blocked = some caller;
            max_waiter_priority = some (raise port.max_waiter_priority priority);
          } in
          rw (e, block_recv, alive, free)
            (IsSafe-Keeps (record s { waiting_threads = insert caller edge s.waiting_threads }) _
              (record {
                owners = Owners-insert port_id port port' s.ports e refl;
                waits = λ t info f. f;
                next = refl;
              })
              (record {
                acyclic =
                    acyclic-edge s.waiting_threads s.ports caller edge v.acyclic
                      (λ n l. absurd (cc (alive, (detect_deadlock_iff caller port_id s).1 (n, l))));
                known = v.known;
                awaited = λ t info f. elim (Bool-cases (caller == t)) [
                  | inl his ↦
                      let same : edge ≡ info =
                        ground (arith, f, his, get-insert caller t edge s.waiting_threads) in
                      subst (λ (x : WaiterInfo). x.port < s.next_port) same (v.known port_id port e)
                  | inr other ↦
                      v.awaited t info
                        (ground (arith, f, other, get-insert caller t edge s.waiting_threads))
                ];
              }))
    ]
  ]
]

pub next_port-block_recv :
    (port_id caller : ℕ) (priority : ThreadPriority) (deadline : Option ℕ) (s : State)
    → (block_recv port_id caller priority deadline s).1.next_port ≡ s.next_port
unfolding block_recv wait_on
next_port-block_recv port_id caller priority deadline s = ground arith

pub kept : (s s' : State) → IsSafe s → Keeps s s' → IsSafe s' × (s'.next_port ≤ s.next_port + 1)
kept s s' v k = (IsSafe-Keeps s s' k v, omega (arith, k.next))

pub step-IsSafe :
    (op : Op) (s : State)
    → s.next_port + 1 < 2 ^ 64
    → IsSafe s
    → IsSafe (step op s) × ((step op s).next_port ≤ s.next_port + 1)
unfolding step create_port
step-IsSafe (creates owner) s room v = (create_port-IsSafe owner s room v, omega arith)
step-IsSafe (closes port_id caller) s room v = kept s _ v (close_port-Keeps port_id caller s)
step-IsSafe (sends port_id message) s room v = kept s _ v (send-Keeps port_id message s)
step-IsSafe (sends_batch port_id messages) s room v =
    kept s _ v (send_batch-Keeps port_id messages s)
step-IsSafe (receives port_id caller) s room v = kept s _ v (try_recv-Keeps port_id caller s)
step-IsSafe (receives_batch port_id caller max_count) s room v =
    kept s _ v (recv_batch-Keeps port_id caller max_count s)
step-IsSafe (blocks port_id caller priority deadline) s room v = (
  block_recv-IsSafe port_id caller priority deadline s v,
  omega (arith, next_port-block_recv port_id caller priority deadline s),
)
step-IsSafe (ticks now) s room v =
    let k = handle_timeouts-Keeps now (record s { ticks = now }) in
    kept s _ v (record { owners = k.owners; waits = k.waits; next = k.next })

-- After any sequence of operations no waiting thread waits, over ports, their owners and the ports
-- that these wait on, for itself, if this held before, every port there or waited on had an id below
-- the counter, and the operations cannot use up the 64-bit ids.
pub run-IsSafe :
    (ops : List Op) (s : State) → s.next_port + length ops < 2 ^ 64 → IsSafe s → IsSafe (run ops s)
unfolding run
run-IsSafe [] s room v = v
run-IsSafe (op ∷ ops) s room v =
    let (v', le) = step-IsSafe op s (omega arith) v in run-IsSafe ops (step op s) (omega arith) v'
