-- ===== src/Ipc/Ports/Fifo/Order.antt =====
-- kernel/src/ipc.rs: ports deliver in order, over any traffic.
use mathlib.Core.List.{append-nil, append_assoc}
use atom.Prelude.{
  ℕ, ◌≡◌, refl, sym, ap, ◌∙◌, subst, List, [], ◌∷◌, ◌++◌, Option, some, Bool, true, false, ◌==◌,
  is_some, if◌then◌else◌, arith, length, All, Bool-cases, Option-cases, inl, inr,
}
use atom.Prelude.BTreeMap.{BTreeMap, get, insert}
use atom.Thread.{ThreadPriority}
use atom.SharedMem.{SharedRegion}
use atom.Ipc.Message.{Message}
use atom.Ipc.Ports.{State, PortState}
use atom.Ipc.Ports.Wait.{
  block_recv, wait_on, handle_timeouts, release, release_ports, is_receiver, expired,
  detect_deadlock, raise,
}
use atom.Ipc.Ports.Run.{
  Op, step, run, creates, closes, sends, sends_batch, receives, receives_batch, blocks, ticks,
}
use atom.Ipc.Ports.Fifo.{
  queue, queue-insert, queue-get, accepted, received, accepted_by, received_by, IsTraffic, IsValid,
  IsDeliverable, Moves,
}
use atom.Ipc.Ports.Fifo.Sent.{send-Moves, send_batch-Moves}
use atom.Ipc.Ports.Fifo.Taken.{try_recv-Moves, recv_batch-Moves}

-- The queues are the same in both states, and so are the regions.
abbrev Same : State → State → Type 0
Same s t = ((p : ℕ) → queue p t.ports ≡ queue p s.ports) × (t.regions ≡ s.regions)

same_queue :
    (p q : ℕ) (port port' : PortState) (ports : BTreeMap PortState)
    → get q ports ≡ some port
    → port'.messages ≡ port.messages
    → queue p (insert q port' ports) ≡ queue p ports
same_queue p q port port' ports e same = elim (Bool-cases (q == p)) [
  | inl here ↦
      let key : q ≡ p = ground arith in
      queue-insert p q port' ports
      ∙ ground (arith, here)
      ∙ same
      ∙ sym (queue-get q port ports e)
      ∙ ap (λ (x : ℕ). queue x ports) key
  | inr other ↦ queue-insert p q port' ports ∙ ground (arith, other)
]

messages-release : (tid : ℕ) (port : PortState) → (release tid port).messages ≡ port.messages
unfolding release
messages-release tid port = elim (Bool-cases (is_receiver tid port.receiver_blocked)) [
  | inl his ↦ rw his refl
  | inr other ↦ rw other refl
]

block_recv-Same :
    (port_id caller : ℕ) (priority : ThreadPriority) (deadline : Option ℕ) (s : State)
    → Same s (block_recv port_id caller priority deadline s).1
unfolding block_recv wait_on
block_recv-Same port_id caller priority deadline s = elim (Option-cases (get port_id s.ports)) [
  | inl e ↦ rw (e, block_recv) (λ p. refl, refl)
  | inr (port, e) ↦ elim (Bool-cases (detect_deadlock caller port_id s)) [
    | inl dead ↦ rw (e, block_recv, dead) (λ p. refl, refl)
    | inr alive ↦ elim (Bool-cases (is_some port.receiver_blocked)) [
      | inl busy ↦ rw (e, block_recv, alive, busy) (λ p. refl, refl)
      | inr free ↦
          rw (e, block_recv, alive, free)
            (
              λ p.
                  same_queue p port_id port
                    (record port {
                      receiver_blocked = some caller;
                      max_waiter_priority = some (raise port.max_waiter_priority priority);
                    })
                    s.ports e refl,
              refl,
            )
    ]
  ]
]

release_ports-queue :
    (p : ℕ) (due : List (ℕ × ℕ)) (ports : BTreeMap PortState)
    → queue p (release_ports due ports) ≡ queue p ports
unfolding release_ports
release_ports-queue p [] ports = refl
release_ports-queue p ((tid, port_id) ∷ due) ports = elim (Option-cases (get port_id ports)) [
  | inl e ↦ rw (e, release_ports) (release_ports-queue p due ports)
  | inr (port, e) ↦
      rw (e, release_ports)
        (release_ports-queue p due (insert port_id (release tid port) ports)
          ∙ same_queue p port_id port (release tid port) ports e (messages-release tid port))
]

handle_timeouts-Same : (now : ℕ) (s : State) → Same s (handle_timeouts now s)
unfolding handle_timeouts
handle_timeouts-Same now s =
    let due = expired now s.waiting_threads in
    elim (Bool-cases (length due == 0)) [
      | inl none_due ↦ rw none_due (λ p. refl, refl)
      | inr some_due ↦ rw some_due (λ p. release_ports-queue p due s.ports, refl)
    ]

-- A step seen from the port `p`.
record Steps (p : ℕ) (s t : State) (acc rec : List Message) : Type 0 where
  ordered : queue p s.ports ++ acc ≡ rec ++ queue p t.ports
  deliverable : IsDeliverable t

Steps-Moves :
    (p q : ℕ) (s t : State) (acc rec : List Message)
    → Moves q s t acc rec
    → Steps p s t (if q == p then acc else []) (if q == p then rec else [])
Steps-Moves p q s t acc rec m = elim (Bool-cases (q == p)) [
  | inl here ↦
      let same : q ≡ p = ground arith in
      rw here (record {
        ordered = subst (λ (x : ℕ). queue x s.ports ++ acc ≡ rec ++ queue x t.ports) same m.here;
        deliverable = m.deliverable;
      })
  | inr other ↦ rw other (record {
    ordered = append-nil (queue p s.ports) ∙ sym (m.others p other);
    deliverable = m.deliverable;
  })
]

Steps-Same : (p : ℕ) (s t : State) → Same s t → IsDeliverable s → Steps p s t [] []
Steps-Same p s t (queues, regions) v = record {
  ordered = append-nil (queue p s.ports) ∙ sym (queues p);
  deliverable = λ q.
      subst (λ (xs : List Message). All (IsValid t.regions) xs) (sym (queues q))
        (subst (λ (r : BTreeMap SharedRegion). All (IsValid r) (queue q s.ports)) (sym regions)
          (v q));
}

none_either_way : (b : Bool) → ◌≡◌ {A = List Message} (if b then [] else []) []
none_either_way true = refl
none_either_way false = refl

step-Steps :
    (p : ℕ) (op : Op) (s : State)
    → IsTraffic op
    → IsDeliverable s
    → Steps p s (step op s) (accepted p op s) (received p op s)
unfolding step accepted received
step-Steps p (creates owner) s traffic v = absurd traffic
step-Steps p (closes q caller) s traffic v = absurd traffic
step-Steps p (sends q message) s traffic v =
    subst (Steps p s (step (sends q message) s) (accepted p (sends q message) s))
      (none_either_way (q == p)) (Steps-Moves p q s _ _ [] (send-Moves q message s v))
step-Steps p (sends_batch q messages) s traffic v =
    subst (Steps p s (step (sends_batch q messages) s) (accepted p (sends_batch q messages) s))
      (none_either_way (q == p)) (Steps-Moves p q s _ _ [] (send_batch-Moves q messages s v))
step-Steps p (receives q caller) s traffic v =
    subst
      (λ (acc : List Message).
        Steps p s (step (receives q caller) s) acc (received p (receives q caller) s))
      (none_either_way (q == p)) (Steps-Moves p q s _ [] _ (try_recv-Moves q caller s v))
step-Steps p (receives_batch q caller max_count) s traffic v =
    subst
      (λ (acc : List Message).
        Steps p s (step (receives_batch q caller max_count) s) acc
          (received p (receives_batch q caller max_count) s))
      (none_either_way (q == p))
      (Steps-Moves p q s _ [] _ (recv_batch-Moves q caller max_count s v))
step-Steps p (blocks q caller priority deadline) s traffic v =
    Steps-Same p s _ (block_recv-Same q caller priority deadline s) v
step-Steps p (ticks now) s traffic v =
    Steps-Same p s _ (handle_timeouts-Same now (record s { ticks = now })) v

-- Over any sequence of operations that make and close no port, in which every queued message could
-- still be delivered at the start, each port is a queue: what was in it, followed by the messages
-- (with their times) whose sending was answered with success, is what was received from it, followed
-- by what it holds, in this order and without loss or repetition.
pub run-in_order :
    (p : ℕ) (ops : List Op) (s : State)
    → All IsTraffic ops
    → IsDeliverable s
    → queue p s.ports ++ accepted_by p ops s ≡ received_by p ops s ++ queue p (run ops s).ports
unfolding run accepted_by received_by
run-in_order p [] s traffic v = append-nil (queue p s.ports)
run-in_order p (op ∷ ops) s (traffic, rest) v =
    let t = step op s in
    let first = step-Steps p op s traffic v in
    sym (append_assoc (queue p s.ports) (accepted p op s) (accepted_by p ops t))
    ∙ ap (λ (xs : List Message). xs ++ accepted_by p ops t) first.ordered
    ∙ append_assoc (received p op s) (queue p t.ports) (accepted_by p ops t)
    ∙ ap (◌++◌ (received p op s)) (run-in_order p ops t rest first.deliverable)
    ∙ sym (append_assoc (received p op s) (received_by p ops t) (queue p (run ops t).ports))
