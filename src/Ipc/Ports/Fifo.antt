-- ===== src/Ipc/Ports/Fifo.antt =====
-- kernel/src/ipc.rs: the queue of a port against the messages that its clients were told of.
pub mod Sent
pub mod Taken
pub mod Order
use mathlib.Core.List.{append-nil}
use atom.Prelude.{
  ℕ, zero, suc, ◌+◌, ◌*◌, ◌≡◌, ◌⊎◌, inl, inr, refl, sym, ap, ◌∙◌, subst, min, List, [], ◌∷◌, ◌++◌,
  map, Option, none, some, Bool, true, false, ◌==◌, ltb, leb, is_some, if◌then◌else◌, not, Result,
  ok, err, arith, length, All, Bool-cases, Option-cases,
}
use atom.Prelude.BTreeMap.{BTreeMap, get, insert, get-insert}
use atom.SharedMem.{SharedRegion}
use atom.Ipc.Message.{Message}
use atom.Ipc.Trace.{IpcTraceBuffer}
use atom.Ipc.Ports.{
  State, PortState, IpcError, put, current_time_ms, max_queue_depth, max_batch_size,
}
use atom.Ipc.Ports.Send.{
  send, send_sized, send_batch, send_prepared, enqueue, enqueue_all, stamp, wake, prepare, prepared,
  validate_payload_and_size,
}
use atom.Ipc.Ports.Receive.{try_recv, recv_batch, pop, pop_many, deliver}
use atom.Ipc.Ports.Wait.{
  block_recv, wait_on, handle_timeouts, release, release_ports, is_receiver, expired,
  detect_deadlock,
}
use atom.Ipc.Ports.Run.{
  Op, step, run, creates, closes, sends, sends_batch, receives, receives_batch, blocks, ticks,
}

-- The messages of a port, none where it is missing.
unfoldable pub queue : ℕ → BTreeMap PortState → List Message
queue p ports = elim (get p ports) [ none ↦ [] | some port ↦ port.messages ]

-- What the answers say has been queued on `p` by one step, and taken from it.
unfoldable pub one_accepted : Result (Unit {0}) IpcError → Message → List Message
one_accepted (ok _) message = message ∷ []
one_accepted (err e) message = []

unfoldable pub all_accepted : Result ℕ IpcError → List Message → List Message
all_accepted (ok n) messages = messages
all_accepted (err e) messages = []

unfoldable pub one_received : Result (Option Message) IpcError → List Message
one_received (ok (some message)) = message ∷ []
one_received (ok none) = []
one_received (err e) = []

unfoldable pub all_received : Result (List Message) IpcError → List Message
all_received (ok messages) = messages
all_received (err e) = []

unfoldable pub accepted : ℕ → Op → State → List Message
accepted p (sends q message) s =
    if q == p then one_accepted (send q message s).0 (stamp (current_time_ms s) message) else []
accepted p (sends_batch q messages) s =
    if q == p
    then all_accepted (send_batch q messages s).0 (map (stamp (current_time_ms s)) messages)
    else []
accepted p op s = []

unfoldable pub received : ℕ → Op → State → List Message
received p (receives q caller) s = if q == p then one_received (try_recv q caller s).0 else []
received p (receives_batch q caller max_count) s =
    if q == p then all_received (recv_batch q caller max_count s).0 else []
received p op s = []

unfoldable pub accepted_by : ℕ → List Op → State → List Message
accepted_by p [] s = []
accepted_by p (op ∷ ops) s = accepted p op s ++ accepted_by p ops (step op s)

unfoldable pub received_by : ℕ → List Op → State → List Message
received_by p [] s = []
received_by p (op ∷ ops) s = received p op s ++ received_by p ops (step op s)

-- The operation makes and closes no port.
abbrev pub IsTraffic : Op → Type 0
IsTraffic (creates owner) = ⊥
IsTraffic (closes port_id caller) = ⊥
IsTraffic op = Unit {0}

abbrev pub IsValid : BTreeMap SharedRegion → Message → Type 0
IsValid regions message = (size : ℕ) × (validate_payload_and_size regions message ≡ ok size)

-- Each queued message would still be accepted: its region, if it has one, is there.
abbrev pub IsDeliverable : State → Type 0
IsDeliverable s = (p : ℕ) → All (IsValid s.regions) (queue p s.ports)

pub queue-insert :
    (p q : ℕ) (port : PortState) (ports : BTreeMap PortState)
    → queue p (insert q port ports) ≡ (if q == p then port.messages else queue p ports)
unfolding queue
queue-insert p q port ports = ground (arith, get-insert q p port ports)

pub queue-get :
    (p : ℕ) (port : PortState) (ports : BTreeMap PortState)
    → get p ports ≡ some port
    → queue p ports ≡ port.messages
unfolding queue
queue-get p port ports e = rw (e, queue) refl

pub validate-stamp :
    (regions : BTreeMap SharedRegion) (now : ℕ) (message : Message)
    → validate_payload_and_size regions (stamp now message)
      ≡ validate_payload_and_size regions message
unfolding validate_payload_and_size stamp
validate-stamp regions now message = elim (Bool-cases (message.timestamp_ms == 0)) [
  | inl unset ↦ rw unset refl
  | inr set ↦ rw set refl
]

pub All-append :
    (P : Message → Type 0) (xs ys : List Message) → All P xs → All P ys → All P (xs ++ ys)
All-append P [] ys u v = v
All-append P (x ∷ xs) ys u v = (u.0, All-append P xs ys u.1 v)

-- What one operation on the port `q` does: `acc` goes to the end of its queue, `rec` leaves from the
-- front, and the other queues stay.
pub record Moves (q : ℕ) (s t : State) (acc rec : List Message) : Type 0 where
  pub here : queue q s.ports ++ acc ≡ rec ++ queue q t.ports
  pub others : (p : ℕ) → (q == p) ≡ false → queue p t.ports ≡ queue p s.ports
  pub same_regions : t.regions ≡ s.regions
  pub deliverable : IsDeliverable t

pub stays : (q : ℕ) (s : State) → IsDeliverable s → Moves q s s [] []
stays q s v = record {
  here = append-nil (queue q s.ports);
  others = λ p e. refl;
  same_regions = refl;
  deliverable = v;
}

pub replaced :
    (q : ℕ) (port port' : PortState) (acc rec : List Message) (s t : State)
    → get q s.ports ≡ some port
    → t.ports ≡ insert q port' s.ports
    → t.regions ≡ s.regions
    → port.messages ++ acc ≡ rec ++ port'.messages
    → All (IsValid s.regions) port'.messages
    → IsDeliverable s
    → Moves q s t acc rec
replaced q port port' acc rec s t e ports regions moved valid v =
    let at : (p : ℕ) → queue p t.ports ≡ (if q == p then port'.messages else queue p s.ports) =
      λ p. ap (queue p) ports ∙ queue-insert p q port' s.ports in
    record {
      here =
          ap (λ (xs : List Message). xs ++ acc) (queue-get q port s.ports e)
          ∙ moved
          ∙ ap (◌++◌ rec) (sym (at q ∙ ground arith));
      others = λ p other. at p ∙ ground (arith, other);
      same_regions = regions;
      deliverable = λ p.
          subst (λ (r : BTreeMap SharedRegion). All (IsValid r) (queue p t.ports)) (sym regions)
            (elim (Bool-cases (q == p)) [
              | inl here ↦ subst (All (IsValid s.regions)) (sym (at p ∙ ground (arith, here))) valid
              | inr other ↦
                  subst (All (IsValid s.regions)) (sym (at p ∙ ground (arith, other))) (v p)
            ]);
    }
