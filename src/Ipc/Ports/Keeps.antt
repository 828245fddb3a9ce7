-- ===== src/Ipc/Ports/Keeps.antt =====
-- kernel/src/ipc.rs: the operations other than `create_port` and `block_recv` change no owner of a
-- port and make no thread wait.
pub mod Sent
pub mod Taken
use atom.Prelude.{
  ℕ, zero, suc, ◌+◌, ◌*◌, ◌≡◌, ◌⊎◌, inl, inr, refl, sym, ◌∙◌, min, List, [], ◌∷◌, ◌++◌, Option,
  none, some, Bool, true, false, ◌==◌, ltb, leb, is_some, if◌then◌else◌, not, Result, ok, err,
  arith, length, Bool-cases, Option-cases,
}
use atom.Prelude.BTreeMap.{BTreeMap, get, insert, remove, get-insert, get-remove}
use atom.SharedMem.{SharedRegion}
use atom.Ipc.Message.{Message}
use atom.Ipc.Trace.{IpcTraceBuffer}
use atom.Ipc.Ports.{
  State, PortState, WaiterInfo, IpcError, put, close_port, current_time_ms, max_queue_depth,
  max_batch_size,
}
use atom.Ipc.Ports.Send.{
  send, send_sized, send_batch, send_prepared, enqueue, enqueue_all, stamp, wake, prepare,
  validate_payload_and_size,
}
use atom.Ipc.Ports.Receive.{try_recv, recv_batch, pop, pop_many, deliver}
use atom.Ipc.Ports.Wait.{
  handle_timeouts, release, release_ports, remove_waiting, is_receiver, expired,
}
use atom.Ipc.Ports.Sound.Taken.{answer-cases}

abbrev pub Owners : BTreeMap PortState → BTreeMap PortState → Type 0
Owners before after =
    (p : ℕ) (port : PortState)
    → get p after ≡ some port
    → (old : PortState) × (get p before ≡ some old) × (old.owner ≡ port.owner)

abbrev pub Waits : BTreeMap WaiterInfo → BTreeMap WaiterInfo → Type 0
Waits before after =
    (t : ℕ) (info : WaiterInfo) → get t after ≡ some info → get t before ≡ some info

pub record Keeps (s t : State) : Type 0 where
  pub owners : Owners s.ports t.ports
  pub waits : Waits s.waiting_threads t.waiting_threads
  pub next : t.next_port ≡ s.next_port

pub same-Owners : (ports : BTreeMap PortState) → Owners ports ports
same-Owners ports p port e = (port, e, refl)

pub Owners-insert :
    (id : ℕ) (port port' : PortState) (ports : BTreeMap PortState)
    → get id ports ≡ some port
    → port.owner ≡ port'.owner
    → Owners ports (insert id port' ports)
Owners-insert id port port' ports e own p found f = elim (Bool-cases (id == p)) [
  | inl here ↦
      (port, ground (arith, e, here), ground (arith, f, own, here, get-insert id p port' ports))
  | inr other ↦ (found, ground (arith, f, other, get-insert id p port' ports), refl)
]

pub Owners-trans : (a b c : BTreeMap PortState) → Owners a b → Owners b c → Owners a c
Owners-trans a b c f g p port e =
    let (mid, e', own) = g p port e in let (old, e'', own') = f p mid e' in (old, e'', own' ∙ own)

pub Waits-remove : (k : ℕ) (m : BTreeMap WaiterInfo) → Waits m (remove k m)
Waits-remove k m t info e = ground (arith, e, get-remove k t m)

pub unchanged : (s : State) → Keeps s s
unchanged s = record { owners = same-Owners s.ports; waits = λ t info e. e; next = refl }

pub Keeps-put :
    (id : ℕ) (port port' : PortState) (trace : IpcTraceBuffer) (s : State)
    → get id s.ports ≡ some port
    → port.owner ≡ port'.owner
    → Keeps s (put id port' trace s)
unfolding put
Keeps-put id port port' trace s e own = record {
  owners = Owners-insert id port port' s.ports e own;
  waits = λ t info e. e;
  next = refl;
}

pub close_port-Keeps : (port_id caller : ℕ) (s : State) → Keeps s (close_port port_id caller s).1
unfolding close_port
close_port-Keeps port_id caller s = elim (Option-cases (get port_id s.ports)) [
  | inl e ↦ rw (e, close_port) (unchanged s)
  | inr (port, e) ↦ elim (Bool-cases (port.owner == caller)) [
    | inr stranger ↦ rw (e, close_port, stranger) (unchanged s)
    | inl own ↦
        rw (e, close_port, own)
          (record {
            owners = λ p found f. (found, ground (arith, f, get-remove port_id p s.ports), refl);
            waits = λ t info e. e;
            next = refl;
          })
  ]
]

pub owner-release : (tid : ℕ) (port : PortState) → port.owner ≡ (release tid port).owner
unfolding release
owner-release tid port = elim (Bool-cases (is_receiver tid port.receiver_blocked)) [
  | inl his ↦ rw his refl
  | inr other ↦ rw other refl
]

pub release_ports-Owners :
    (due : List (ℕ × ℕ)) (ports : BTreeMap PortState) → Owners ports (release_ports due ports)
unfolding release_ports
release_ports-Owners [] ports = same-Owners ports
release_ports-Owners ((tid, port_id) ∷ due) ports = elim (Option-cases (get port_id ports)) [
  | inl e ↦ rw (e, release_ports) (release_ports-Owners due ports)
  | inr (port, e) ↦
      let changed = insert port_id (release tid port) ports in
      rw (e, release_ports)
        (Owners-trans ports changed (release_ports due changed)
          (Owners-insert port_id port (release tid port) ports e (owner-release tid port))
          (release_ports-Owners due changed))
]

pub remove_waiting-Waits :
    (due : List (ℕ × ℕ)) (waiting : BTreeMap WaiterInfo)
    → Waits waiting (remove_waiting due waiting)
unfolding remove_waiting
remove_waiting-Waits [] waiting t info e = e
remove_waiting-Waits ((tid, port_id) ∷ due) waiting t info e =
    Waits-remove tid waiting t info (remove_waiting-Waits due (remove tid waiting) t info e)

pub handle_timeouts-Keeps : (now : ℕ) (s : State) → Keeps s (handle_timeouts now s)
unfolding handle_timeouts
handle_timeouts-Keeps now s =
    let due = expired now s.waiting_threads in
    elim (Bool-cases (length due == 0)) [
      | inl none_due ↦ rw none_due (unchanged s)
      | inr some_due ↦ rw some_due (record {
        owners = release_ports-Owners due s.ports;
        waits = remove_waiting-Waits due s.waiting_threads;
        next = refl;
      })
    ]
