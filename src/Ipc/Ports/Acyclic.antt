-- ===== src/Ipc/Ports/Acyclic.antt =====
-- kernel/src/ipc.rs, `block_recv`: no thread comes to wait, over any number of ports and their owners,
-- for itself.
pub mod Edge
pub mod Always
use atom.Prelude.{
  ℕ, zero, suc, ◌+◌, ◌*◌, ◌%◌, ◌^◌, ◌≤◌, ◌<◌, ◌≡◌, ◌⊎◌, inl, inr, refl, sym, ◌∙◌, subst, List, [],
  ◌∷◌, Option, none, some, Bool, true, false, ◌==◌, is_some, if◌then◌else◌, Result, ok, err, arith,
  length, Bool-cases, Option-cases,
}
use atom.Prelude.BTreeMap.{BTreeMap, get, insert, get-insert}
use atom.Thread.{ThreadPriority}
use atom.Ipc.Ports.{State, PortState, WaiterInfo, IpcError, create_port, new_port}
use atom.Ipc.Ports.Wait.{block_recv, wait_on, detect_deadlock, raise}
use atom.Ipc.Ports.Deadlock.{Leads, detect_deadlock_iff}
use atom.Ipc.Ports.Keeps.{
  Owners, Owners-insert, Waits, Keeps, unchanged, close_port-Keeps, handle_timeouts-Keeps,
}
use atom.Ipc.Ports.Run.{
  Op, step, run, creates, closes, sends, sends_batch, receives, receives_batch, blocks, ticks,
}

pub record IsSafe (s : State) : Type 0 where
  -- From the port a thread waits on, the chain does not lead back to it.
  pub acyclic :
      (t : ℕ) (info : WaiterInfo)
      → get t s.waiting_threads ≡ some info
      → (n : ℕ) → ¬ Leads s.waiting_threads s.ports t n info.port
  -- Every port that is there or waited on has got its id from the counter.
  pub known : (p : ℕ) (port : PortState) → get p s.ports ≡ some port → p < s.next_port
  pub awaited :
      (t : ℕ) (info : WaiterInfo) → get t s.waiting_threads ≡ some info → info.port < s.next_port

pub Leads-Owners :
    (w w' : BTreeMap WaiterInfo) (ports ports' : BTreeMap PortState) (t n p : ℕ)
    → Owners ports ports'
    → Waits w w'
    → Leads w' ports' t n p
    → Leads w ports t n p
Leads-Owners w w' ports ports' t _ p owners waits (Leads.owned _ port e own) =
    let (old, e', same) = owners p port e in Leads.owned p old e' (same ∙ own)
Leads-Owners w w' ports ports' t _ p owners waits (Leads.waits n _ port info e f l) =
    let (old, e', same) = owners p port e in
    Leads.waits n p old info e'
      (subst (λ x. get x w ≡ some info) (sym same) (waits port.owner info f))
      (Leads-Owners w w' ports ports' t n info.port owners waits l)

pub IsSafe-Keeps : (s s' : State) → Keeps s s' → IsSafe s → IsSafe s'
IsSafe-Keeps s s' k v = record {
  acyclic = λ t info e n l. v.acyclic t info (k.waits t info e) n (
      Leads-Owners s.waiting_threads s'.waiting_threads s.ports s'.ports t n info.port k.owners
        k.waits l);
  known = λ p port e.
      let (old, e', same) = k.owners p port e in
      let below = v.known p old e' in omega (arith, k.next);
  awaited = λ t info e. let below = v.awaited t info (k.waits t info e) in omega (arith, k.next);
}

-- A new port is on no chain that starts at an older one.
pub Leads-new_port :
    (w : BTreeMap WaiterInfo) (ports : BTreeMap PortState) (next owner t n p : ℕ)
    → ((t : ℕ) (info : WaiterInfo) → get t w ≡ some info → info.port < next)
    → p < next
    → Leads w (insert next (new_port next owner) ports) t n p
    → Leads w ports t n p
Leads-new_port w ports next owner t _ p awaited below (Leads.owned _ port e own) =
    Leads.owned p port (ground (arith, e, get-insert next p (new_port next owner) ports)) own
Leads-new_port w ports next owner t _ p awaited below (Leads.waits n _ port info e f l) =
    Leads.waits n p port info (ground (arith, e, get-insert next p (new_port next owner) ports)) f
      (Leads-new_port w ports next owner t n info.port awaited (awaited port.owner info f) l)

pub create_port-IsSafe :
    (owner : ℕ) (s : State) → s.next_port + 1 < 2 ^ 64 → IsSafe s → IsSafe (create_port owner s).1
unfolding create_port
create_port-IsSafe owner s room v = record {
  acyclic = λ t info e n l. v.acyclic t info e n (
      Leads-new_port s.waiting_threads s.ports s.next_port owner t n info.port v.awaited
        (v.awaited t info e) l);
  known = λ p port e. known_port p port e;
  awaited = λ t info e. let below = v.awaited t info e in omega (arith, below);
}
  where
    known_port :
        (p : ℕ) (port : PortState)
        → get p (insert s.next_port (new_port s.next_port owner) s.ports) ≡ some port
        → p < (s.next_port + 1) % 2 ^ 64
    known_port p port e = elim (Bool-cases (s.next_port == p)) [
      | inl here ↦ ground (arith, here)
      | inr other ↦
          let below = v.known p port (
            ground
              (arith, e, other, get-insert s.next_port p (new_port s.next_port owner) s.ports)) in
          omega (arith, below)
    ]
