-- ===== src/Ipc/Tests.antt =====
-- Two ports, 10 and 11, of the threads 5 and 3; thread 5 waits on port 11.
use atom.Prelude.{
  ℕ, ◌-◌, ◌≡◌, ◌↔◌, List, [], ◌∷◌, ◌++◌, none, some, true, ◌==◌, arith, take, drop, Bool-cases, inl,
  inr,
}
use atom.Prelude.BTreeMap.{get}
use atom.Thread.{ThreadPriority}
use atom.Sched
use atom.Ipc.Message.{Message}
use atom.Ipc.Metrics.{no_metrics}
use atom.Ipc.Trace.{IpcTraceEvent, new, snapshot, ipc_trace_ring_size}
use atom.Ipc.Trace
use atom.Ipc.Trace.Newest.{push_all, snapshot-push_all}
use atom.Ipc.Ports.{State, new_port}
use atom.Ipc.Ports.Wait.{detect_deadlock}
use atom.Ipc.Ports.Deadlock.{Leads, detect_deadlock_iff}
use atom.Ipc.Ports.Run.{
  Op, run, creates, closes, sends, sends_batch, receives, receives_batch, blocks, ticks,
}
use atom.Ipc.Ports.Sound.{IsSound}
use atom.Ipc.Ports.Sound.Always.{run-IsSound}
use atom.Ipc.Ports.Acyclic.{IsSafe}
use atom.Ipc.Ports.Acyclic.Always.{run-IsSafe}
use atom.Ipc.Ports.Fifo.{queue, accepted_by, received_by, IsDeliverable}
use atom.Ipc.Ports.Fifo.Order.{run-in_order}

abbrev start : State
start = record {
  next_port = 1;
  ports = [];
  waiting_threads = [];
  trace = new;
  sched = Sched.new;
  regions = [];
  ticks = 0;
}

abbrev pub hello : Message
hello = record {
  sender = 5;
  message_type = 1;
  payload = 104 ∷ 105 ∷ [];
  capability = none;
  shared_region = none;
  timestamp_ms = 0;
}

abbrev two_ports : State
two_ports = record start {
  next_port = 12;
  ports =
      (
        10,
        record {
          id = 10;
          owner = 5;
          messages = [];
          receiver_blocked = none;
          max_waiter_priority = none;
          metrics = no_metrics;
        },
      )
      ∷ (
        11,
        record {
          id = 11;
          owner = 3;
          messages = [];
          receiver_blocked = some 5;
          max_waiter_priority = some ThreadPriority.normal;
          metrics = no_metrics;
        },
      )
      ∷ [];
  waiting_threads = (5, record { port = 11; deadline = none }) ∷ [];
}

detect_deadlock_iff_example :
    (detect_deadlock 3 10 two_ports ≡ true)
    ↔ ((n : ℕ) × Leads two_ports.waiting_threads two_ports.ports 3 n 10)
detect_deadlock_iff_example = detect_deadlock_iff 3 10 two_ports

abbrev traffic : List Op
traffic =
    sends 1 hello
    ∷ blocks 1 7 ThreadPriority.high none
    ∷ sends_batch 1 (hello ∷ hello ∷ [])
    ∷ receives 1 7
    ∷ ticks 3
    ∷ receives_batch 1 7 64
    ∷ []

abbrev ops : List Op
ops = creates 5 ∷ traffic ++ closes 1 5 ∷ []

start-IsSound : IsSound start.ports
unfolding get
start-IsSound id port e = cc

run-IsSound_example : IsSound (run ops start).ports
run-IsSound_example = run-IsSound ops start start-IsSound

start-IsSafe : IsSafe start
unfolding get
start-IsSafe = record {
  acyclic = λ t info e n l. cc;
  known = λ p port e. cc;
  awaited = λ t info e. cc;
}

run-IsSafe_example : IsSafe (run ops start)
run-IsSafe_example = run-IsSafe ops start (omega arith) start-IsSafe

abbrev one_port : State
one_port = record start { next_port = 2; ports = (1, new_port 1 5) ∷ [] }

one_port-IsDeliverable : IsDeliverable one_port
unfolding queue get new_port
one_port-IsDeliverable p = elim (Bool-cases (1 == p)) [
  | inl here ↦ rw (here, queue, get) tt
  | inr other ↦ rw (other, queue, get) tt
]

run-in_order_example :
    queue 1 one_port.ports ++ accepted_by 1 traffic one_port
    ≡ received_by 1 traffic one_port ++ queue 1 (run traffic one_port).ports
run-in_order_example =
    run-in_order 1 traffic one_port (tt, (tt, (tt, (tt, (tt, (tt, tt)))))) one_port-IsDeliverable

abbrev event : ℕ → IpcTraceEvent
event now = record {
  timestamp_ms = now;
  kind = Trace.send;
  port = 1;
  sender = 5;
  receiver = none;
  size = 2;
}

snapshot-push_all_example :
    snapshot 2 (push_all (event 1 ∷ event 2 ∷ event 3 ∷ []) new)
    ≡ take 2 (drop (3 - ipc_trace_ring_size) (event 1 ∷ event 2 ∷ event 3 ∷ []))
snapshot-push_all_example = snapshot-push_all 2 (event 1 ∷ event 2 ∷ event 3 ∷ [])
