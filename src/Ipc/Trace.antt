-- ===== src/Ipc/Trace.antt =====
-- kernel/src/ipc.rs, `IpcTraceBuffer`: the ring of the last events.
pub mod Newest
use atom.Prelude.{
  ℕ, zero, suc, ◌+◌, ◌%◌, min, List, [], ◌∷◌, Option, none, some, Bool, true, false, ◌==◌, ◌||◌,
  if◌then◌else◌, get_or, set, replicate,
}

pub data IpcEventKind : Type 0 where
  send receive : IpcEventKind

unfoldable pub as_u64 : IpcEventKind → ℕ
as_u64 send = 0
as_u64 receive = 1

pub record IpcTraceEvent : Type 0 where
  pub timestamp_ms : ℕ
  pub kind : IpcEventKind
  pub port : ℕ
  pub sender : ℕ
  pub receiver : Option ℕ
  pub size : ℕ

abbrev pub ipc_trace_ring_size : ℕ
ipc_trace_ring_size = 1000

pub record IpcTraceBuffer : Type 0 where
  pub events : List (Option IpcTraceEvent)
  pub head : ℕ
  pub full : Bool

-- `IpcTraceBuffer::new`
abbrev pub new : IpcTraceBuffer
new = record { events = replicate ipc_trace_ring_size none; head = 0; full = false }

unfoldable pub push : IpcTraceEvent → IpcTraceBuffer → IpcTraceBuffer
push event self =
    let head = (self.head + 1) % ipc_trace_ring_size in
    record {
      events = set self.events self.head (some event);
      head = head;
      full = if head == 0 then true else self.full;
    }

-- The loop of `snapshot` from round `i` on, with `n` rounds left.
unfoldable pub collect : ℕ → ℕ → IpcTraceBuffer → List IpcTraceEvent
collect zero i self = []
collect (suc n) i self =
    let rest = collect n (i + 1) self in
    let idx = if self.full then (self.head + i) % ipc_trace_ring_size else i in
    elim (get_or self.events idx none) [ none ↦ rest | some event ↦ event ∷ rest ]

unfoldable pub snapshot : ℕ → IpcTraceBuffer → List IpcTraceEvent
snapshot max_events self =
    let total = if self.full then ipc_trace_ring_size else self.head in
    collect (min total max_events) 0 self
