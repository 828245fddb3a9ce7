-- ===== src/Syscall/Ipc/WaitAny.antt =====
-- kernel/src/syscall/mod.rs, `sys_ipc_wait_any`: rounds over several ports, between which the caller
-- gives up the processor. The ports that are read from the caller's memory are an argument.
use atom.Prelude.{
  ℕ, ◌+◌, ◌/◌, ◌%◌, ◌^◌, List, [], ◌∷◌, Option, none, some, ◌==◌, ◌||◌, ltb, if◌then◌else◌, ok, err,
  length,
}
use atom.Thread.{ThreadState}
use atom.Sched.{set_thread_state, on_timer_tick, switch_between}
use atom.Ipc.Ports.{State}
use atom.Ipc.Ports.Receive.{try_recv}
use atom.Ipc.Ports.Wait.{has_expired}
use atom.Syscall.Codes.{max_u64, einval, etimedout, ewouldblock}

-- The index of the first port with a message, which is taken from it and dropped. A port that answers
-- an error is passed over.
unfoldable pub poll : ℕ → ℕ → List ℕ → State → Option ℕ × State
poll caller idx [] s = (none, s)
poll caller idx (port_id ∷ ports) s =
    let (answer, s') = try_recv port_id caller s in
    elim answer [
      | ok (some message) ↦ (some idx, s')
      | ok none ↦ poll caller (idx + 1) ports s'
      | err e ↦ poll caller (idx + 1) ports s'
    ]

unfoldable pub wait_deadline : ℕ → ℕ → Option ℕ
wait_deadline timeout_ms ticks =
    if timeout_ms == max_u64
    then none
    else if timeout_ms == 0
    then some ticks
    else some ((ticks + (timeout_ms + 9) % 2 ^ 64 / 10) % 2 ^ 64)

-- A round ends the call with a code, or in a switch of threads.
pub data Round : Type 0 where
  returns : ℕ → Round
  yields : Option (ℕ × ℕ) → Round

unfoldable pub wait_round : ℕ → List ℕ → ℕ → Option ℕ → State → Round × State
wait_round caller ports timeout_ms deadline s =
    let (found, s') = poll caller 0 ports s in
    elim found [
      | some idx ↦ (returns idx, s')
      | none ↦
          if has_expired s'.ticks deadline
          then (returns (if timeout_ms == 0 then ewouldblock else etimedout), s')
          else let (choice, sched) =
              on_timer_tick (set_thread_state caller ThreadState.blocked s'.sched) in
            (yields (switch_between choice), record s' { sched = sched })
    ]

unfoldable pub sys_ipc_wait_any : List ℕ → ℕ → State → Round × State
sys_ipc_wait_any ports timeout_ms s =
    if (length ports == 0) || ltb 64 (length ports)
    then (returns einval, s)
    else elim s.sched.current [
      | none ↦ (returns einval, s)
      | some caller ↦ wait_round caller ports timeout_ms (wait_deadline timeout_ms s.ticks) s
    ]

-- The next round, once the caller runs again.
unfoldable pub resume_wait : ℕ → List ℕ → ℕ → Option ℕ → State → Round × State
resume_wait caller ports timeout_ms deadline s =
    wait_round caller ports timeout_ms deadline
      (record s { sched = set_thread_state caller ThreadState.ready s.sched })
