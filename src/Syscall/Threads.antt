-- ===== src/Syscall/Threads.antt =====
-- kernel/src/syscall/mod.rs: the handlers of the thread calls. The switch of the processor's context,
-- from the previous thread to the chosen one, is hardware; the two are part of the result.
pub mod Reachable
pub mod Stopped
pub mod Create
pub mod Tests
use atom.Prelude.{ℕ, Option, none, some, ◌==◌, if◌then◌else◌}
use atom.Thread.{ThreadState}
use atom.Sched.{State, on_timer_tick, set_thread_state, switch_between}
use atom.Syscall.Codes.{esuccess}

abbrev pub Answer : Type 0
Answer = ℕ × Option (ℕ × ℕ)

-- A tick, the switch that follows it, and the code returned.
unfoldable pub tick_and_switch : State → Answer × State
tick_and_switch s = let (choice, s') = on_timer_tick s in ((esuccess, switch_between choice), s')

unfoldable pub sys_thread_yield : State → Answer × State
sys_thread_yield s = tick_and_switch s

-- The panic after the switch is not reached unless the thread runs again.
unfoldable pub sys_thread_exit : State → Answer × State
sys_thread_exit s = elim s.current [
  | none ↦ ((esuccess, none), s)
  | some tid ↦ tick_and_switch (set_thread_state tid ThreadState.exited s)
]

unfoldable pub sys_thread_sleep : ℕ → State → Answer × State
sys_thread_sleep ticks s = if ticks == 0 then sys_thread_yield s else elim s.current [
  | none ↦ ((esuccess, none), s)
  | some tid ↦ tick_and_switch (set_thread_state tid ThreadState.blocked s)
]
