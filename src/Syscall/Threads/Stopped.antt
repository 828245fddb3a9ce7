-- ===== src/Syscall/Threads/Stopped.antt =====
-- kernel/src/syscall/mod.rs, `sys_thread_exit` and `sys_thread_sleep`: the tick that follows gives the
-- thread that stopped a state of its own choice.
use atom.Prelude.{ℕ, ◌≡◌, ◌⊎◌, ◌==◌, some, true, false, arith}
use atom.Thread.{ThreadState}
use atom.Thread.States.{state_of, state_of-set_state}
use atom.Sched.{State, set_thread_state}
use atom.Sched.Previous.{state_of-on_timer_tick}
use atom.Syscall.Threads.{sys_thread_exit, sys_thread_sleep, tick_and_switch}

-- The thread is ready or running.
abbrev pub IsRunnable : ℕ → State → Type 0
IsRunnable id s =
    (state_of id s.threads ≡ some ThreadState.ready)
    ⊎ (state_of id s.threads ≡ some ThreadState.running)

stopped_lem :
    (s : State) (cur : ℕ) (stopped st : ThreadState)
    → s.initialized ≡ true
    → s.current ≡ some cur
    → state_of cur s.threads ≡ some st
    → IsRunnable cur (tick_and_switch (set_thread_state cur stopped s)).1
unfolding tick_and_switch set_thread_state
stopped_lem s cur stopped st started runs there =
    state_of-on_timer_tick (set_thread_state cur stopped s) cur stopped started runs
      (ground (arith, there, state_of-set_state cur cur stopped s.threads))

-- Once the scheduler has started, the current thread is ready or running again after it has called
-- `sys_thread_exit`: it is not exited.
pub sys_thread_exit-IsRunnable :
    (s : State) (cur : ℕ) (st : ThreadState)
    → s.initialized ≡ true
    → s.current ≡ some cur
    → state_of cur s.threads ≡ some st
    → IsRunnable cur (sys_thread_exit s).1
unfolding sys_thread_exit
sys_thread_exit-IsRunnable s cur st started runs there =
    rw (runs, sys_thread_exit) (stopped_lem s cur ThreadState.exited st started runs there)

-- Once the scheduler has started, the current thread is ready or running again after it has called
-- `sys_thread_sleep` with a number of ticks that is not 0: it is not blocked.
pub sys_thread_sleep-IsRunnable :
    (n : ℕ) (s : State) (cur : ℕ) (st : ThreadState)
    → (n == 0) ≡ false
    → s.initialized ≡ true
    → s.current ≡ some cur
    → state_of cur s.threads ≡ some st
    → IsRunnable cur (sys_thread_sleep n s).1
unfolding sys_thread_sleep
sys_thread_sleep-IsRunnable n s cur st asked started runs there =
    rw (asked, runs, sys_thread_sleep) (stopped_lem s cur ThreadState.blocked st started runs there)
