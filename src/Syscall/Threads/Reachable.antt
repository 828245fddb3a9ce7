-- ===== src/Syscall/Threads/Reachable.antt =====
-- The states that the scheduler reaches by its operations and the thread calls.
use atom.Prelude.{ℕ, ◌≡◌, ◌≢◌, ◌==◌, Bool-cases, inl, inr, Option-cases, ltb}
use atom.Thread.{Thread, ThreadState, ThreadPriority, rank}
use atom.Sched.{
  State, new, init, add_thread, schedule, on_timer_tick, boost_priority, restore_original_priority,
  mark_ready, set_thread_state, drive_cooperative_tick, yield_current, get_priority,
}
use atom.Sched.Exclusive.{
  IsExclusive, init-IsExclusive, add_thread-IsExclusive, schedule-IsExclusive,
  on_timer_tick-IsExclusive, set_thread_state-IsExclusive,
}
use atom.Syscall.Threads.{sys_thread_yield, sys_thread_exit, sys_thread_sleep, tick_and_switch}

-- One operation of the scheduler, or one thread call. A thread is added ready, as `Thread::new`
-- makes it.
pub data Step (s : State) : State → Type 0 where
  adds : (t : Thread) → t.state ≡ ThreadState.ready → Step s (add_thread t s).1
  schedules : Step s (schedule s).1
  ticks : Step s (on_timer_tick s).1
  boosts : (id : ℕ) (priority : ThreadPriority) → Step s (boost_priority id priority s).1
  restores : (id : ℕ) → Step s (restore_original_priority id s)
  readies : (id : ℕ) → Step s (mark_ready id s)
  drives : Step s (drive_cooperative_tick s).1
  gives_way : Step s (yield_current s).1
  yields : Step s (sys_thread_yield s).1
  exits : Step s (sys_thread_exit s).1
  sleeps : (n : ℕ) → Step s (sys_thread_sleep n s).1

pub data Reachable : State → Type 0 where
  boots : (idle_thread : Thread) → Reachable (init idle_thread new).1
  steps : (s t : State) → Reachable s → Step s t → Reachable t

stops-IsExclusive :
    (tid : ℕ) (st : ThreadState) (s : State)
    → st ≢ ThreadState.running
    → IsExclusive s
    → IsExclusive (tick_and_switch (set_thread_state tid st s)).1
unfolding tick_and_switch
stops-IsExclusive tid st s calm v =
    on_timer_tick-IsExclusive (set_thread_state tid st s)
      (set_thread_state-IsExclusive tid st s calm v)

exit-IsExclusive : (s : State) → IsExclusive s → IsExclusive (sys_thread_exit s).1
unfolding sys_thread_exit
exit-IsExclusive s v = elim (Option-cases s.current) [
  | inl e ↦ rw (e, sys_thread_exit) v
  | inr (tid, e) ↦ rw (e, sys_thread_exit) (stops-IsExclusive tid ThreadState.exited s (λ p. cc) v)
]

sleep-IsExclusive : (n : ℕ) (s : State) → IsExclusive s → IsExclusive (sys_thread_sleep n s).1
unfolding sys_thread_sleep
sleep-IsExclusive n s v = elim (Bool-cases (n == 0)) [
  | inl none_asked ↦
      rw none_asked (unfold sys_thread_yield tick_and_switch in on_timer_tick-IsExclusive s v)
  | inr some_asked ↦ elim (Option-cases s.current) [
    | inl e ↦ rw (some_asked, e, sys_thread_sleep) v
    | inr (tid, e) ↦
        rw (some_asked, e, sys_thread_sleep)
          (stops-IsExclusive tid ThreadState.blocked s (λ p. cc) v)
  ]
]

yield_current-IsExclusive : (s : State) → IsExclusive s → IsExclusive (yield_current s).1
unfolding yield_current
yield_current-IsExclusive s v = elim (Option-cases s.current) [
  | inl e ↦ rw (e, yield_current) v
  | inr (tid, e) ↦ rw (e, yield_current) (schedule-IsExclusive s v)
]

boost-IsExclusive :
    (id : ℕ) (priority : ThreadPriority) (s : State)
    → IsExclusive s
    → IsExclusive (boost_priority id priority s).1
unfolding boost_priority
boost-IsExclusive id priority s v =
    elim (Bool-cases (ltb (rank (get_priority id s)) (rank priority))) [
      | inl higher ↦ rw higher v
      | inr lower ↦ rw lower v
    ]

Step-IsExclusive : (s t : State) → Step s t → IsExclusive s → IsExclusive t
Step-IsExclusive s t (adds thread fresh) v = add_thread-IsExclusive thread s (λ p. cc) v
Step-IsExclusive s t schedules v = schedule-IsExclusive s v
Step-IsExclusive s t ticks v = on_timer_tick-IsExclusive s v
Step-IsExclusive s t (boosts id priority) v = boost-IsExclusive id priority s v
Step-IsExclusive s t (restores id) v = unfold restore_original_priority in v
Step-IsExclusive s t (readies id) v =
    unfold mark_ready set_thread_state in
    set_thread_state-IsExclusive id ThreadState.ready s (λ p. cc) v
Step-IsExclusive s t drives v = unfold drive_cooperative_tick in on_timer_tick-IsExclusive s v
Step-IsExclusive s t gives_way v = yield_current-IsExclusive s v
Step-IsExclusive s t yields v =
    unfold sys_thread_yield tick_and_switch in on_timer_tick-IsExclusive s v
Step-IsExclusive s t exits v = exit-IsExclusive s v
Step-IsExclusive s t (sleeps n) v = sleep-IsExclusive n s v

-- In every state that the scheduler reaches, a thread that is running is the current one; so at most
-- one thread runs.
pub Reachable-IsExclusive : (s : State) → Reachable s → IsExclusive s
Reachable-IsExclusive s (boots idle_thread) = init-IsExclusive idle_thread
Reachable-IsExclusive s (steps before after r step) =
    Step-IsExclusive before s step (Reachable-IsExclusive before r)
