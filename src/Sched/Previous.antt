-- ===== src/Sched/Previous.antt =====
-- kernel/src/sched.rs, `on_timer_tick`: the state of the thread that ran.
use atom.Prelude.{ℕ, ◌≡◌, ◌∙◌, ap, ◌⊎◌, Option, none, some, arith, ◌==◌, inl, inr, Bool-cases, true}
use atom.Thread.{ThreadState, set_state}
use atom.Thread.States.{state_of, state_of-set_state}
use atom.Sched.{
  State, on_timer_tick, apply_switch_with_previous, set_thread_state, retire, dispatch, requeue,
  take_next,
}
use atom.Sched.Ticks.{switched}
use atom.Sched.Exclusive.{on_timer_tick-ticked, take_next-threads, requeue-threads}

dispatched-state_of :
    (cur id : ℕ) (st : ThreadState) (s : State)
    → state_of cur s.threads ≡ some st
    → let after = dispatch (some id) (retire (some cur) (some id) s) in
      (state_of cur after.threads ≡ some ThreadState.ready)
      ⊎ (state_of cur after.threads ≡ some ThreadState.running)
unfolding dispatch retire set_thread_state
dispatched-state_of cur id st s there = elim (Bool-cases (cur == id)) [
  | inl same ↦ inr (
      rw same
        (ground (arith, there, same, state_of-set_state id cur ThreadState.running s.threads)))
  | inr other ↦ inl (
      rw other (
        ground (
          arith,
          there,
          other,
          state_of-set_state cur cur ThreadState.ready s.threads,
          state_of-set_state id cur ThreadState.running
              (set_state cur ThreadState.ready s.threads).1,
        )))
]

switched-state_of :
    (cur : ℕ) (st : ThreadState) (next : Option ℕ) (s : State)
    → state_of cur s.threads ≡ some st
    → let after = (apply_switch_with_previous (some cur) next s).1 in
      (state_of cur after.threads ≡ some ThreadState.ready)
      ⊎ (state_of cur after.threads ≡ some ThreadState.running)
unfolding apply_switch_with_previous
switched-state_of cur st none s there = dispatched-state_of cur cur st s there
switched-state_of cur st (some id) s there = dispatched-state_of cur id st s there

-- The thread that ran before a tick is ready or runs after it, whatever its state was when the tick
-- came.
pub state_of-on_timer_tick :
    (s : State) (cur : ℕ) (st : ThreadState)
    → s.initialized ≡ true
    → s.current ≡ some cur
    → state_of cur s.threads ≡ some st
    → (state_of cur (on_timer_tick s).1.threads ≡ some ThreadState.ready)
      ⊎ (state_of cur (on_timer_tick s).1.threads ≡ some ThreadState.running)
state_of-on_timer_tick s cur st started runs there =
    let law =
      on_timer_tick-ticked s started
      ∙ ap (λ (p : Option ℕ). switched p (take_next (requeue s))) runs in
    rw law (
      switched-state_of cur st (take_next (requeue s)).0 (take_next (requeue s)).1
        (rw (take_next-threads (requeue s), requeue-threads s) there))
