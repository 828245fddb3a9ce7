-- ===== src/Sched/Exclusive.antt =====
-- kernel/src/sched.rs: of all threads at most the current one is running.
use atom.Prelude.{
  ℕ, ◌≡◌, ◌≢◌, refl, ◌∙◌, sym, subst, [], Option, none, some, arith, ◌==◌, inl, inr, Bool-cases,
  true, false, if_not-true, if_not-false,
}
use atom.Thread.{Thread, ThreadState, ThreadPriority, ThreadList, set_state, find_thread}
use atom.Thread
use atom.Thread.States.{state_of, state_of-set_state, state_of-add}
use atom.Sched.{
  State, new, init, add_thread, schedule, on_timer_tick, apply_switch_with_previous, apply_switch,
  set_thread_state, retire, dispatch, requeue, take_next, or, pop_next,
}

-- A thread that is running is the current one.
abbrev pub IsExclusive : State → Type 0
IsExclusive s = (id : ℕ) → state_of id s.threads ≡ some ThreadState.running → s.current ≡ some id

abbrev RunsOnly : Option ℕ → ThreadList → Type 0
RunsOnly previous ts = (id : ℕ) → state_of id ts ≡ some ThreadState.running → previous ≡ some id

set_state-RunsOnly :
    (previous : Option ℕ) (target : ℕ) (st : ThreadState) (ts : ThreadList)
    → st ≢ ThreadState.running
    → RunsOnly previous ts
    → RunsOnly previous (set_state target st ts).1
set_state-RunsOnly previous target st ts calm v id e =
    ground (arith, v id, state_of-set_state target id st ts)

-- Once another is chosen, the thread that ran is not running.
retired :
    (previous : Option ℕ) (chosen : ℕ) (s : State)
    → RunsOnly previous s.threads
    → (id : ℕ) → state_of id (retire previous (some chosen) s).threads ≡ some ThreadState.running
    → id ≡ chosen
unfolding retire set_thread_state
retired none chosen s v id e = ground (arith, v id)
retired (some prev) chosen s v id e = elim (Bool-cases (prev == chosen)) [
  | inl same ↦ ground (arith, v id, e)
  | inr other ↦ ground (arith, v id, e, state_of-set_state prev id ThreadState.ready s.threads)
]

none_chosen : (previous next idle : Option ℕ) → or next (or previous idle) ≡ none → previous ≡ none
none_chosen none next idle e = refl
none_chosen (some p) none idle e = cc
none_chosen (some p) (some n) idle e = cc

dispatched :
    (chosen previous : Option ℕ) (s : State)
    → (chosen ≡ none → previous ≡ none)
    → RunsOnly previous s.threads
    → IsExclusive (dispatch chosen (retire previous chosen s))
unfolding dispatch set_thread_state retire
dispatched none previous s n v id e =
    let gone = n refl in
    absurd (
      ground (
        arith,
        gone,
        v id (
            subst
              (λ (p : Option ℕ). state_of id (retire p none s).threads ≡ some ThreadState.running)
              gone e),
      ))
dispatched (some chosen) previous s n v id e = ground (
  arith,
  e,
  retired previous chosen s v id,
  state_of-set_state chosen id ThreadState.running (retire previous (some chosen) s).threads,
)

pub apply_switch_with_previous-IsExclusive :
    (previous next : Option ℕ) (s : State)
    → RunsOnly previous s.threads
    → IsExclusive (apply_switch_with_previous previous next s).1
unfolding apply_switch_with_previous
apply_switch_with_previous-IsExclusive previous next s v =
    dispatched (or next (or previous s.idle)) previous s (none_chosen previous next s.idle) v

pub requeue-threads : (s : State) → (requeue s).threads ≡ s.threads
unfolding requeue
requeue-threads s = ground arith

pub take_next-threads : (s : State) → (take_next s).1.threads ≡ s.threads
unfolding take_next
take_next-threads s = ground arith

-- The two outcomes of the test that `schedule` and `on_timer_tick` start with.
pub schedule-switch :
    (s : State)
    → s.initialized ≡ true
    → schedule s ≡ apply_switch (pop_next s.ready).0 (record s { ready = (pop_next s.ready).1 })
unfolding schedule
schedule-switch s e = if_not-true s.initialized _ _ e

-- The state in which `on_timer_tick` switches.
abbrev pub ticked : State → (Option ℕ × Option ℕ) × State
ticked s =
    let (next, s1) = take_next (requeue s) in
    let (chosen, s2) = apply_switch_with_previous s.current next s1 in ((s.current, chosen), s2)

pub on_timer_tick-ticked : (s : State) → s.initialized ≡ true → on_timer_tick s ≡ ticked s
unfolding on_timer_tick
on_timer_tick-ticked s e = if_not-true s.initialized _ _ e

pub on_timer_tick-early : (s : State) → s.initialized ≡ false → on_timer_tick s ≡ ((none, none), s)
unfolding on_timer_tick
on_timer_tick-early s e = if_not-false s.initialized _ _ e

schedule-early : (s : State) → s.initialized ≡ false → schedule s ≡ (none, s)
unfolding schedule
schedule-early s e = if_not-false s.initialized _ _ e

pub schedule-IsExclusive : (s : State) → IsExclusive s → IsExclusive (schedule s).1
schedule-IsExclusive s v = elim (Bool-cases s.initialized) [
  | inl ready ↦
      subst (λ (r : Option ℕ × State). IsExclusive r.1) (sym (schedule-switch s ready))
        (unfold apply_switch in
          apply_switch_with_previous-IsExclusive s.current (pop_next s.ready).0
            (record s { ready = (pop_next s.ready).1 }) v)
  | inr early ↦ subst (λ (r : Option ℕ × State). IsExclusive r.1) (sym (schedule-early s early)) v
]

pub on_timer_tick-IsExclusive : (s : State) → IsExclusive s → IsExclusive (on_timer_tick s).1
on_timer_tick-IsExclusive s v = elim (Bool-cases s.initialized) [
  | inl ready ↦
      subst (λ (r : (Option ℕ × Option ℕ) × State). IsExclusive r.1)
        (sym (on_timer_tick-ticked s ready))
        (apply_switch_with_previous-IsExclusive s.current (take_next (requeue s)).0
          (take_next (requeue s)).1
          (subst (RunsOnly s.current) (sym (take_next-threads (requeue s) ∙ requeue-threads s)) v))
  | inr early ↦
      subst (λ (r : (Option ℕ × Option ℕ) × State). IsExclusive r.1)
        (sym (on_timer_tick-early s early)) v
]

pub set_thread_state-IsExclusive :
    (id : ℕ) (st : ThreadState) (s : State)
    → st ≢ ThreadState.running
    → IsExclusive s
    → IsExclusive (set_thread_state id st s)
unfolding set_thread_state
set_thread_state-IsExclusive id st s calm v = set_state-RunsOnly s.current id st s.threads calm v

pub add_thread-IsExclusive :
    (t : Thread) (s : State)
    → t.state ≢ ThreadState.running
    → IsExclusive s
    → IsExclusive (add_thread t s).1
unfolding add_thread
add_thread-IsExclusive t s calm v id e = ground (arith, v id, state_of-add id t s.threads)

nothing : (id : ℕ) → state_of id [] ≡ none
unfolding state_of find_thread
nothing id = refl

pub init-IsExclusive : (t : Thread) → IsExclusive (init t new).1
unfolding init set_thread_state
init-IsExclusive t id e = ground (
  arith,
  e,
  state_of-set_state t.id id ThreadState.running (Thread.add t []),
  state_of-add id t [],
  nothing id,
)
