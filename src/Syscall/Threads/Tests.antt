-- ===== src/Syscall/Threads/Tests.antt =====
-- The scheduler on three threads: an idle one, and two of normal priority, of which one runs.
use atom.Prelude.{ℕ, ◌+◌, ◌<◌, ◌≡◌, refl, [], ◌∷◌, some, true, false, arith, get_or}
use atom.Prelude.BTreeMap.{get}
use atom.Thread.{Thread, ThreadState, ThreadPriority, rank, find_thread}
use atom.Thread.States.{state_of}
use atom.Sched.{
  State, ReadyQueues, new, init, add_thread, priority_levels, pop_next, is_empty, on_timer_tick,
  get_priority, get_base_priority, restore_original_priority,
}
use atom.Sched.Queues.{Pops, pops, pop_next-Pops, pops-round}
use atom.Sched.Exclusive.{IsExclusive}
use atom.Sched.Ticks.{queued, on_timer_tick-Pops}
use atom.Sched.Priorities.{boosts, highest, restore_original_priority-boosts}
use atom.Syscall.Threads.{sys_thread_exit, sys_thread_sleep}
use atom.Syscall.Threads.Reachable.{
  Reachable, boots, steps, adds, ticks, exits, Reachable-IsExclusive,
}
use atom.Syscall.Threads.Stopped.{
  IsRunnable, sys_thread_exit-IsRunnable, sys_thread_sleep-IsRunnable,
}

abbrev pub thread_of : ℕ → ThreadState → ThreadPriority → Thread
thread_of id state priority = record {
  id = id;
  state = state;
  kernel_stack = 0;
  kernel_stack_size = 16384;
  address_space = 0;
  priority = priority;
  capability_table = record { capabilities = []; owner = id };
}

abbrev pub queues : ReadyQueues
queues = [] ∷ [] ∷ (2 ∷ 3 ∷ []) ∷ [] ∷ []

abbrev pub busy : State
busy = record {
  ready = queues;
  base_priorities =
      (1, ThreadPriority.idle) ∷ (2, ThreadPriority.normal) ∷ (3, ThreadPriority.normal) ∷ [];
  effective_priorities =
      (1, ThreadPriority.idle) ∷ (2, ThreadPriority.normal) ∷ (3, ThreadPriority.normal) ∷ [];
  current = some 2;
  idle = some 1;
  initialized = true;
  threads =
      thread_of 1 ThreadState.ready ThreadPriority.idle
      ∷ thread_of 2 ThreadState.running ThreadPriority.normal
      ∷ thread_of 3 ThreadState.ready ThreadPriority.normal
      ∷ [];
}

some_wait : is_empty busy.ready ≡ false
unfolding is_empty
some_wait = refl

second_runs : state_of 2 busy.threads ≡ some ThreadState.running
unfolding state_of find_thread
second_runs = refl

pop_next-Pops_example : Pops priority_levels queues (pop_next queues)
pop_next-Pops_example = pop_next-Pops queues

higher_empty : (higher : ℕ) → 2 < higher → higher < priority_levels → get_or queues higher [] ≡ []
higher_empty higher a b = let e : higher ≡ 3 = omega arith in rw e refl

pops-round_example : pops 2 queues ≡ (2 ∷ 3 ∷ [], queues)
pops-round_example = pops-round 2 queues (omega arith) (omega arith) higher_empty

on_timer_tick-Pops_example :
    let (choice, after) = on_timer_tick busy in
    (id : ℕ) × (choice ≡ (some 2, some id))
    × (after.current ≡ some id)
    × Pops priority_levels ([] ∷ [] ∷ (2 ∷ 3 ∷ 2 ∷ []) ∷ [] ∷ []) (some id, after.ready)
    × (queued after.ready ≡ queued busy.ready + 1)
unfolding get_priority get
on_timer_tick-Pops_example = on_timer_tick-Pops busy 2 refl refl refl some_wait

sys_thread_exit-IsRunnable_example : IsRunnable 2 (sys_thread_exit busy).1
sys_thread_exit-IsRunnable_example =
    sys_thread_exit-IsRunnable busy 2 ThreadState.running refl refl second_runs

sys_thread_sleep-IsRunnable_example : IsRunnable 2 (sys_thread_sleep 10 busy).1
sys_thread_sleep-IsRunnable_example =
    sys_thread_sleep-IsRunnable 10 busy 2 ThreadState.running refl refl refl second_runs

restore_original_priority-boosts_example :
    let raised = boosts 2 (ThreadPriority.high ∷ ThreadPriority.low ∷ []) busy in
    (rank (get_priority 2 raised)
      ≡ highest (rank (get_priority 2 busy)) (ThreadPriority.high ∷ ThreadPriority.low ∷ []))
    × (get_priority 2 (restore_original_priority 2 raised) ≡ get_base_priority 2 busy)
restore_original_priority-boosts_example =
    restore_original_priority-boosts 2 (ThreadPriority.high ∷ ThreadPriority.low ∷ []) busy

-- An idle thread is installed, a thread is added, a tick takes it, and it exits.
abbrev started : State
started = (init (thread_of 1 ThreadState.ready ThreadPriority.idle) new).1

abbrev joined : State
joined = (add_thread (thread_of 2 ThreadState.ready ThreadPriority.normal) started).1

abbrev switched_over : State
switched_over = (on_timer_tick joined).1

switched_over-Reachable : Reachable switched_over
switched_over-Reachable =
    steps joined switched_over
      (steps started joined (boots (thread_of 1 ThreadState.ready ThreadPriority.idle))
        (adds (thread_of 2 ThreadState.ready ThreadPriority.normal) refl))
      ticks

Reachable-IsExclusive_example : IsExclusive (sys_thread_exit switched_over).1
Reachable-IsExclusive_example =
    Reachable-IsExclusive (sys_thread_exit switched_over).1
      (steps switched_over (sys_thread_exit switched_over).1 switched_over-Reachable exits)
