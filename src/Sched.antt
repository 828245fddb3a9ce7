-- ===== src/Sched.antt =====
-- kernel/src/sched.rs: the scheduler. `State` joins its fields with the list of threads, in which it
-- sets the states; `ready` has one queue for each priority, lowest first.
pub mod Queues
pub mod Exclusive
pub mod Ticks
pub mod Previous
pub mod Priorities
use atom.Prelude.{
  ℕ, zero, suc, ◌+◌, List, [], ◌∷◌, ◌++◌, Option, none, some, Bool, true, false, not, ◌==◌, ltb,
  if◌then◌else◌, get_or, set, unwrap_or, is_some,
}
use atom.Prelude.BTreeMap
use atom.Prelude.BTreeMap.{BTreeMap}
use atom.Thread.{Thread, ThreadList, ThreadState, ThreadPriority, rank}
use atom.Thread

abbrev pub priority_levels : ℕ
priority_levels = 4

abbrev pub ReadyQueues : Type 0
ReadyQueues = List (List ℕ)

-- `ReadyQueues::new`
abbrev pub no_queues : ReadyQueues
no_queues = [] ∷ [] ∷ [] ∷ [] ∷ []

unfoldable pub push : ℕ → ThreadPriority → ReadyQueues → ReadyQueues
push id priority queues =
    if ltb (rank priority) priority_levels
    then set queues (rank priority) (get_or queues (rank priority) [] ++ id ∷ [])
    else queues

-- The loop of `pop_next` over the queues below `idx`, from the highest on.
unfoldable pub pop_below : ℕ → ReadyQueues → Option ℕ × ReadyQueues
pop_below zero queues = (none, queues)
pop_below (suc idx) queues = elim (get_or queues idx []) [
  | [] ↦ pop_below idx queues
  | id ∷ rest ↦ (some id, set queues idx (rest ++ id ∷ []))
]

unfoldable pub pop_next : ReadyQueues → Option ℕ × ReadyQueues
pop_next queues = pop_below priority_levels queues

unfoldable pub is_empty : ReadyQueues → Bool
is_empty [] = true
is_empty ([] ∷ queues) = is_empty queues
is_empty ((id ∷ ids) ∷ queues) = false

pub record State : Type 0 where
  pub ready : ReadyQueues
  pub base_priorities : BTreeMap ThreadPriority
  pub effective_priorities : BTreeMap ThreadPriority
  pub current : Option ℕ
  pub idle : Option ℕ
  pub initialized : Bool
  pub threads : ThreadList

-- `Scheduler::new`, with no thread in the list.
abbrev pub new : State
new = record {
  ready = no_queues;
  base_priorities = [];
  effective_priorities = [];
  current = none;
  idle = none;
  initialized = false;
  threads = [];
}

-- `thread::set_thread_state`, whose answer the scheduler ignores.
unfoldable pub set_thread_state : ℕ → ThreadState → State → State
set_thread_state id state s = record s { threads = (Thread.set_state id state s.threads).1 }

unfoldable pub init : Thread → State → ℕ × State
init idle_thread s = (
  idle_thread.id,
  set_thread_state idle_thread.id ThreadState.running (record s {
    threads = Thread.add idle_thread s.threads;
    idle = some idle_thread.id;
    current = some idle_thread.id;
    base_priorities = BTreeMap.insert idle_thread.id ThreadPriority.idle s.base_priorities;
    effective_priorities =
        BTreeMap.insert idle_thread.id ThreadPriority.idle s.effective_priorities;
    initialized = true;
  }),
)

unfoldable pub add_thread : Thread → State → ℕ × State
add_thread thread s = (
  thread.id,
  record s {
    threads = Thread.add thread s.threads;
    base_priorities = BTreeMap.insert thread.id thread.priority s.base_priorities;
    effective_priorities = BTreeMap.insert thread.id thread.priority s.effective_priorities;
    ready = elim thread.state [
      | ThreadState.ready ↦ push thread.id thread.priority s.ready
      | _ ↦ s.ready
    ];
  },
)

unfoldable pub get_priority : ℕ → State → ThreadPriority
get_priority id s = unwrap_or (BTreeMap.get id s.effective_priorities) ThreadPriority.normal

unfoldable pub get_base_priority : ℕ → State → ThreadPriority
get_base_priority id s = unwrap_or (BTreeMap.get id s.base_priorities) ThreadPriority.normal

-- `Option::or`
abbrev pub or : Option ℕ → Option ℕ → Option ℕ
or none b = b
or (some a) b = some a

-- The state set of the thread that ran, if another was chosen.
retire : Option ℕ → Option ℕ → State → State
retire (some prev) (some id) s = if prev == id then s else set_thread_state prev ThreadState.ready s
retire (some prev) none s = set_thread_state prev ThreadState.ready s
retire none chosen s = s

-- The state set of the thread that was chosen, which becomes the current one.
dispatch : Option ℕ → State → State
dispatch none s = s
dispatch (some id) s = record (set_thread_state id ThreadState.running s) { current = some id }

unfoldable pub apply_switch_with_previous : Option ℕ → Option ℕ → State → Option ℕ × State
unfolding retire dispatch
apply_switch_with_previous previous next s =
    let chosen = or next (or previous s.idle) in
    (chosen, dispatch chosen (retire previous chosen s))

unfoldable pub apply_switch : Option ℕ → State → Option ℕ × State
apply_switch next s = apply_switch_with_previous s.current next s

unfoldable pub schedule : State → Option ℕ × State
schedule s =
    if not s.initialized
    then (none, s)
    else let (next, ready) = pop_next s.ready in apply_switch next (record s { ready = ready })

-- The block of `on_timer_tick` under the two locks: the current thread goes to the end of its queue,
-- if any thread is queued, and the next is taken.
unfoldable pub requeue : State → State
requeue s = elim s.current [
  | none ↦ s
  | some cur ↦
      if is_empty s.ready
      then s
      else record s { ready = push cur (get_priority cur s) s.ready; current = none }
]

unfoldable pub take_next : State → Option ℕ × State
take_next s =
    if is_some s.current
    then (none, s)
    else let (next, ready) = pop_next s.ready in (next, record s { ready = ready })

-- The previous thread and the one chosen.
unfoldable pub on_timer_tick : State → (Option ℕ × Option ℕ) × State
unfolding requeue take_next
on_timer_tick s =
    if not s.initialized
    then ((none, none), s)
    else let (next, s1) = take_next (requeue s) in
      let (chosen, s2) = apply_switch_with_previous s.current next s1 in ((s.current, chosen), s2)

unfoldable pub boost_priority : ℕ → ThreadPriority → State → Bool × State
boost_priority id new_priority s =
    if ltb (rank (get_priority id s)) (rank new_priority)
    then (
      true,
      record s { effective_priorities = BTreeMap.insert id new_priority s.effective_priorities },
    )
    else (false, s)

unfoldable pub restore_original_priority : ℕ → State → State
restore_original_priority id s = record s {
  effective_priorities = BTreeMap.insert id (get_base_priority id s) s.effective_priorities;
}

unfoldable pub mark_ready : ℕ → State → State
mark_ready id s = record (set_thread_state id ThreadState.ready s) {
  ready = push id (get_priority id s) s.ready;
}

-- The arguments of `perform_context_switch`, if it is called.
unfoldable pub switch_between : Option ℕ × Option ℕ → Option (ℕ × ℕ)
switch_between (some prev_id, some next_id) =
    if prev_id == next_id then none else some (prev_id, next_id)
switch_between (none, next) = none
switch_between (some prev_id, none) = none

-- The switch that follows a tick.
unfoldable pub drive_cooperative_tick : State → Option (ℕ × ℕ) × State
drive_cooperative_tick s = let (choice, s') = on_timer_tick s in (switch_between choice, s')

unfoldable pub yield_current : State → Option (ℕ × ℕ) × State
yield_current s = elim s.current [
  | none ↦ (none, s)
  | some current ↦ let (next, s') = schedule s in (switch_between (some current, next), s')
]
