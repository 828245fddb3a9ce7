-- ===== src/Sched/Ticks.antt =====
-- kernel/src/sched.rs, `on_timer_tick`: which thread is chosen, and how the queues grow.
use atom.Prelude.{
  ℕ, zero, suc, ◌+◌, ◌≤◌, ◌<◌, ◌≡◌, refl, ◌∙◌, sym, ap, subst, List, [], ◌∷◌, ◌++◌, Option, none,
  some, arith, ltb, inl, inr, true, false, length, length-append, length-set, get_or, set,
  get_or-set_self,
}
use atom.Thread.{ThreadPriority, rank, idle, low, normal, high}
use atom.Sched.{
  State, ReadyQueues, priority_levels, push, pop_next, is_empty, on_timer_tick,
  apply_switch_with_previous, set_thread_state, get_priority, retire, dispatch, requeue, take_next,
}
use atom.Sched.Queues.{Pops, pop_next-Pops, List-cases}
use atom.Sched.Exclusive.{on_timer_tick-ticked}

-- How many entries the queues have.
pub queued : ReadyQueues → ℕ
queued [] = 0
queued (q ∷ queues) = length q + queued queues

queued-set :
    (queues : ReadyQueues) (idx : ℕ) (q : List ℕ)
    → idx < length queues
    → queued (set queues idx q) + length (get_or queues idx []) ≡ queued queues + length q
unfolding queued
queued-set [] idx q h = absurd (omega arith)
queued-set (x ∷ queues) zero q h = omega arith
queued-set (x ∷ queues) (suc idx) q h = omega (arith, queued-set queues idx q)

rank-lt : (priority : ThreadPriority) → rank priority < 4
rank-lt idle = omega arith
rank-lt low = omega arith
rank-lt normal = omega arith
rank-lt high = omega arith

push-set :
    (id : ℕ) (priority : ThreadPriority) (queues : ReadyQueues)
    → push id priority queues
      ≡ set queues (rank priority) (get_or queues (rank priority) [] ++ id ∷ [])
unfolding push
push-set id priority queues =
    let small : ltb (rank priority) 4 ≡ true = ground (arith, rank-lt priority) in rw small refl

queued-push :
    (id : ℕ) (priority : ThreadPriority) (queues : ReadyQueues)
    → length queues ≡ priority_levels
    → queued (push id priority queues) ≡ queued queues + 1
queued-push id priority queues h =
    let new : List ℕ = get_or queues (rank priority) [] ++ id ∷ [] in
    rw (push-set id priority queues) (
      omega (
        arith,
        rank-lt priority,
        length-append (get_or queues (rank priority) []) (id ∷ []),
        queued-set queues (rank priority) new (omega (arith, rank-lt priority)),
      ))

queued-Pops :
    (n : ℕ) (queues : ReadyQueues) (out : Option ℕ × ReadyQueues)
    → n ≤ length queues
    → Pops n queues out
    → queued out.1 ≡ queued queues
queued-Pops n queues out h (Pops.none_ready all) = refl
queued-Pops n queues out h (Pops.first_ready idx id rest below here above) = omega (
  arith,
  queued-set queues idx (rest ++ id ∷ []) (omega arith),
  ap length here,
  length-append rest (id ∷ []),
)

Pops-some :
    (n idx : ℕ) (x : ℕ) (rest : List ℕ) (queues : ReadyQueues) (out : Option ℕ × ReadyQueues)
    → idx < n
    → get_or queues idx [] ≡ x ∷ rest
    → Pops n queues out
    → (id : ℕ) × (out.0 ≡ some id)
Pops-some n idx x rest queues out h e (Pops.none_ready all) = let gone = all idx h in cc
Pops-some n idx x rest queues out h e (Pops.first_ready i id r below here above) = (id, refl)

retire-ready : (previous chosen : Option ℕ) (s : State) → (retire previous chosen s).ready ≡ s.ready
unfolding retire set_thread_state
retire-ready none chosen s = refl
retire-ready (some p) none s = refl
retire-ready (some p) (some id) s = ground arith

-- Switching to a thread that was taken from the queues makes it current and leaves the queues.
switch_to :
    (previous : Option ℕ) (id : ℕ) (s : State)
    → let (chosen, after) = apply_switch_with_previous previous (some id) s in
      (chosen ≡ some id) × (after.current ≡ some id) × (after.ready ≡ s.ready)
unfolding apply_switch_with_previous dispatch set_thread_state
switch_to previous id s = (refl, refl, retire-ready previous (some id) s)

abbrev pub switched : Option ℕ → Option ℕ × State → (Option ℕ × Option ℕ) × State
switched previous (next, s) = (
  (previous, (apply_switch_with_previous previous next s).0),
  (apply_switch_with_previous previous next s).1,
)

module _ (s : State) (cur : ℕ) (started : s.initialized ≡ true)
    (sized : length s.ready ≡ priority_levels) (runs : s.current ≡ some cur)
    (waiting : is_empty s.ready ≡ false) where
  -- The queues once the current thread is among them.
  abbrev pub pushed : ReadyQueues
  pushed = push cur (get_priority cur s) s.ready

  requeue-pushed : requeue s ≡ record s { ready = pushed; current = none }
  unfolding requeue get_priority
  requeue-pushed = rw (runs, requeue, waiting) refl

  at_the_end :
      get_or pushed (rank (get_priority cur s)) []
      ≡ get_or s.ready (rank (get_priority cur s)) [] ++ cur ∷ []
  at_the_end =
      ap (λ (q : ReadyQueues). get_or q (rank (get_priority cur s)) [])
        (push-set cur (get_priority cur s) s.ready)
      ∙ get_or-set_self s.ready (rank (get_priority cur s))
          (get_or s.ready (rank (get_priority cur s)) [] ++ cur ∷ []) []
          (omega (arith, sized, rank-lt (get_priority cur s)))

  some_next : (id : ℕ) × ((pop_next pushed).0 ≡ some id)
  some_next = elim (List-cases (get_or pushed (rank (get_priority cur s)) [])) [
    | inl empty ↦ absurd (
        omega (
          arith,
          ap length (sym empty ∙ at_the_end),
          length-append (get_or s.ready (rank (get_priority cur s)) []) (cur ∷ []),
        ))
    | inr (x, rest, e) ↦
        Pops-some 4 (rank (get_priority cur s)) x rest pushed (pop_next pushed)
          (rank-lt (get_priority cur s)) e (pop_next-Pops pushed)
  ]

  -- The state before the switch.
  abbrev popped : State
  popped = record s { ready = (pop_next pushed).1; current = none }

  taken : take_next (requeue s) ≡ ((pop_next pushed).0, popped)
  unfolding take_next
  taken = ap take_next requeue-pushed

  tick_lem : on_timer_tick s ≡ (
    (some cur, (apply_switch_with_previous (some cur) (pop_next pushed).0 popped).0),
    (apply_switch_with_previous (some cur) (pop_next pushed).0 popped).1,
  )
  tick_lem =
      on_timer_tick-ticked s started
      ∙ ap (λ (r : Option ℕ × State). switched s.current r) taken
      ∙ ap (λ (p : Option ℕ). switched p ((pop_next pushed).0, popped)) runs

-- Once the scheduler has started, and with its four queues, a tick with a current thread and a
-- thread waiting puts the current thread behind all others in the queue of its priority, then takes
-- the first thread of the highest queue that is not empty, which goes to the end of that queue, and
-- makes it current; the four queues have one entry more than before.
pub on_timer_tick-Pops :
    (s : State) (cur : ℕ)
    → s.initialized ≡ true
    → length s.ready ≡ priority_levels
    → s.current ≡ some cur
    → is_empty s.ready ≡ false
    → let (choice, after) = on_timer_tick s in
      (id : ℕ) × (choice ≡ (some cur, some id))
      × (after.current ≡ some id)
      × Pops priority_levels
          (set s.ready
            (rank (get_priority cur s))
            (get_or s.ready (rank (get_priority cur s)) [] ++ cur ∷ []))
          (some id, after.ready)
      × (queued after.ready ≡ queued s.ready + 1)
on_timer_tick-Pops s cur started sized runs waiting =
    let queues = pushed s cur started sized runs waiting in
    let (id, e) = some_next s cur started sized runs waiting in
    let before = popped s cur started sized runs waiting in
    let law =
      tick_lem s cur started sized runs waiting
      ∙ ap (λ (o : Option ℕ). switched (some cur) (o, before)) e in
    let (chosen, current, ready) = switch_to (some cur) id before in
    let pops =
      subst (λ (o : Option ℕ). Pops priority_levels queues (o, (pop_next queues).1)) e
        (pop_next-Pops queues) in
    let added = push-set cur (get_priority cur s) s.ready in
    rw (law, chosen)
      (
        id,
        refl,
        current,
        subst
            (λ (q : ReadyQueues).
              Pops priority_levels q
                (some id, (apply_switch_with_previous (some cur) (some id) before).1.ready))
            added
            (subst (λ (q : ReadyQueues). Pops priority_levels queues (some id, q)) (sym ready)
              pops),
        ap queued ready
            ∙ queued-Pops priority_levels queues (some id, (pop_next queues).1)
                (omega (arith, length_push)) pops
            ∙ queued-push cur (get_priority cur s) s.ready sized,
      )
  where
    length_push : length (push cur (get_priority cur s) s.ready) ≡ length s.ready
    length_push =
        ap length (push-set cur (get_priority cur s) s.ready)
        ∙ length-set s.ready (rank (get_priority cur s))
            (get_or s.ready (rank (get_priority cur s)) [] ++ cur ∷ [])
