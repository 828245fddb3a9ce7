-- ===== src/Thread/States.antt =====
-- kernel/src/thread.rs: reading a thread's state after `set_thread_state` and `add_thread`.
use atom.Prelude.{
  ℕ, ◌≡◌, [], ◌∷◌, Option, none, some, arith, ◌==◌, if◌then◌else◌, inl, inr, Option-cases,
}
use atom.Thread.{Thread, ThreadList, ThreadState, find_thread, set_state, add}
use atom.Thread.Laws.{find_thread-id, find_thread-put}

-- The state of the thread with this id.
unfoldable pub state_of : ℕ → ThreadList → Option ThreadState
state_of id ts = elim (find_thread id ts) [ none ↦ none | some t ↦ some t.state ]

pub state_of-set_state :
    (target id : ℕ) (st : ThreadState) (ts : ThreadList)
    → state_of id (set_state target st ts).1 ≡ (
        if target == id
        then elim (state_of id ts) [ none ↦ none | some _ ↦ some st ]
        else state_of id ts)
unfolding state_of set_state
state_of-set_state target id st ts = elim (Option-cases (find_thread target ts)) [
  | inl e ↦ rw (e, set_state) (ground (arith, e))
  | inr (t, e) ↦
      rw (e, set_state)
        (ground (
          arith,
          e,
          find_thread-id target ts t e,
          find_thread-put target id ts t (record t { state = st }) e,
        ))
]

-- A new thread does not change the state of one that is there.
pub state_of-add :
    (id : ℕ) (t : Thread) (ts : ThreadList)
    → state_of id (add t ts) ≡ elim (state_of id ts) [
      | some st ↦ some st
      | none ↦ if t.id == id then some t.state else none
    ]
unfolding state_of add find_thread
state_of-add id t [] = ground arith
state_of-add id t (x ∷ ts) = ground (arith, state_of-add id t ts)
