-- ===== src/Sched/Priorities.antt =====
-- kernel/src/sched.rs: raising a thread's effective priority and giving it back its own.
use atom.Prelude.{
  ℕ, max, ◌≡◌, refl, ◌∙◌, ap, ltb→lt, List, [], ◌∷◌, arith, ltb, Bool-cases, inl, inr, unwrap_or,
}
use atom.Prelude.BTreeMap.{get, insert, get-insert}
use atom.Thread.{ThreadPriority, rank}
use atom.Sched.{State, boost_priority, restore_original_priority, get_priority, get_base_priority}

-- A sequence of boosts of one thread.
unfoldable pub boosts : ℕ → List ThreadPriority → State → State
boosts id [] s = s
boosts id (p ∷ ps) s = boosts id ps (boost_priority id p s).1

-- The highest rank of a list, and no less than the first argument.
unfoldable pub highest : ℕ → List ThreadPriority → ℕ
highest r [] = r
highest r (p ∷ ps) = highest (max r (rank p)) ps

boost-rank :
    (id : ℕ) (p : ThreadPriority) (s : State)
    → (rank (get_priority id (boost_priority id p s).1) ≡ max (rank (get_priority id s)) (rank p))
      × (get_base_priority id (boost_priority id p s).1 ≡ get_base_priority id s)
unfolding boost_priority get_priority get_base_priority
boost-rank id p s = elim (Bool-cases (ltb (rank (get_priority id s)) (rank p))) [
  | inl higher ↦
      let new : unwrap_or (get id (insert id p s.effective_priorities)) ThreadPriority.normal ≡ p =
        ground (arith, get-insert id id p s.effective_priorities) in
      rw higher (omega (arith, ap rank new, ltb→lt _ _ higher), refl)
  | inr lower ↦ rw lower (ground (arith, lower), refl)
]

boosts-rank :
    (id : ℕ) (ps : List ThreadPriority) (s : State)
    → (rank (get_priority id (boosts id ps s)) ≡ highest (rank (get_priority id s)) ps)
      × (get_base_priority id (boosts id ps s) ≡ get_base_priority id s)
unfolding boosts highest
boosts-rank id [] s = (refl, refl)
boosts-rank id (p ∷ ps) s =
    let (one, base) = boost-rank id p s in
    let (rest, bases) = boosts-rank id ps (boost_priority id p s).1 in
    (rest ∙ ap (λ (r : ℕ). highest r ps) one, bases ∙ base)

get_priority-restore :
    (id : ℕ) (s : State) → get_priority id (restore_original_priority id s) ≡ get_base_priority id s
unfolding get_priority restore_original_priority
get_priority-restore id s =
    ground (arith, get-insert id id (get_base_priority id s) s.effective_priorities)

-- After any sequence of boosts a thread's effective priority is the highest of its own before them
-- and theirs; restoring it then gives the thread its base priority.
pub restore_original_priority-boosts :
    (id : ℕ) (ps : List ThreadPriority) (s : State)
    → (rank (get_priority id (boosts id ps s)) ≡ highest (rank (get_priority id s)) ps)
      × (get_priority id (restore_original_priority id (boosts id ps s)) ≡ get_base_priority id s)
restore_original_priority-boosts id ps s =
    let (raised, base) = boosts-rank id ps s in
    (raised, get_priority-restore id (boosts id ps s) ∙ base)
