-- ===== src/Sched/Queues.antt =====
-- kernel/src/sched.rs, `ReadyQueues`: the order in which threads are taken.
use atom.Prelude.{
  ℕ, zero, suc, ◌<◌, ◌≡◌, refl, ◌∙◌, sym, ap, ◌⊎◌, inl, inr, List, [], ◌∷◌, ◌++◌, Option, none,
  some, arith, get_or, set, length, length-set, ℕ_discrete, get_or-set_self, get_or-set_ne,
  set-get_or, set-set,
}
use mathlib.Core.List.{append_assoc, append-nil}
use atom.Sched.{ReadyQueues, priority_levels, pop_below, pop_next}

pub List-cases : (xs : List ℕ) → (xs ≡ []) ⊎ ((x : ℕ) × (rest : List ℕ) × (xs ≡ x ∷ rest))
List-cases [] = inl refl
List-cases (x ∷ rest) = inr (x, rest, refl)

ℕ-split : (a n : ℕ) → a < suc n → (a < n) ⊎ (a ≡ n)
ℕ-split a n h = elim (ℕ_discrete a n) [ yes e ↦ inr e | no ne ↦ inl (omega arith) ]

-- What `pop_next` does: nothing if every queue is empty; otherwise the first thread of the highest
-- queue that is not empty is taken, and put at the end of that queue.
pub data Pops (n : ℕ) (queues : ReadyQueues) : Option ℕ × ReadyQueues → Type 0 where
  none_ready : ((idx : ℕ) → idx < n → get_or queues idx [] ≡ []) → Pops n queues (none, queues)
  first_ready :
      (idx id : ℕ) (rest : List ℕ)
      → idx < n
      → get_or queues idx [] ≡ id ∷ rest
      → ((higher : ℕ) → idx < higher → higher < n → get_or queues higher [] ≡ [])
      → Pops n queues (some id, set queues idx (rest ++ id ∷ []))

Pops-suc :
    (n : ℕ) (queues : ReadyQueues) (out : Option ℕ × ReadyQueues)
    → get_or queues n [] ≡ []
    → Pops n queues out
    → Pops (suc n) queues out
Pops-suc n queues out e (Pops.none_ready all) =
    none_ready (λ idx h. elim (ℕ-split idx n h) [ inl lt ↦ all idx lt | inr same ↦ rw same e ])
Pops-suc n queues out e (Pops.first_ready idx id rest h here above) =
    first_ready idx id rest (omega arith) here (λ higher a b. elim (ℕ-split higher n b) [
      | inl lt ↦ above higher a lt
      | inr same ↦ rw same e
    ])

pop_below-Pops : (n : ℕ) (queues : ReadyQueues) → Pops n queues (pop_below n queues)
unfolding pop_below
pop_below-Pops zero queues = none_ready (λ idx h. absurd (omega arith))
pop_below-Pops (suc n) queues = elim (List-cases (get_or queues n [])) [
  | inl e ↦ rw (e, pop_below) (Pops-suc n queues (pop_below n queues) e (pop_below-Pops n queues))
  | inr (id, rest, e) ↦
      rw (e, pop_below) (first_ready n id rest (omega arith) e (λ higher a b. absurd (omega arith)))
]

-- `pop_next` takes the first thread of the highest queue that is not empty, and puts it at the end
-- of that queue; it takes none only if every queue is empty.
pub pop_next-Pops : (queues : ReadyQueues) → Pops priority_levels queues (pop_next queues)
unfolding pop_next
pop_next-Pops queues = pop_below-Pops priority_levels queues

pop_below-at :
    (n idx id : ℕ) (rest : List ℕ) (queues : ReadyQueues)
    → idx < n
    → get_or queues idx [] ≡ id ∷ rest
    → ((higher : ℕ) → idx < higher → higher < n → get_or queues higher [] ≡ [])
    → pop_below n queues ≡ (some id, set queues idx (rest ++ id ∷ []))
unfolding pop_below
pop_below-at zero idx id rest queues h e above = absurd (omega arith)
pop_below-at (suc n) idx id rest queues h e above = elim (ℕ-split idx n h) [
  | inr same ↦ let f : get_or queues n [] ≡ id ∷ rest = rw⁻¹ same e in rw (f, pop_below, same) refl
  | inl lt ↦
      rw (above n lt (omega arith), pop_below)
        (pop_below-at n idx id rest queues lt e (λ higher a b. above higher a (omega arith)))
]

-- `n` calls of `pop_next`: the threads taken, in order, and the queues at the end.
unfoldable pub pops : ℕ → ReadyQueues → List ℕ × ReadyQueues
pops zero queues = ([], queues)
pops (suc n) queues =
    let (next, queues') = pop_next queues in
    let (taken, last) = pops n queues' in (elim next [ none ↦ taken | some id ↦ id ∷ taken ], last)

-- The rest of `pops` after a call of `pop_next`.
abbrev after_pop : ℕ → Option ℕ × ReadyQueues → List ℕ × ReadyQueues
after_pop n (next, queues) =
    (elim next [ none ↦ (pops n queues).0 | some id ↦ id ∷ (pops n queues).0 ], (pops n queues).1)

pops-rotate :
    (ids served : List ℕ) (idx : ℕ) (queues : ReadyQueues)
    → idx < priority_levels
    → idx < length queues
    → ((higher : ℕ) → idx < higher → higher < priority_levels → get_or queues higher [] ≡ [])
    → get_or queues idx [] ≡ ids ++ served
    → pops (length ids) queues ≡ (ids, set queues idx (served ++ ids))
unfolding pops pop_next
pops-rotate [] served idx queues h k above e =
    rw (append-nil served)
      (ap (λ (q : ReadyQueues). ([], q)) (sym (set-get_or queues idx []) ∙ ap (set queues idx) e))
pops-rotate (id ∷ ids) served idx queues h k above e =
    let popped = pop_below-at priority_levels idx id (ids ++ served) queues h e above in
    let after : ReadyQueues = set queues idx ((ids ++ served) ++ id ∷ []) in
    let rest =
      pops-rotate ids (served ++ id ∷ []) idx after h
        (omega (arith, length-set queues idx ((ids ++ served) ++ id ∷ [])))
        (λ higher a b.
          get_or-set_ne queues idx higher ((ids ++ served) ++ id ∷ []) [] (omega arith)
          ∙ above higher a b)
        (get_or-set_self queues idx ((ids ++ served) ++ id ∷ []) [] k
          ∙ append_assoc ids served (id ∷ [])) in
    ap (λ (p : Option ℕ × ReadyQueues). after_pop (length ids) p) popped
    ∙ ap (λ (r : List ℕ × ReadyQueues). (id ∷ r.0, r.1)) rest
    ∙ ap (λ (q : ReadyQueues). (id ∷ ids, q))
        (set-set queues idx ((ids ++ served) ++ id ∷ []) ((served ++ id ∷ []) ++ ids)
          ∙ ap (set queues idx) (append_assoc served (id ∷ []) ids))

-- Round robin: if no higher queue has a thread, as many calls of `pop_next` as a queue has threads
-- take each of them once, in the order of the queue, and leave the queues as they were.
pub pops-round :
    (idx : ℕ) (queues : ReadyQueues)
    → idx < priority_levels
    → idx < length queues
    → ((higher : ℕ) → idx < higher → higher < priority_levels → get_or queues higher [] ≡ [])
    → pops (length (get_or queues idx [])) queues ≡ (get_or queues idx [], queues)
pops-round idx queues h k above =
    pops-rotate (get_or queues idx []) [] idx queues h k above
      (sym (append-nil (get_or queues idx [])))
    ∙ ap (λ (q : ReadyQueues). (get_or queues idx [], q)) (set-get_or queues idx [])
