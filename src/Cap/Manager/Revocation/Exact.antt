-- ===== src/Cap/Manager/Revocation/Exact.antt =====
-- kernel/src/cap.rs, `revoke`: it ends, and takes out the tree below the handle and nothing else.
use atom.Prelude.{
  ℕ, zero, suc, ◌<◌, ◌≡◌, ◌≢◌, refl, ◌∙◌, sym, subst, ◌⊎◌, inl, inr, List, [], ◌∷◌, ◌++◌, Option,
  none, some, arith, Option-cases, ◌==◌, if◌then◌else◌, Result, ok, err, length, In, In-append,
  In-append_left, In-append_right, ℕ_discrete,
}
use atom.Prelude.BTreeMap.{get, remove, get-remove, length-remove-lt}
use atom.Cap.Capability.{Capability, CapError, not_found}
use atom.Cap.Manager.{State, revoke_one, revoke_children, revoke}
use atom.Cap.Manager.Revocation.{
  Descends, root, Pruned, Pruned-refl, Pruned-trans, IsWithin, Pruned-IsWithin, Pruned-none,
  Pruned-weaken, Descends-mono, Descends-below,
}

-- What a revocation of `h` that returned `revoked` did: the tree below `h` is gone from the map and
-- nothing else is, the list names exactly what went, and `P` holds of the new state.
pub record Revoked (P : State → Type 0) (h : ℕ) (before : State) (revoked : List ℕ) (after : State)
    : Type 0 where
  pub pruned : Pruned (Descends before.global_caps h) before.global_caps after.global_caps
  pub gone : get h after.global_caps ≡ none
  pub listed :
      (k : ℕ) → In k revoked → (get k before.global_caps ≢ none) × (get k after.global_caps ≡ none)
  pub complete :
      (k : ℕ) → get k before.global_caps ≢ none → get k after.global_caps ≡ none → In k revoked
  pub holds : P after

-- A handle that is not there is an error and changes nothing; otherwise the tree is revoked.
abbrev pub Outcome :
    (State → Type 0) → ℕ → State → Option (Result (List ℕ) CapError × State) → Type 0
Outcome P h before out =
    ((get h before.global_caps ≡ none) × (out ≡ some (err not_found, before)))
    ⊎ ((revoked : List ℕ) × (after : State) × (out ≡ some (ok revoked, after))
        × Revoked P h before revoked after)

-- The same of the loop over children, which starts from the handles `acc`.
record Looped (P : State → Type 0) (T : ℕ → Type 0) (children acc : List ℕ) (before : State)
    (revoked : List ℕ) (after : State) : Type 0 where
  pruned : Pruned T before.global_caps after.global_caps
  gone : (d : ℕ) → In d children → get d after.global_caps ≡ none
  listed :
      (k : ℕ)
      → In k revoked
      → In k acc ⊎ ((get k before.global_caps ≢ none) × (get k after.global_caps ≡ none))
  kept : (k : ℕ) → In k acc → In k revoked
  complete :
      (k : ℕ) → get k before.global_caps ≢ none → get k after.global_caps ≡ none → In k revoked
  holds : P after

module _ (P : State → Type 0) (revoker : ℕ) (fuel : ℕ)
    (call_lem : (d : ℕ) (t : State)
      → length t.global_caps < fuel
      → P t
      → Outcome P d t (revoke fuel d revoker t))
    (T : ℕ → Type 0) where
  loop_cons :
      (d : ℕ) (ds acc rs revoked : List ℕ) (t u v : State)
      → ((k : ℕ) → Descends t.global_caps d k → T k)
      → Revoked P d t rs u
      → Looped P T ds (acc ++ rs) u revoked v
      → Looped P T (d ∷ ds) acc t revoked v
  loop_cons d ds acc rs revoked t u v below r l = record {
    pruned = Pruned-trans (Pruned-weaken below r.pruned) l.pruned;
    gone = λ k i. gone_cons k i;
    listed = λ k i. listed_cons k (l.listed k i);
    kept = λ k i. l.kept k (In-append_left k acc rs i);
    complete = λ k was now. complete_cons k was now (r.pruned.kept k);
    holds = l.holds;
  }
    where
      gone_cons : (k : ℕ) → In k (d ∷ ds) → get k v.global_caps ≡ none
      gone_cons k (inl e) = rw e (Pruned-none l.pruned d r.gone)
      gone_cons k (inr i) = l.gone k i

      was_in : (k : ℕ) → get k u.global_caps ≢ none → get k t.global_caps ≢ none
      was_in k h e = h (Pruned-none r.pruned k e)

      listed_rs :
          (k : ℕ)
          → In k acc ⊎ In k rs
          → In k acc ⊎ ((get k t.global_caps ≢ none) × (get k v.global_caps ≡ none))
      listed_rs k (inl i) = inl i
      listed_rs k (inr i) = inr ((r.listed k i).0, Pruned-none l.pruned k (r.listed k i).1)

      listed_cons :
          (k : ℕ)
          → In k (acc ++ rs) ⊎ ((get k u.global_caps ≢ none) × (get k v.global_caps ≡ none))
          → In k acc ⊎ ((get k t.global_caps ≢ none) × (get k v.global_caps ≡ none))
      listed_cons k (inl i) = listed_rs k (In-append k acc rs i)
      listed_cons k (inr (h, n)) = inr (was_in k h, n)

      complete_cons :
          (k : ℕ)
          → get k t.global_caps ≢ none
          → get k v.global_caps ≡ none
          → (get k u.global_caps ≡ get k t.global_caps) ⊎ (get k u.global_caps ≡ none)
          → In k revoked
      complete_cons k was now (inl same) = l.complete k (λ e. was (sym same ∙ e)) now
      complete_cons k was now (inr early) =
          l.kept k (In-append_right k acc rs (r.complete k was early))

  -- A child that is no longer there is passed over.
  loop_skip :
      (d : ℕ) (ds acc revoked : List ℕ) (t v : State)
      → get d t.global_caps ≡ none
      → Looped P T ds acc t revoked v
      → Looped P T (d ∷ ds) acc t revoked v
  loop_skip d ds acc revoked t v missing l = record {
    pruned = l.pruned;
    gone = λ k i. gone_skip k i;
    listed = l.listed;
    kept = l.kept;
    complete = l.complete;
    holds = l.holds;
  }
    where
      gone_skip : (k : ℕ) → In k (d ∷ ds) → get k v.global_caps ≡ none
      gone_skip k (inl e) = rw e (Pruned-none l.pruned d missing)
      gone_skip k (inr i) = l.gone k i

  abbrev Loop : List ℕ → List ℕ → State → Type 0
  Loop ds acc t =
      (revoked : List ℕ) × (v : State) × (revoke_children (λ c s. revoke fuel c revoker s) ds acc t
        ≡ some (revoked, v))
      × Looped P T ds acc t revoked v

  loop :
      (ds acc : List ℕ) (t : State)
      → length t.global_caps < fuel
      → ((d : ℕ) → In d ds → (k : ℕ) → Descends t.global_caps d k → T k)
      → P t
      → Loop ds acc t
  unfolding revoke_children
  loop [] acc t short below holds = (
    acc,
    t,
    refl,
    record {
      pruned = Pruned-refl T t.global_caps;
      gone = λ k i. absurd i;
      listed = λ k i. inl i;
      kept = λ k i. i;
      complete = λ k was now. absurd (was now);
      holds = holds;
    },
  )
  loop (d ∷ ds) acc t short below holds = elim (call_lem d t short holds) [
    | inl (missing, out) ↦
        let (revoked, v, e, l) = loop ds acc t short (λ c i. below c (inr i)) holds in
        (revoked, v, rw (out, revoke_children) e, loop_skip d ds acc revoked t v missing l)
    | inr (rs, u, out, r) ↦
        let (revoked, v, e, l) =
          loop ds (acc ++ rs) u (omega (arith, r.pruned.shorter))
            (λ c i k down. below c (inr i) k (Descends-mono (Pruned-IsWithin r.pruned) down))
            r.holds in
        (
          revoked,
          v,
          rw (out, revoke_children) e,
          loop_cons d ds acc rs revoked t u v (below d (inl refl)) r l,
        )
  ]

global_caps-revoke_one :
    (cap : Capability) (h revoker : ℕ) (s : State)
    → (revoke_one cap h revoker s).global_caps ≡ remove h s.global_caps
unfolding revoke_one
global_caps-revoke_one cap h revoker s = refl

-- The removal of the capability itself, followed by the loop over its children.
module _ (P : State → Type 0) (h revoker : ℕ) (before : State) (cap : Capability)
    (e : get h before.global_caps ≡ some cap) where
  abbrev first : State
  first = revoke_one cap h revoker before

  get-first :
      (k : ℕ) → get k first.global_caps ≡ (if h == k then none else get k before.global_caps)
  get-first k = rw (global_caps-revoke_one cap h revoker before) (get-remove h k before.global_caps)

  length-first : length first.global_caps < length before.global_caps
  length-first =
      rw (global_caps-revoke_one cap h revoker before) (length-remove-lt h cap before.global_caps e)

  first-IsWithin : IsWithin first.global_caps before.global_caps
  first-IsWithin k c here = ground (arith, get-first k)

  finish :
      (revoked : List ℕ) (after : State)
      → Looped P (Descends before.global_caps h) cap.children (h ∷ []) first revoked after
      → Revoked P h before revoked after
  finish revoked after l = record {
    pruned = record {
      shorter = omega (arith, l.pruned.shorter, length-first);
      kept = λ k. kept_first k (ℕ_discrete h k);
      closed = λ c x was now d i. closed_first c x was now d i (ℕ_discrete h c);
      only = λ c x was now. only_first c x was now (ℕ_discrete h c);
    };
    gone = gone_first;
    listed = λ k i. listed_first k (l.listed k i);
    complete = λ k was now. complete_first k was now (ℕ_discrete h k);
    holds = l.holds;
  }
    where
      gone_first : get h after.global_caps ≡ none
      gone_first = Pruned-none l.pruned h (ground (arith, get-first h))

      kept_first :
          (k : ℕ)
          → Dec (h ≡ k)
          → (get k after.global_caps ≡ get k before.global_caps) ⊎ (get k after.global_caps ≡ none)
      kept_first k (yes same) = inr (subst (λ x. get x after.global_caps ≡ none) same gone_first)
      kept_first k (no other) = ground (arith, get-first k, l.pruned.kept k)

      closed_first :
          (c : ℕ) (x : Capability)
          → get c before.global_caps ≡ some x
          → get c after.global_caps ≡ none
          → (d : ℕ) → In d x.children
          → Dec (h ≡ c)
          → get d after.global_caps ≡ none
      closed_first c x was now d i (yes same) =
          let x_cap : x ≡ cap = ground arith in
          l.gone d (subst (λ (y : Capability). In d y.children) x_cap i)
      closed_first c x was now d i (no other) =
          l.pruned.closed c x (ground (arith, get-first c)) now d i

      only_first :
          (c : ℕ) (x : Capability)
          → get c before.global_caps ≡ some x
          → get c after.global_caps ≡ none
          → Dec (h ≡ c)
          → Descends before.global_caps h c
      only_first c x was now (yes same) = subst (Descends before.global_caps h) same root
      only_first c x was now (no other) = l.pruned.only c x (ground (arith, get-first c)) now

      listed_first :
          (k : ℕ)
          → In k (h ∷ []) ⊎ ((get k first.global_caps ≢ none) × (get k after.global_caps ≡ none))
          → (get k before.global_caps ≢ none) × (get k after.global_caps ≡ none)
      listed_first k (inl (inl same)) = rw same ((λ n. cc), gone_first)
      listed_first k (inl (inr i)) = absurd i
      listed_first k (inr (was, now)) = ((λ n. was (ground (arith, get-first k))), now)

      complete_first :
          (k : ℕ)
          → get k before.global_caps ≢ none
          → get k after.global_caps ≡ none
          → Dec (h ≡ k)
          → In k revoked
      complete_first k was now (yes same) = l.kept k (inl (sym same))
      complete_first k was now (no other) =
          l.complete k (λ n. was (ground (arith, get-first k))) now

-- With fuel above the number of capabilities `revoke` ends, and a property that the removal of one
-- capability keeps holds at the end.
module _ (P : State → Type 0) (revoker : ℕ)
    (keep : (h : ℕ) (s : State) (cap : Capability)
      → get h s.global_caps ≡ some cap
      → P s
      → P (revoke_one cap h revoker s)) where
  pub revoke-Outcome :
      (fuel h : ℕ) (s : State)
      → length s.global_caps < fuel
      → P s
      → Outcome P h s (revoke fuel h revoker s)
  unfolding revoke
  revoke-Outcome zero h s short holds = absurd (omega arith)
  revoke-Outcome (suc fuel) h s short holds = elim (Option-cases (get h s.global_caps)) [
    | inl e ↦ inl (e, rw (e, revoke) refl)
    | inr (cap, e) ↦
        let (revoked, v, out, l) =
          loop P revoker fuel (λ d t. revoke-Outcome fuel d t) (Descends s.global_caps h)
            cap.children (h ∷ []) (revoke_one cap h revoker s)
            (omega (arith, length-first P h revoker s cap e))
            (λ d i k down.
              Descends-below cap e i (Descends-mono (first-IsWithin P h revoker s cap e) down))
            (keep h s cap e holds) in
        inr (revoked, v, rw (e, revoke) (rw out refl), finish P h revoker s cap e revoked v l)
  ]
