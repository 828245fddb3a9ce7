-- ===== src/Cap/Manager/Security.antt =====
-- kernel/src/cap.rs: what the capability system promises. Revocation takes out a whole tree and
-- leaves no copy in a thread's table; delegation never adds a permission.
use atom.Prelude.{
  ℕ, suc, ◌≡◌, ◌≢◌, ◌↔◌, refl, ◌∙◌, ◌⊎◌, inl, inr, List, none, some, arith, Option-cases, true, ok,
  err, length, In,
}
use atom.Prelude.BTreeMap.{get}
use atom.Cap.Permissions.{is_subset_of}
use atom.Cap.Permissions.Attenuation.{is_subset_of_refl, is_subset_of_trans}
use atom.Cap.Capability.{Capability, not_found}
use atom.Cap.Manager.{State, revoke_capability}
use atom.Cap.Manager.Invariant.{Inv}
use atom.Cap.Manager.Invariant.Keeps.{revoke_one-Inv}
use atom.Cap.Manager.Revocation.{Descends, root, child}
use atom.Cap.Manager.Revocation.Exact.{Revoked, revoke-Outcome}
use atom.Thread.Laws.{held}

Descends-gone :
    (P : State → Type 0) (h : ℕ) (s after : State) (revoked : List ℕ)
    → Revoked P h s revoked after
    → (k : ℕ) → Descends s.global_caps h k
    → get k after.global_caps ≡ none
Descends-gone P h s after revoked r k root = r.gone
Descends-gone P h s after revoked r k (child {c} cap d above e i) =
    r.pruned.closed c cap e (Descends-gone P h s after revoked r c above) d i

-- The tree below `h`, and nothing else, is gone, and `revoked` names what went.
pub record RevokesTree (h : ℕ) (before : State) (revoked : List ℕ) (after : State) : Type 0 where
  pub exactly :
      (k : ℕ) (c : Capability)
      → get k before.global_caps ≡ some c
      → (get k after.global_caps ≡ none) ↔ Descends before.global_caps h k
  pub unchanged :
      (k : ℕ) → get k after.global_caps ≢ none → get k after.global_caps ≡ get k before.global_caps
  pub named :
      (k : ℕ)
      → In k revoked ↔ ((get k before.global_caps ≢ none) × (get k after.global_caps ≡ none))

Revoked-RevokesTree :
    (P : State → Type 0) (h : ℕ) (s after : State) (revoked : List ℕ)
    → Revoked P h s revoked after
    → RevokesTree h s revoked after
Revoked-RevokesTree P h s after revoked r = record {
  exactly = λ k c e. (r.pruned.only k c e, Descends-gone P h s after revoked r k);
  unchanged = λ k there. unchanged k there (r.pruned.kept k);
  named = λ k. (r.listed k, λ went. r.complete k went.0 went.1);
}
  where
    unchanged :
        (k : ℕ)
        → get k after.global_caps ≢ none
        → (get k after.global_caps ≡ get k s.global_caps) ⊎ (get k after.global_caps ≡ none)
        → get k after.global_caps ≡ get k s.global_caps
    unchanged k there (inl same) = same
    unchanged k there (inr gone) = absurd (there gone)

-- `revoke_capability` always returns. A handle that is not there is the error `not_found` and
-- changes nothing. Otherwise, of the capabilities in the map exactly those that descend from the
-- handle by the lists of children are removed, the others are unchanged, and the list returned
-- holds exactly the handles removed.
pub revoke_capability-RevokesTree :
    (h revoker : ℕ) (s : State)
    → ((get h s.global_caps ≡ none) × (revoke_capability h revoker s ≡ some (err not_found, s)))
      ⊎ ((revoked : List ℕ) × (after : State) × (revoke_capability h revoker s
            ≡ some (ok revoked, after))
          × RevokesTree h s revoked after)
unfolding revoke_capability
revoke_capability-RevokesTree h revoker s =
    elim (revoke-Outcome (λ _. Unit {0}) revoker (λ k t c e p. tt) (suc (length s.global_caps)) h s
      (omega arith) tt) [
        | inl missing ↦ inl missing
        | inr (revoked, after, e, r) ↦
            inr (revoked, after, e, Revoked-RevokesTree (λ _. Unit {0}) h s after revoked r)
      ]

-- From a state that meets the invariant, after `revoke_capability` has returned `ok`, no thread's
-- table holds the handle that was revoked or any that descended from it.
pub held-revoke_capability :
    (h revoker : ℕ) (s after : State) (revoked : List ℕ)
    → Inv s
    → revoke_capability h revoker s ≡ some (ok revoked, after)
    → (k thread_id : ℕ) → Descends s.global_caps h k
    → held after.threads thread_id k ≡ none
unfolding revoke_capability
held-revoke_capability h revoker s after revoked v e k thread_id below =
    elim (revoke-Outcome Inv revoker (revoke_one-Inv revoker) (suc (length s.global_caps)) h s
      (omega arith) v) [
        | inl (missing, f) ↦ cc
        | inr (revoked', after', f, r) ↦
            let same : after' ≡ after = ground arith in
            elim (Option-cases (held after.threads thread_id k)) [
              | inl none_held ↦ none_held
              | inr (c, here) ↦
                  let b = r.holds.backed thread_id k c (rw same here) in
                  let gone = Descends-gone Inv h s after' revoked' r k below in cc
            ]
      ]

-- Under the invariant a capability allows nothing that its ancestors do not, and stands for the
-- same resource: if both are in the map and `k` descends from `h`, its permissions are a subset of
-- those of `h`.
pub Descends-is_subset_of :
    (s : State) (h k : ℕ) (a c : Capability)
    → Inv s
    → Descends s.global_caps h k
    → get h s.global_caps ≡ some a
    → get k s.global_caps ≡ some c
    → (is_subset_of c.permissions a.permissions ≡ true) × (c.resource ≡ a.resource)
Descends-is_subset_of s h k a c v root e f =
    let same : c ≡ a = ground arith in
    rw same (is_subset_of_refl a.permissions (v.forest h a e).word, refl)
Descends-is_subset_of s h k a c v (child {c = m} parent d above g i) e f =
    let (less, res) = Descends-is_subset_of s h m a parent v above e g in
    let (link, fewer, same) = (v.forest m parent g).children_link d c i f in
    (
      is_subset_of_trans c.permissions parent.permissions a.permissions (v.forest d c f).word
          (v.forest m parent g).word (v.forest h a e).word fewer less,
      same ∙ res,
    )
