-- ===== src/Cap/Manager/Derivation.antt =====
-- kernel/src/cap.rs, `derive_capability`: the child it makes, and what stays behind when the new
-- owner is no thread.
use atom.Prelude.{
  ℕ, ◌≡◌, refl, ◌∙◌, inl, inr, [], ◌∷◌, ◌++◌, none, some, arith, Option-cases, true, ◌==◌,
  if◌then◌else◌, ok, err, ap,
}
use atom.Prelude.BTreeMap.{get, insert, get-insert}
use atom.Cap.Permissions.{is_subset_of, CapPermissions, grant}
use atom.Cap.Capability.{Capability, not_found, is_owned_by, has_permission}
use atom.Cap.Manager.{State, derive_capability, log_audit}
use atom.Cap.Manager.Invariant.{Inv}
use atom.Cap.Manager.Invariant.Operations.{
  derive_capability-added, derived_child, derived_state, derived_result, fresh_none,
}
use atom.Thread.{Thread, find_thread, add_capability, has_capability}
use atom.Thread.Laws.{held, held-add_capability, add_capability-ok}

-- What `derive_capability` tests, in its order.
pub record MayDerive (p owner_thread : ℕ) (perms : CapPermissions) (s : State) (parent : Capability)
    : Type 0 where
  pub has : has_capability owner_thread p s.threads ≡ true
  pub found : get p s.global_caps ≡ some parent
  pub owned : is_owned_by parent owner_thread ≡ true
  pub granted : has_permission parent grant ≡ true
  pub sub : is_subset_of perms parent.permissions ≡ true

module _ (p owner_thread new_owner : ℕ) (perms : CapPermissions) (s : State) (parent : Capability)
    (v : Inv s) (may : MayDerive p owner_thread perms s parent) where
  abbrev new : Capability
  new = derived_child s.next_handle parent new_owner perms

  abbrev listed : Capability
  listed = record parent { children = parent.children ++ s.next_handle ∷ [] }

  abbrev after : State
  after = derived_state p parent new_owner perms s

  derived_lem :
      derive_capability p owner_thread new_owner perms s
      ≡ derived_result p owner_thread parent new_owner perms s
          (add_capability new_owner new s.threads).0
  derived_lem =
      derive_capability-added p owner_thread new_owner perms s parent may.has may.found may.owned
        may.granted may.sub

  child_there : get s.next_handle after.global_caps ≡ some new
  child_there =
      ground (arith, get-insert s.next_handle s.next_handle new (insert p listed s.global_caps))

  parent_there : get p after.global_caps ≡ some listed
  parent_there = ground (
    arith,
    (v.forest p parent may.found).fresh,
    get-insert s.next_handle p new (insert p listed s.global_caps),
    get-insert p p listed s.global_caps,
  )

  -- No thread holds the next handle.
  held-next : (thread_id : ℕ) → held s.threads thread_id s.next_handle ≡ none
  held-next thread_id = elim (Option-cases (held s.threads thread_id s.next_handle)) [
    | inl e ↦ e
    | inr (x, e) ↦
        let b = v.backed thread_id s.next_handle x e in
        let fresh = fresh_none s.global_caps s.next_handle v.forest in cc
  ]

-- Under the invariant, if the tests pass and the new owner is a thread, `derive_capability` returns
-- the next handle: the global map has the child under it, with the permissions asked for, the
-- parent's resource and the parent as its parent, the parent lists it last, and of all threads just
-- the new owner holds it.
pub derive_capability-child :
    (p owner_thread new_owner : ℕ) (perms : CapPermissions) (s : State) (parent : Capability)
    (t : Thread)
    → Inv s
    → MayDerive p owner_thread perms s parent
    → find_thread new_owner s.threads ≡ some t
    → let (result, s') = derive_capability p owner_thread new_owner perms s in
      let new = derived_child s.next_handle parent new_owner perms in
      (result ≡ ok s.next_handle)
      × (get s.next_handle s'.global_caps ≡ some new)
      × (get p s'.global_caps
          ≡ some (record parent { children = parent.children ++ s.next_handle ∷ [] }))
      × ((thread_id : ℕ)
          → held s'.threads thread_id s.next_handle
            ≡ (if new_owner == thread_id then some new else none))
derive_capability-child p owner_thread new_owner perms s parent t v may there = rw law (
    unfold log_audit in
    (
      refl,
      child_there p owner_thread new_owner perms s parent v may,
      parent_there p owner_thread new_owner perms s parent v may,
      holders,
    ))
  where
    new_cap : Capability
    new_cap = derived_child s.next_handle parent new_owner perms

    added : (add_capability new_owner new_cap s.threads).0 ≡ ok s.next_handle
    added =
        add_capability-ok s.threads new_owner new_cap t there
          (held-next p owner_thread new_owner perms s parent v may new_owner)

    law :
        derive_capability p owner_thread new_owner perms s
        ≡ derived_result p owner_thread parent new_owner perms s (ok s.next_handle)
    law =
        derived_lem p owner_thread new_owner perms s parent v may
        ∙ ap (derived_result p owner_thread parent new_owner perms s) added

    holders :
        (thread_id : ℕ)
        → held (derived_state p parent new_owner perms s).threads thread_id s.next_handle
          ≡ (if new_owner == thread_id then some new_cap else none)
    holders thread_id = ground (
      arith,
      added,
      held-next p owner_thread new_owner perms s parent v may thread_id,
      held-add_capability s.threads new_owner new_cap thread_id s.next_handle,
    )

-- Under the invariant, if the tests pass and the new owner is no thread, `derive_capability` fails
-- with `not_found`, and yet the global map keeps the child and the parent lists it; no thread's table
-- changes.
pub derive_capability-orphan :
    (p owner_thread new_owner : ℕ) (perms : CapPermissions) (s : State) (parent : Capability)
    → Inv s
    → MayDerive p owner_thread perms s parent
    → find_thread new_owner s.threads ≡ none
    → let (result, s') = derive_capability p owner_thread new_owner perms s in
      (result ≡ err not_found)
      × (get s.next_handle s'.global_caps
          ≡ some (derived_child s.next_handle parent new_owner perms))
      × (get p s'.global_caps
          ≡ some (record parent { children = parent.children ++ s.next_handle ∷ [] }))
      × (s'.threads ≡ s.threads)
derive_capability-orphan p owner_thread new_owner perms s parent v may missing = rw law (
  refl,
  child_there p owner_thread new_owner perms s parent v may,
  parent_there p owner_thread new_owner perms s parent v may,
  unfold add_capability in rw (missing, add_capability) refl,
)
  where
    failed :
        (add_capability new_owner (derived_child s.next_handle parent new_owner perms) s.threads).0
        ≡ err not_found
    failed = unfold add_capability in rw (missing, add_capability) refl

    law :
        derive_capability p owner_thread new_owner perms s
        ≡ derived_result p owner_thread parent new_owner perms s (err not_found)
    law =
        derived_lem p owner_thread new_owner perms s parent v may
        ∙ ap (derived_result p owner_thread parent new_owner perms s) failed
