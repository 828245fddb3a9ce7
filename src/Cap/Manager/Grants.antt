-- ===== src/Cap/Manager/Grants.antt =====
-- kernel/src/cap.rs: what a transfer gives, and what a transfer to no thread loses.
use atom.Prelude.{
  ℕ, ◌≡◌, refl, ◌∙◌, inl, inr, none, some, arith, Option-cases, true, ◌==◌, if◌then◌else◌, ok, err,
  ap,
}
use atom.Prelude.BTreeMap.{get, get-insert}
use atom.Cap.Permissions.{grant}
use atom.Cap.Capability.{Capability, not_found, already_exists, is_owned_by, has_permission}
use atom.Cap.Manager.{State, transfer_capability, log_audit, set_owner}
use atom.Cap.Manager.Invariant.{Inv, Backed}
use atom.Cap.Manager.Invariant.Transferred.{
  transfer_capability-moved, moved_state, moved_threads, transfer_result, set_owner_lem,
}
use atom.Thread.{Thread, find_thread, add_capability, remove_capability}
use atom.Thread.Laws.{
  held, held-add_capability, held-remove_capability, add_capability-ok,
  find_thread-remove_capability, remove_capability-no_thread,
}

module _ (h source : ℕ) (s : State) (c : Capability) (v : Inv s)
    (here : held s.threads source h ≡ some c) where
  taken : Backed s.global_caps source h c
  taken = v.backed source h c here

  -- Once taken from its owner, no thread holds the capability.
  held-taken : (thread_id : ℕ) → held (remove_capability source h s.threads).1 thread_id h ≡ none
  held-taken thread_id = elim (Option-cases (held s.threads thread_id h)) [
    | inl e ↦ ground (arith, held-remove_capability s.threads source h thread_id h)
    | inr (x, e) ↦
        let b = v.backed thread_id h x e in
        ground (
          arith,
          taken.found,
          taken.owner_there,
          b.found,
          b.owner_there,
          held-remove_capability s.threads source h thread_id h,
        )
  ]

  owned : is_owned_by c source ≡ true
  unfolding is_owned_by
  owned = ground (arith, taken.owner_here)

-- Under the invariant, a thread that holds a capability with the permission to grant moves it to a
-- thread that exists: the call succeeds, the target alone holds it, with the same permissions, and
-- the global map names the target as its owner.
pub transfer_capability-held :
    (h source target : ℕ) (s : State) (c g : Capability) (t : Thread)
    → Inv s
    → held s.threads source h ≡ some c
    → get h s.global_caps ≡ some g
    → has_permission c grant ≡ true
    → find_thread target s.threads ≡ some t
    → let (result, after) = transfer_capability h source target s in
      (result ≡ ok tt)
      × ((thread_id : ℕ)
          → held after.threads thread_id h
            ≡ (if target == thread_id then some (record c { owner = target }) else none))
      × (get h after.global_caps ≡ some (record g { owner = target }))
transfer_capability-held h source target s c g t v here known granted there =
    rw law (refl, unfold log_audit in holders, unfold log_audit in owner)
  where
    b : Backed s.global_caps source h c
    b = v.backed source h c here

    added :
        (add_capability target
          (record c { owner = target })
          (remove_capability source h s.threads).1).0
        ≡ ok c.handle
    added =
        let (t', e) = find_thread-remove_capability s.threads source h target t there in
        add_capability-ok _ target (record c { owner = target }) t' e
          (rw b.own_handle (held-taken h source s c v here target))

    law : transfer_capability h source target s ≡ (ok tt, moved_state h source target c s)
    law =
        transfer_capability-moved h source target c s here (owned h source s c v here) granted
        ∙ ap (transfer_result h source target c s) added

    holders :
        (thread_id : ℕ)
        → held (moved_threads h source target c s) thread_id h
          ≡ (if target == thread_id then some (record c { owner = target }) else none)
    holders thread_id = ground (
      arith,
      b.own_handle,
      added,
      held-taken h source s c v here thread_id,
      held-add_capability (remove_capability source h s.threads).1 target
          (record c { owner = target }) thread_id h,
    )

    owner : get h (set_owner h target s.global_caps) ≡ some (record g { owner = target })
    owner =
        rw (set_owner_lem h target s.global_caps g known)
          (ground (arith, get-insert h h (record g { owner = target }) s.global_caps))

-- Under the invariant, `transfer_capability` to a thread that is not in the list takes the capability
-- from its holder for good: the call fails with `already_exists`, no thread holds the capability any
-- more, and the global map still has it with the former holder as its owner.
pub transfer_capability-lost :
    (h source target : ℕ) (s : State) (c : Capability)
    → Inv s
    → held s.threads source h ≡ some c
    → has_permission c grant ≡ true
    → find_thread target s.threads ≡ none
    → let (result, after) = transfer_capability h source target s in
      (result ≡ err already_exists)
      × ((thread_id : ℕ) → held after.threads thread_id h ≡ none)
      × (after.global_caps ≡ s.global_caps)
transfer_capability-lost h source target s c v here granted missing = rw law (refl, nobody, refl)
  where
    gone : find_thread target (remove_capability source h s.threads).1 ≡ none
    gone = remove_capability-no_thread s.threads source h target missing

    failed :
        (add_capability target
          (record c { owner = target })
          (remove_capability source h s.threads).1).0
        ≡ err not_found
    failed = unfold add_capability in rw (gone, add_capability) refl

    law :
        transfer_capability h source target s
        ≡ (err already_exists, record s { threads = moved_threads h source target c s })
    law =
        transfer_capability-moved h source target c s here (owned h source s c v here) granted
        ∙ ap (transfer_result h source target c s) failed

    nobody : (thread_id : ℕ) → held (moved_threads h source target c s) thread_id h ≡ none
    nobody thread_id = ground (
      arith,
      failed,
      held-taken h source s c v here thread_id,
      held-add_capability (remove_capability source h s.threads).1 target
          (record c { owner = target }) thread_id h,
    )
