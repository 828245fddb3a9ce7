-- ===== src/Cap/Manager/Invariant/Transferred.antt =====
-- kernel/src/cap.rs: a transfer keeps the invariant of the manager.
use atom.Prelude.{
  ℕ, ◌≡◌, refl, sym, subst, inl, inr, some, arith, Option-cases, Bool-cases, true, Result, ok, err,
}
use atom.Prelude.BTreeMap.{BTreeMap, get, insert, get-insert}
use atom.Cap.Permissions.{grant}
use atom.Cap.Capability.{Capability, CapError, already_exists, is_owned_by, has_permission}
use atom.Cap.Audit.{new_transfer}
use atom.Cap.Manager.{State, log_audit, set_owner, put_back, transfer_capability}
use atom.Cap.Manager.Invariant.{Backed, IsBacked, Inv}
use atom.Cap.Manager.Invariant.Tables.{IsBacked-remove, IsBacked-add, IsBacked-set_owner}
use atom.Cap.Manager.Invariant.Delegation.{log_audit-Inv, IsForest-set_owner}
use atom.Thread.{ThreadList, add_capability, remove_capability}
use atom.Thread.Laws.{held, held-add_capability, remove_capability-held}

-- The state and the answer once the target's table has answered.
abbrev pub moved_threads : ℕ → ℕ → ℕ → Capability → State → ThreadList
moved_threads h source target cap s =
    (add_capability target (record cap { owner = target })
      (remove_capability source h s.threads).1).1

abbrev pub moved_state : ℕ → ℕ → ℕ → Capability → State → State
moved_state h source target cap s = log_audit (new_transfer s.ticks source h target) (record s {
  threads = moved_threads h source target cap s;
  global_caps = set_owner h target s.global_caps;
})

abbrev pub transfer_result :
    ℕ → ℕ → ℕ → Capability → State → Result ℕ CapError → Result (Unit {0}) CapError × State
transfer_result h source target cap s (err _) =
    (err already_exists, record s { threads = moved_threads h source target cap s })
transfer_result h source target cap s (ok _) = (ok tt, moved_state h source target cap s)

-- A capability that its owner holds, with the permission to grant, goes to the target's table.
pub transfer_capability-moved :
    (h source target : ℕ) (cap : Capability) (s : State)
    → held s.threads source h ≡ some cap
    → is_owned_by cap source ≡ true
    → has_permission cap grant ≡ true
    → transfer_capability h source target s
      ≡ transfer_result h source target cap s
          (add_capability target
            (record cap { owner = target })
            (remove_capability source h s.threads).1).0
unfolding transfer_capability
transfer_capability-moved h source target cap s here owned granted =
    ground (arith, remove_capability-held s.threads source h)

-- Every outcome of a transfer is one of four.
pub transfer_capability-cases :
    (P : State → Type 0) (h source target : ℕ) (s : State)
    → P (record s { threads = (remove_capability source h s.threads).1 })
    → ((cap : Capability)
        → held s.threads source h ≡ some cap
        → P (record s { threads = put_back source cap (remove_capability source h s.threads).1 })
          × ((x : CapError)
              → (add_capability target
                  (record cap { owner = target })
                  (remove_capability source h s.threads).1).0
                ≡ err x
              → P (record s { threads = moved_threads h source target cap s }))
          × P (moved_state h source target cap s))
    → P (transfer_capability h source target s).1
unfolding transfer_capability
transfer_capability-cases P h source target s missing found =
    elim (Option-cases (held s.threads source h)) [
      | inl e ↦ rw (remove_capability-held s.threads source h, transfer_capability) (rw e missing)
      | inr (cap, e) ↦ elim (Bool-cases (is_owned_by cap source)) [
        | inr n ↦
            rw (remove_capability-held s.threads source h, transfer_capability)
              (rw e (rw n (found cap e).0))
        | inl owned ↦ elim (Bool-cases (has_permission cap grant)) [
          | inr n ↦
              rw (remove_capability-held s.threads source h, transfer_capability)
                (rw e (rw owned (rw n (found cap e).0)))
          | inl granted ↦
              rw (transfer_capability-moved h source target cap s e owned granted)
                (settled cap e _ refl)
        ]
      ]
    ]
  where
    settled :
        (cap : Capability)
        → held s.threads source h ≡ some cap
        → (r : Result ℕ CapError)
        → (add_capability target
            (record cap { owner = target })
            (remove_capability source h s.threads).1).0
          ≡ r
        → P (transfer_result h source target cap s r).1
    settled cap e (ok x) q = (found cap e).2
    settled cap e (err x) q = (found cap e).1 x q

pub set_owner_lem :
    (h owner : ℕ) (caps : BTreeMap Capability) (g : Capability)
    → get h caps ≡ some g
    → set_owner h owner caps ≡ insert h (record g { owner = owner }) caps
unfolding set_owner
set_owner_lem h owner caps g e = ground arith

module _ (h source target : ℕ) (s : State) (v : Inv s) (cap : Capability)
    (e : held s.threads source h ≡ some cap) where
  abbrev without : ThreadList
  without = (remove_capability source h s.threads).1

  abbrev given : Capability
  given = record cap { owner = target }

  here : Backed s.global_caps source h cap
  here = v.backed source h cap e

  removed : IsBacked s.global_caps without
  removed = IsBacked-remove s.global_caps s.threads source h v.backed

  IsBacked-back : IsBacked s.global_caps (put_back source cap without)
  unfolding put_back
  IsBacked-back =
      IsBacked-add s.global_caps without source cap
        (subst (λ k. Backed s.global_caps source k cap) (sym here.own_handle) here) removed

  IsBacked-lost :
      (x : CapError)
      → (add_capability target given without).0 ≡ err x
      → IsBacked s.global_caps (add_capability target given without).1
  IsBacked-lost x failed thread_id k c held_c =
      removed thread_id k c (ground (arith, held-add_capability without target given thread_id k))

  abbrev owned_by_target : BTreeMap Capability
  owned_by_target = insert h (record here.entry { owner = target }) s.global_caps

  IsBacked-given : IsBacked owned_by_target (add_capability target given without).1
  IsBacked-given =
      IsBacked-add owned_by_target without target given
        (subst (λ k. Backed owned_by_target target k given) (sym here.own_handle)
          (record {
            entry = record here.entry { owner = target };
            found =
                ground (arith, get-insert h h (record here.entry { owner = target }) s.global_caps);
            own_handle = here.own_handle;
            owner_here = refl;
            owner_there = refl;
            same_permissions = here.same_permissions;
            same_resource = here.same_resource;
          }))
        (IsBacked-set_owner s.global_caps s.threads source h cap here.entry
          (record here.entry { owner = target }) e here.found v.backed)

  moved_state-Inv : Inv (moved_state h source target cap s)
  moved_state-Inv = log_audit-Inv (new_transfer s.ticks source h target) _ (
      rw (set_owner_lem h target s.global_caps here.entry here.found) (record {
        forest =
            IsForest-set_owner s.global_caps s.next_handle h target here.entry here.found v.forest;
        backed = IsBacked-given;
        logged = v.logged;
      }))

-- A transfer keeps the invariant.
pub transfer_capability-Inv :
    (h source target : ℕ) (s : State) → Inv s → Inv (transfer_capability h source target s).1
transfer_capability-Inv h source target s v =
    transfer_capability-cases Inv h source target s
      (record {
        forest = v.forest;
        backed = IsBacked-remove s.global_caps s.threads source h v.backed;
        logged = v.logged;
      })
      λ cap e. (
        record {
          forest = v.forest;
          backed = IsBacked-back h source target s v cap e;
          logged = v.logged;
        },
        λ x failed. record {
          forest = v.forest;
          backed = IsBacked-lost h source target s v cap e x failed;
          logged = v.logged;
        },
        moved_state-Inv h source target s v cap e,
      )
