-- ===== src/Syscall/Capabilities/Run/Safe.antt =====
-- The invariant of the capability manager under every sequence of capability calls.
use atom.Prelude.{
  ℕ, suc, ◌+◌, ◌≤◌, ◌<◌, ◌^◌, ◌≡◌, refl, List, [], ◌∷◌, Option, none, some, arith, inl, inr, Result,
  ok, err, length, Bool-cases, is_some, subst,
}
use atom.Prelude.BTreeMap.{get, insert, get-insert}
use atom.Cap.Permissions.{CapPermissions, IsWord}
use atom.Cap.Capability.{Capability, ResourceType, CapError, new_root}
use atom.Cap.Audit.{AuditEventType, new_entry}
use atom.Cap.Manager.{
  State, log_audit, revoke_one, revoke_capability, create_root_capability, transfer_capability,
}
use atom.Cap.Manager.Invariant.{Inv}
use atom.Cap.Manager.Invariant.Keeps.{revoke_one-Inv}
use atom.Cap.Manager.Invariant.Operations.{
  create_root_capability-ok, create_root_capability-Inv, fresh_none, derive_capability-cases,
}
use atom.Cap.Manager.Invariant.Delegation.{derive_capability-Inv}
use atom.Cap.Manager.Invariant.Transferred.{transfer_capability-cases, transfer_capability-Inv}
use atom.Cap.Manager.Invariant.Tables.{IsBacked-add}
use atom.Cap.Manager.Revocation.Exact.{Outcome, revoke-Outcome}
use atom.Thread.{add_capability, find}
use atom.Syscall.Capabilities.{
  sys_cap_create, sys_cap_revoke, sys_cap_derive, sys_cap_transfer, from_raw_bits, resource_of,
  create_and_attach,
}
use atom.Syscall.Codes.{einval}
use atom.Syscall.Capabilities.Run.{
  Call, cap_create, cap_revoke, cap_derive, cap_transfer, step, run,
}

-- The invariant, with the next handle at most `n`.
abbrev pub IsSafe : ℕ → State → Type 0
IsSafe n s = Inv s × (s.next_handle ≤ n)

IsSafe-suc : (n : ℕ) (s : State) → IsSafe n s → IsSafe (n + 1) s
IsSafe-suc n s v = (v.0, omega arith)

-- Adding a capability to a table that the global map has for its thread.
attach-Inv :
    (s : State) (caller : ℕ) (new : Capability)
    → get new.handle s.global_caps ≡ some new
    → new.owner ≡ caller
    → Inv s
    → Inv (record s { threads = (add_capability caller new s.threads).1 })
attach-Inv s caller new there own v = record {
  forest = v.forest;
  backed =
      IsBacked-add s.global_caps s.threads caller new
        (record {
          entry = new;
          found = there;
          own_handle = refl;
          owner_here = own;
          owner_there = own;
          same_permissions = refl;
          same_resource = refl;
        })
        v.backed;
  logged = v.logged;
}

module _ (n caller : ℕ) (resource : ResourceType) (perms : CapPermissions) (s : State)
    (word : IsWord perms) (room : n + 1 < 2 ^ 64) (safe : IsSafe n s) where
  abbrev new : Capability
  new = new_root s.next_handle resource caller perms

  abbrev created : State
  created = log_audit (new_entry s.ticks AuditEventType.create caller s.next_handle) (record s {
    next_handle = s.next_handle + 1;
    global_caps = insert s.next_handle new s.global_caps;
  })

  created_lem : create_root_capability resource caller perms s ≡ (ok new, created)
  created_lem =
      create_root_capability-ok resource caller perms s
        (fresh_none s.global_caps s.next_handle safe.0.forest) (omega arith)

  -- The two steps of a creation: the root capability, and its copy in the caller's table.
  attached-IsSafe :
      IsSafe (n + 1) (record created { threads = (add_capability caller new created.threads).1 })
  unfolding log_audit new_root
  attached-IsSafe = (
    attach-Inv created caller new
        (ground (arith, get-insert s.next_handle s.next_handle new s.global_caps)) refl
        (subst (λ (r : Result Capability CapError × State). Inv r.1) created_lem
          (create_root_capability-Inv resource caller perms s word (omega arith) safe.0)),
    omega arith,
  )

  create_and_attach-IsSafe : IsSafe (n + 1) (create_and_attach resource caller perms s).1
  unfolding create_and_attach
  create_and_attach-IsSafe = rw (created_lem, create_and_attach) attached-IsSafe

pub create-IsSafe :
    (n resource_type resource_id permissions : ℕ) (current : Option ℕ) (s : State)
    → n + 1 < 2 ^ 64
    → IsSafe n s
    → IsSafe (n + 1) (sys_cap_create resource_type resource_id permissions current s).1
unfolding sys_cap_create
create-IsSafe n resource_type resource_id permissions none s room v = IsSafe-suc n s v
create-IsSafe n resource_type resource_id permissions (some caller) s room v =
    go (resource_of resource_type resource_id) refl
  where
    go :
        (r : Result ResourceType ℕ)
        → resource_of resource_type resource_id ≡ r
        → IsSafe (n + 1) (sys_cap_create resource_type resource_id permissions (some caller) s).1
    go (err code) e = rw (e, sys_cap_create) (IsSafe-suc n s v)
    go (ok resource) e =
        rw (e, sys_cap_create)
          (create_and_attach-IsSafe n caller resource (from_raw_bits permissions) s (omega arith)
            room v)

revoke_one-IsSafe :
    (n revoker h : ℕ) (s : State) (c : Capability)
    → get h s.global_caps ≡ some c
    → IsSafe n s
    → IsSafe n (revoke_one c h revoker s)
revoke_one-IsSafe n revoker h s c e v =
    (revoke_one-Inv revoker h s c e v.0, unfold revoke_one log_audit in v.1)

revoke_capability-IsSafe :
    (n h revoker : ℕ) (s : State)
    → IsSafe n s
    → Outcome (IsSafe n) h s (revoke_capability h revoker s)
unfolding revoke_capability
revoke_capability-IsSafe n h revoker s v =
    revoke-Outcome (IsSafe n) revoker (revoke_one-IsSafe n revoker) (suc (length s.global_caps)) h s
      (omega arith) v

abbrev Steps : ℕ → Option (ℕ × State) → Type 0
Steps n out = (code : ℕ) × (after : State) × (out ≡ some (code, after)) × IsSafe n after

revoke-IsSafe :
    (n h : ℕ) (current : Option ℕ) (s : State) → IsSafe n s → Steps n (sys_cap_revoke h current s)
unfolding sys_cap_revoke
revoke-IsSafe n h none s v = (einval, s, refl, v)
revoke-IsSafe n h (some caller) s v = elim (revoke_capability-IsSafe n h caller s v) [
  | inl (missing, e) ↦ (einval, s, rw (e, sys_cap_revoke) refl, v)
  | inr (revoked, after, e, r) ↦ (length revoked, after, rw (e, sys_cap_revoke) refl, r.holds)
]

pub derive-IsSafe :
    (n parent new_owner perms : ℕ) (current : Option ℕ) (s : State)
    → n + 1 < 2 ^ 64
    → IsSafe n s
    → IsSafe (n + 1) (sys_cap_derive parent new_owner perms current s).1
unfolding sys_cap_derive
derive-IsSafe n parent new_owner perms none s room v = IsSafe-suc n s v
derive-IsSafe n parent new_owner perms (some caller) s room v = (
  derive_capability-Inv parent caller new_owner (from_raw_bits perms) s (omega arith) (omega arith)
      v.0,
  derive_capability-cases (λ t. t.next_handle ≤ n + 1) parent caller new_owner (from_raw_bits perms)
      s (omega arith) λ c e sub. (omega arith, unfold log_audit in omega arith),
)

transfer-IsSafe :
    (n h target : ℕ) (current : Option ℕ) (s : State)
    → IsSafe n s
    → IsSafe n (sys_cap_transfer h target current s).1
unfolding sys_cap_transfer
transfer-IsSafe n h target none s v = v
transfer-IsSafe n h target (some caller) s v = elim (Bool-cases (is_some (find target s.threads))) [
  | inl there ↦ rw there (moved, bounded)
  | inr missing ↦ rw missing v
]
  where
    moved : Inv (transfer_capability h caller target s).1
    moved = transfer_capability-Inv h caller target s v.0

    bounded : (transfer_capability h caller target s).1.next_handle ≤ n
    bounded =
        transfer_capability-cases (λ t. t.next_handle ≤ n) h caller target s v.1
          λ c e. (v.1, (λ x failed. v.1), unfold log_audit in v.1)

step-IsSafe :
    (n : ℕ) (c : Option ℕ × Call) (s : State)
    → n + 1 < 2 ^ 64
    → IsSafe n s
    → Steps (n + 1) (step c s)
unfolding step
step-IsSafe n (current, cap_create resource_type resource_id permissions) s room v =
    let out = sys_cap_create resource_type resource_id permissions current s in
    (out.0, out.1, refl, create-IsSafe n resource_type resource_id permissions current s room v)
step-IsSafe n (current, cap_revoke handle) s room v =
    let (code, after, e, safe) = revoke-IsSafe n handle current s v in
    (code, after, e, IsSafe-suc n after safe)
step-IsSafe n (current, cap_derive parent new_owner perms) s room v =
    let out = sys_cap_derive parent new_owner perms current s in
    (out.0, out.1, refl, derive-IsSafe n parent new_owner perms current s room v)
step-IsSafe n (current, cap_transfer handle target) s room v =
    let out = sys_cap_transfer handle target current s in
    (out.0, out.1, refl, IsSafe-suc n out.1 (transfer-IsSafe n handle target current s v))

-- From a state that meets the invariant, any sequence of capability calls ends, and in a state that
-- meets it, if there are more handles left than calls.
pub run-Inv :
    (calls : List (Option ℕ × Call)) (s : State)
    → s.next_handle + length calls < 2 ^ 64
    → Inv s
    → (after : State) × (run calls s ≡ some after) × Inv after
unfolding run
run-Inv [] s room v = (s, refl, v)
run-Inv (c ∷ calls) s room v =
    let (code, next, e, safe) = step-IsSafe s.next_handle c s (omega arith) (v, omega arith) in
    let (after, f, inv) = run-Inv calls next (omega (arith, safe.1)) safe.0 in
    (after, rw (e, run) f, inv)
