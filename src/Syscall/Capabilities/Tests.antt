-- ===== src/Syscall/Capabilities/Tests.antt =====
-- The capability calls on a small system: two threads, of which the first makes a capability, derives
-- one of it for the second, and revokes or transfers it.
use atom.Prelude.{
  ℕ, ◌≡◌, refl, List, [], ◌∷◌, ◌++◌, Option, none, some, arith, true, ok, err, inl, inr, ◌⊎◌, ◌==◌,
  if◌then◌else◌, Bool-cases,
}
use atom.Prelude.BTreeMap.{get, insert, remove}
use atom.Cap.Permissions.{contains, is_subset_of, grant}
use atom.Cap.Permissions.Attenuation.{contains-is_subset_of}
use atom.Cap.Capability.{
  Capability, thread, already_exists, not_found, new_root, derive, has_permission, is_owned_by,
}
use atom.Cap.Table
use atom.Cap.Audit.{new_entry, new_derive, create, AuditEventType}
use atom.Cap.Manager.{
  State, create_root_capability, new_handle, register, log_audit, get_audit_log, derive_capability,
  revoke_capability, revoke, revoke_children, revoke_one, transfer_capability,
}
use atom.Cap.Manager.Invariant.{Inv}
use atom.Cap.Manager.Invariant.Operations.{derived_child}
use atom.Cap.Manager.Revocation.{Descends, root, child}
use atom.Cap.Manager.Security.{RevokesTree, revoke_capability-RevokesTree, held-revoke_capability}
use atom.Cap.Manager.Grants.{transfer_capability-held, transfer_capability-lost}
use atom.Cap.Manager.Derivation.{MayDerive, derive_capability-child, derive_capability-orphan}
use atom.Cap.Manager.Log.{get_audit_log-log_audit}
use atom.Thread.{
  Thread, ThreadState, ThreadPriority, find_thread, put_thread, add_capability, remove_capability,
  has_capability,
}
use atom.Thread.Laws.{held}
use atom.Syscall.Capabilities.{sys_cap_create, sys_cap_derive, create_and_attach, resource_of}
use atom.Syscall.Capabilities.Run.{Call, run}
use atom.Syscall.Capabilities.Run.Attenuates.{IsAttenuated, run-IsAttenuated}
use atom.Syscall.Capabilities.Run.Safe.{IsSafe, create-IsSafe, derive-IsSafe, run-Inv}

abbrev pub idle_thread : ℕ → Thread
idle_thread id = record {
  id = id;
  state = ThreadState.ready;
  kernel_stack = 0;
  kernel_stack_size = 16384;
  address_space = 0;
  priority = ThreadPriority.normal;
  capability_table = record { capabilities = []; owner = id };
}

abbrev pub boot : State
boot = record {
  next_handle = 1;
  global_caps = [];
  audit_log = [];
  threads = idle_thread 1 ∷ idle_thread 2 ∷ [];
  ticks = 5;
}

no_capability : (thread_id h : ℕ) → held boot.threads thread_id h ≡ none
unfolding held find_thread Table.get get
no_capability thread_id h = elim (Bool-cases (1 == thread_id)) [
  | inl e ↦ rw (e, held) refl
  | inr e ↦ elim (Bool-cases (2 == thread_id)) [
    | inl f ↦ rw (e, f, held) refl
    | inr f ↦ rw (e, f, held) refl
  ]
]

boot-Inv : Inv boot
unfolding get
boot-Inv = record {
  forest = λ h cap e. cc;
  backed = λ thread_id h c e. absurd (ground (arith, no_capability thread_id h));
  logged = omega arith;
}

-- The first thread has made capability 1, with all of the five permissions.
abbrev pub created : State
created = (sys_cap_create 0 9 31 (some 1) boot).1

pub created-IsSafe : IsSafe 9 created
created-IsSafe = create-IsSafe 8 0 9 31 (some 1) boot (omega arith) (boot-Inv, omega arith)

-- It has given the second thread capability 2, to read and to grant.
abbrev derived : State
derived = (sys_cap_derive 1 2 9 (some 1) created).1

derived-IsSafe : IsSafe 10 derived
derived-IsSafe = derive-IsSafe 9 1 2 9 (some 1) created (omega arith) created-IsSafe

abbrev first : Capability
first = record {
  handle = 1;
  resource = thread 9;
  permissions = record { bits = 31 };
  owner = 1;
  parent = none;
  children = [];
}

abbrev calls : List (Option ℕ × Call)
calls =
    (some 1, Call.cap_create 0 9 31)
    ∷ (some 1, Call.cap_derive 1 2 9)
    ∷ (some 2, Call.cap_revoke 1)
    ∷ []

run-Inv_example : (after : State) × (run calls boot ≡ some after) × Inv after
run-Inv_example = run-Inv calls boot (omega arith) boot-Inv

-- The second thread tries to hand on more than it has, then a part of it, and gets the first one.
abbrev delegations : List (Option ℕ × Call)
delegations =
    (some 1, Call.cap_create 0 9 31)
    ∷ (some 1, Call.cap_derive 1 2 9)
    ∷ (some 2, Call.cap_derive 2 1 13)
    ∷ (some 2, Call.cap_derive 2 1 8)
    ∷ (some 1, Call.cap_transfer 1 2)
    ∷ []

run-IsAttenuated_example :
    (after : State) × (run delegations boot ≡ some after) × IsAttenuated after
run-IsAttenuated_example =
    run-IsAttenuated delegations boot
      (record { no_entry = refl; none_held = no_capability; logged = omega arith }) (omega arith)

abbrev first_listed : Capability
first_listed = record first { children = 2 ∷ [] }

-- What the calls leave in the maps, by computation.
first-held : held created.threads 1 1 ≡ some first
unfolding sys_cap_create sys_cap_derive create_and_attach resource_of create_root_capability
    new_handle register log_audit new_entry new_derive new_root derive derive_capability
    is_subset_of has_permission is_owned_by contains find_thread put_thread add_capability
    remove_capability has_capability held get insert remove Table.get Table.insert Table.remove
    Table.contains
first-held = refl

first_created : get 1 created.global_caps ≡ some first
unfolding sys_cap_create sys_cap_derive create_and_attach resource_of create_root_capability
    new_handle register log_audit new_entry new_derive new_root derive derive_capability
    is_subset_of has_permission is_owned_by contains find_thread put_thread add_capability
    remove_capability has_capability held get insert remove Table.get Table.insert Table.remove
    Table.contains
first_created = refl

target_there : find_thread 2 created.threads ≡ some (idle_thread 2)
unfolding sys_cap_create sys_cap_derive create_and_attach resource_of create_root_capability
    new_handle register log_audit new_entry new_derive new_root derive derive_capability
    is_subset_of has_permission is_owned_by contains find_thread put_thread add_capability
    remove_capability has_capability held get insert remove Table.get Table.insert Table.remove
    Table.contains
target_there = refl

nobody_there : find_thread 3 created.threads ≡ none
unfolding sys_cap_create sys_cap_derive create_and_attach resource_of create_root_capability
    new_handle register log_audit new_entry new_derive new_root derive derive_capability
    is_subset_of has_permission is_owned_by contains find_thread put_thread add_capability
    remove_capability has_capability held get insert remove Table.get Table.insert Table.remove
    Table.contains
nobody_there = refl

grants : has_permission first grant ≡ true
unfolding has_permission contains
grants = refl

first_there : get 1 derived.global_caps ≡ some first_listed
unfolding sys_cap_create sys_cap_derive create_and_attach resource_of create_root_capability
    new_handle register log_audit new_entry new_derive new_root derive derive_capability
    is_subset_of has_permission is_owned_by contains find_thread put_thread add_capability
    remove_capability has_capability held get insert remove Table.get Table.insert Table.remove
    Table.contains
first_there = refl

second_below : Descends derived.global_caps 1 2
second_below = child first_listed 2 root first_there (inl refl)

may_derive : MayDerive 1 1 (record { bits = 9 }) created first
unfolding sys_cap_create sys_cap_derive create_and_attach resource_of create_root_capability
    new_handle register log_audit new_entry new_derive new_root derive derive_capability
    is_subset_of has_permission is_owned_by contains find_thread put_thread add_capability
    remove_capability has_capability held get insert remove Table.get Table.insert Table.remove
    Table.contains
may_derive = record { has = refl; found = refl; owned = refl; granted = refl; sub = refl }

revoke_capability-RevokesTree_example :
    ((get 1 derived.global_caps ≡ none)
      × (revoke_capability 1 2 derived ≡ some (err not_found, derived)))
    ⊎ ((revoked : List ℕ) × (after : State) × (revoke_capability 1 2 derived
          ≡ some (ok revoked, after))
        × RevokesTree 1 derived revoked after)
revoke_capability-RevokesTree_example = revoke_capability-RevokesTree 1 2 derived

transfer_capability-held_example :
    let (result, after) = transfer_capability 1 1 2 created in
    (result ≡ ok tt)
    × ((thread_id : ℕ)
        → held after.threads thread_id 1
          ≡ (if 2 == thread_id then some (record first { owner = 2 }) else none))
    × (get 1 after.global_caps ≡ some (record first { owner = 2 }))
transfer_capability-held_example =
    transfer_capability-held 1 1 2 created first first (idle_thread 2) created-IsSafe.0 first-held
      first_created grants target_there

transfer_capability-lost_example :
    let (result, after) = transfer_capability 1 1 3 created in
    (result ≡ err already_exists)
    × ((thread_id : ℕ) → held after.threads thread_id 1 ≡ none)
    × (after.global_caps ≡ created.global_caps)
transfer_capability-lost_example =
    transfer_capability-lost 1 1 3 created first created-IsSafe.0 first-held grants nobody_there

derive_capability-child_example :
    let (result, after) = derive_capability 1 1 2 (record { bits = 9 }) created in
    (result ≡ ok created.next_handle)
    × (get created.next_handle after.global_caps
        ≡ some (derived_child created.next_handle first 2 (record { bits = 9 })))
    × (get 1 after.global_caps
        ≡ some (record first { children = first.children ++ created.next_handle ∷ [] }))
    × ((thread_id : ℕ)
        → held after.threads thread_id created.next_handle ≡ (
            if 2 == thread_id
            then some (derived_child created.next_handle first 2 (record { bits = 9 }))
            else none))
derive_capability-child_example =
    derive_capability-child 1 1 2 (record { bits = 9 }) created first (idle_thread 2)
      created-IsSafe.0 may_derive target_there

derive_capability-orphan_example :
    let (result, after) = derive_capability 1 1 3 (record { bits = 9 }) created in
    (result ≡ err not_found)
    × (get created.next_handle after.global_caps
        ≡ some (derived_child created.next_handle first 3 (record { bits = 9 })))
    × (get 1 after.global_caps
        ≡ some (record first { children = first.children ++ created.next_handle ∷ [] }))
    × (after.threads ≡ created.threads)
derive_capability-orphan_example =
    derive_capability-orphan 1 1 3 (record { bits = 9 }) created first created-IsSafe.0 may_derive
      nobody_there

sub_holds : is_subset_of (record { bits = 9 }) (record { bits = 31 }) ≡ true
unfolding is_subset_of
sub_holds = refl

has_grant : contains (record { bits = 9 }) grant ≡ true
unfolding contains
has_grant = refl

contains-is_subset_of_example : contains (record { bits = 31 }) grant ≡ true
contains-is_subset_of_example =
    contains-is_subset_of (record { bits = 9 }) (record { bits = 31 }) grant (omega arith)
      (omega arith) (omega arith) sub_holds has_grant

get_audit_log-log_audit_example :
    get_audit_log 5 (log_audit (new_entry 7 create 1 4) boot)
    ≡ new_entry 7 create 1 4 ∷ get_audit_log 4 boot
get_audit_log-log_audit_example =
    get_audit_log-log_audit (new_entry 7 create 1 4) boot 4 (omega arith)

abbrev revoked_state : State
revoked_state = record derived {
  global_caps = [];
  threads = idle_thread 1 ∷ idle_thread 2 ∷ [];
  audit_log =
      derived.audit_log
      ++ new_entry 5 AuditEventType.revoke 2 1 ∷ new_entry 5 AuditEventType.revoke 2 2 ∷ [];
}

revokes : revoke_capability 1 2 derived ≡ some (ok (1 ∷ 2 ∷ []), revoked_state)
unfolding sys_cap_create sys_cap_derive create_and_attach resource_of create_root_capability
    new_handle register log_audit new_entry new_derive new_root derive derive_capability
    is_subset_of has_permission is_owned_by contains find_thread put_thread add_capability
    remove_capability has_capability held get insert remove Table.get Table.insert Table.remove
    Table.contains revoke_capability revoke revoke_children revoke_one
revokes = refl

held-revoke_capability_example : held revoked_state.threads 2 2 ≡ none
held-revoke_capability_example =
    held-revoke_capability 1 2 derived revoked_state (1 ∷ 2 ∷ []) derived-IsSafe.0 revokes 2 2
      second_below
