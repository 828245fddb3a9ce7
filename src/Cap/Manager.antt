-- ===== src/Cap/Manager.antt =====
-- kernel/src/cap.rs: `CapabilityManager` and the operations of the module.
-- `State` joins what they share: the counter of `CapHandle::new`, the two locked fields of the
-- manager, the list of threads (each with its table), and the timer ticks that `get_ticks` reads.
-- The kernel runs on one core and an operation is not preempted, so each is one step.
pub mod Invariant
pub mod Revocation
pub mod Security
pub mod Grants
pub mod Derivation
pub mod Log
use atom.Prelude.{
  ℕ, zero, suc, ◌+◌, ◌%◌, ◌^◌, min, List, [], ◌∷◌, ◌++◌, reverse, Option, none, some, not,
  if◌then◌else◌, Result, ok, err, length, take, drop, leb,
}
use atom.Prelude.BTreeMap
use atom.Prelude.BTreeMap.{BTreeMap, contains_key, values}
use atom.Cap.Permissions.{CapPermissions, grant}
use atom.Cap.Capability.{
  Capability, ResourceType, thread, memory_region, ipc_port, irq, device, dma_buffer,
  shared_memory_region, CapError, not_found, permission_denied, already_exists, not_owner, new_root,
  has_permission, is_owned_by,
}
use atom.Cap.Capability
use atom.Cap.Audit.{AuditLogEntry, AuditEventType, new_entry, new_derive, new_transfer}
use atom.Thread.{ThreadList}
use atom.Thread

pub record State : Type 0 where
  pub next_handle : ℕ
  pub global_caps : BTreeMap Capability
  pub audit_log : List AuditLogEntry
  pub threads : ThreadList
  pub ticks : ℕ

-- `CapHandle::new`: `fetch_add` on an `AtomicU64`, which wraps.
unfoldable pub new_handle : State → ℕ × State
new_handle s = (s.next_handle, record s { next_handle = (s.next_handle + 1) % 2 ^ 64 })

abbrev pub max_audit_log_entries : ℕ
max_audit_log_entries = 1000

unfoldable pub log_audit : AuditLogEntry → State → State
log_audit entry s = record s { audit_log = kept ++ entry ∷ [] }
  where
    kept : List AuditLogEntry
    kept =
        if leb max_audit_log_entries (length s.audit_log) then drop 1 s.audit_log else s.audit_log

unfoldable pub get_audit_log : ℕ → State → List AuditLogEntry
get_audit_log max_entries s = take (min max_entries (length s.audit_log)) (reverse s.audit_log)

unfoldable pub register : Capability → State → Result ℕ CapError × State
unfolding log_audit
register cap s = if contains_key cap.handle s.global_caps then (err already_exists, s) else (
  ok cap.handle,
  log_audit (new_entry s.ticks AuditEventType.create cap.owner cap.handle)
      (record s { global_caps = BTreeMap.insert cap.handle cap s.global_caps }),
)

unfoldable pub create_root_capability :
    ResourceType → ℕ → CapPermissions → State → Result Capability CapError × State
unfolding new_handle register
create_root_capability resource owner permissions s =
    let (handle, s1) = new_handle s in
    let cap = new_root handle resource owner permissions in
    let (result, s2) = register cap s1 in elim result [ ok _ ↦ (ok cap, s2) | err e ↦ (err e, s2) ]

-- The loop of `revoke` over the children: what each call revoked is appended, a call that fails is
-- passed over, and a call that ran out of fuel (`none`) stops all.
unfoldable pub revoke_children :
    (ℕ → State → Option (Result (List ℕ) CapError × State))
    → List ℕ
    → List ℕ
    → State
    → Option (List ℕ × State)
revoke_children call [] revoked s = some (revoked, s)
revoke_children call (child ∷ children) revoked s = elim (call child s) [
  | none ↦ none
  | some (ok child_revoked, s') ↦ revoke_children call children (revoked ++ child_revoked) s'
  | some (err _, s') ↦ revoke_children call children revoked s'
]

-- The first part of `revoke`, for a capability that is there: it leaves the global map and its
-- owner's table, and the log gets an entry.
unfoldable pub revoke_one : Capability → ℕ → ℕ → State → State
unfolding log_audit
revoke_one cap handle revoker s =
    log_audit (new_entry s.ticks AuditEventType.revoke revoker handle) (record s {
      global_caps = BTreeMap.remove handle s.global_caps;
      threads = (Thread.remove_capability cap.owner handle s.threads).1;
    })

-- `revoke` with fuel for the depth of its recursion.
unfoldable pub revoke : ℕ → ℕ → ℕ → State → Option (Result (List ℕ) CapError × State)
revoke zero handle revoker s = none
revoke (suc fuel) handle revoker s = elim (BTreeMap.get handle s.global_caps) [
  | none ↦ some (err not_found, s)
  | some cap ↦
      elim (revoke_children (λ child t. revoke fuel child revoker t) cap.children (handle ∷ [])
        (revoke_one cap handle revoker s)) [
          | none ↦ none
          | some (revoked, s') ↦ some (ok revoked, s')
        ]
]

-- Each call takes a capability out of the map, so the number of capabilities bounds the depth.
unfoldable pub revoke_capability : ℕ → ℕ → State → Option (Result (List ℕ) CapError × State)
unfolding revoke
revoke_capability handle revoker s = revoke (suc (length s.global_caps)) handle revoker s

unfoldable pub query_parent : ℕ → State → Result (Option ℕ) CapError
query_parent handle s = elim (BTreeMap.get handle s.global_caps) [
  | none ↦ err not_found
  | some cap ↦ ok cap.parent
]

unfoldable pub query_children : ℕ → State → Result (List ℕ) CapError
query_children handle s = elim (BTreeMap.get handle s.global_caps) [
  | none ↦ err not_found
  | some cap ↦ ok cap.children
]

unfoldable pub lookup_capability : ℕ → State → Option Capability
lookup_capability handle s = BTreeMap.get handle s.global_caps

pub record CapabilityStats : Type 0 where
  pub total : ℕ
  pub thread_caps : ℕ
  pub memory_caps : ℕ
  pub ipc_caps : ℕ
  pub irq_caps : ℕ
  pub device_caps : ℕ
  pub dma_caps : ℕ

-- One round of the loop of `stats`; capabilities of shared memory are counted in `total` alone.
count_resource : ResourceType → CapabilityStats → CapabilityStats
count_resource (thread _) c = record c { thread_caps = c.thread_caps + 1 }
count_resource (memory_region _ _ _) c = record c { memory_caps = c.memory_caps + 1 }
count_resource (ipc_port _) c = record c { ipc_caps = c.ipc_caps + 1 }
count_resource (irq _) c = record c { irq_caps = c.irq_caps + 1 }
count_resource (device _) c = record c { device_caps = c.device_caps + 1 }
count_resource (dma_buffer _ _) c = record c { dma_caps = c.dma_caps + 1 }
count_resource (shared_memory_region _) c = c

count_resources : List Capability → CapabilityStats → CapabilityStats
unfolding count_resource
count_resources [] c = c
count_resources (cap ∷ caps) c = count_resources caps (count_resource cap.resource c)

unfoldable pub get_capability_stats : State → CapabilityStats
unfolding count_resources
get_capability_stats s = count_resources (values s.global_caps) (record {
  total = length s.global_caps;
  thread_caps = 0;
  memory_caps = 0;
  ipc_caps = 0;
  irq_caps = 0;
  device_caps = 0;
  dma_caps = 0;
})

-- `if let Some(global_cap) = caps.get_mut(&handle) { global_cap.owner = owner; }`
pub set_owner : ℕ → ℕ → BTreeMap Capability → BTreeMap Capability
set_owner handle owner caps = elim (BTreeMap.get handle caps) [
  | none ↦ caps
  | some cap ↦ BTreeMap.insert handle (record cap { owner = owner }) caps
]

-- A capability put back in the table that it came from.
pub put_back : ℕ → Capability → ThreadList → ThreadList
put_back source_thread cap threads = (Thread.add_capability source_thread cap threads).1

unfoldable pub transfer_capability : ℕ → ℕ → ℕ → State → Result (Unit {0}) CapError × State
unfolding put_back set_owner log_audit
transfer_capability cap_handle source_thread target_thread s =
    let (removed, threads) = Thread.remove_capability source_thread cap_handle s.threads in
    elim removed [
      | none ↦ (err not_found, record s { threads = threads })
      | some cap ↦
          if not (is_owned_by cap source_thread)
          then (err not_owner, record s { threads = put_back source_thread cap threads })
          else if not (has_permission cap grant)
          then (err permission_denied, record s { threads = put_back source_thread cap threads })
          else let transferred_cap : Capability = record cap { owner = target_thread } in
            let (added, threads') = Thread.add_capability target_thread transferred_cap threads in
            elim added [
              | err _ ↦ (err already_exists, record s { threads = threads' })
              | ok _ ↦ (
                ok tt,
                log_audit (new_transfer s.ticks source_thread cap_handle target_thread) (record s {
                  threads = threads';
                  global_caps = set_owner cap_handle target_thread s.global_caps;
                }),
              )
            ]
    ]

unfoldable pub derive_capability : ℕ → ℕ → ℕ → CapPermissions → State → Result ℕ CapError × State
unfolding new_handle log_audit
derive_capability parent_handle owner_thread new_owner reduced_perms s =
    if not (Thread.has_capability owner_thread parent_handle s.threads)
    then (err not_found, s)
    else elim (BTreeMap.get parent_handle s.global_caps) [
      | none ↦ (err not_found, s)
      | some parent ↦
          if not (is_owned_by parent owner_thread)
          then (err not_owner, s)
          else if not (has_permission parent grant)
          then (err permission_denied, s)
          else elim (Capability.derive parent s.next_handle new_owner reduced_perms) [
            | err e ↦ (err e, s)
            | ok (parent', child) ↦
                let s1 = (new_handle s).1 in
                let caps =
                  BTreeMap.insert child.handle child
                    (BTreeMap.insert parent_handle parent' s1.global_caps) in
                let (added, threads) = Thread.add_capability new_owner child s1.threads in
                let s2 = record s1 { global_caps = caps; threads = threads } in
                elim added [
                  | err e ↦ (err e, s2)
                  | ok _ ↦ (
                    ok child.handle,
                    log_audit (new_derive s.ticks owner_thread child.handle parent_handle) s2,
                  )
                ]
          ]
    ]
