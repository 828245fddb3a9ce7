-- ===== src/Syscall/Capabilities.antt =====
-- kernel/src/syscall/mod.rs: the handlers of the capability calls. The current thread, which the
-- scheduler answers, is an argument; logging is left out.
pub mod Run
pub mod Tests
use atom.Prelude.{
  ℕ, ◌%◌, ◌^◌, Option, none, some, Bool, true, false, ltb, ◌==◌, if◌then◌else◌, is_some, not,
  Result, ok, err, length, List, [],
}
use atom.Cap.Permissions.{CapPermissions}
use atom.Cap.Capability.{
  Capability, ResourceType, thread, ipc_port, irq, CapError, not_found, permission_denied,
  invalid_handle, already_exists, wrong_resource_type, not_owner,
}
use atom.Cap.Manager
use atom.Cap.Manager.{State}
use atom.Thread
use atom.Syscall.Codes.{esuccess, einval, enosys, eperm}

-- `value as u32`
abbrev pub from_raw_bits : ℕ → CapPermissions
from_raw_bits raw = record { bits = raw % 2 ^ 32 }

-- The resource that `sys_cap_create` makes of its two arguments, or its error code.
unfoldable pub resource_of : ℕ → ℕ → Result ResourceType ℕ
resource_of resource_type resource_id =
    if resource_type == 0
    then ok (thread resource_id)
    else if resource_type == 2
    then ok (ipc_port resource_id)
    else if resource_type == 3
    then if ltb 255 resource_id then err einval else ok (irq (resource_id % 2 ^ 8))
    else err enosys

-- What `sys_cap_create` makes of a new capability: a copy in the caller's table. Where the table
-- refuses it, the capability stays in the global map.
attach : ℕ → Result Capability CapError × State → ℕ × State
attach caller (err _, s) = (einval, s)
attach caller (ok new, s) =
    let (added, threads) = Thread.add_capability caller new s.threads in
    (elim added [ ok _ ↦ new.handle | err _ ↦ einval ], record s { threads = threads })

unfoldable pub create_and_attach : ResourceType → ℕ → CapPermissions → State → ℕ × State
unfolding attach
create_and_attach resource caller perms s =
    attach caller (Manager.create_root_capability resource caller perms s)

unfoldable pub sys_cap_create : ℕ → ℕ → ℕ → Option ℕ → State → ℕ × State
sys_cap_create resource_type resource_id permissions none s = (einval, s)
sys_cap_create resource_type resource_id permissions (some caller) s =
    elim (resource_of resource_type resource_id) [
      | err code ↦ (code, s)
      | ok resource ↦ create_and_attach resource caller (from_raw_bits permissions) s
    ]

-- `none` is a revocation that ran out of fuel, which does not happen.
unfoldable pub sys_cap_revoke : ℕ → Option ℕ → State → Option (ℕ × State)
sys_cap_revoke handle none s = some (einval, s)
sys_cap_revoke handle (some caller) s = elim (Manager.revoke_capability handle caller s) [
  | none ↦ none
  | some (ok revoked, s') ↦ some (length revoked, s')
  | some (err _, s') ↦ some (einval, s')
]

-- The code for each error of `derive_capability`.
derive_code : CapError → ℕ
derive_code not_found = einval
derive_code not_owner = eperm
derive_code permission_denied = eperm
derive_code _ = einval

unfoldable pub sys_cap_derive : ℕ → ℕ → ℕ → Option ℕ → State → ℕ × State
unfolding derive_code
sys_cap_derive parent_handle new_owner reduced_perms none s = (einval, s)
sys_cap_derive parent_handle new_owner reduced_perms (some caller) s =
    let (result, s') =
      Manager.derive_capability parent_handle caller new_owner (from_raw_bits reduced_perms) s in
    (elim result [ ok child ↦ child | err e ↦ derive_code e ], s')

-- The code for each error of `transfer_capability`.
transfer_code : CapError → ℕ
transfer_code not_found = einval
transfer_code not_owner = eperm
transfer_code permission_denied = eperm
transfer_code _ = einval

unfoldable pub sys_cap_transfer : ℕ → ℕ → Option ℕ → State → ℕ × State
unfolding transfer_code
sys_cap_transfer cap_handle target none s = (einval, s)
sys_cap_transfer cap_handle target (some caller) s =
    if not (is_some (Thread.find target s.threads))
    then (einval, s)
    else let (result, s') = Manager.transfer_capability cap_handle caller target s in
      (elim result [ ok _ ↦ esuccess | err e ↦ transfer_code e ], s')
