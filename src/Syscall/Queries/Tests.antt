-- ===== src/Syscall/Queries/Tests.antt =====
-- The queries on a thread that holds a capability and one derived of it.
use atom.Prelude.{◌≡◌, refl, [], In, inl, none, some, arith}
use atom.Prelude.BTreeMap.{get, insert}
use atom.Cap.Permissions.{contains, is_subset_of}
use atom.Cap.Capability.{Capability, thread, new_root, derive, has_permission, is_owned_by}
use atom.Cap.Table
use atom.Cap.Audit.{new_entry, new_derive}
use atom.Cap.Manager.{
  State, create_root_capability, new_handle, register, log_audit, derive_capability, query_children,
}
use atom.Thread.{find_thread, put_thread, add_capability, has_capability}
use atom.Thread.Laws.{held}
use atom.Syscall.Capabilities.{sys_cap_create, sys_cap_derive, create_and_attach, resource_of}
use atom.Syscall.Capabilities.Run.Safe.{IsSafe, derive-IsSafe}
use atom.Syscall.Capabilities.Tests.{created, created-IsSafe}
use atom.Syscall.Queries.{sys_cap_query_parent, sys_cap_query_children}
use atom.Syscall.Queries.Families.{sys_cap_query_parent-sys_cap_query_children}

-- The first thread derives a capability for itself.
abbrev both_held : State
both_held = (sys_cap_derive 1 1 9 (some 1) created).1

both_held-IsSafe : IsSafe 10 both_held
both_held-IsSafe = derive-IsSafe 9 1 1 9 (some 1) created (omega arith) created-IsSafe

abbrev above : Capability
above = record {
  handle = 1;
  resource = thread 9;
  permissions = record { bits = 31 };
  owner = 1;
  parent = none;
  children = [];
}

abbrev below : Capability
below = record {
  handle = 2;
  resource = thread 9;
  permissions = record { bits = 9 };
  owner = 1;
  parent = some 1;
  children = [];
}

above-held : held both_held.threads 1 1 ≡ some above
unfolding sys_cap_create sys_cap_derive create_and_attach resource_of create_root_capability
    new_handle register log_audit new_entry new_derive new_root derive derive_capability
    is_subset_of has_permission is_owned_by contains find_thread put_thread add_capability
    has_capability held get insert Table.get Table.insert Table.contains
above-held = refl

below-held : held both_held.threads 1 2 ≡ some below
unfolding sys_cap_create sys_cap_derive create_and_attach resource_of create_root_capability
    new_handle register log_audit new_entry new_derive new_root derive derive_capability
    is_subset_of has_permission is_owned_by contains find_thread put_thread add_capability
    has_capability held get insert Table.get Table.insert Table.contains
below-held = refl

second_written : In 2 (sys_cap_query_children 1 4096 8 (some 1) both_held).1
unfolding sys_cap_create sys_cap_derive create_and_attach resource_of create_root_capability
    new_handle register log_audit new_entry new_derive new_root derive derive_capability
    is_subset_of has_permission is_owned_by contains find_thread put_thread add_capability
    has_capability held get insert Table.get Table.insert Table.contains sys_cap_query_children
    query_children
second_written = inl refl

sys_cap_query_parent-sys_cap_query_children_example : sys_cap_query_parent 2 (some 1) both_held ≡ 1
sys_cap_query_parent-sys_cap_query_children_example =
    sys_cap_query_parent-sys_cap_query_children 1 2 4096 8 1 both_held above below
      both_held-IsSafe.0 above-held below-held second_written
