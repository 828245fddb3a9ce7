-- ===== src/Cap/Manager/Invariant.antt =====
-- kernel/src/cap.rs: what holds of the manager's state between operations.
pub mod Keeps
pub mod Derived
pub mod Tables
pub mod Operations
pub mod Delegation
pub mod Transferred
use atom.Prelude.{ℕ, ◌+◌, ◌≤◌, ◌<◌, ◌≡◌, List, [], Option, none, some, true, arith, length, In}
use atom.Prelude.BTreeMap.{BTreeMap, get}
use atom.Cap.Permissions.{is_subset_of, IsWord}
use atom.Cap.Capability.{Capability}
use atom.Cap.Manager.{State, max_audit_log_entries}
use atom.Thread.{ThreadList}
use atom.Thread.Laws.{held}

-- A capability of the map stands under its own handle, below the next handle to be given out. Its
-- children have later handles; those still there name it as their parent, and have no permission
-- that it lacks, for the same resource. If its parent is still there, that lists it as a child.
pub record Node (caps : BTreeMap Capability) (next h : ℕ) (cap : Capability) : Type 0 where
  pub own_handle : cap.handle ≡ h
  pub fresh : h < next
  pub word : IsWord cap.permissions
  pub children_fresh : (d : ℕ) → In d cap.children → (h < d) × (d < next)
  pub children_link :
      (d : ℕ) (c : Capability)
      → In d cap.children
      → get d caps ≡ some c
      → (c.parent ≡ some h)
        × (is_subset_of c.permissions cap.permissions ≡ true)
        × (c.resource ≡ cap.resource)
  pub parent_fresh : (p : ℕ) → cap.parent ≡ some p → p < h
  pub parent_link :
      (p : ℕ) (c : Capability) → cap.parent ≡ some p → get p caps ≡ some c → In h c.children

abbrev pub IsForest : BTreeMap Capability → ℕ → Type 0
IsForest caps next = (h : ℕ) (cap : Capability) → get h caps ≡ some cap → Node caps next h cap

-- A capability in a thread's table stands under its own handle and is owned by that thread, in the
-- table and in the global map, with the same permissions and resource in both.
pub record Backed (caps : BTreeMap Capability) (thread_id h : ℕ) (c : Capability) : Type 0 where
  pub entry : Capability
  pub found : get h caps ≡ some entry
  pub own_handle : c.handle ≡ h
  pub owner_here : c.owner ≡ thread_id
  pub owner_there : entry.owner ≡ thread_id
  pub same_permissions : c.permissions ≡ entry.permissions
  pub same_resource : c.resource ≡ entry.resource

abbrev pub IsBacked : BTreeMap Capability → ThreadList → Type 0
IsBacked caps threads =
    (thread_id h : ℕ) (c : Capability)
    → held threads thread_id h ≡ some c
    → Backed caps thread_id h c

pub record Inv (s : State) : Type 0 where
  pub forest : IsForest s.global_caps s.next_handle
  pub backed : IsBacked s.global_caps s.threads
  pub logged : length s.audit_log ≤ max_audit_log_entries
