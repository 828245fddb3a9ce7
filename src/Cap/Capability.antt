-- ===== src/Cap/Capability.antt =====
-- kernel/src/cap.rs: handles, resources, `Capability` and its errors.
-- A `CapHandle` and a `ThreadId` wrap a `u64`; they are numbers here.
use atom.Prelude.{
  ℕ, List, [], ◌∷◌, ◌++◌, Option, none, some, Bool, ◌==◌, if◌then◌else◌, Result, ok, err,
}
use atom.Cap.Permissions.{CapPermissions, contains, is_subset_of}

pub data ResourceType : Type 0 where
  thread : ℕ → ResourceType
  -- `virt_addr`, `phys_addr`, `size`
  memory_region : ℕ → ℕ → ℕ → ResourceType
  ipc_port : ℕ → ResourceType
  irq : ℕ → ResourceType
  device : ℕ → ResourceType
  -- `phys_addr`, `size`
  dma_buffer : ℕ → ℕ → ResourceType
  shared_memory_region : ℕ → ResourceType

pub record Capability : Type 0 where
  pub handle : ℕ
  pub resource : ResourceType
  pub permissions : CapPermissions
  pub owner : ℕ
  pub parent : Option ℕ
  pub children : List ℕ

pub data CapError : Type 0 where
  not_found permission_denied invalid_handle already_exists wrong_resource_type not_owner : CapError

-- `Capability::new_root`, with the handle that `CapHandle::new` returned.
unfoldable pub new_root : ℕ → ResourceType → ℕ → CapPermissions → Capability
new_root handle resource owner permissions = record {
  handle = handle;
  resource = resource;
  permissions = permissions;
  owner = owner;
  parent = none;
  children = [];
}

-- `Capability::derive`, with the handle that `CapHandle::new` returns if the test passes: the
-- capability with its new child listed, and the child.
unfoldable pub derive :
    Capability → ℕ → ℕ → CapPermissions → Result (Capability × Capability) CapError
derive self child_handle new_owner reduced_permissions =
    if is_subset_of reduced_permissions self.permissions
    then ok (record self { children = self.children ++ child_handle ∷ [] }, child)
    else err permission_denied
  where
    child : Capability
    child = record {
      handle = child_handle;
      resource = self.resource;
      permissions = reduced_permissions;
      owner = new_owner;
      parent = some self.handle;
      children = [];
    }

unfoldable pub has_permission : Capability → CapPermissions → Bool
has_permission self perm = contains self.permissions perm

unfoldable pub is_owned_by : Capability → ℕ → Bool
is_owned_by self thread_id = self.owner == thread_id
