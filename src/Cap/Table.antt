-- ===== src/Cap/Table.antt =====
-- kernel/src/cap.rs, `CapabilityTable`: the capabilities that one thread holds.
use atom.Prelude.{ℕ, List, [], Option, Bool, if◌then◌else◌, Result, ok, err, length}
use atom.Prelude.BTreeMap
use atom.Prelude.BTreeMap.{BTreeMap, contains_key, keys}
use atom.Cap.Permissions.{CapPermissions}
use atom.Cap.Capability.{
  Capability, CapError, not_found, permission_denied, already_exists, has_permission,
}

pub record CapabilityTable : Type 0 where
  pub capabilities : BTreeMap Capability
  pub owner : ℕ

-- `CapabilityTable::new`
unfoldable pub new : ℕ → CapabilityTable
new owner = record { capabilities = []; owner = owner }

unfoldable pub insert : CapabilityTable → Capability → Result ℕ CapError × CapabilityTable
insert self cap =
    if contains_key cap.handle self.capabilities then (err already_exists, self) else (
      ok cap.handle,
      record self { capabilities = BTreeMap.insert cap.handle cap self.capabilities },
    )

unfoldable pub get : CapabilityTable → ℕ → Option Capability
get self handle = BTreeMap.get handle self.capabilities

unfoldable pub remove : CapabilityTable → ℕ → Option Capability × CapabilityTable
remove self handle = (
  BTreeMap.get handle self.capabilities,
  record self { capabilities = BTreeMap.remove handle self.capabilities },
)

unfoldable pub contains : CapabilityTable → ℕ → Bool
contains self handle = contains_key handle self.capabilities

unfoldable pub validate : CapabilityTable → ℕ → CapPermissions → Result Capability CapError
unfolding get
validate self handle required_permission = elim (get self handle) [
  | Option.none ↦ err not_found
  | Option.some cap ↦
      if has_permission cap required_permission then ok cap else err permission_denied
]

unfoldable pub list : CapabilityTable → List ℕ
list self = keys self.capabilities

unfoldable pub count : CapabilityTable → ℕ
count self = length self.capabilities
