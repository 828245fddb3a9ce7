-- ===== src/Syscall/Capabilities/Run.antt =====
-- Any sequence of capability calls by any threads.
pub mod Safe
pub mod Attenuates
use atom.Prelude.{
  ℕ, suc, ◌+◌, ◌≤◌, ◌<◌, ◌%◌, ◌^◌, ◌≡◌, refl, List, [], ◌∷◌, Option, none, some, arith, inl, inr,
  Result, ok, err, length, Option-cases, Bool-cases, is_some, not, true, false,
}
use atom.Prelude.BTreeMap.{get}
use atom.Cap.Permissions.{IsWord}
use atom.Cap.Capability.{Capability, ResourceType}
use atom.Cap.Manager.{State}
use atom.Syscall.Capabilities.{
  sys_cap_create, sys_cap_revoke, sys_cap_derive, sys_cap_transfer, from_raw_bits,
}

-- A call, with its arguments as they come in the registers.
pub data Call : Type 0 where
  -- `resource_type`, `resource_id`, `permissions`
  cap_create : ℕ → ℕ → ℕ → Call
  cap_revoke : ℕ → Call
  -- `parent_handle`, `new_owner`, `reduced_perms`
  cap_derive : ℕ → ℕ → ℕ → Call
  -- `cap_handle`, `target`
  cap_transfer : ℕ → ℕ → Call

unfoldable pub step : Option ℕ × Call → State → Option (ℕ × State)
step (current, cap_create resource_type resource_id permissions) s =
    some (sys_cap_create resource_type resource_id permissions current s)
step (current, cap_revoke handle) s = sys_cap_revoke handle current s
step (current, cap_derive parent new_owner perms) s =
    some (sys_cap_derive parent new_owner perms current s)
step (current, cap_transfer handle target) s = some (sys_cap_transfer handle target current s)

unfoldable pub run : List (Option ℕ × Call) → State → Option State
run [] s = some s
run (c ∷ cs) s = elim (step c s) [ none ↦ none | some (code, s') ↦ run cs s' ]
