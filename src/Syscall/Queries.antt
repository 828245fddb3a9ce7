-- ===== src/Syscall/Queries.antt =====
-- kernel/src/syscall/mod.rs: the calls that ask about capabilities. What a call writes to the user's
-- buffer is a list of words, in the order of the addresses.
pub mod Families
pub mod Tests
use atom.Prelude.{
  ℕ, List, [], Option, none, some, Bool, not, ◌==◌, ◌||◌, if◌then◌else◌, Result, ok, err, length,
  take, min,
}
use atom.Cap.Manager
use atom.Cap.Manager.{State, CapabilityStats}
use atom.Thread
use atom.Syscall.Codes.{einval, eperm}

-- The handle and the permissions that are asked about are not looked at.
unfoldable pub sys_cap_check : ℕ → ℕ → Option ℕ → State → ℕ
sys_cap_check handle required_perms none s = 0
sys_cap_check handle required_perms (some caller) s =
    let stats = Manager.get_capability_stats s in if stats.total == 0 then 0 else 1

unfoldable pub sys_cap_list : State → ℕ
sys_cap_list s = let stats = Manager.get_capability_stats s in stats.total

unfoldable pub sys_cap_query_parent : ℕ → Option ℕ → State → ℕ
sys_cap_query_parent handle none s = einval
sys_cap_query_parent handle (some caller) s =
    if not (Thread.has_capability caller handle s.threads)
    then eperm
    else elim (Manager.query_parent handle s) [
      | ok (some parent_handle) ↦ parent_handle
      | ok none ↦ 0
      | err _ ↦ einval
    ]

-- The code, and the words written.
unfoldable pub sys_cap_query_children : ℕ → ℕ → ℕ → Option ℕ → State → ℕ × List ℕ
sys_cap_query_children handle buffer_ptr buffer_size none s = (einval, [])
sys_cap_query_children handle buffer_ptr buffer_size (some caller) s =
    if not (Thread.has_capability caller handle s.threads)
    then (eperm, [])
    else elim (Manager.query_children handle s) [
      | err _ ↦ (einval, [])
      | ok children ↦ (
        length children,
        if (buffer_ptr == 0) || (buffer_size == 0)
            then []
            else take (min (length children) buffer_size) children,
      )
    ]
