-- ===== src/Syscall/Capabilities/Run/Attenuates.antt =====
-- What capabilities allow after any sequence of capability calls.
use atom.Prelude.{ℕ, ◌+◌, ◌≤◌, ◌<◌, ◌^◌, ◌≡◌, refl, ◌∙◌, List, [], Option, none, some, true, length}
use atom.Prelude.BTreeMap.{get}
use atom.Cap.Permissions.{is_subset_of}
use atom.Cap.Capability.{Capability}
use atom.Cap.Manager.{State, max_audit_log_entries}
use atom.Cap.Manager.Invariant.{Inv}
use atom.Cap.Manager.Revocation.{Descends}
use atom.Cap.Manager.Security.{Descends-is_subset_of}
use atom.Thread.Laws.{held}
use atom.Syscall.Capabilities.Run.{Call, run}
use atom.Syscall.Capabilities.Run.Safe.{run-Inv}

-- No capability has been handed out yet, and the log is within its bound.
pub record IsFresh (s : State) : Type 0 where
  pub no_entry : s.global_caps ≡ []
  pub none_held : (thread_id h : ℕ) → held s.threads thread_id h ≡ none
  pub logged : length s.audit_log ≤ max_audit_log_entries

IsFresh-Inv : (s : State) → IsFresh s → Inv s
unfolding get
IsFresh-Inv s fresh = record {
  forest =
      λ h cap e. let nothing : get h s.global_caps ≡ none = rw fresh.no_entry refl in absurd (cc);
  backed = λ thread_id h c e. let nothing = fresh.none_held thread_id h in absurd (cc);
  logged = fresh.logged;
}

-- `c` allows nothing that `a` does not, and stands for the same resource.
abbrev pub IsWithin : Capability → Capability → Type 0
IsWithin c a = (is_subset_of c.permissions a.permissions ≡ true) × (c.resource ≡ a.resource)

-- Every capability below another, in the map or held by a thread, is within it.
pub record IsAttenuated (s : State) : Type 0 where
  pub entries :
      (h k : ℕ) (a c : Capability)
      → Descends s.global_caps h k
      → get h s.global_caps ≡ some a
      → get k s.global_caps ≡ some c
      → IsWithin c a
  pub copies :
      (h k thread_id : ℕ) (a c : Capability)
      → Descends s.global_caps h k
      → get h s.global_caps ≡ some a
      → held s.threads thread_id k ≡ some c
      → IsWithin c a

pub Inv-IsAttenuated : (s : State) → Inv s → IsAttenuated s
Inv-IsAttenuated s v = record {
  entries = λ h k a c below e f. Descends-is_subset_of s h k a c v below e f;
  copies = λ h k thread_id a c below e f.
      let b = v.backed thread_id k c f in
      let (fewer, same) = Descends-is_subset_of s h k a b.entry v below e b.found in
      (rw b.same_permissions fewer, b.same_resource ∙ same);
}

-- From a state where no capability has been handed out, and while there are more handles left than
-- calls, any sequence of create, derive, transfer and revoke calls by any threads ends, and in a state
-- where a capability that descends from another, both its entry in the map and the copy that a thread
-- holds, has a subset of the other's permissions and the same resource.
pub run-IsAttenuated :
    (calls : List (Option ℕ × Call)) (s : State)
    → IsFresh s
    → s.next_handle + length calls < 2 ^ 64
    → (after : State) × (run calls s ≡ some after) × IsAttenuated after
run-IsAttenuated calls s fresh room =
    let (after, e, v) = run-Inv calls s room (IsFresh-Inv s fresh) in
    (after, e, Inv-IsAttenuated after v)
