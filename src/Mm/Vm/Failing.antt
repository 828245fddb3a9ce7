-- ===== src/Mm/Vm/Failing.antt =====
-- kernel/src/mm/vm.rs, `walk_to_entry_with_root_user` where it makes tables: how it can fail.
use atom.Prelude.{
  ℕ, ◌≡◌, inl, inr, Option, none, some, Bool, true, false, ◌&&◌, Result, ok, err, Bool-cases,
}
use atom.Mm.Pmm
use atom.Mm.Pmm.{alloc_page}
use atom.Mm.Vm.{VmError, PageFlags, out_of_memory}
use atom.Mm.Vm.Tables.{
  State, is_present, new_table, lacks_user, table_flags, ensure_table_user, next_table_user,
  walk_to_entry_with_root_user, pml4_index, pdpt_index, pd_index,
}

new_table_err :
    (t i : ℕ) (flags : PageFlags) (created : Bool) (out : Option ℕ × Pmm.State) (s : State)
    (e : VmError)
    → (new_table t i flags created out s).0 ≡ err e
    → e ≡ out_of_memory
unfolding new_table
new_table_err t i flags created (none, pmm) s e h = cc
new_table_err t i flags created (some phys, pmm) s e h = cc

ensure_err :
    (t i : ℕ) (user_access created : Bool) (s : State) (e : VmError)
    → (ensure_table_user t i true user_access (created, s)).0 ≡ err e
    → e ≡ out_of_memory
unfolding ensure_table_user
ensure_err t i user_access created s e h = elim (Bool-cases (is_present (s.memory t i))) [
  | inr absent ↦
      new_table_err t i (table_flags user_access) created (alloc_page s.pmm) s e (rw absent at h)
  | inl here ↦ elim (Bool-cases (user_access && lacks_user (s.memory t i))) [
    | inl promotes ↦ absurd (cc (rw (here, promotes) at h))
    | inr enough ↦ absurd (cc (rw (here, enough) at h))
  ]
]

next_err :
    (i : ℕ) (user_access : Bool) (out : Result ℕ VmError × (Bool × State)) (e : VmError)
    → ((e' : VmError) → out.0 ≡ err e' → e' ≡ out_of_memory)
    → (next_table_user i true user_access out).0 ≡ err e
    → e ≡ out_of_memory
unfolding next_table_user
next_err i user_access (err e', st) e before h = before e h
next_err i user_access (ok t, (created, s)) e before h = ensure_err t i user_access created s e h

pub walk_err :
    (root virt : ℕ) (user_access : Bool) (s : State) (e : VmError)
    → (walk_to_entry_with_root_user root virt true user_access s).0 ≡ err e
    → e ≡ out_of_memory
unfolding walk_to_entry_with_root_user
walk_err root virt user_access s e h =
    next_err (pd_index virt) user_access _ e
      (λ e'.
        next_err (pdpt_index virt) user_access _ e'
          (λ e''. ensure_err root (pml4_index virt) user_access false s e''))
      h
