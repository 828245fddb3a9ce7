-- ===== src/Mm/Vm/Tests.antt =====
-- A root table on page 4 of twelve, of which the first four are free, and nothing mapped.
use atom.Prelude.{
  ℕ, ◌/◌, subst, sym, ◌==◌, ◌≡◌, ◌⊎◌, refl, List, [], Option, none, some, false, Result, ok, err,
}
use atom.Mm.Pmm.{
  is_page_aligned, is_page_free, bit_clear, alloc_page, find_free, set_page_allocated, set_bit,
}
use atom.Mm.Pmm.Tests.{small, small-Inv}
use atom.Mm.Vm.{VmError, kernel_rw, union, not_mapped}
use atom.Mm.Vm.Tables.{
  State, is_present, addr, write, zeroed, store, lacks_user, set, map_page, map_page_internal,
  map_entry, walk_to_entry_with_root_user, next_table_user, ensure_table_user, new_table,
  table_flags,
}
use atom.Mm.Vm.Access.{unmap_page, translate, walk_to_entry, entry_of}
use atom.Mm.Vm.Tree.{Reaches, IsTree}
use atom.Mm.Vm.Seen.{held, Replaces}
use atom.Mm.Vm.Changes.{unmap_page-Replaces}
use atom.Mm.Vm.Grow.{IsTidy}
use atom.Mm.Vm.Mapped.{Maps, map_page-Maps}

abbrev bare : State
bare = record {
  active_pml4 = 16384;
  mapped_pages = 0;
  page_table_pages = 1;
  memory = λ t i. 0;
  pmm = small;
}

bare_root : (path : List ℕ) (t : ℕ) → Reaches bare.memory 16384 path t → ([] ≡ path) × (16384 ≡ t)
unfolding is_present
bare_root _ _ Reaches.top = (refl, refl)
bare_root _ _ (Reaches.down path table idx short r here) = absurd (cc here)

bare-IsTidy : IsTidy 16384 bare
unfolding is_page_free bit_clear
bare-IsTidy = record {
  tree = record { place = λ t. []; placed = λ path t r. (bare_root path t r).0 };
  inv = small-Inv;
  reserved = λ path t r.
      subst (λ (x : ℕ). is_page_free (x / 4096) small ≡ false) (bare_root path t r).1 refl;
}

one-Maps : Maps 4194304 (held (set 8192 kernel_rw)) bare (map_page 4194304 8192 kernel_rw bare)
unfolding is_page_aligned
one-Maps = map_page-Maps 4194304 8192 kernel_rw bare refl refl refl bare-IsTidy

map_page-Maps_example :
    Maps 4194304 (held (set 8192 kernel_rw)) bare (map_page 4194304 8192 kernel_rw bare)
unfolding is_page_aligned
map_page-Maps_example = map_page-Maps 4194304 8192 kernel_rw bare refl refl refl bare-IsTidy

-- The state with one page mapped, in three new tables.
abbrev one : State
one = (map_page 4194304 8192 kernel_rw bare).1

mapped-IsTidy :
    (now : Option ℕ) (out : Result (Unit {0}) VmError × State)
    → Maps 4194304 now bare out
    → IsTidy 16384 out.1
mapped-IsTidy now _ (Maps.mapped t unseen replaces paid tidy) = tidy
mapped-IsTidy now _ (Maps.taken t phys seen same kept tidy) = tidy
mapped-IsTidy now _ (Maps.exhausted t unseen same less all tidy) = tidy

one_root : one.active_pml4 ≡ 16384
unfolding map_page map_page_internal map_entry walk_to_entry_with_root_user next_table_user
    ensure_table_user new_table table_flags is_present addr set write zeroed store lacks_user union
    is_page_aligned alloc_page find_free set_page_allocated is_page_free bit_clear set_bit kernel_rw
one_root = refl

one_seen : translate 4194304 one ≡ some 8192
unfolding map_page map_page_internal map_entry walk_to_entry_with_root_user next_table_user
    ensure_table_user new_table table_flags is_present addr set write zeroed store lacks_user union
    is_page_aligned alloc_page find_free set_page_allocated is_page_free bit_clear set_bit kernel_rw
    translate walk_to_entry entry_of
one_seen = refl

one-IsTree : IsTree one.memory one.active_pml4
one-IsTree =
    subst (IsTree one.memory) (sym one_root)
      (mapped-IsTidy (held (set 8192 kernel_rw)) (map_page 4194304 8192 kernel_rw bare)
        one-Maps).tree

unmap_page-Replaces_example :
    ((translate 4194304 one ≡ none) × (unmap_page 4194304 one ≡ (err not_mapped, one)))
    ⊎ ((phys : ℕ) × (translate 4194304 one ≡ some phys)
        × ((unmap_page 4194304 one).0 ≡ ok tt)
        × Replaces 4194304 none one (unmap_page 4194304 one).1)
unfolding is_page_aligned
unmap_page-Replaces_example =
    unmap_page-Replaces 4194304 one one-IsTree
      (subst (λ (r : ℕ). (r == 0) ≡ false) (sym one_root) refl) refl
