-- ===== src/Mm/Vm/Changes.antt =====
-- kernel/src/mm/vm.rs: `unmap_page` and `remap_page` against what addresses are translated to.
use atom.Prelude.{
  ℕ, ◌≡◌, ◌⊎◌, inl, inr, refl, ap, ◌∙◌, none, some, true, false, ◌==◌, Result, ok, err, Bool-cases,
}
use atom.Mm.Pmm.{is_page_aligned}
use atom.Mm.Vm.{VmError, PageFlags, not_mapped}
use atom.Mm.Vm.Tables.{State, is_present, addr, set, store, pt_index}
use atom.Mm.Vm.Access.{
  walk_to_entry, entry_of, cleared, unmap_page, replaced, remap_page, translate,
}
use atom.Mm.Vm.Tree.{IsTree, path_of, along, along-err, Result-cases}
use atom.Mm.Vm.Seen.{
  held, held_at, seen, walk_to_entry-along, translate-seen, Replaces, store-Replaces,
}

-- What the walk finds for an address: nothing, or a table with a present entry.
Found : ℕ → State → Type 0
Found virt s =
    ((translate virt s ≡ none) × (entry_of virt (walk_to_entry virt s) s ≡ err not_mapped))
    ⊎ ((table : ℕ) × (along s.memory s.active_pml4 (path_of virt) ≡ ok table)
        × (translate virt s ≡ some (addr (s.memory table (pt_index virt))))
        × (entry_of virt (walk_to_entry virt s) s ≡ ok (table, s.memory table (pt_index virt))))

found : (virt : ℕ) (s : State) → (s.active_pml4 == 0) ≡ false → Found virt s
unfolding Found seen held_at held entry_of
found virt s active =
    let walk = walk_to_entry-along virt s active in
    let trans = translate-seen virt s active in
    elim (Result-cases (along s.memory s.active_pml4 (path_of virt))) [
      | inr (e, missing) ↦ inl (
        trans ∙ ap (held_at s.memory virt) missing,
        ap (λ (x : Result ℕ VmError). entry_of virt x s) (walk ∙ missing)
            ∙ ap err (along-err s.memory s.active_pml4 e (path_of virt) missing),
      )
      | inl (table, there) ↦
          let at = ap (λ (x : Result ℕ VmError). entry_of virt x s) (walk ∙ there) in
          let held_there = trans ∙ ap (held_at s.memory virt) there in
          elim (Bool-cases (is_present (s.memory table (pt_index virt)))) [
            | inl here ↦ inr (table, there, held_there ∙ rw here refl, at ∙ rw here refl)
            | inr missing ↦ inl (held_there ∙ rw missing refl, at ∙ rw missing refl)
          ]
    ]

-- Where the tables are a tree, `unmap_page` of an aligned address that is translated succeeds; the
-- address is then translated to nothing, every other page as before, and the tables are a tree. Where
-- it is not translated the error is `not_mapped` and nothing changes.
pub unmap_page-Replaces :
    (virt : ℕ) (s : State)
    → IsTree s.memory s.active_pml4
    → (s.active_pml4 == 0) ≡ false
    → is_page_aligned virt ≡ true
    → ((translate virt s ≡ none) × (unmap_page virt s ≡ (err not_mapped, s)))
      ⊎ ((phys : ℕ) × (translate virt s ≡ some phys)
          × ((unmap_page virt s).0 ≡ ok tt)
          × Replaces virt none s (unmap_page virt s).1)
unfolding Found unmap_page cleared held is_present store
unmap_page-Replaces virt s tree active aligned = elim (found virt s active) [
  | inl (unseen, missing) ↦ inl (unseen, rw (aligned, missing, cleared) refl)
  | inr (table, there, trans, here) ↦
      let phys = addr (s.memory table (pt_index virt)) in
      inr (
        phys,
        trans,
        rw (aligned, here, cleared) refl,
        rw (aligned, here, cleared) (store-Replaces virt table 0 s _ tree active there refl refl),
      )
]

-- Where the tables are a tree, `remap_page` of an aligned address that is translated, to an aligned
-- one, succeeds; the address is then translated to what the new entry holds, every other page as
-- before, and the tables are a tree. Where it is not translated the error is `not_mapped` and nothing
-- changes.
pub remap_page-Replaces :
    (virt new_phys : ℕ) (flags : PageFlags) (s : State)
    → IsTree s.memory s.active_pml4
    → (s.active_pml4 == 0) ≡ false
    → is_page_aligned virt ≡ true
    → is_page_aligned new_phys ≡ true
    → ((translate virt s ≡ none) × (remap_page virt new_phys flags s ≡ (err not_mapped, s)))
      ⊎ ((phys : ℕ) × (translate virt s ≡ some phys)
          × ((remap_page virt new_phys flags s).0 ≡ ok tt)
          × Replaces virt (held (set new_phys flags)) s (remap_page virt new_phys flags s).1)
unfolding Found remap_page replaced store
remap_page-Replaces virt new_phys flags s tree active aligned aligned' =
    elim (found virt s active) [
      | inl (unseen, missing) ↦ inl (unseen, rw (aligned, aligned', missing, replaced) refl)
      | inr (table, there, trans, here) ↦
          let phys = addr (s.memory table (pt_index virt)) in
          inr (
            phys,
            trans,
            rw (aligned, aligned', here, replaced) refl,
            rw (aligned, aligned', here, replaced)
                (store-Replaces virt table (set new_phys flags) s _ tree active there refl refl),
          )
    ]
