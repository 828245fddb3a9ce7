-- ===== src/Mm/Vm/Mapped.antt =====
-- kernel/src/mm/vm.rs, `map_page`: a page enters the tables.
use atom.Prelude.{
  ℕ, ◌+◌, ◌%◌, ◌^◌, ◌<◌, ◌≡◌, inl, inr, refl, sym, ap, ◌∙◌, subst, Option, none, some, Bool, true,
  false, not, ◌==◌, Result, ok, err, arith, Bool-cases,
}
use atom.Mm.Pmm.{is_page_aligned}
use atom.Mm.Vm.{VmError, PageFlags, already_mapped, out_of_memory}
use atom.Mm.Vm.Tables.{
  State, is_present, addr, set, store, lacks_user, walk_to_entry_with_root_user, map_entry,
  map_page_internal, map_page, pt_index,
}
use atom.Mm.Vm.Access.{translate}
use atom.Mm.Vm.Tree.{
  Reaches, IsTree, path_of, along, along-Reaches, Reaches-along, Result-cases, write-Reaches,
  write-IsTree,
}
use atom.Mm.Vm.Seen.{held, held_at, seen, translate-seen, Replaces, store-Replaces}
use atom.Mm.Vm.Grow.{IsTidy, Grows}
use atom.Mm.Vm.Missing.{missing, Reaches-missing}
use atom.Mm.Vm.Failing.{walk_err}
use atom.Mm.Vm.Ensure.{Steps, walk-Steps}

-- The tables that `map_page` has to make for an address.
abbrev pub missing_tables : ℕ → State → ℕ
missing_tables virt s = missing s.memory s.active_pml4 (path_of virt)

-- What `map_page` leaves. `mapped`: the address was translated to nothing and is now translated to
-- `now`, every other page as before, and the missing tables took a page each. `taken`: the address was
-- translated, and no page was taken. `exhausted`: the address was translated to nothing, fewer pages
-- were free than tables missing, and none is free now. In the last two every address is translated as
-- before. The tables stay tidy.
pub data Maps (virt : ℕ) (now : Option ℕ) (s : State)
    : Result (Unit {0}) VmError × State → Type 0 where
  mapped :
      (t : State)
      → translate virt s ≡ none
      → Replaces virt now s t
      → t.pmm.free_count + missing_tables virt s ≡ s.pmm.free_count
      → IsTidy s.active_pml4 t
      → Maps virt now s (ok tt, t)
  taken :
      (t : State) (phys : ℕ)
      → translate virt s ≡ some phys
      → ((v : ℕ) → translate v t ≡ translate v s)
      → t.pmm.free_count ≡ s.pmm.free_count
      → IsTidy s.active_pml4 t
      → Maps virt now s (err already_mapped, t)
  exhausted :
      (t : State)
      → translate virt s ≡ none
      → ((v : ℕ) → translate v t ≡ translate v s)
      → s.pmm.free_count < missing_tables virt s
      → t.pmm.free_count ≡ 0
      → IsTidy s.active_pml4 t
      → Maps virt now s (err out_of_memory, t)

translate-Grows :
    (s t : State)
    → (s.active_pml4 == 0) ≡ false
    → Grows s.active_pml4 s t
    → (v : ℕ) → translate v t ≡ translate v s
translate-Grows s t active grows v =
    translate-seen v t (ground (arith, active, grows.same_root))
    ∙ ap (λ (r : ℕ). seen t.memory r v) grows.same_root
    ∙ grows.same_seen v
    ∙ sym (translate-seen v s active)

module _ (virt phys : ℕ) (flags : PageFlags) (s : State)
    (active : (s.active_pml4 == 0) ≡ false) where
  abbrev root : ℕ
  root = s.active_pml4

  -- No table is missing for an address that is translated, and so none for one where a table is
  -- missing is.
  translate-missing :
      ((phys' : ℕ) → translate virt s ≡ some phys' → missing_tables virt s ≡ 0)
      × (0 < missing_tables virt s → translate virt s ≡ none)
  unfolding held_at seen
  translate-missing = elim (Result-cases (along s.memory root (path_of virt))) [
    | inl (u, found) ↦
        let there = along-Reaches s.memory root u (path_of virt) (omega arith) found in
        let all = Reaches-missing s.memory root u (path_of virt) there in
        ((λ phys' e. all), (λ some_missing. absurd (omega (arith, all, some_missing))))
    | inr (e, gone) ↦
        let unseen : translate virt s ≡ none =
          translate-seen virt s active ∙ ap (held_at s.memory virt) gone in
        ((λ phys' seen_there. cc), (λ some_missing. unseen))
  ]

  entered :
      (table : ℕ) (s' : State)
      → Grows root s s'
      → s'.pmm.free_count + missing_tables virt s ≡ s.pmm.free_count
      → Reaches s'.memory root (path_of virt) table
      → is_present (s'.memory table (pt_index virt)) ≡ false
      → Maps virt (held (set phys flags)) s (
        ok tt,
        record (store table (pt_index virt) (set phys flags) s') {
          mapped_pages = (s'.mapped_pages + 1) % 2 ^ 64;
        },
      )
  unfolding store seen held_at held
  entered table s' grows paid there absent =
      let word = set phys flags in
      let t : State = record (store table (pt_index virt) word s') {
        mapped_pages = (s'.mapped_pages + 1) % 2 ^ 64;
      } in
      let active' : (s'.active_pml4 == 0) ≡ false = ground (arith, active, grows.same_root) in
      let tree : IsTree s'.memory s'.active_pml4 =
        subst (IsTree s'.memory) (sym grows.same_root) grows.tidy.tree in
      let at : along s'.memory s'.active_pml4 (path_of virt) ≡ ok table =
        ap (λ (r : ℕ). along s'.memory r (path_of virt)) grows.same_root
        ∙ Reaches-along s'.memory root table (path_of virt) there in
      let changed = store-Replaces virt table word s' t tree active' at refl refl in
      let same = translate-Grows s s' active grows in
      let unseen : translate virt s' ≡ none =
        translate-seen virt s' active' ∙ ap (held_at s'.memory virt) at ∙ rw absent refl in
      Maps.mapped t (sym (same virt) ∙ unseen)
        (record {
          here = changed.here;
          others = λ other apart. changed.others other apart ∙ same other;
          tree = changed.tree;
        })
        paid
        (record {
          tree =
              write-IsTree s'.memory root grows.tidy.tree (path_of virt) table refl there
                (pt_index virt) word;
          inv = grows.tidy.inv;
          reserved = λ p u r. grows.tidy.reserved p u (
              write-Reaches s'.memory root grows.tidy.tree (path_of virt) table refl there
                (pt_index virt) word p u r);
        })

  map_entry-Maps :
      (out : Result ℕ VmError × (Bool × State))
      → Steps root (path_of virt) s out
      → ((e : VmError) → out.0 ≡ err e → e ≡ out_of_memory)
      → Maps virt (held (set phys flags)) s (map_entry virt phys flags out)
  unfolding map_entry seen held_at held
  map_entry-Maps (err e, (created, s')) steps failed =
      subst (λ (x : VmError). Maps virt (held (set phys flags)) s (err x, s')) (sym (failed e refl))
        (let (less, all) = steps.few e refl in
          Maps.exhausted s' (translate-missing.1 (omega (arith, less)))
            (translate-Grows s s' active steps.grows) less all steps.grows.tidy)
  map_entry-Maps (ok table, (created, s')) steps failed =
      let word = s'.memory table (pt_index virt) in
      let there = steps.found table refl in
      let same = translate-Grows s s' active steps.grows in
      elim (Bool-cases (is_present word)) [
        | inr absent ↦
            rw absent (entered table s' steps.grows (steps.enough table refl) there absent)
        | inl here ↦
            let active' : (s'.active_pml4 == 0) ≡ false =
              ground (arith, active, steps.grows.same_root) in
            let trans : translate virt s' ≡ some (addr word) =
              translate-seen virt s' active'
              ∙ ap (λ (r : ℕ). held_at s'.memory virt (along s'.memory r (path_of virt)))
                  steps.grows.same_root
              ∙ ap (held_at s'.memory virt)
                  (Reaches-along s'.memory root table (path_of virt) there)
              ∙ rw here refl in
            let was = sym (same virt) ∙ trans in
            let kept : s'.pmm.free_count ≡ s.pmm.free_count =
              omega (arith, steps.enough table refl, translate-missing.0 (addr word) was) in
            rw here (Maps.taken s' (addr word) was same kept steps.grows.tidy)
      ]

-- Where the active tables are a tree of pages that the page allocator does not count as free, and its
-- invariant holds, `map_page` of an aligned address to an aligned page ends in one of three ways. The
-- address was translated to nothing and is now translated to what the new entry holds, every other page
-- as before, and each table that was missing on its path took one free page. Or the address was
-- translated already, the error is `already_mapped`, and as many pages are free as before. Or it was
-- translated to nothing, fewer pages were free than tables were missing, the error is `out_of_memory`,
-- and no page is free any more. In the last two every address is translated as before. In all three the
-- tables are still such a tree and the allocator's invariant holds.
pub map_page-Maps :
    (virt phys : ℕ) (flags : PageFlags) (s : State)
    → (s.active_pml4 == 0) ≡ false
    → is_page_aligned virt ≡ true
    → is_page_aligned phys ≡ true
    → IsTidy s.active_pml4 s
    → Maps virt (held (set phys flags)) s (map_page virt phys flags s)
unfolding map_page map_page_internal
map_page-Maps virt phys flags s active aligned aligned' tidy =
    let user_access = not (lacks_user flags.bits) in
    rw (aligned, aligned', active)
      (map_entry-Maps virt phys flags s active
        (walk_to_entry_with_root_user s.active_pml4 virt true user_access s)
        (walk-Steps s.active_pml4 virt user_access s tidy)
        (λ e. walk_err s.active_pml4 virt user_access s e))
