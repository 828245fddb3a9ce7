-- ===== src/Mm/Vm/Seen.antt =====
-- kernel/src/mm/vm.rs: what an address is translated to before and after a page leaves the tables or
-- its entry is replaced.
use atom.Prelude.{
  ℕ, ◌/◌, ◌%◌, ◌^◌, ◌≡◌, ◌≢◌, inl, inr, refl, sym, ap, ◌∙◌, subst, Option, none, some, Bool, false,
  ◌==◌, if◌then◌else◌, Result, ok, err, arith, Bool-cases, ==_refl,
}
use atom.Mm.Vm.{VmError}
use atom.Mm.Vm.Tables.{
  State, Memory, is_present, addr, write, pml4_index, pdpt_index, pd_index, pt_index,
}
use atom.Mm.Vm.Access.{walk_to_entry, entry_of, translate}
use atom.Mm.Vm.Tree.{
  Reaches, IsTree, write-other, write-IsTree, path_of, along, walk-along, along-Reaches,
  along-write,
}

-- The address in an entry, if it is present.
unfoldable pub held : ℕ → Option ℕ
held word = if is_present word then some (addr word) else none

unfoldable pub held_at : Memory → ℕ → Result ℕ VmError → Option ℕ
held_at memory virt (err e) = none
held_at memory virt (ok table) = held (memory table (pt_index virt))

unfoldable pub seen : Memory → ℕ → ℕ → Option ℕ
seen memory root virt = held_at memory virt (along memory root (path_of virt))

pub walk_to_entry-along :
    (virt : ℕ) (s : State)
    → (s.active_pml4 == 0) ≡ false
    → walk_to_entry virt s ≡ along s.memory s.active_pml4 (path_of virt)
unfolding walk_to_entry
walk_to_entry-along virt s active =
    rw active
      (ap (λ (x : Result ℕ VmError × (Bool × State)). x.0) (walk-along s.active_pml4 virt s))

pub translate-seen :
    (virt : ℕ) (s : State)
    → (s.active_pml4 == 0) ≡ false
    → translate virt s ≡ seen s.memory s.active_pml4 virt
unfolding translate seen entry_of held_at held
translate-seen virt s active =
    ap
      (λ (x : Result ℕ VmError). elim (entry_of virt x s) as (λ y. Option ℕ) [
        | err e ↦ none
        | ok found ↦ some (addr found.1)
      ])
      (walk_to_entry-along virt s active)
    ∙ go (along s.memory s.active_pml4 (path_of virt))
  where
    go :
        (x : Result ℕ VmError)
        → (elim (entry_of virt x s) as (λ y. Option ℕ) [
          | err e ↦ none
          | ok found ↦ some (addr found.1)
        ])
          ≡ held_at s.memory virt x
    go (err e) = refl
    go (ok table) = elim (Bool-cases (is_present (s.memory table (pt_index virt)))) [
      | inl here ↦ rw here refl
      | inr missing ↦ rw missing refl
    ]

-- The two addresses are not on the same page of the 48 bits that are translated.
pub Apart : ℕ → ℕ → Type 0
Apart virt other = virt / 4096 % 2 ^ 36 ≢ other / 4096 % 2 ^ 36

same_page :
    (virt other : ℕ)
    → path_of virt ≡ path_of other
    → pt_index virt ≡ pt_index other
    → virt / 4096 % 2 ^ 36 ≡ other / 4096 % 2 ^ 36
same_page virt other path last =
    let first : pd_index virt ≡ pd_index other = cc in
    let second : pdpt_index virt ≡ pdpt_index other = cc in
    let third : pml4_index virt ≡ pml4_index other = cc in omega (arith, first, second, third, last)

write_self : (table idx word : ℕ) (memory : Memory) → write table idx word memory table idx ≡ word
unfolding write
write_self table idx word memory = rw (==_refl table, ==_refl idx) refl

write-other_index :
    (table idx word t i : ℕ) (memory : Memory)
    → i ≢ idx
    → write table idx word memory t i ≡ memory t i
unfolding write
write-other_index table idx word t i memory other = ground (arith, other)

-- A write to the entry of one address is seen at this address and at no other page.
module _ (memory : Memory) (root virt table word : ℕ) (tree : IsTree memory root)
    (found : along memory root (path_of virt) ≡ ok table) where
  there : Reaches memory root (path_of virt) table
  there = along-Reaches memory root table (path_of virt) (omega arith) found

  abbrev after : Memory
  after = write table (pt_index virt) word memory

  same_walk : (other : ℕ) → along after root (path_of other) ≡ along memory root (path_of other)
  same_walk other =
      along-write memory root table (pt_index virt) word tree (path_of virt) (path_of other) refl
        there (omega arith)

  pub seen-write : seen after root virt ≡ held word
  unfolding seen held_at
  seen-write =
      ap (held_at after virt) (same_walk virt ∙ found)
      ∙ ap held (write_self table (pt_index virt) word memory)

  pub seen-write_other :
      (other : ℕ) → Apart virt other → seen after root other ≡ seen memory root other
  unfolding seen held_at Apart
  seen-write_other other apart =
      ap (held_at after other) (same_walk other) ∙ go (along memory root (path_of other)) refl
    where
      go :
          (x : Result ℕ VmError)
          → along memory root (path_of other) ≡ x
          → held_at after other x ≡ held_at memory other x
      go (err e) e' = refl
      go (ok t) e' = elim (Bool-cases (t == table)) [
        | inr elsewhere ↦ ap held (
            write-other table (pt_index virt) word t (pt_index other) memory
              (λ (e : t ≡ table). absurd (ground (arith, e, elsewhere))))
        | inl same ↦
            let one : t ≡ table = ground (arith, same) in
            let paths : path_of virt ≡ path_of other =
              sym (tree.placed (path_of virt) table there)
              ∙ ap tree.place (sym one)
              ∙ tree.placed (path_of other) t
                  (along-Reaches memory root t (path_of other) (omega arith) e') in
            ap held (
              write-other_index table (pt_index virt) word t (pt_index other) memory
                (λ (e : pt_index other ≡ pt_index virt).
                  apart (same_page virt other paths (sym e))))
      ]

-- An operation gives the entry of one page another word: `now` is then seen there, all other pages are
-- translated as before, and the tables stay a tree.
pub record Replaces (virt : ℕ) (now : Option ℕ) (s t : State) : Type 0 where
  pub here : translate virt t ≡ now
  pub others : (other : ℕ) → Apart virt other → translate other t ≡ translate other s
  pub tree : IsTree t.memory t.active_pml4

pub store-Replaces :
    (virt table word : ℕ) (s t : State)
    → IsTree s.memory s.active_pml4
    → (s.active_pml4 == 0) ≡ false
    → along s.memory s.active_pml4 (path_of virt) ≡ ok table
    → t.memory ≡ write table (pt_index virt) word s.memory
    → t.active_pml4 ≡ s.active_pml4
    → Replaces virt (held word) s t
store-Replaces virt table word s t tree active found memory root =
    let active' : (t.active_pml4 == 0) ≡ false = ground (arith, active, root) in
    let seen_in_t : (v : ℕ)
        → translate v t ≡ seen (write table (pt_index virt) word s.memory) s.active_pml4 v =
      λ v.
        translate-seen v t active'
        ∙ ap (λ (m : Memory). seen m t.active_pml4 v) memory
        ∙ ap (λ (r : ℕ). seen (write table (pt_index virt) word s.memory) r v) root in
    record {
      here = seen_in_t virt ∙ seen-write s.memory s.active_pml4 virt table word tree found;
      others = λ other apart.
          seen_in_t other
          ∙ seen-write_other s.memory s.active_pml4 virt table word tree found other apart
          ∙ sym (translate-seen other s active);
      tree =
          subst (λ (r : ℕ). IsTree t.memory r) (sym root)
            (subst (λ (m : Memory). IsTree m s.active_pml4) (sym memory)
              (write-IsTree s.memory s.active_pml4 tree (path_of virt) table refl
                (along-Reaches s.memory s.active_pml4 table (path_of virt) (omega arith) found)
                (pt_index virt) word));
    }
