-- ===== src/Mm/Vm/Ensure.antt =====
-- kernel/src/mm/vm.rs, `walk_to_entry_with_root_user` where it may make tables.
use atom.Prelude.{
  ℕ, ◌+◌, ◌*◌, ◌/◌, ◌^◌, ◌<◌, ◌≡◌, ◌≢◌, inl, inr, refl, sym, ap, subst, List, [], ◌∷◌, Option, Bool,
  true, false, ◌&&◌, Result, ok, err, arith, length, Bool-cases, bit_or,
}
use atom.Mm.Pmm
use atom.Mm.Pmm.{alloc_page, is_page_free, page_size}
use atom.Mm.Pmm.Alloc.{Allocates, alloc_page-Allocates, run_is_free-free_count}
use atom.Mm.Vm.{VmError, user}
use atom.Mm.Vm.Tables.{
  State, is_present, addr, set, write, zeroed, store, new_table, lacks_user, table_flags,
  ensure_table_user, next_table_user, walk_to_entry_with_root_user, pml4_index, pdpt_index,
  pd_index,
}
use atom.Mm.Vm.Tree.{Reaches, path_of}
use atom.Mm.Vm.Words.{addr-user, is_present-table_entry, addr-table_entry}
use atom.Mm.Vm.NewTable.{new-Reaches, Reaches-after, after-Reaches, after-IsTree, seen-after}
use atom.Mm.Vm.Grow.{IsTidy, Grows, stays, Grows-trans, promote-Grows, Reaches-promoted}
use atom.Mm.Vm.Missing.{missing, Reaches-missing, absent-missing, missing-le, missing-step}

-- The tables grow, and a table that is answered is reached on the path. Each missing table of the path
-- takes one page; the walk fails only where the free pages are fewer than the missing tables, and then
-- it has taken all of them.
pub record Steps (root : ℕ) (path : List ℕ) (s : State) (out : Result ℕ VmError × (Bool × State))
    : Type 0 where
  pub grows : Grows root s out.1.1
  pub found : (u : ℕ) → out.0 ≡ ok u → Reaches out.1.1.memory root path u
  -- Nothing is made below the path.
  pub back :
      (q : List ℕ) (u : ℕ)
      → length path < length q
      → Reaches out.1.1.memory root q u
      → Reaches s.memory root q u
  pub enough :
      (u : ℕ)
      → out.0 ≡ ok u
      → out.1.1.pmm.free_count + missing s.memory root path ≡ s.pmm.free_count
  pub few :
      (e : VmError)
      → out.0 ≡ err e
      → (s.pmm.free_count < missing s.memory root path) × (out.1.1.pmm.free_count ≡ 0)

module _ (root t i : ℕ) (path : List ℕ) (short : length path < 3) (user_access : Bool) where
  new_table-Steps :
      (created : Bool) (out : Option ℕ × Pmm.State) (s : State)
      → IsTidy root s
      → Reaches s.memory root path t
      → is_present (s.memory t i) ≡ false
      → Allocates 1 s.pmm out
      → Steps root (i ∷ path) s (new_table t i (table_flags user_access) created out s)
  unfolding new_table
  new_table-Steps created _ s tidy there absent (Allocates.full none_free) =
      let no_page = run_is_free-free_count s.pmm tidy.inv none_free in
      record {
        grows = record {
          tidy = record { tree = tidy.tree; inv = tidy.inv; reserved = tidy.reserved };
          same_seen = λ v. refl;
          reach = λ p u r. r;
          same_root = refl;
        };
        found = λ u e. cc;
        back = λ q u longer r. r;
        enough = λ u e. cc;
        few = λ e f.
            (omega (arith, no_page, absent-missing s.memory root t i path there absent), no_page);
      }
  new_table-Steps created _ s tidy there absent
        (Allocates.found start after inside free first pages left total inv) =
      let phys = start * page_size in
      let word = set phys (table_flags user_access) in
      let small : start < 2 ^ 40 = omega (arith, inside, tidy.inv.valid.tracked) in
      let present = is_present-table_entry start user_access small in
      let leads = addr-table_entry start user_access small in
      let fresh : (p : List ℕ) (u : ℕ) → Reaches s.memory root p u → u ≢ phys = λ p u r e.
        let page : u / 4096 ≡ start = omega (arith, e) in
        absurd (ground (arith, page, tidy.reserved p u r, free start)) in
      let made =
        after-Reaches s.memory root t i phys word path tidy.tree there short absent fresh present
          leads in
      record {
        grows = record {
          tidy = record {
            tree =
                after-IsTree s.memory root t i phys word path tidy.tree there short absent fresh
                  present leads;
            inv = inv;
            reserved = λ p u r. elim (made p u r) [
              | inl old ↦ ground (arith, pages (u / 4096), tidy.reserved p u old)
              | inr (new, _) ↦
                  let page : u / 4096 ≡ start = omega (arith, new) in
                  ground (arith, page, pages (u / 4096))
            ];
          };
          same_seen =
              seen-after s.memory root t i phys word path tidy.tree there short absent fresh present
                leads;
          reach =
              Reaches-after s.memory root t i phys word path tidy.tree there short absent fresh
                present leads;
          same_root = refl;
        };
        found = λ u e.
            let same : phys ≡ u = cc in
            subst (Reaches (write t i word (zeroed phys s.memory)) root (i ∷ path)) same (
              new-Reaches s.memory root t i phys word path tidy.tree there short absent fresh
                present leads);
        back = λ q u longer r. elim (made q u r) [
          | inl old ↦ old
          | inr (_, same) ↦ absurd (omega (arith, longer, ap length same))
        ];
        enough = λ u e. omega (arith, left, absent-missing s.memory root t i path there absent);
        few = λ e f. cc;
      }

  -- An entry that is there costs nothing.
  present-Steps :
      (created : Bool) (u : ℕ) (s s' : State)
      → Grows root s s'
      → ((p : List ℕ) (v : ℕ) → Reaches s'.memory root p v → Reaches s.memory root p v)
      → s'.pmm.free_count ≡ s.pmm.free_count
      → Reaches s.memory root (i ∷ path) u
      → Steps root (i ∷ path) s (ok u, (created, s'))
  present-Steps created u s s' grows same kept there = record {
    grows = grows;
    found = λ v e.
        let answer : u ≡ v = cc in
        subst (Reaches s'.memory root (i ∷ path)) answer (grows.reach (i ∷ path) u there);
    back = λ q v longer r. same q v r;
    enough = λ v e. omega (arith, kept, Reaches-missing s.memory root u (i ∷ path) there);
    few = λ e f. cc;
  }

  pub ensure_table_user-Steps :
      (created : Bool) (s : State)
      → IsTidy root s
      → Reaches s.memory root path t
      → Steps root (i ∷ path) s (ensure_table_user t i true user_access (created, s))
  unfolding ensure_table_user store
  ensure_table_user-Steps created s tidy there =
      let entry = s.memory t i in
      elim (Bool-cases (is_present entry)) [
        | inr absent ↦ rw absent (
            new_table-Steps created (alloc_page s.pmm) s tidy there absent
              (alloc_page-Allocates s.pmm tidy.inv))
        | inl here ↦
            let next : Reaches s.memory root (i ∷ path) (addr entry) =
              Reaches.down path t i short there here in
            elim (Bool-cases (user_access && lacks_user entry)) [
              | inl promotes ↦
                  let moved = store t i (bit_or entry user.bits) s in
                  rw (here, promotes)
                    (present-Steps created (addr (bit_or entry user.bits)) s moved
                      (promote-Grows root t i s tidy) (Reaches-promoted root t i s tidy) refl
                      (subst (Reaches s.memory root (i ∷ path)) (sym (addr-user entry)) next))
              | inr granted ↦
                  rw (here, granted)
                    (present-Steps created (addr entry) s s (stays root s tidy) (λ p v r. r) refl
                      next)
            ]
      ]

next_table_user-Steps :
    (root i : ℕ) (path : List ℕ) (user_access : Bool) (s : State)
    (out : Result ℕ VmError × (Bool × State))
    → length path < 3
    → Steps root path s out
    → Steps root (i ∷ path) s (next_table_user i true user_access out)
unfolding next_table_user
next_table_user-Steps root i path user_access s (err e, st) short before = record {
  grows = before.grows;
  found = λ u f. cc;
  back = λ q u longer r. before.back q u (omega (arith, longer)) r;
  enough = λ u f. cc;
  few = λ e' f.
      let (less, all) = before.few e refl in
      (omega (arith, less, missing-le s.memory root i path), all);
}
next_table_user-Steps root i path user_access s (ok t, (created, s')) short before =
    let there = before.found t refl in
    let after =
      ensure_table_user-Steps root t i path short user_access created s' before.grows.tidy there in
    let paid = before.enough t refl in
    let cost =
      missing-step s.memory s'.memory root t i path short before.grows.reach
        (λ u. before.back (i ∷ path) u (omega arith)) there in
    record {
      grows =
          Grows-trans root s s' (ensure_table_user t i true user_access (created, s')).1.1
            before.grows after.grows;
      found = after.found;
      back = λ q u longer r. before.back q u (omega (arith, longer)) (after.back q u longer r);
      enough = λ u e. omega (arith, cost, paid, after.enough u e);
      few = λ e f. let (less, all) = after.few e f in (omega (arith, cost, paid, less), all);
    }

pub walk-Steps :
    (root virt : ℕ) (user_access : Bool) (s : State)
    → IsTidy root s
    → Steps root (path_of virt) s (walk_to_entry_with_root_user root virt true user_access s)
unfolding walk_to_entry_with_root_user
walk-Steps root virt user_access s tidy =
    next_table_user-Steps root (pd_index virt) (pdpt_index virt ∷ pml4_index virt ∷ []) user_access
      s _ (omega arith)
      (next_table_user-Steps root (pdpt_index virt) (pml4_index virt ∷ []) user_access s _
        (omega arith)
        (ensure_table_user-Steps root root (pml4_index virt) [] (omega arith) user_access false s
          tidy Reaches.top))
