-- ===== src/Mm/Vm/Grow.antt =====
-- kernel/src/mm/vm.rs, `ensure_table_user`: a walk that may make tables.
use atom.Prelude.{
  ℕ, ◌/◌, ◌≡◌, inl, inr, refl, sym, ap, ◌∙◌, subst, List, [], ◌∷◌, false, ◌==◌, ◌&&◌, Result, ok,
  err, arith, Bool-cases, bit_or,
}
use atom.Mm.Pmm.{is_page_free}
use atom.Mm.Pmm.Alloc.{Inv}
use atom.Mm.Vm.{VmError, user}
use atom.Mm.Vm.Tables.{State, Memory, is_present, addr, write, store, pt_index}
use atom.Mm.Vm.Tree.{Reaches, IsTree, path_of, along, below}
use atom.Mm.Vm.Seen.{held, held_at, seen}
use atom.Mm.Vm.Words.{is_present-user, addr-user}

-- The tables below the root are a tree, and their pages are not free in the page allocator.
pub record IsTidy (root : ℕ) (s : State) : Type 0 where
  pub tree : IsTree s.memory root
  pub inv : Inv s.pmm
  pub reserved :
      (path : List ℕ) (t : ℕ) → Reaches s.memory root path t → is_page_free (t / 4096) s.pmm ≡ false

-- Tables may be added below the root; all addresses are translated as before.
pub record Grows (root : ℕ) (s t : State) : Type 0 where
  pub tidy : IsTidy root t
  pub same_seen : (v : ℕ) → seen t.memory root v ≡ seen s.memory root v
  pub reach : (path : List ℕ) (u : ℕ) → Reaches s.memory root path u → Reaches t.memory root path u
  pub same_root : t.active_pml4 ≡ s.active_pml4

pub stays : (root : ℕ) (s : State) → IsTidy root s → Grows root s s
stays root s tidy = record {
  tidy = tidy;
  same_seen = λ v. refl;
  reach = λ path u r. r;
  same_root = refl;
}

pub Grows-trans : (root : ℕ) (s t u : State) → Grows root s t → Grows root t u → Grows root s u
Grows-trans root s t u f g = record {
  tidy = g.tidy;
  same_seen = λ v. g.same_seen v ∙ f.same_seen v;
  reach = λ path v r. g.reach path v (f.reach path v r);
  same_root = g.same_root ∙ f.same_root;
}

-- The memories differ in user bits at most.
module _ (m m' : Memory) (root : ℕ)
    (presence : (t i : ℕ) → is_present (m' t i) ≡ is_present (m t i))
    (address : (t i : ℕ) → addr (m' t i) ≡ addr (m t i)) where
  Reaches-user : (path : List ℕ) (u : ℕ) → Reaches m root path u → Reaches m' root path u
  Reaches-user _ _ Reaches.top = Reaches.top
  Reaches-user _ _ (Reaches.down p t i lt r here) =
      subst (Reaches m' root (i ∷ p)) (address t i)
        (Reaches.down p t i lt (Reaches-user p t r) (presence t i ∙ here))

  below-user : (idx : ℕ) (found : Result ℕ VmError) → below m' idx found ≡ below m idx found
  unfolding below
  below-user idx (err e) = refl
  below-user idx (ok t) = rw (presence t idx, address t idx) refl

  along-user : (path : List ℕ) → along m' root path ≡ along m root path
  unfolding along
  along-user [] = refl
  along-user (idx ∷ path) = below-user idx (along m' root path) ∙ ap (below m idx) (along-user path)

  held_at-user : (v : ℕ) (found : Result ℕ VmError) → held_at m' v found ≡ held_at m v found
  unfolding held_at held
  held_at-user v (err e) = refl
  held_at-user v (ok t) = rw (presence t (pt_index v), address t (pt_index v)) refl

  seen-user : (v : ℕ) → seen m' root v ≡ seen m root v
  unfolding seen
  seen-user v =
      held_at-user v (along m' root (path_of v)) ∙ ap (held_at m v) (along-user (path_of v))

-- An entry gets the user bit.
module _ (root t i : ℕ) (s : State) (tidy : IsTidy root s) where
  abbrev promoted : Memory
  promoted = write t i (bit_or (s.memory t i) user.bits) s.memory

  promoted_lem :
      {A : Type 0} (f : ℕ → A) (u j : ℕ)
      → ((e : ℕ) → f (bit_or e user.bits) ≡ f e)
      → f (promoted u j) ≡ f (s.memory u j)
  unfolding write
  promoted_lem f u j same = elim (Bool-cases ((u == t) && (j == i))) [
    | inl hit ↦
        let same_table : t ≡ u = ground arith in
        let same_idx : i ≡ j = ground arith in
        rw hit (
          same (s.memory t i)
          ∙ ap (λ (x : ℕ). f (s.memory x i)) same_table
          ∙ ap (λ (x : ℕ). f (s.memory u x)) same_idx)
    | inr other ↦ rw other refl
  ]

  presence : (u j : ℕ) → is_present (promoted u j) ≡ is_present (s.memory u j)
  presence u j = promoted_lem is_present u j is_present-user

  address : (u j : ℕ) → addr (promoted u j) ≡ addr (s.memory u j)
  address u j = promoted_lem addr u j addr-user

  pub Reaches-promoted :
      (p : List ℕ) (u : ℕ) → Reaches promoted root p u → Reaches s.memory root p u
  Reaches-promoted p u r =
      Reaches-user promoted s.memory root (λ x j. sym (presence x j)) (λ x j. sym (address x j)) p u
        r

  pub promote-Grows : Grows root s (store t i (bit_or (s.memory t i) user.bits) s)
  unfolding store
  promote-Grows = record {
    tidy = record {
      tree = record {
        place = tidy.tree.place;
        placed = λ p u r. tidy.tree.placed p u (Reaches-promoted p u r);
      };
      inv = tidy.inv;
      reserved = λ p u r. tidy.reserved p u (Reaches-promoted p u r);
    };
    same_seen = seen-user s.memory promoted root presence address;
    reach = Reaches-user s.memory promoted root presence address;
    same_root = refl;
  }
