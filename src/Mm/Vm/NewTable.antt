-- ===== src/Mm/Vm/NewTable.antt =====
-- kernel/src/mm/vm.rs: an empty table that comes below a table of the upper three levels.
use atom.Prelude.{
  ℕ, ◌<◌, ◌≡◌, ◌≢◌, ◌⊎◌, inl, inr, refl, sym, ap, ◌∙◌, subst, List, ◌∷◌, none, true, false, ◌==◌,
  ◌&&◌, if◌then◌else◌, arith, length, Bool-cases, ==_refl, ==_ne,
}
use atom.Mm.Vm.Tables.{Memory, is_present, addr, write, zeroed, pt_index}
use atom.Mm.Vm.Tree.{Reaches, IsTree, path_of, along, along-Reaches, Reaches-along, Result-cases}
use atom.Mm.Vm.Seen.{held, held_at, seen}

held-none : held 0 ≡ none
unfolding held is_present
held-none = refl

module _ (memory : Memory) (root t i phys word : ℕ) (path : List ℕ) (tree : IsTree memory root)
    (there : Reaches memory root path t) (short : length path < 3)
    (absent : is_present (memory t i) ≡ false)
    (fresh : (p : List ℕ) (u : ℕ) → Reaches memory root p u → u ≢ phys)
    (present : is_present word ≡ true) (leads : addr word ≡ phys) where
  abbrev after : Memory
  after = write t i word (zeroed phys memory)

  after-other : (u j : ℕ) → u ≢ phys → ((u == t) && (j == i)) ≡ false → after u j ≡ memory u j
  unfolding write zeroed
  after-other u j new other = rw (other, ==_ne u phys new) refl

  after-new : (j : ℕ) → after phys j ≡ 0
  unfolding write zeroed
  after-new j =
      let apart : (phys == t) ≡ false =
        ==_ne phys t (λ (e : phys ≡ t). fresh path t there (sym e)) in
      rw (apart, ==_refl phys) refl

  after-entry : after t i ≡ word
  unfolding write
  after-entry = rw (==_refl t, ==_refl i) refl

  absent_at : (u j : ℕ) → ((u == t) && (j == i)) ≡ true → is_present (memory u j) ≡ false
  absent_at u j here =
      let same_table : u ≡ t = ground arith in
      let same_idx : j ≡ i = ground arith in
      ap (λ (x : ℕ). is_present (memory x j)) same_table
      ∙ ap (λ (x : ℕ). is_present (memory t x)) same_idx
      ∙ absent

  pub Reaches-after : (p : List ℕ) (u : ℕ) → Reaches memory root p u → Reaches after root p u
  Reaches-after _ _ Reaches.top = Reaches.top
  Reaches-after _ _ (Reaches.down p u j lt r here) = elim (Bool-cases ((u == t) && (j == i))) [
    | inl hit ↦ absurd (cc (absent_at u j hit, here))
    | inr other ↦
        let same = after-other u j (fresh p u r) other in
        subst (λ (x : ℕ). Reaches after root (j ∷ p) (addr x)) same
          (Reaches.down p u j lt (Reaches-after p u r)
            (subst (λ (x : ℕ). is_present x ≡ true) (sym same) here))
  ]

  pub new-Reaches : Reaches after root (i ∷ path) phys
  new-Reaches = subst (Reaches after root (i ∷ path)) (ap addr after-entry ∙ leads) (
      Reaches.down path t i short (Reaches-after path t there)
        (ap is_present after-entry ∙ present))

  pub after-Reaches :
      (p : List ℕ) (u : ℕ)
      → Reaches after root p u
      → Reaches memory root p u ⊎ ((u ≡ phys) × (p ≡ i ∷ path))
  unfolding is_present
  after-Reaches _ _ Reaches.top = inl Reaches.top
  after-Reaches _ _ (Reaches.down p u j lt r here) = elim (after-Reaches p u r) [
    | inr (new, _) ↦
        let empty : after u j ≡ 0 = ap (λ (x : ℕ). after x j) new ∙ after-new j in
        absurd (cc (empty, here))
    | inl r' ↦ elim (Bool-cases ((u == t) && (j == i))) [
      | inl hit ↦
          let same_table : u ≡ t = ground arith in
          let same_idx : j ≡ i = ground arith in
          let word_there : after u j ≡ word =
            ap (λ (x : ℕ). after x j) same_table ∙ ap (after t) same_idx ∙ after-entry in
          let same_path : p ≡ path =
            sym (tree.placed p u r') ∙ ap tree.place same_table ∙ tree.placed path t there in
          inr (ap addr word_there ∙ leads, ap (◌∷◌ j) same_path ∙ ap (λ (x : ℕ). x ∷ path) same_idx)
      | inr other ↦
          let same = after-other u j (fresh p u r') other in
          inl (
            subst (λ (x : ℕ). Reaches memory root (j ∷ p) (addr x)) (sym same)
              (Reaches.down p u j lt r' (subst (λ (x : ℕ). is_present x ≡ true) same here)))
    ]
  ]

  pub after-IsTree : IsTree after root
  after-IsTree = record {
    place = λ u. if u == phys then i ∷ path else tree.place u;
    placed = λ p u r. elim (after-Reaches p u r) [
      | inl r' ↦ rw (==_ne u phys (fresh p u r')) (tree.placed p u r')
      | inr (new, same) ↦ let hit : (u == phys) ≡ true = ground (arith, new) in rw hit (sym same)
    ];
  }

  -- No address is translated to anything else.
  pub seen-after : (v : ℕ) → seen after root v ≡ seen memory root v
  unfolding seen held_at
  seen-after v = elim (Result-cases (along memory root (path_of v))) [
    | inl (u, found) ↦
        let r = along-Reaches memory root u (path_of v) (omega arith) found in
        let found' = Reaches-along after root u (path_of v) (Reaches-after (path_of v) u r) in
        let apart : u ≢ t = λ (e : u ≡ t).
          let same : path_of v ≡ path =
            sym (tree.placed (path_of v) u r) ∙ ap tree.place e ∙ tree.placed path t there in
          absurd (omega (arith, ap length same, short)) in
        let other : ((u == t) && (pt_index v == i)) ≡ false = ground (arith, ==_ne u t apart) in
        ap (held_at after v) found'
        ∙ ap held (after-other u (pt_index v) (fresh (path_of v) u r) other)
        ∙ sym (ap (held_at memory v) found)
    | inr (e, missing) ↦ elim (Result-cases (along after root (path_of v))) [
      | inr (e', missing') ↦ ap (held_at after v) missing' ∙ sym (ap (held_at memory v) missing)
      | inl (u, found') ↦
          elim (after-Reaches (path_of v) u
            (along-Reaches after root u (path_of v) (omega arith) found')) [
              | inl r ↦ absurd (cc (Reaches-along memory root u (path_of v) r, missing))
              | inr (new, _) ↦
                  let empty : after u (pt_index v) ≡ 0 =
                    ap (λ (x : ℕ). after x (pt_index v)) new ∙ after-new (pt_index v) in
                  ap (held_at after v) found'
                  ∙ ap held empty
                  ∙ held-none
                  ∙ sym (ap (held_at memory v) missing)
            ]
    ]
  ]
