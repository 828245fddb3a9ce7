-- ===== src/Mm/Vm/Tree.antt =====
-- kernel/src/mm/vm.rs: the tables below a root form a tree, in which an address has its own entry.
use atom.Prelude.{
  ℕ, ◌≤◌, ◌<◌, ◌≡◌, ◌≢◌, ◌⊎◌, inl, inr, refl, sym, ap, ◌∙◌, subst, List, [], ◌∷◌, Bool, true, false,
  if◌then◌else◌, Result, ok, err, arith, length, Bool-cases,
}
use atom.Mm.Vm.{VmError, not_mapped}
use atom.Mm.Vm.Tables.{
  State, Memory, is_present, addr, write, ensure_table_user, next_table_user,
  walk_to_entry_with_root_user, pml4_index, pdpt_index, pd_index,
}

-- A table below the root, with the indices that lead to it, the last first.
pub data Reaches (memory : Memory) (root : ℕ) : List ℕ → ℕ → Type 0 where
  top : Reaches memory root [] root
  down :
      (path : List ℕ) (table idx : ℕ)
      → length path < 3
      → Reaches memory root path table
      → is_present (memory table idx) ≡ true
      → Reaches memory root (idx ∷ path) (addr (memory table idx))

-- No table is reached on two paths.
pub record IsTree (memory : Memory) (root : ℕ) : Type 0 where
  pub place : ℕ → List ℕ
  pub placed : (path : List ℕ) (table : ℕ) → Reaches memory root path table → place table ≡ path

pub write-other :
    (table idx word t i : ℕ) (memory : Memory)
    → t ≢ table
    → write table idx word memory t i ≡ memory t i
unfolding write
write-other table idx word t i memory other = ground (arith, other)

-- Writing into a table of the last level moves no table.
module _ (memory : Memory) (root : ℕ) (tree : IsTree memory root) (path : List ℕ) (table : ℕ)
    (deep : length path ≡ 3) (there : Reaches memory root path table) (idx word : ℕ) where
  above : (p : List ℕ) (t : ℕ) → length p < 3 → Reaches memory root p t → t ≢ table
  above p t short r same =
      let two : p ≡ path =
        sym (tree.placed p t r) ∙ ap tree.place same ∙ tree.placed path table there in
      absurd (omega (arith, ap length two, deep))

  pub Reaches-write :
      (p : List ℕ) (t : ℕ)
      → Reaches memory root p t
      → Reaches (write table idx word memory) root p t
  Reaches-write _ _ Reaches.top = Reaches.top
  Reaches-write _ _ (Reaches.down p t i short r here) =
      let same = write-other table idx word t i memory (above p t short r) in
      subst (λ (x : ℕ). Reaches (write table idx word memory) root (i ∷ p) (addr x)) same
        (Reaches.down p t i short (Reaches-write p t r)
          (subst (λ (x : ℕ). is_present x ≡ true) (sym same) here))

  pub write-Reaches :
      (p : List ℕ) (t : ℕ)
      → Reaches (write table idx word memory) root p t
      → Reaches memory root p t
  write-Reaches _ _ Reaches.top = Reaches.top
  write-Reaches _ _ (Reaches.down p t i short r here) =
      let r' = write-Reaches p t r in
      let same = write-other table idx word t i memory (above p t short r') in
      subst (λ (x : ℕ). Reaches memory root (i ∷ p) (addr x)) (sym same)
        (Reaches.down p t i short r' (subst (λ (x : ℕ). is_present x ≡ true) same here))

  pub write-IsTree : IsTree (write table idx word memory) root
  write-IsTree = record {
    place = tree.place;
    placed = λ p t r. tree.placed p t (write-Reaches p t r);
  }

-- The path that the walk for an address takes.
abbrev pub path_of : ℕ → List ℕ
path_of virt = pd_index virt ∷ pdpt_index virt ∷ pml4_index virt ∷ []

-- What one level finds.
unfoldable pub below : Memory → ℕ → Result ℕ VmError → Result ℕ VmError
below memory idx (err e) = err e
below memory idx (ok table) =
    if is_present (memory table idx) then ok (addr (memory table idx)) else err not_mapped

-- What the walk along a path finds; the path has its last index first.
unfoldable pub along : Memory → ℕ → List ℕ → Result ℕ VmError
along memory root [] = ok root
along memory root (idx ∷ path) = below memory idx (along memory root path)

-- The walk that makes no table and grants no access finds, and changes nothing.
pub next_table_user-below :
    (idx : ℕ) (found : Result ℕ VmError) (s : State)
    → next_table_user idx false false (found, (false, s)) ≡ (below s.memory idx found, (false, s))
unfolding next_table_user ensure_table_user below
next_table_user-below idx (err e) s = refl
next_table_user-below idx (ok table) s = elim (Bool-cases (is_present (s.memory table idx))) [
  | inl here ↦ rw here refl
  | inr missing ↦ rw missing refl
]

pub walk-along :
    (root virt : ℕ) (s : State)
    → walk_to_entry_with_root_user root virt false false s
      ≡ (along s.memory root (path_of virt), (false, s))
unfolding walk_to_entry_with_root_user along ensure_table_user next_table_user
walk-along root virt s =
    let first : ensure_table_user root (pml4_index virt) false false (false, s)
        ≡ (below s.memory (pml4_index virt) (ok root), (false, s)) =
      next_table_user-below (pml4_index virt) (ok root) s in
    ap
      (λ (x : Result ℕ VmError × (Bool × State)).
        next_table_user (pd_index virt) false false
          (next_table_user (pdpt_index virt) false false x))
      first
    ∙ ap (next_table_user (pd_index virt) false false)
        (next_table_user-below (pdpt_index virt) (below s.memory (pml4_index virt) (ok root)) s)
    ∙ next_table_user-below (pd_index virt)
        (below s.memory (pdpt_index virt) (below s.memory (pml4_index virt) (ok root))) s

pub along-Reaches :
    (memory : Memory) (root t : ℕ) (path : List ℕ)
    → length path ≤ 3
    → along memory root path ≡ ok t
    → Reaches memory root path t
unfolding along below
along-Reaches memory root t [] short h =
    let same : root ≡ t = cc in subst (Reaches memory root []) same Reaches.top
along-Reaches memory root t (idx ∷ path) short h =
    go (along memory root path) (λ u. along-Reaches memory root u path (omega arith)) h
  where
    go :
        (found : Result ℕ VmError)
        → ((u : ℕ) → found ≡ ok u → Reaches memory root path u)
        → below memory idx found ≡ ok t
        → Reaches memory root (idx ∷ path) t
    go (err e) r f = cc
    go (ok u) r f = elim (Bool-cases (is_present (memory u idx))) [
      | inl here ↦
          let same : addr (memory u idx) ≡ t = ground (arith, here, f) in
          subst (Reaches memory root (idx ∷ path)) same
            (Reaches.down path u idx (omega arith) (r u refl) here)
      | inr missing ↦ absurd (ground (arith, missing, f))
    ]

pub Reaches-along :
    (memory : Memory) (root t : ℕ) (path : List ℕ)
    → Reaches memory root path t
    → along memory root path ≡ ok t
unfolding along below
Reaches-along memory root _ _ Reaches.top = refl
Reaches-along memory root _ _ (Reaches.down path table idx short r here) =
    rw (Reaches-along memory root table path r, below, here) refl

-- A walk that finds no table has the error `not_mapped`.
pub along-err :
    (memory : Memory) (root : ℕ) (e : VmError) (path : List ℕ)
    → along memory root path ≡ err e
    → e ≡ not_mapped
unfolding along below
along-err memory root e [] h = cc
along-err memory root e (idx ∷ path) h =
    go (along memory root path) (λ e'. along-err memory root e' path) h
  where
    go :
        (found : Result ℕ VmError)
        → ((e' : VmError) → found ≡ err e' → e' ≡ not_mapped)
        → below memory idx found ≡ err e
        → e ≡ not_mapped
    go (err e') r f = (let same : e' ≡ e = cc in sym same ∙ r e' refl)
    go (ok u) r f = elim (Bool-cases (is_present (memory u idx))) [
      | inl here ↦ absurd (ground (arith, here, f))
      | inr missing ↦ ground (arith, missing, f)
    ]

pub Result-cases :
    (found : Result ℕ VmError) → ((t : ℕ) × (found ≡ ok t)) ⊎ ((e : VmError) × (found ≡ err e))
Result-cases (ok t) = inl (t, refl)
Result-cases (err e) = inr (e, refl)

-- A write into a table of the last level changes what no walk finds.
pub along-write :
    (memory : Memory) (root table idx word : ℕ) (tree : IsTree memory root) (path other : List ℕ)
    → length path ≡ 3
    → Reaches memory root path table
    → length other ≤ 3
    → along (write table idx word memory) root other ≡ along memory root other
along-write memory root table idx word tree path other deep there short =
    let after = write table idx word memory in
    elim (Result-cases (along memory root other)) [
      | inl (t, found) ↦
          Reaches-along after root t other (
            Reaches-write memory root tree path table deep there idx word other t
              (along-Reaches memory root t other short found))
          ∙ sym found
      | inr (e, missing) ↦ elim (Result-cases (along after root other)) [
        | inl (t, found) ↦ absurd (
            cc (
              missing,
              Reaches-along memory root t other (
                  write-Reaches memory root tree path table deep there idx word other t
                    (along-Reaches after root t other short found)),
            ))
        | inr (e', missing') ↦
            missing'
            ∙ ap err (
                along-err after root e' other missing'
                ∙ sym (along-err memory root e other missing))
            ∙ sym missing
      ]
    ]
