-- ===== src/Cap/Manager/Invariant/Derived.antt =====
-- kernel/src/cap.rs, `derive_capability`: a new child keeps the forest of capabilities.
use atom.Prelude.{
  ℕ, ◌+◌, ◌<◌, ◌≡◌, refl, ◌∙◌, sym, subst, ◌⊎◌, inl, inr, [], ◌∷◌, ◌++◌, some, arith, true, ◌==◌,
  if◌then◌else◌, In, In-append, In-append_left, In-append_right, ℕ_discrete,
}
use atom.Prelude.BTreeMap.{BTreeMap, get, insert, get-insert}
use atom.Cap.Permissions.{CapPermissions, is_subset_of, IsWord}
use atom.Cap.Capability.{Capability}
use atom.Cap.Manager.Invariant.{Node, IsForest}

module _ (caps : BTreeMap Capability) (next : ℕ) (f : IsForest caps next) (p : ℕ)
    (parent : Capability) (found : get p caps ≡ some parent) (owner : ℕ) (perms : CapPermissions)
    (word : IsWord perms) (sub : is_subset_of perms parent.permissions ≡ true) where
  abbrev pub parent' : Capability
  parent' = record parent { children = parent.children ++ next ∷ [] }

  abbrev pub new_child : Capability
  new_child = record {
    handle = next;
    resource = parent.resource;
    permissions = perms;
    owner = owner;
    parent = some parent.handle;
    children = [];
  }

  abbrev pub extended : BTreeMap Capability
  extended = insert next new_child (insert p parent' caps)

  get-extended :
      (k : ℕ)
      → get k extended
        ≡ (if next == k then some new_child else if p == k then some parent' else get k caps)
  get-extended k =
      rw (get-insert next k new_child (insert p parent' caps), get-insert p k parent' caps)

  above : Node caps next p parent
  above = f p parent found

  -- What an entry other than the new child was before.
  earlier :
      (k : ℕ) (c : Capability)
      → k < next
      → get k extended ≡ some c
      → (c' : Capability) × (get k caps ≡ some c')
        × (c.parent ≡ c'.parent)
        × (c.permissions ≡ c'.permissions)
        × (c.resource ≡ c'.resource)
        × ((d : ℕ) → In d c'.children → In d c.children)
  earlier k c lt g = go (ℕ_discrete p k)
    where
      go :
          Dec (p ≡ k)
          → (c' : Capability) × (get k caps ≡ some c')
            × (c.parent ≡ c'.parent)
            × (c.permissions ≡ c'.permissions)
            × (c.resource ≡ c'.resource)
            × ((d : ℕ) → In d c'.children → In d c.children)
      go (yes same) =
          let is_parent : c ≡ parent' = ground (arith, get-extended k) in
          (
            parent,
            ground arith,
            rw is_parent refl,
            rw is_parent refl,
            rw is_parent refl,
            λ d i. rw is_parent (In-append_left d parent.children (next ∷ []) i),
          )
      go (no other) = (c, ground (arith, get-extended k), refl, refl, refl, λ d i. i)

  child-Node : Node extended (next + 1) next new_child
  child-Node = record {
    own_handle = refl;
    fresh = omega arith;
    word = word;
    children_fresh = λ d i. absurd i;
    children_link = λ d c i g. absurd i;
    parent_fresh = λ q e. ground (arith, above.own_handle, above.fresh);
    parent_link = λ q c e g. listed q c e g;
  }
    where
      listed :
          (q : ℕ) (c : Capability)
          → some parent.handle ≡ some q
          → get q extended ≡ some c
          → In next c.children
      listed q c e g =
          let is_parent : c ≡ parent' =
            ground (arith, above.own_handle, above.fresh, get-extended q) in
          rw is_parent (In-append_right next parent.children (next ∷ []) (inl refl))

  -- A node other than the child, with the children `cs` that it had.
  old-Node : (h : ℕ) (cap : Capability) → Node caps next h cap → Node extended (next + 1) h cap
  old-Node h cap node = record {
    own_handle = node.own_handle;
    fresh = omega (arith, node.fresh);
    word = node.word;
    children_fresh = λ d i. omega (arith, node.children_fresh d i);
    children_link = λ d c i g.
        let (c', g', same_parent, same_perms, same_resource, _) =
          earlier d c (node.children_fresh d i).1 g in
        let (link, less, res) = node.children_link d c' i g' in
        (same_parent ∙ link, rw same_perms less, same_resource ∙ res);
    parent_fresh = node.parent_fresh;
    parent_link = λ q c e g.
        let (c', g', _, _, _, more) =
          earlier q c (omega (arith, node.parent_fresh q e, node.fresh)) g in
        more h (node.parent_link q c' e g');
  }

  parent-Node : Node extended (next + 1) p parent'
  parent-Node = record {
    own_handle = above.own_handle;
    fresh = omega (arith, above.fresh);
    word = above.word;
    children_fresh = λ d i. fresh_child d (In-append d parent.children (next ∷ []) i);
    children_link = λ d c i g. link_child d c (In-append d parent.children (next ∷ []) i) g;
    parent_fresh = above.parent_fresh;
    parent_link = (old-Node p parent above).parent_link;
  }
    where
      fresh_child : (d : ℕ) → In d parent.children ⊎ In d (next ∷ []) → (p < d) × (d < next + 1)
      fresh_child d (inl i) = omega (arith, above.children_fresh d i)
      fresh_child d (inr (inl e)) = omega (arith, above.fresh)
      fresh_child d (inr (inr i)) = absurd i

      link_child :
          (d : ℕ) (c : Capability)
          → In d parent.children ⊎ In d (next ∷ [])
          → get d extended ≡ some c
          → (c.parent ≡ some p)
            × (is_subset_of c.permissions parent.permissions ≡ true)
            × (c.resource ≡ parent.resource)
      link_child d c (inl i) g = (old-Node p parent above).children_link d c i g
      link_child d c (inr (inl e)) g =
          let is_child : c ≡ new_child = ground (arith, get-extended d) in
          rw is_child (rw above.own_handle refl, sub, refl)
      link_child d c (inr (inr i)) g = absurd i

  pub IsForest-derive : IsForest extended (next + 1)
  IsForest-derive h cap e = go (ℕ_discrete next h) (ℕ_discrete p h)
    where
      go : Dec (next ≡ h) → Dec (p ≡ h) → Node extended (next + 1) h cap
      go (yes same) _ =
          let is_child : cap ≡ new_child = ground (arith, get-extended h) in
          subst (λ k. Node extended (next + 1) k cap) same
            (subst (Node extended (next + 1) next) (sym is_child) child-Node)
      go (no other) (yes same) =
          let is_parent : cap ≡ parent' = ground (arith, get-extended h) in
          subst (λ k. Node extended (next + 1) k cap) same
            (subst (Node extended (next + 1) p) (sym is_parent) parent-Node)
      go (no other) (no third) = old-Node h cap (f h cap (ground (arith, get-extended h)))
