-- ===== src/Cap/Manager/Invariant/Delegation.antt =====
-- kernel/src/cap.rs: delegation (derivation and transfer) keeps the invariant of the manager.
use atom.Prelude.{
  ℕ, ◌+◌, ◌%◌, ◌^◌, ◌<◌, ◌≡◌, refl, ◌∙◌, sym, subst, [], ◌∷◌, ◌++◌, none, some, arith, true, ◌==◌,
  if◌then◌else◌, In, ℕ_discrete,
}
use atom.Prelude.BTreeMap.{BTreeMap, get, insert, get-insert}
use atom.Cap.Permissions.{CapPermissions, is_subset_of, IsWord}
use atom.Cap.Capability.{Capability}
use atom.Cap.Audit.{AuditLogEntry, new_derive}
use atom.Cap.Manager.{State, log_audit, derive_capability}
use atom.Cap.Manager.Invariant.{IsForest, IsBacked, Inv}
use atom.Cap.Manager.Invariant.Keeps.{length-log_audit}
use atom.Cap.Manager.Invariant.Derived.{IsForest-derive}
use atom.Cap.Manager.Invariant.Tables.{IsBacked-map, IsBacked-add, SameGrant}
use atom.Cap.Manager.Invariant.Operations.{
  fresh_none, derived_child, derived_state, derive_capability-cases,
}

-- An entry of the log does not touch the rest of the state.
pub log_audit-Inv : (entry : AuditLogEntry) (s : State) → Inv s → Inv (log_audit entry s)
log_audit-Inv entry s v = record {
  forest = unfold log_audit in v.forest;
  backed = unfold log_audit in v.backed;
  logged = length-log_audit entry s v.logged;
}

module _ (s : State) (v : Inv s) (p : ℕ) (parent : Capability)
    (found : get p s.global_caps ≡ some parent) (new_owner : ℕ) (perms : CapPermissions) where
  abbrev after : State
  after = derived_state p parent new_owner perms s

  abbrev new_cap : Capability
  new_cap = derived_child s.next_handle parent new_owner perms

  abbrev listed : Capability
  listed = record parent { children = parent.children ++ s.next_handle ∷ [] }

  get-after :
      (k : ℕ)
      → get k after.global_caps ≡ (
          if s.next_handle == k
          then some new_cap
          else if p == k
          then some listed
          else get k s.global_caps)
  get-after k = rw (
    get-insert s.next_handle k new_cap (insert p listed s.global_caps),
    get-insert p k listed s.global_caps,
  )

  kept_after :
      (k : ℕ) (g : Capability)
      → get k s.global_caps ≡ some g
      → (g' : Capability) × (get k after.global_caps ≡ some g') × SameGrant g g'
  kept_after k g here = go (ℕ_discrete p k)
    where
      fresh : get s.next_handle s.global_caps ≡ none
      fresh = fresh_none s.global_caps s.next_handle v.forest

      go : Dec (p ≡ k) → (g' : Capability) × (get k after.global_caps ≡ some g') × SameGrant g g'
      go (yes same) =
          let is_parent : g ≡ parent = ground arith in
          (listed, ground (arith, fresh, get-after k), rw is_parent (refl, refl, refl))
      go (no other) = (g, ground (arith, fresh, get-after k), (refl, refl, refl))

  IsBacked-after : IsBacked after.global_caps after.threads
  IsBacked-after =
      IsBacked-add after.global_caps s.threads new_owner new_cap
        (record {
          entry = new_cap;
          found = ground (arith, get-after s.next_handle);
          own_handle = refl;
          owner_here = refl;
          owner_there = refl;
          same_permissions = refl;
          same_resource = refl;
        })
        (IsBacked-map s.global_caps after.global_caps s.threads kept_after v.backed)

  derived_state-Inv :
      IsWord perms
      → s.next_handle + 1 < 2 ^ 64
      → is_subset_of perms parent.permissions ≡ true
      → Inv after
  derived_state-Inv word room sub =
      let no_wrap : (s.next_handle + 1) % 2 ^ 64 ≡ s.next_handle + 1 = omega arith in
      record {
        forest = rw no_wrap (
            IsForest-derive s.global_caps s.next_handle v.forest p parent found new_owner perms word
              sub);
        backed = IsBacked-after;
        logged = v.logged;
      }

-- A derivation keeps the invariant, while the handles have not run out.
pub derive_capability-Inv :
    (p owner_thread new_owner : ℕ) (perms : CapPermissions) (s : State)
    → IsWord perms
    → s.next_handle + 1 < 2 ^ 64
    → Inv s
    → Inv (derive_capability p owner_thread new_owner perms s).1
derive_capability-Inv p owner_thread new_owner perms s word room v =
    derive_capability-cases Inv p owner_thread new_owner perms s v λ parent e sub.
      let inv = derived_state-Inv s v p parent e new_owner perms word room sub in
      (inv, log_audit-Inv (new_derive s.ticks owner_thread s.next_handle p) _ inv)

-- Changing the owner of one entry keeps the forest.
pub IsForest-set_owner :
    (caps : BTreeMap Capability) (next k owner : ℕ) (cap : Capability)
    → get k caps ≡ some cap
    → IsForest caps next
    → IsForest (insert k (record cap { owner = owner }) caps) next
IsForest-set_owner caps next k owner cap found f h c e =
    let (c', e', handle, parent, perms, res, children) = before h c e in
    let node = f h c' e' in
    record {
      own_handle = handle ∙ node.own_handle;
      fresh = node.fresh;
      word = rw perms node.word;
      children_fresh = λ d i. node.children_fresh d (subst (In d) children i);
      children_link = λ d x i g.
          let (x', g', _, parent_x, perms_x, res_x, _) = before d x g in
          let (link, less, same) = node.children_link d x' (subst (In d) children i) g' in
          (parent_x ∙ link, rw (perms_x, perms) less, res_x ∙ same ∙ sym res);
      parent_fresh = λ q l. node.parent_fresh q (sym parent ∙ l);
      parent_link = λ q x l g.
          let (x', g', _, _, _, _, children_x) = before q x g in
          subst (In h) (sym children_x) (node.parent_link q x' (sym parent ∙ l) g');
    }
  where
    before :
        (j : ℕ) (x : Capability)
        → get j (insert k (record cap { owner = owner }) caps) ≡ some x
        → (x' : Capability) × (get j caps ≡ some x')
          × (x.handle ≡ x'.handle)
          × (x.parent ≡ x'.parent)
          × (x.permissions ≡ x'.permissions)
          × (x.resource ≡ x'.resource)
          × (x.children ≡ x'.children)
    before j x g = go (ℕ_discrete k j)
      where
        go :
            Dec (k ≡ j)
            → (x' : Capability) × (get j caps ≡ some x')
              × (x.handle ≡ x'.handle)
              × (x.parent ≡ x'.parent)
              × (x.permissions ≡ x'.permissions)
              × (x.resource ≡ x'.resource)
              × (x.children ≡ x'.children)
        go (yes same) =
            let is_cap : x ≡ record cap { owner = owner } =
              ground (arith, get-insert k j (record cap { owner = owner }) caps) in
            (
              cap,
              ground arith,
              rw is_cap refl,
              rw is_cap refl,
              rw is_cap refl,
              rw is_cap refl,
              rw is_cap refl,
            )
        go (no other) = (
          x,
          ground (arith, get-insert k j (record cap { owner = owner }) caps),
          refl,
          refl,
          refl,
          refl,
          refl,
        )
