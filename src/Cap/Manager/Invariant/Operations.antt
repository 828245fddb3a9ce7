-- ===== src/Cap/Manager/Invariant/Operations.antt =====
-- kernel/src/cap.rs: creation, derivation and transfer keep the invariant of the manager.
use atom.Prelude.{
  ℕ, ◌+◌, ◌%◌, ◌^◌, ◌<◌, ◌≡◌, refl, inl, inr, [], ◌∷◌, ◌++◌, none, some, arith, Option-cases,
  Bool-cases, true, Result, ok, err,
}
use atom.Prelude.BTreeMap.{BTreeMap, get, insert, get-insert}
use atom.Cap.Permissions.{CapPermissions, is_subset_of, IsWord, grant}
use atom.Cap.Capability.{
  Capability, ResourceType, CapError, derive, new_root, is_owned_by, has_permission,
}
use atom.Cap.Audit.{AuditEventType, new_entry, new_derive}
use atom.Cap.Manager.{State, log_audit, create_root_capability, derive_capability}
use atom.Cap.Manager.Invariant.{IsForest, Inv}
use atom.Cap.Manager.Invariant.Keeps.{length-log_audit, IsForest-create}
use atom.Cap.Manager.Invariant.Tables.{IsBacked-map, SameGrant}
use atom.Thread.{add_capability, has_capability}

pub fresh_none : (caps : BTreeMap Capability) (next : ℕ) → IsForest caps next → get next caps ≡ none
fresh_none caps next f = elim (Option-cases (get next caps)) [
  | inl e ↦ e
  | inr (c, e) ↦ absurd (omega (arith, (f next c e).fresh))
]

-- With an unused handle to give out, a root capability is created.
pub create_root_capability-ok :
    (resource : ResourceType) (owner : ℕ) (permissions : CapPermissions) (s : State)
    → get s.next_handle s.global_caps ≡ none
    → s.next_handle + 1 < 2 ^ 64
    → let cap = new_root s.next_handle resource owner permissions in
      create_root_capability resource owner permissions s ≡ (
        ok cap,
        log_audit (new_entry s.ticks AuditEventType.create owner s.next_handle) (record s {
          next_handle = s.next_handle + 1;
          global_caps = insert s.next_handle cap s.global_caps;
        }),
      )
unfolding create_root_capability log_audit new_root
create_root_capability-ok resource owner permissions s fresh room = ground arith

-- A new root capability keeps the invariant, while the handles have not run out.
pub create_root_capability-Inv :
    (resource : ResourceType) (owner : ℕ) (permissions : CapPermissions) (s : State)
    → IsWord permissions
    → s.next_handle + 1 < 2 ^ 64
    → Inv s
    → Inv (create_root_capability resource owner permissions s).1
create_root_capability-Inv resource owner permissions s word room v =
    rw (create_root_capability-ok resource owner permissions s fresh room) (
      unfold log_audit new_root in
      record {
        forest =
            IsForest-create s.global_caps s.next_handle v.forest
              (new_root s.next_handle resource owner permissions) refl word refl refl;
        backed = IsBacked-map s.global_caps _ s.threads kept v.backed;
        logged =
            length-log_audit (new_entry s.ticks AuditEventType.create owner s.next_handle) s
              v.logged;
      })
  where
    fresh : get s.next_handle s.global_caps ≡ none
    fresh = fresh_none s.global_caps s.next_handle v.forest

    kept :
        (k : ℕ) (g : Capability)
        → get k s.global_caps ≡ some g
        → (g' : Capability) × (get k (
              insert s.next_handle
                (new_root s.next_handle resource owner permissions)
                s.global_caps)
            ≡ some g')
          × SameGrant g g'
    kept k g e = (
      g,
      ground (
        arith,
        fresh,
        get-insert s.next_handle k (new_root s.next_handle resource owner permissions)
            s.global_caps,
      ),
      (refl, refl, refl),
    )

-- The child that `derive_capability` makes, and the state once it stands in both maps.
abbrev pub derived_child : ℕ → Capability → ℕ → CapPermissions → Capability
derived_child handle parent new_owner perms = record {
  handle = handle;
  resource = parent.resource;
  permissions = perms;
  owner = new_owner;
  parent = some parent.handle;
  children = [];
}

abbrev pub derived_state : ℕ → Capability → ℕ → CapPermissions → State → State
derived_state p parent new_owner perms s = record s {
  next_handle = (s.next_handle + 1) % 2 ^ 64;
  global_caps =
      insert s.next_handle (derived_child s.next_handle parent new_owner perms) (
        insert p (record parent { children = parent.children ++ s.next_handle ∷ [] })
          s.global_caps);
  threads =
      (add_capability new_owner (derived_child s.next_handle parent new_owner perms) s.threads).1;
}

-- What follows the answer of the new owner's table.
abbrev pub derived_result :
    ℕ → ℕ → Capability → ℕ → CapPermissions → State → Result ℕ CapError → Result ℕ CapError × State
derived_result p owner_thread parent new_owner perms s (err e) =
    (err e, derived_state p parent new_owner perms s)
derived_result p owner_thread parent new_owner perms s (ok _) = (
  ok s.next_handle,
  log_audit (new_derive s.ticks owner_thread s.next_handle p)
      (derived_state p parent new_owner perms s),
)

-- The outcome of a derivation whose tests pass, by what the new owner's table answers.
pub derive_capability-added :
    (p owner_thread new_owner : ℕ) (perms : CapPermissions) (s : State) (parent : Capability)
    → has_capability owner_thread p s.threads ≡ true
    → get p s.global_caps ≡ some parent
    → is_owned_by parent owner_thread ≡ true
    → has_permission parent grant ≡ true
    → is_subset_of perms parent.permissions ≡ true
    → derive_capability p owner_thread new_owner perms s
      ≡ derived_result p owner_thread parent new_owner perms s
          (add_capability new_owner
            (derived_child s.next_handle parent new_owner perms)
            s.threads).0
unfolding derive_capability derive log_audit
derive_capability-added p owner_thread new_owner perms s parent has e owned granted sub =
    ground arith

-- A derivation keeps any property that holds of the state now and, if an owned parent with the
-- permission to grant covers the permissions asked for, of the state with the child.
pub derive_capability-cases :
    (P : State → Type 0) (p owner_thread new_owner : ℕ) (perms : CapPermissions) (s : State)
    → P s
    → ((parent : Capability)
        → get p s.global_caps ≡ some parent
        → is_subset_of perms parent.permissions ≡ true
        → P (derived_state p parent new_owner perms s)
          × P (
              log_audit
                (new_derive s.ticks owner_thread s.next_handle p)
                (derived_state p parent new_owner perms s)))
    → P (derive_capability p owner_thread new_owner perms s).1
unfolding derive_capability derive
derive_capability-cases P p owner_thread new_owner perms s same added =
    elim (Bool-cases (has_capability owner_thread p s.threads)) [
      | inr e ↦ rw (e, derive_capability) same
      | inl has ↦ elim (Option-cases (get p s.global_caps)) [
        | inl e ↦ rw (has, derive_capability) (rw e same)
        | inr (parent, e) ↦ found has parent e
      ]
    ]
  where
    settled :
        (parent : Capability)
        → get p s.global_caps ≡ some parent
        → is_subset_of perms parent.permissions ≡ true
        → (r : Result ℕ CapError) → P (derived_result p owner_thread parent new_owner perms s r).1
    settled parent e sub (ok x) = (added parent e sub).1
    settled parent e sub (err x) = (added parent e sub).0

    found :
        has_capability owner_thread p s.threads ≡ true
        → (parent : Capability) → get p s.global_caps ≡ some parent
        → P (derive_capability p owner_thread new_owner perms s).1
    found has parent e = elim (Bool-cases (is_owned_by parent owner_thread)) [
      | inr n ↦ rw (has, derive_capability) (rw e (rw n same))
      | inl owned ↦ elim (Bool-cases (has_permission parent grant)) [
        | inr n ↦ rw (has, derive_capability) (rw e (rw owned (rw n same)))
        | inl granted ↦ elim (Bool-cases (is_subset_of perms parent.permissions)) [
          | inr n ↦ rw (has, derive_capability) (rw e (rw owned (rw granted (rw (n, derive) same))))
          | inl sub ↦
              rw
                (derive_capability-added p owner_thread new_owner perms s parent has e owned granted
                  sub)
                (settled parent e sub _)
        ]
      ]
    ]
