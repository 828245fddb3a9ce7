-- ===== src/Cap/Manager/Invariant/Tables.antt =====
-- kernel/src/cap.rs with kernel/src/thread.rs: the threads' tables stay backed by the global map.
use atom.Prelude.{
  ℕ, ◌≡◌, refl, ◌∙◌, sym, subst, some, arith, ◌==◌, ◌&&◌, if◌then◌else◌, Result, ok, err,
  ℕ_discrete,
}
use atom.Prelude.BTreeMap.{BTreeMap, get, insert, get-insert}
use atom.Cap.Capability.{Capability}
use atom.Cap.Manager.Invariant.{Backed, IsBacked}
use atom.Thread.{ThreadList, add_capability, remove_capability}
use atom.Thread.Laws.{held, held-remove_capability, held-add_capability}

-- Two entries that authorise the same thread to do the same.
abbrev pub SameGrant : Capability → Capability → Type 0
SameGrant g g' =
    (g'.owner ≡ g.owner) × (g'.permissions ≡ g.permissions) × (g'.resource ≡ g.resource)

pub IsBacked-map :
    (caps caps' : BTreeMap Capability) (threads : ThreadList)
    → ((k : ℕ) (g : Capability)
        → get k caps ≡ some g
        → (g' : Capability) × (get k caps' ≡ some g') × SameGrant g g')
    → IsBacked caps threads
    → IsBacked caps' threads
IsBacked-map caps caps' threads kept b thread_id h c held_c =
    let old = b thread_id h c held_c in
    let (g', found', (owner, perms, res)) = kept h old.entry old.found in
    record {
      entry = g';
      found = found';
      own_handle = old.own_handle;
      owner_here = old.owner_here;
      owner_there = owner ∙ old.owner_there;
      same_permissions = old.same_permissions ∙ sym perms;
      same_resource = old.same_resource ∙ sym res;
    }

pub IsBacked-remove :
    (caps : BTreeMap Capability) (threads : ThreadList) (owner k : ℕ)
    → IsBacked caps threads
    → IsBacked caps (remove_capability owner k threads).1
IsBacked-remove caps threads owner k b thread_id h c held_c =
    b thread_id h c (ground (arith, held-remove_capability threads owner k thread_id h))

-- Adding a capability that the global map has for this thread.
pub IsBacked-add :
    (caps : BTreeMap Capability) (threads : ThreadList) (owner : ℕ) (cap' : Capability)
    → Backed caps owner cap'.handle cap'
    → IsBacked caps threads
    → IsBacked caps (add_capability owner cap' threads).1
IsBacked-add caps threads owner cap' new b thread_id h c held_c =
    go (add_capability owner cap' threads).0 refl
      (held-add_capability threads owner cap' thread_id h)
  where
    added : (owner ≡ thread_id) → (cap'.handle ≡ h) → c ≡ cap' → Backed caps thread_id h c
    added e f g =
        subst (λ t. Backed caps t h c) e
          (subst (λ k. Backed caps owner k c) f (subst (Backed caps owner cap'.handle) (sym g) new))

    split :
        Dec (owner ≡ thread_id)
        → Dec (cap'.handle ≡ h)
        → held (add_capability owner cap' threads).1 thread_id h ≡ (
            if (owner == thread_id) && (cap'.handle == h)
            then some cap'
            else held threads thread_id h)
        → Backed caps thread_id h c
    split (yes e) (yes f) law = added e f (ground arith)
    split (yes e) (no f) law = b thread_id h c (ground arith)
    split (no e) _ law = b thread_id h c (ground arith)

    go :
        (r : Result ℕ _)
        → (add_capability owner cap' threads).0 ≡ r
        → held (add_capability owner cap' threads).1 thread_id h
          ≡ (elim (add_capability owner cap' threads).0 [
            | ok _ ↦
                if (owner == thread_id) && (cap'.handle == h)
                then some cap'
                else held threads thread_id h
            | err _ ↦ held threads thread_id h
          ])
        → Backed caps thread_id h c
    go (ok x) e law = split (ℕ_discrete owner thread_id) (ℕ_discrete cap'.handle h) (rw e at law)
    go (err x) e law = b thread_id h c (ground arith)

-- In a table that is backed, the capability that was taken from its thread is in no other's.
pub IsBacked-set_owner :
    (caps : BTreeMap Capability) (threads : ThreadList) (source k : ℕ) (c g g' : Capability)
    → held threads source k ≡ some c
    → get k caps ≡ some g
    → IsBacked caps threads
    → IsBacked (insert k g' caps) (remove_capability source k threads).1
IsBacked-set_owner caps threads source k c g g' here there b thread_id h x held_x = record {
  entry = old.entry;
  found = found';
  own_handle = old.own_handle;
  owner_here = old.owner_here;
  owner_there = old.owner_there;
  same_permissions = old.same_permissions;
  same_resource = old.same_resource;
}
  where
    before : held threads thread_id h ≡ some x
    before = ground (arith, held-remove_capability threads source k thread_id h)

    old : Backed caps thread_id h x
    old = b thread_id h x before

    source_entry : Backed caps source k c
    source_entry = b source k c here

    found' : get h (insert k g' caps) ≡ some old.entry
    found' = ground (
      arith,
      get-insert k h g' caps,
      old.found,
      old.owner_there,
      source_entry.found,
      source_entry.owner_there,
      held-remove_capability threads source k thread_id h,
    )
