-- ===== src/Syscall/Queries/Families.antt =====
-- The two queries agree on who is whose child.
use atom.Prelude.{
  ℕ, zero, suc, ◌≡◌, refl, subst, List, [], ◌∷◌, some, true, false, arith, ◌==◌, ◌||◌, Bool-cases,
  inl, inr, In, take, min, length,
}
use atom.Prelude.BTreeMap.{get}
use atom.Cap.Capability.{Capability}
use atom.Cap.Table
use atom.Cap.Manager.{State, query_parent, query_children}
use atom.Cap.Manager.Invariant.{Inv}
use atom.Thread.{has_capability}
use atom.Thread.Laws.{held}
use atom.Syscall.Queries.{sys_cap_query_parent, sys_cap_query_children}

In-take : (n : ℕ) (xs : List ℕ) (d : ℕ) → In d (take n xs) → In d xs
In-take zero xs d h = absurd h
In-take (suc n) [] d h = absurd h
In-take (suc n) (x ∷ xs) d (inl e) = inl e
In-take (suc n) (x ∷ xs) d (inr h) = inr (In-take n xs d h)

held-has_capability :
    (s : State) (caller h : ℕ) (c : Capability)
    → held s.threads caller h ≡ some c
    → has_capability caller h s.threads ≡ true
unfolding held has_capability Table.get Table.contains
held-has_capability s caller h c e = ground (arith, e)

-- What is written for a handle that is in the map is some of its children.
written :
    (h buffer_ptr buffer_size caller d : ℕ) (s : State) (cap : Capability)
    → get h s.global_caps ≡ some cap
    → In d (sys_cap_query_children h buffer_ptr buffer_size (some caller) s).1
    → In d cap.children
unfolding sys_cap_query_children query_children
written h buffer_ptr buffer_size caller d s cap e i =
    elim (Bool-cases (has_capability caller h s.threads)) [
      | inr lacks ↦ absurd (subst (In d) (nothing lacks) i)
      | inl has ↦ elim (Bool-cases ((buffer_ptr == 0) || (buffer_size == 0))) [
        | inl empty ↦ absurd (subst (In d) (unwritten has empty) i)
        | inr room ↦
            In-take (min (length cap.children) buffer_size) cap.children d
              (subst (In d) (some_written has room) i)
      ]
    ]
  where
    nothing :
        has_capability caller h s.threads ≡ false
        → (sys_cap_query_children h buffer_ptr buffer_size (some caller) s).1 ≡ []
    nothing lacks = rw lacks refl

    unwritten :
        has_capability caller h s.threads ≡ true
        → ((buffer_ptr == 0) || (buffer_size == 0)) ≡ true
        → (sys_cap_query_children h buffer_ptr buffer_size (some caller) s).1 ≡ []
    unwritten has empty = rw (has, e, empty) refl

    some_written :
        has_capability caller h s.threads ≡ true
        → ((buffer_ptr == 0) || (buffer_size == 0)) ≡ false
        → (sys_cap_query_children h buffer_ptr buffer_size (some caller) s).1
          ≡ take (min (length cap.children) buffer_size) cap.children
    some_written has room = rw (has, e, room) refl

answer :
    (d h caller : ℕ) (s : State) (entry : Capability)
    → has_capability caller d s.threads ≡ true
    → get d s.global_caps ≡ some entry
    → entry.parent ≡ some h
    → sys_cap_query_parent d (some caller) s ≡ h
unfolding sys_cap_query_parent query_parent
answer d h caller s entry has e p = rw (has, e, p) refl

-- Under the invariant, a thread that holds a capability and holds one of those that
-- `sys_cap_query_children` wrote for it gets the first from `sys_cap_query_parent` of the second.
pub sys_cap_query_parent-sys_cap_query_children :
    (h d buffer_ptr buffer_size caller : ℕ) (s : State) (c child_cap : Capability)
    → Inv s
    → held s.threads caller h ≡ some c
    → held s.threads caller d ≡ some child_cap
    → In d (sys_cap_query_children h buffer_ptr buffer_size (some caller) s).1
    → sys_cap_query_parent d (some caller) s ≡ h
sys_cap_query_parent-sys_cap_query_children h d buffer_ptr buffer_size caller s c child_cap v here
      there i =
    let b = v.backed caller h c here in
    let k = v.backed caller d child_cap there in
    let listed = written h buffer_ptr buffer_size caller d s b.entry b.found i in
    let link = (v.forest h b.entry b.found).children_link d k.entry listed k.found in
    answer d h caller s k.entry (held-has_capability s caller d child_cap there) k.found link.0
