-- ===== src/Cap/Manager/Invariant/Keeps.antt =====
-- kernel/src/cap.rs: each operation keeps the invariant.
use atom.Prelude.{
  ℕ, ◌+◌, ◌≤◌, ◌<◌, ◌≡◌, ◌∙◌, sym, subst, inl, inr, [], ◌∷◌, none, some, arith, Bool-cases, leb,
  length, In, ℕ_discrete, length-append, length-drop, drop,
}
use atom.Prelude.BTreeMap.{BTreeMap, get, insert, remove, get-remove, get-insert}
use atom.Cap.Permissions.{IsWord}
use atom.Cap.Capability.{Capability}
use atom.Cap.Audit.{AuditLogEntry, AuditEventType, new_entry}
use atom.Cap.Manager.{State, log_audit, revoke_one, max_audit_log_entries}
use atom.Cap.Manager.Invariant.{Node, IsForest, Backed, IsBacked, Inv}
use atom.Thread.{ThreadList, remove_capability}
use atom.Thread.Laws.{held, held-remove_capability}

-- The log never holds more than its limit.
pub length-log_audit :
    (entry : AuditLogEntry) (s : State)
    → length s.audit_log ≤ max_audit_log_entries
    → length (log_audit entry s).audit_log ≤ max_audit_log_entries
unfolding log_audit
length-log_audit entry s h = elim (Bool-cases (leb max_audit_log_entries (length s.audit_log))) [
  | inl full ↦
      rw full
        (omega (arith, length-append (drop 1 s.audit_log) (entry ∷ []), length-drop 1 s.audit_log))
  | inr room ↦ rw room (ground (arith, length-append s.audit_log (entry ∷ [])))
]

-- Removing a capability from the map keeps the forest.
IsForest-remove :
    (caps : BTreeMap Capability) (next k : ℕ) → IsForest caps next → IsForest (remove k caps) next
IsForest-remove caps next k f h cap e = record {
  own_handle = node.own_handle;
  fresh = node.fresh;
  word = node.word;
  children_fresh = node.children_fresh;
  children_link = λ d c i g. node.children_link d c i (still d c g);
  parent_fresh = node.parent_fresh;
  parent_link = λ p c q g. node.parent_link p c q (still p c g);
}
  where
    still : (j : ℕ) (c : Capability) → get j (remove k caps) ≡ some c → get j caps ≡ some c
    still j c g = ground (arith, get-remove k j caps)

    node : Node caps next h cap
    node = f h cap (still h cap e)

IsBacked-revoke_one :
    (caps : BTreeMap Capability) (threads : ThreadList) (k : ℕ) (cap : Capability)
    → get k caps ≡ some cap
    → IsBacked caps threads
    → IsBacked (remove k caps) (remove_capability cap.owner k threads).1
IsBacked-revoke_one caps threads k cap e b thread_id h c g = record {
  entry = old.entry;
  found = found_after;
  own_handle = old.own_handle;
  owner_here = old.owner_here;
  owner_there = old.owner_there;
  same_permissions = old.same_permissions;
  same_resource = old.same_resource;
}
  where
    before : held threads thread_id h ≡ some c
    before = ground (arith, held-remove_capability threads cap.owner k thread_id h)

    old : Backed caps thread_id h c
    old = b thread_id h c before

    found_after : get h (remove k caps) ≡ some old.entry
    found_after = ground (
      arith,
      get-remove k h caps,
      old.found,
      old.owner_there,
      held-remove_capability threads cap.owner k thread_id h,
    )

-- The removal of one capability from the map and from its owner's table keeps the invariant.
pub revoke_one-Inv :
    (revoker h : ℕ) (s : State) (cap : Capability)
    → get h s.global_caps ≡ some cap
    → Inv s
    → Inv (revoke_one cap h revoker s)
unfolding revoke_one
revoke_one-Inv revoker h s cap e v = record {
  forest = IsForest-remove s.global_caps s.next_handle h v.forest;
  backed = IsBacked-revoke_one s.global_caps s.threads h cap e v.backed;
  logged = length-log_audit (new_entry s.ticks AuditEventType.revoke revoker h) s v.logged;
}

-- A capability with no relatives under the next handle keeps the forest.
module _ (caps : BTreeMap Capability) (next : ℕ) (f : IsForest caps next) (new : Capability)
    (own : new.handle ≡ next) (word : IsWord new.permissions) (orphan : new.parent ≡ none)
    (childless : new.children ≡ []) where
  pub IsForest-create : IsForest (insert next new caps) (next + 1)
  IsForest-create h cap e = go (ℕ_discrete next h)
    where
      old :
          (k : ℕ) (c : Capability)
          → k < next
          → get k (insert next new caps) ≡ some c
          → get k caps ≡ some c
      old k c lt g = ground (arith, get-insert next k new caps)

      go : Dec (next ≡ h) → Node (insert next new caps) (next + 1) h cap
      go (yes same) =
          let is_new : cap ≡ new = ground (arith, get-insert next h new caps) in
          subst (Node (insert next new caps) (next + 1) h) (sym is_new) (record {
            own_handle = own ∙ same;
            fresh = omega arith;
            word = word;
            children_fresh = λ d i. absurd (subst (In d) childless i);
            children_link = λ d c i g. absurd (subst (In d) childless i);
            parent_fresh = λ p q. cc;
            parent_link = λ p c q g. cc;
          })
      go (no other) = record {
        own_handle = node.own_handle;
        fresh = omega (arith, node.fresh);
        word = node.word;
        children_fresh = λ d i. omega (arith, node.children_fresh d i);
        children_link = λ d c i g. node.children_link d c i (old d c (node.children_fresh d i).1 g);
        parent_fresh = node.parent_fresh;
        parent_link = λ p c q g.
            node.parent_link p c q (old p c (omega (arith, node.parent_fresh p q, node.fresh)) g);
      }
        where
          node : Node caps next h cap
          node = f h cap (ground (arith, get-insert next h new caps))
