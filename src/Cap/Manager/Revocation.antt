-- ===== src/Cap/Manager/Revocation.antt =====
-- kernel/src/cap.rs, `revoke`: what a revocation takes out of the global map.
pub mod Exact
use atom.Prelude.{
  ℕ, zero, suc, ◌+◌, ◌≤◌, ◌<◌, ◌≡◌, refl, ◌∙◌, sym, subst, ◌⊎◌, inl, inr, List, [], ◌∷◌, ◌++◌,
  Option, none, some, arith, Option-cases, Bool-cases, true, false, ◌==◌, ==_iff, if◌then◌else◌,
  Result, ok, err, length, In,
}
use atom.Prelude.BTreeMap.{BTreeMap, get, remove, get-remove, length-remove-lt}
use atom.Cap.Capability.{Capability, CapError, not_found}
use atom.Cap.Manager.{State, revoke_one, revoke_children, revoke, revoke_capability}

-- `d` is `h`, or lies below it in the tree that the lists of children span.
pub data Descends (caps : BTreeMap Capability) (h : ℕ) : ℕ → Type 0 where
  root : Descends caps h h
  child :
      {c : ℕ} (cap : Capability) (d : ℕ)
      → Descends caps h c
      → get c caps ≡ some cap
      → In d cap.children
      → Descends caps h d

-- What a part of a revocation has done to the map of capabilities, if all that it was to remove
-- satisfies `Target`.
pub record Pruned (Target : ℕ → Type 0) (before after : BTreeMap Capability) : Type 0 where
  pub shorter : length after ≤ length before
  pub kept : (k : ℕ) → (get k after ≡ get k before) ⊎ (get k after ≡ none)
  pub closed :
      (c : ℕ) (cap : Capability)
      → get c before ≡ some cap
      → get c after ≡ none
      → (d : ℕ) → In d cap.children
      → get d after ≡ none
  pub only : (c : ℕ) (cap : Capability) → get c before ≡ some cap → get c after ≡ none → Target c

pub Pruned-refl : (Target : ℕ → Type 0) (m : BTreeMap Capability) → Pruned Target m m
Pruned-refl Target m = record {
  shorter = omega arith;
  kept = λ k. inl refl;
  closed = λ c cap e n. cc;
  only = λ c cap e n. cc;
}

-- Every capability of `n` is in `m`.
abbrev pub IsWithin : BTreeMap Capability → BTreeMap Capability → Type 0
IsWithin n m = (k : ℕ) (cap : Capability) → get k n ≡ some cap → get k m ≡ some cap

Pruned-IsWithin :
    {Target : ℕ → Type 0} {m n : BTreeMap Capability} → Pruned Target m n → IsWithin n m
Pruned-IsWithin p k cap e = elim (p.kept k) [ inl same ↦ sym same ∙ e | inr gone ↦ cc ]

Pruned-none :
    {Target : ℕ → Type 0} {m n : BTreeMap Capability}
    → Pruned Target m n
    → (k : ℕ) → get k m ≡ none
    → get k n ≡ none
Pruned-none p k e = elim (p.kept k) [ inl same ↦ same ∙ e | inr gone ↦ gone ]

Pruned-weaken :
    {T U : ℕ → Type 0} {m n : BTreeMap Capability}
    → ((k : ℕ) → T k → U k)
    → Pruned T m n
    → Pruned U m n
Pruned-weaken f p = record {
  shorter = p.shorter;
  kept = p.kept;
  closed = p.closed;
  only = λ c cap e gone. f c (p.only c cap e gone);
}

Descends-mono :
    {m n : BTreeMap Capability} → IsWithin n m → {h d : ℕ} → Descends n h d → Descends m h d
Descends-mono p root = root
Descends-mono p (child {c} cap d above e i) = child cap d (Descends-mono p above) (p c cap e) i

Descends-trans :
    {m : BTreeMap Capability} {h c d : ℕ} → Descends m h c → Descends m c d → Descends m h d
Descends-trans above root = above
Descends-trans above (child cap d below e i) = child cap d (Descends-trans above below) e i

-- The children below a node descend from the node.
Descends-below :
    {m : BTreeMap Capability} {h c d : ℕ} (cap : Capability)
    → get h m ≡ some cap
    → In c cap.children
    → Descends m c d
    → Descends m h d
Descends-below {h} {c} cap e i below = Descends-trans (child cap c root e i) below

module _ {Target : ℕ → Type 0} {m n o : BTreeMap Capability} where
  pub Pruned-trans : Pruned Target m n → Pruned Target n o → Pruned Target m o
  Pruned-trans p q = record {
    shorter = omega (arith, p.shorter, q.shorter);
    kept = λ k. kept_trans k (p.kept k) (q.kept k);
    closed = λ c cap e gone d i. closed_trans c cap e gone d i (p.kept c);
    only = λ c cap e gone. only_trans c cap e gone (p.kept c);
  }
    where
      kept_trans :
          (k : ℕ)
          → (get k n ≡ get k m) ⊎ (get k n ≡ none)
          → (get k o ≡ get k n) ⊎ (get k o ≡ none)
          → (get k o ≡ get k m) ⊎ (get k o ≡ none)
      kept_trans k (inl a) (inl b) = inl (b ∙ a)
      kept_trans k (inr a) (inl b) = inr (b ∙ a)
      kept_trans k a (inr b) = inr b

      closed_trans :
          (c : ℕ) (cap : Capability)
          → get c m ≡ some cap
          → get c o ≡ none
          → (d : ℕ) → In d cap.children
          → (get c n ≡ get c m) ⊎ (get c n ≡ none)
          → get d o ≡ none
      closed_trans c cap e gone d i (inl same) = q.closed c cap (same ∙ e) gone d i
      closed_trans c cap e gone d i (inr early) = Pruned-none q d (p.closed c cap e early d i)

      only_trans :
          (c : ℕ) (cap : Capability)
          → get c m ≡ some cap
          → get c o ≡ none
          → (get c n ≡ get c m) ⊎ (get c n ≡ none)
          → Target c
      only_trans c cap e gone (inl same) = q.only c cap (same ∙ e) gone
      only_trans c cap e gone (inr early) = p.only c cap e early
