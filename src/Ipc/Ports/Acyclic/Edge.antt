-- ===== src/Ipc/Ports/Acyclic/Edge.antt =====
-- kernel/src/ipc.rs: the chains that a new waiting thread makes.
use atom.Prelude.{ℕ, suc, ◌≡◌, ◌⊎◌, inl, inr, sym, subst, some, ◌==◌, arith, Bool-cases}
use atom.Prelude.BTreeMap.{BTreeMap, get, insert, get-insert}
use atom.Ipc.Ports.{PortState, WaiterInfo}
use atom.Ipc.Ports.Deadlock.{Leads}

module _ (w : BTreeMap WaiterInfo) (ports : BTreeMap PortState) (caller : ℕ)
    (edge : WaiterInfo) where
  -- A chain that may use the edge of the caller is one without it, or reaches the caller and goes on
  -- from the port that it waits on.
  Leads-edge :
      (t n p : ℕ)
      → Leads (insert caller edge w) ports t n p
      → ((m : ℕ) × Leads w ports t m p)
        ⊎ (((m : ℕ) × Leads w ports caller m p) × ((m : ℕ) × Leads w ports t m edge.port))
  Leads-edge t _ p (Leads.owned _ port e own) = inl (0, Leads.owned p port e own)
  Leads-edge t _ p (Leads.waits n _ port info e f l) = elim (Bool-cases (caller == port.owner)) [
    | inl his ↦
        let here : Leads w ports caller 0 p = Leads.owned p port e (ground arith) in
        let same : info ≡ edge = ground (arith, f, his, get-insert caller port.owner edge w) in
        elim (Leads-edge t n info.port l) [
          | inl (m, rest) ↦
              inr ((0, here), (m, subst (λ (x : WaiterInfo). Leads w ports t m x.port) same rest))
          | inr (_, on) ↦ inr ((0, here), on)
        ]
    | inr other ↦
        let f' : get port.owner w ≡ some info =
          ground (arith, f, other, get-insert caller port.owner edge w) in
        elim (Leads-edge t n info.port l) [
          | inl (m, rest) ↦ inl (suc m, Leads.waits m p port info e f' rest)
          | inr ((m, to_caller), on) ↦ inr ((suc m, Leads.waits m p port info e f' to_caller), on)
        ]
  ]

  -- A chain to a thread that waits goes on from the port it waits on.
  join :
      (c t k m p : ℕ) (info : WaiterInfo)
      → get t w ≡ some info
      → Leads w ports t k p
      → Leads w ports c m info.port
      → (n : ℕ) × Leads w ports c n p
  join c t _ m p info f (Leads.owned _ port e own) rest =
      (suc m, Leads.waits m p port info e (subst (λ x. get x w ≡ some info) (sym own) f) rest)
  join c t _ m p info f (Leads.waits k _ port next e g l) rest =
      let (n, on) = join c t k m next.port info f l rest in
      (suc n, Leads.waits n p port next e g on)

  -- With the edge no thread waits for itself, if none did and the edge's port does not lead to the
  -- caller.
  pub acyclic-edge :
      ((t : ℕ) (info : WaiterInfo) → get t w ≡ some info → (n : ℕ) → ¬ Leads w ports t n info.port)
      → ((n : ℕ) → ¬ Leads w ports caller n edge.port)
      → (t : ℕ) (info : WaiterInfo) → get t (insert caller edge w) ≡ some info
      → (n : ℕ) → ¬ Leads (insert caller edge w) ports t n info.port
  acyclic-edge acyclic free t info e n l = elim (Bool-cases (caller == t)) [
    | inl his ↦
        let same : info ≡ edge = ground (arith, e, his, get-insert caller t edge w) in
        let here : t ≡ caller = ground (arith, his) in
        let free_t : (n : ℕ) → ¬ Leads w ports t n info.port =
          subst (λ (x : ℕ). (n : ℕ) → ¬ Leads w ports x n info.port) (sym here)
            (subst (λ (x : WaiterInfo). (n : ℕ) → ¬ Leads w ports caller n x.port) (sym same)
              free) in
        elim (Leads-edge t n info.port l) [
          | inl (m, rest) ↦ free_t m rest
          | inr (_, (m, rest)) ↦
              free_t m (subst (λ (x : WaiterInfo). Leads w ports t m x.port) (sym same) rest)
        ]
    | inr other ↦
        let old : get t w ≡ some info = ground (arith, e, other, get-insert caller t edge w) in
        elim (Leads-edge t n info.port l) [
          | inl (m, rest) ↦ acyclic t info old m rest
          | inr ((m, to_caller), (k, to_t)) ↦
              let (j, round) = join caller t k m edge.port info old to_t to_caller in free j round
        ]
  ]
