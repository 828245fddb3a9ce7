-- ===== src/Ipc/Ports/Deadlock.antt =====
-- kernel/src/ipc.rs, `detect_deadlock`: the chain from a port to its owner, to the port that the owner
-- waits on, and so on.
use atom.Prelude.{
  ℕ, zero, suc, ◌+◌, ◌≤◌, ◌<◌, ◌≡◌, ◌↔◌, ◌⊎◌, inl, inr, subst, some, true, ◌==◌, arith, length,
  Bool-cases, Option-cases,
}
use atom.Prelude.BTreeMap.{BTreeMap, get, remove, get-remove, length-remove-lt}
use atom.Ipc.Ports.{State, PortState, WaiterInfo}
use atom.Ipc.Ports.Wait.{follow, detect_deadlock}

module _ (waiting : BTreeMap WaiterInfo) where
  -- `Leads ports t n p`: from the port `p` the chain reaches the owner `t` over `n` further ports.
  pub data Leads (ports : BTreeMap PortState) (t : ℕ) : ℕ → ℕ → Type 0 where
    owned :
        (p : ℕ) (port : PortState) → get p ports ≡ some port → port.owner ≡ t → Leads ports t 0 p
    waits :
        (n p : ℕ) (port : PortState) (info : WaiterInfo)
        → get p ports ≡ some port
        → get port.owner waiting ≡ some info
        → Leads ports t n info.port
        → Leads ports t (suc n) p

module _ (waiting : BTreeMap WaiterInfo) where
  get-removed :
      (p q : ℕ) (port : PortState) (ports : BTreeMap PortState)
      → get p (remove q ports) ≡ some port
      → get p ports ≡ some port
  get-removed p q port ports e = ground (arith, e, get-remove q p ports)

  Leads-remove :
      (ports : BTreeMap PortState) (t q n p : ℕ)
      → Leads waiting (remove q ports) t n p
      → Leads waiting ports t n p
  Leads-remove ports t q n p (Leads.owned _ port e own) =
      Leads.owned p port (get-removed p q port ports e) own
  Leads-remove ports t q _ p (Leads.waits n _ port info e w l) =
      Leads.waits n p port info (get-removed p q port ports e) w
        (Leads-remove ports t q n info.port l)

  -- A chain either avoids the port `q` or has a part, no longer, that starts there.
  avoid :
      (ports : BTreeMap PortState) (t q n p : ℕ)
      → Leads waiting ports t n p
      → Leads waiting (remove q ports) t n p ⊎ ((m : ℕ) × (m ≤ n) × Leads waiting ports t m q)
  avoid ports t q _ p (Leads.owned _ port e own) = elim (Bool-cases (q == p)) [
    | inl same ↦
        inr (
          0,
          omega arith,
          subst (Leads waiting ports t 0) (ground arith) (Leads.owned p port e own),
        )
    | inr other ↦ inl (Leads.owned p port (ground (arith, e, other, get-remove q p ports)) own)
  ]
  avoid ports t q _ p (Leads.waits k _ port info e w l) = elim (Bool-cases (q == p)) [
    | inl same ↦ inr (
      suc k,
      omega arith,
      subst (Leads waiting ports t (suc k)) (ground arith) (Leads.waits k p port info e w l),
    )
    | inr other ↦ elim (avoid ports t q k info.port l) [
      | inl kept ↦
          inl (Leads.waits k p port info (ground (arith, e, other, get-remove q p ports)) w kept)
      | inr (m, le, again) ↦ inr (m, omega arith, again)
    ]
  ]

  -- A chain is no longer than there are ports: by induction on a bound of their number, then on the
  -- length of the chain.
  shorten :
      (bound : ℕ) (ports : BTreeMap PortState) (t fuel n p : ℕ)
      → length ports ≤ bound
      → n < fuel
      → Leads waiting ports t n p
      → (m : ℕ) × (m < bound) × Leads waiting ports t m p
  shorten zero ports t fuel _ p small enough (Leads.owned _ port e own) =
      absurd (omega (arith, length-remove-lt p port ports e))
  shorten zero ports t fuel _ p small enough (Leads.waits k _ port info e w l) =
      absurd (omega (arith, length-remove-lt p port ports e))
  shorten (suc bound) ports t zero n p small enough l = absurd (omega arith)
  shorten (suc bound) ports t (suc fuel) _ p small enough (Leads.owned _ port e own) =
      (0, omega arith, Leads.owned p port e own)
  shorten (suc bound) ports t (suc fuel) _ p small enough (Leads.waits k _ port info e w l) =
      elim (avoid ports t p k info.port l) [
        | inl kept ↦
            let (m, le, short) =
              shorten bound (remove p ports) t (suc fuel) k info.port
                (omega (arith, length-remove-lt p port ports e)) (omega arith) kept in
            (
              suc m,
              omega arith,
              Leads.waits m p port info e w (Leads-remove ports t p m info.port short),
            )
        | inr (m, le, again) ↦ shorten (suc bound) ports t fuel m p small (omega arith) again
      ]

  pub follow_complete :
      (ports : BTreeMap PortState) (t n m p : ℕ)
      → m < n
      → Leads waiting ports t m p
      → follow ports waiting t n p ≡ true
  unfolding follow
  follow_complete ports t zero m p h l = absurd (omega arith)
  follow_complete ports t (suc n) _ p h (Leads.owned _ port e own) = ground (arith, e, own)
  follow_complete ports t (suc n) _ p h (Leads.waits k _ port info e w l) =
      ground (arith, e, w, follow_complete ports t n k info.port (omega arith) l)

  pub follow_sound :
      (ports : BTreeMap PortState) (t n p : ℕ)
      → follow ports waiting t n p ≡ true
      → (m : ℕ) × Leads waiting ports t m p
  unfolding follow
  follow_sound ports t zero p h = cc
  follow_sound ports t (suc n) p h = elim (Option-cases (get p ports)) [
    | inl e ↦ absurd (ground (arith, h, e))
    | inr (port, e) ↦ elim (Bool-cases (port.owner == t)) [
      | inl own ↦ (0, Leads.owned p port e (ground arith))
      | inr other ↦ elim (Option-cases (get port.owner waiting)) [
        | inl w ↦ absurd (ground (arith, h, e, other, w))
        | inr (info, w) ↦
            let (m, l) = follow_sound ports t n info.port (ground (arith, h, e, other, w)) in
            (suc m, Leads.waits m p port info e w l)
      ]
    ]
  ]

-- `detect_deadlock` answers yes exactly if the chain from the target port (to its owner, to the port
-- that the owner waits on, to that port's owner, and so on) reaches the thread: the bound on its
-- steps cuts no chain off.
pub detect_deadlock_iff :
    (start target_port : ℕ) (s : State)
    → (detect_deadlock start target_port s ≡ true)
      ↔ ((n : ℕ) × Leads s.waiting_threads s.ports start n target_port)
unfolding detect_deadlock
detect_deadlock_iff start target_port s = (
  follow_sound s.waiting_threads s.ports start (suc (length s.ports + length s.waiting_threads))
      target_port,
  λ (n, l).
      let (m, le, short) =
        shorten s.waiting_threads (length s.ports) s.ports start (suc n) n target_port (omega arith)
          (omega arith) l in
      follow_complete s.waiting_threads s.ports start
        (suc (length s.ports + length s.waiting_threads)) m target_port (omega arith) short,
)
