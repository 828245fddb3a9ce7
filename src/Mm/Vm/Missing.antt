-- ===== src/Mm/Vm/Missing.antt =====
-- kernel/src/mm/vm.rs, `walk_to_entry_with_root_user`: how many tables it has to make.
use atom.Prelude.{
  ℕ, suc, ◌+◌, ◌≤◌, ◌<◌, ◌≡◌, inl, inr, refl, List, [], ◌∷◌, false, ok, err, arith, length,
}
use atom.Mm.Vm.{VmError}
use atom.Mm.Vm.Tables.{Memory, is_present}
use atom.Mm.Vm.Tree.{Reaches, along, below, along-Reaches, Reaches-along, Result-cases}

-- The tables that do not exist yet on a path, which has its last index first.
unfoldable pub missing : Memory → ℕ → List ℕ → ℕ
missing memory root [] = 0
missing memory root (idx ∷ path) = elim (along memory root (idx ∷ path)) [
  | ok table ↦ 0
  | err e ↦ suc (missing memory root path)
]

missing-ok :
    (memory : Memory) (root u : ℕ) (path : List ℕ)
    → along memory root path ≡ ok u
    → missing memory root path ≡ 0
unfolding missing
missing-ok memory root u [] found = refl
missing-ok memory root u (idx ∷ path) found = rw (found, missing) refl

missing-err :
    (memory : Memory) (root idx : ℕ) (e : VmError) (path : List ℕ)
    → along memory root (idx ∷ path) ≡ err e
    → missing memory root (idx ∷ path) ≡ missing memory root path + 1
unfolding missing
missing-err memory root idx e path gone = rw (gone, missing) (omega arith)

-- Where a path leads, all its tables exist.
pub Reaches-missing :
    (memory : Memory) (root t : ℕ) (path : List ℕ)
    → Reaches memory root path t
    → missing memory root path ≡ 0
Reaches-missing memory root t path there =
    missing-ok memory root t path (Reaches-along memory root t path there)

pub absent-missing :
    (memory : Memory) (root t i : ℕ) (path : List ℕ)
    → Reaches memory root path t
    → is_present (memory t i) ≡ false
    → missing memory root (i ∷ path) ≡ 1
unfolding missing along below
absent-missing memory root t i path there absent =
    rw (Reaches-along memory root t path there, below, absent, missing)
      (omega (arith, Reaches-missing memory root t path there))

-- No table is missing above one that exists.
above :
    (memory : Memory) (root idx u : ℕ) (path : List ℕ)
    → along memory root (idx ∷ path) ≡ ok u
    → missing memory root path ≡ 0
unfolding along below
above memory root idx u path found = elim (Result-cases (along memory root path)) [
  | inl (t, there) ↦ missing-ok memory root t path there
  | inr (e, gone) ↦ absurd (cc (rw (gone, below) at found))
]

pub missing-le :
    (memory : Memory) (root idx : ℕ) (path : List ℕ)
    → missing memory root path ≤ missing memory root (idx ∷ path)
missing-le memory root idx path = elim (Result-cases (along memory root (idx ∷ path))) [
  | inl (u, found) ↦ omega (arith, above memory root idx u path found)
  | inr (e, gone) ↦ omega (arith, missing-err memory root idx e path gone)
]

-- Once the tables down to `t` exist, what is missing below it is what was missing on the longer path
-- and not on the shorter one.
pub missing-step :
    (before after : Memory) (root t idx : ℕ) (path : List ℕ)
    → length path < 3
    → ((p : List ℕ) (u : ℕ) → Reaches before root p u → Reaches after root p u)
    → ((u : ℕ) → Reaches after root (idx ∷ path) u → Reaches before root (idx ∷ path) u)
    → Reaches after root path t
    → missing before root (idx ∷ path) ≡ missing before root path + missing after root (idx ∷ path)
missing-step before after root t idx path short reach back there =
    elim (Result-cases (along before root (idx ∷ path))) [
      | inl (u, found) ↦
          let r =
            reach (idx ∷ path) u (along-Reaches before root u (idx ∷ path) (omega arith) found) in
          omega (
            arith,
            missing-ok before root u (idx ∷ path) found,
            above before root idx u path found,
            Reaches-missing after root u (idx ∷ path) r,
          )
      | inr (e, gone) ↦ elim (Result-cases (along after root (idx ∷ path))) [
        | inl (u, found) ↦
            let r = back u (along-Reaches after root u (idx ∷ path) (omega arith) found) in
            absurd (cc (gone, Reaches-along before root u (idx ∷ path) r))
        | inr (e', gone') ↦ omega (
          arith,
          missing-err before root idx e path gone,
          missing-err after root idx e' path gone',
          Reaches-missing after root t path there,
        )
      ]
    ]
