-- ===== src/Mm/Vm/Words.antt =====
-- kernel/src/mm/vm.rs, `PageTableEntry`: the bits of an entry.
use native.Mathlib.Nat.{pow-suc, mul_assoc}
use atom.Prelude.{
  ℕ, zero, suc, ◌+◌, ◌*◌, ◌/◌, ◌%◌, ◌^◌, ◌≤◌, ◌<◌, ◌≡◌, refl, sym, ap, ◌∙◌, Bool, true, false, not,
  ◌==◌, max, bit_and, bit_or, arith,
}
use atom.Prelude.Bits.{and_low_digit, or_low_digit, and-zero, and-clear_low}
use atom.Mm.Vm.{user, union}
use atom.Mm.Vm.Tables.{addr_mask, is_present, addr, set, table_flags}

or-zero_below : (k b : ℕ) → b ≤ k → bit_or b 0 ≡ b
or-zero_below k zero h = refl
or-zero_below zero (suc b) h = absurd (omega arith)
or-zero_below (suc k) (suc b) h =
    omega (arith, or_low_digit (suc b) 0, or-zero_below k (suc b / 2) (omega arith))

or-zero : (b : ℕ) → bit_or b 0 ≡ b
or-zero b = or-zero_below b b (omega arith)

-- Below a multiple of `2 ^ k` the bits of a smaller number are its own.
or-low : (k n f : ℕ) → f < 2 ^ k → bit_or (n * 2 ^ k) f ≡ n * 2 ^ k + f
or-low zero n f h =
    let none_left : f ≡ 0 = omega arith in rw none_left (omega (arith, or-zero (n * 2 ^ 0)))
or-low (suc k) n f h =
    let double : n * 2 ^ suc k ≡ n * 2 ^ k * 2 = rw (pow-suc 2 k) (sym (mul_assoc n (2 ^ k) 2)) in
    let half : n * 2 ^ suc k / 2 ≡ n * 2 ^ k = omega (arith, double) in
    omega (
      arith,
      or_low_digit (n * 2 ^ suc k) f,
      ap (λ (x : ℕ). bit_or x (f / 2)) half,
      or-low k n (f / 2) (omega (arith, pow-suc 2 k)),
      double,
    )

or_user : (e : ℕ) → bit_or e 4 ≡ e / 8 * 8 + 4 + e % 4
or_user e =
    let second : bit_or (e / 2 / 2) 1 ≡ bit_or (e / 2 / 2 / 2) 0 * 2 + max (e / 2 / 2 % 2) 1 =
      or_low_digit (e / 2 / 2) 1 in
    omega (arith, or_low_digit e 4, or_low_digit (e / 2) 2, second, or-zero (e / 2 / 2 / 2))

-- A mask whose three lowest bits are clear.
and-high : (a m : ℕ) → bit_and a (m * 8) ≡ bit_and (a / 8) m * 8
and-high a m =
    let third : a / 2 / 2 / 2 ≡ a / 8 = omega arith in
    let m1 : m * 8 / 2 ≡ m * 4 = omega arith in
    let m2 : m * 4 / 2 ≡ m * 2 = omega arith in
    let m3 : m * 2 / 2 ≡ m = omega arith in
    omega (
      arith,
      and_low_digit a (m * 8),
      ap (bit_and (a / 2)) m1,
      and_low_digit (a / 2) (m * 4),
      ap (bit_and (a / 2 / 2)) m2,
      and_low_digit (a / 2 / 2) (m * 2),
      ap (bit_and (a / 2 / 2 / 2)) m3,
      ap (λ (x : ℕ). bit_and x m) third,
    )

and_one : (a : ℕ) → bit_and a 1 ≡ a % 2
and_one a = omega (arith, and_low_digit a 1, and-zero (a / 2))

-- The user bit changes neither whether an entry is present nor its address.
pub is_present-user : (e : ℕ) → is_present (bit_or e user.bits) ≡ is_present e
unfolding is_present
is_present-user e =
    let same : bit_and (bit_or e 4) 1 ≡ bit_and e 1 =
      omega (arith, and_one (bit_or e 4), and_one e, or_user e) in
    ap (λ (x : ℕ). not (x == 0)) same

pub addr-user : (e : ℕ) → addr (bit_or e user.bits) ≡ addr e
unfolding addr
addr-user e =
    let top : bit_or e 4 / 8 ≡ e / 8 = omega (arith, or_user e) in
    and-high (bit_or e 4) 562949953420800
    ∙ ap (λ (x : ℕ). bit_and x 562949953420800 * 8) top
    ∙ sym (and-high e 562949953420800)

bits-table_flags : (user_access : Bool) → (table_flags user_access).bits < 4096
unfolding table_flags union
bits-table_flags true = omega arith
bits-table_flags false = omega arith

odd-table_flags : (user_access : Bool) → (table_flags user_access).bits % 2 ≡ 1
unfolding table_flags union
odd-table_flags true = refl
odd-table_flags false = refl

-- The entry that is made for a new table.
table_entry :
    (page : ℕ) (user_access : Bool)
    → page < 2 ^ 40
    → set (page * 4096) (table_flags user_access) ≡ page * 4096 + (table_flags user_access).bits
unfolding set
table_entry page user_access small =
    let masked : bit_and (page * 4096) addr_mask ≡ page * 4096 =
      omega (arith, and-clear_low 12 52 (page * 4096) (omega arith) (omega arith)) in
    ap (λ (x : ℕ). bit_or x (table_flags user_access).bits) masked
    ∙ or-low 12 page (table_flags user_access).bits (bits-table_flags user_access)

pub is_present-table_entry :
    (page : ℕ) (user_access : Bool)
    → page < 2 ^ 40
    → is_present (set (page * 4096) (table_flags user_access)) ≡ true
unfolding is_present
is_present-table_entry page user_access small =
    let word = set (page * 4096) (table_flags user_access) in
    let one : bit_and word 1 ≡ 1 =
      omega
        (arith, and_one word, table_entry page user_access small, odd-table_flags user_access) in
    ap (λ (x : ℕ). not (x == 0)) one

pub addr-table_entry :
    (page : ℕ) (user_access : Bool)
    → page < 2 ^ 40
    → addr (set (page * 4096) (table_flags user_access)) ≡ page * 4096
unfolding addr
addr-table_entry page user_access small =
    let word = set (page * 4096) (table_flags user_access) in
    omega (
      arith,
      and-clear_low 12 52 word (omega arith)
          (omega (arith, table_entry page user_access small, bits-table_flags user_access)),
      table_entry page user_access small,
      bits-table_flags user_access,
    )
