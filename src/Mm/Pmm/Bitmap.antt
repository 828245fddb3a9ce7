-- ===== src/Mm/Pmm/Bitmap.antt =====
-- kernel/src/mm/pmm.rs: the bitmap as a set of free pages.
use atom.Prelude.{
  ℕ, zero, suc, ◌*◌, ◌/◌, ◌%◌, ◌≤◌, ◌<◌, ◌≡◌, refl, List, [], ◌∷◌, Bool, true, false, not, ◌&&◌,
  arith, if◌then◌else◌, ◌==◌, ltb, leb, get_or, set, length, length-set, All, Bool-cases, ltb→lt,
  inl, inr,
}
use atom.Mm.Pmm.{
  State, bit_clear, clear_bit, set_bit, byte_of, is_page_free, set_page_free, set_page_allocated,
  max_pages,
}

all_below : ℕ → (ℕ → Bool) → Bool
all_below zero p = true
all_below (suc n) p = p n && all_below n p

all_below-true : (n : ℕ) (p : ℕ → Bool) (x : ℕ) → all_below n p ≡ true → x < n → p x ≡ true
unfolding all_below
all_below-true zero p x h lt = absurd (omega arith)
all_below-true (suc n) p x h lt = ground (arith, all_below-true n p x)

same : Bool → Bool → Bool
same true b = b
same false b = not b

same-true : (a b : Bool) → same a b ≡ true → a ≡ b
unfolding same
same-true a b h = ground arith

-- The laws of the bits of a byte, checked at every byte and every pair of bits.
clear_table :
    all_below 256 (λ byte. all_below 8 (λ i.
      ltb (clear_bit byte i) 256
      && all_below 8
          (λ j. same (bit_clear (clear_bit byte i) j) (if i == j then true else bit_clear byte j))))
    ≡ true
unfolding all_below same clear_bit bit_clear
clear_table = refl

set_table :
    all_below 256 (λ byte. all_below 8 (λ i.
      ltb (set_bit byte i) 256
      && all_below 8
          (λ j. same (bit_clear (set_bit byte i) j) (if i == j then false else bit_clear byte j))))
    ≡ true
unfolding all_below same set_bit bit_clear
set_table = refl

full_table : all_below 8 (λ i. same (bit_clear 255 i) false) ≡ true
unfolding all_below same bit_clear
full_table = refl

pub bit_clear-full : (i : ℕ) → i < 8 → bit_clear 255 i ≡ false
bit_clear-full i h = same-true (bit_clear 255 i) false (all_below-true 8 _ i full_table h)

both : (a b : Bool) → (a && b) ≡ true → (a ≡ true) × (b ≡ true)
both a b h = ground arith

-- At every byte and pair of bits: the byte stays a byte, and just the one bit changes.
clear-at :
    (byte i j : ℕ)
    → byte < 256
    → i < 8
    → j < 8
    → (clear_bit byte i < 256)
      × (bit_clear (clear_bit byte i) j ≡ (if i == j then true else bit_clear byte j))
clear-at byte i j hb hi hj =
    let row = all_below-true 256 _ byte clear_table hb in
    let column = all_below-true 8 _ i row hi in
    let (small, cells) = both _ _ column in
    (ltb→lt _ 256 small, same-true _ _ (all_below-true 8 _ j cells hj))

set-at :
    (byte i j : ℕ)
    → byte < 256
    → i < 8
    → j < 8
    → (set_bit byte i < 256)
      × (bit_clear (set_bit byte i) j ≡ (if i == j then false else bit_clear byte j))
set-at byte i j hb hi hj =
    let row = all_below-true 256 _ byte set_table hb in
    let column = all_below-true 8 _ i row hi in
    let (small, cells) = both _ _ column in
    (ltb→lt _ 256 small, same-true _ _ (all_below-true 8 _ j cells hj))

-- What holds of the bitmap: it has a bit for each tracked page, and its bytes are bytes.
pub record IsValid (s : State) : Type 0 where
  pub sized : s.total_pages ≤ 8 * length s.bitmap
  pub bytes : All (λ byte. byte < 256) s.bitmap
  pub tracked : s.total_pages ≤ max_pages

get_or-below : (xs : List ℕ) (i : ℕ) → All (λ byte. byte < 256) xs → get_or xs i 255 < 256
get_or-below [] i h = omega arith
get_or-below (x ∷ xs) zero h = h.0
get_or-below (x ∷ xs) (suc i) h = get_or-below xs i h.1

All-set :
    (xs : List ℕ) (i v : ℕ)
    → v < 256
    → All (λ byte. byte < 256) xs
    → All (λ byte. byte < 256) (set xs i v)
All-set [] i v hv h = h
All-set (x ∷ xs) zero v hv h = (hv, h.1)
All-set (x ∷ xs) (suc i) v hv h = (h.0, All-set xs i v hv h.1)

get_or-set :
    (xs : List ℕ) (i j v : ℕ)
    → i < length xs
    → get_or (set xs i v) j 255 ≡ (if i == j then v else get_or xs j 255)
get_or-set [] i j v h = absurd (omega arith)
get_or-set (x ∷ xs) zero zero v h = refl
get_or-set (x ∷ xs) zero (suc j) v h = ground arith
get_or-set (x ∷ xs) (suc i) zero v h = ground arith
get_or-set (x ∷ xs) (suc i) (suc j) v h = ground (arith, get_or-set xs i j v)

-- Freeing a tracked page changes that page alone.
pub is_page_free-set_page_free :
    (page q : ℕ) (s : State)
    → IsValid s
    → page < s.total_pages
    → is_page_free q (set_page_free page s) ≡ (if page == q then true else is_page_free q s)
unfolding is_page_free set_page_free
is_page_free-set_page_free page q s v h = ground (
  arith,
  v.sized,
  get_or-set s.bitmap (page / 8) (q / 8) (clear_bit (byte_of s.bitmap page) (page % 8))
      (omega (arith, v.sized)),
  (clear-at (byte_of s.bitmap page) (page % 8) (q % 8) (get_or-below s.bitmap (page / 8) v.bytes)
      (omega arith) (omega arith)).1,
)

pub is_page_free-set_page_allocated :
    (page q : ℕ) (s : State)
    → IsValid s
    → page < s.total_pages
    → is_page_free q (set_page_allocated page s) ≡ (if page == q then false else is_page_free q s)
unfolding is_page_free set_page_allocated
is_page_free-set_page_allocated page q s v h = ground (
  arith,
  v.sized,
  get_or-set s.bitmap (page / 8) (q / 8) (set_bit (byte_of s.bitmap page) (page % 8))
      (omega (arith, v.sized)),
  (set-at (byte_of s.bitmap page) (page % 8) (q % 8) (get_or-below s.bitmap (page / 8) v.bytes)
      (omega arith) (omega arith)).1,
)

pub set_page_free-IsValid : (page : ℕ) (s : State) → IsValid s → IsValid (set_page_free page s)
unfolding set_page_free
set_page_free-IsValid page s v = elim (Bool-cases (leb s.total_pages page)) [
  | inl out ↦ rw out v
  | inr inside ↦ rw inside (record {
    sized = omega (
      arith,
      v.sized,
      length-set s.bitmap (page / 8) (clear_bit (byte_of s.bitmap page) (page % 8)),
    );
    bytes =
        All-set s.bitmap (page / 8) (clear_bit (byte_of s.bitmap page) (page % 8))
          (clear-at (byte_of s.bitmap page) (page % 8) 0 (get_or-below s.bitmap (page / 8) v.bytes)
            (omega arith) (omega arith)).0
          v.bytes;
    tracked = v.tracked;
  })
]

pub set_page_allocated-IsValid :
    (page : ℕ) (s : State) → IsValid s → IsValid (set_page_allocated page s)
unfolding set_page_allocated
set_page_allocated-IsValid page s v = elim (Bool-cases (leb s.total_pages page)) [
  | inl out ↦ rw out v
  | inr inside ↦ rw inside (record {
    sized = omega (
      arith,
      v.sized,
      length-set s.bitmap (page / 8) (set_bit (byte_of s.bitmap page) (page % 8)),
    );
    bytes =
        All-set s.bitmap (page / 8) (set_bit (byte_of s.bitmap page) (page % 8))
          (set-at (byte_of s.bitmap page) (page % 8) 0 (get_or-below s.bitmap (page / 8) v.bytes)
            (omega arith) (omega arith)).0
          v.bytes;
    tracked = v.tracked;
  })
]

pub total_pages-set_page_free :
    (page : ℕ) (s : State)
    → ((set_page_free page s).total_pages ≡ s.total_pages)
      × ((set_page_free page s).free_count ≡ s.free_count)
unfolding set_page_free
total_pages-set_page_free page s = elim (Bool-cases (leb s.total_pages page)) [
  | inl out ↦ rw out (refl, refl)
  | inr inside ↦ rw inside (refl, refl)
]

pub total_pages-set_page_allocated :
    (page : ℕ) (s : State)
    → ((set_page_allocated page s).total_pages ≡ s.total_pages)
      × ((set_page_allocated page s).free_count ≡ s.free_count)
unfolding set_page_allocated
total_pages-set_page_allocated page s = elim (Bool-cases (leb s.total_pages page)) [
  | inl out ↦ rw out (refl, refl)
  | inr inside ↦ rw inside (refl, refl)
]

pub is_page_free-tracked :
    (page : ℕ) (s : State) → is_page_free page s ≡ true → page < s.total_pages
unfolding is_page_free
is_page_free-tracked page s h = ground arith
