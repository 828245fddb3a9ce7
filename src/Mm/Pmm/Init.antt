-- ===== src/Mm/Pmm/Init.antt =====
-- kernel/src/mm/pmm.rs, `init`: the free pages are those of the conventional memory of the map.
use atom.Prelude.{
  ℕ, zero, suc, ◌+◌, ◌-◌, ◌*◌, ◌/◌, ◌%◌, ◌≤◌, ◌<◌, ◌≡◌, refl, ◌∙◌, sym, subst, Bool, true, false,
  arith, if◌then◌else◌, ◌==◌, ltb, leb, ◌&&◌, ◌||◌, Bool-cases, inl, inr, not, List, [], ◌∷◌, min,
  All, length-replicate, replicate, get_or,
}
use atom.Mm.Pmm.{
  State, Descriptor, max_pages, efi_conventional_memory, saturating_add, start_page, is_page_free,
  set_page_free, set_range_free, free_descriptors, init, tracked_end_page,
}
use atom.Mm.Pmm.Bitmap.{
  IsValid, is_page_free-set_page_free, set_page_free-IsValid, total_pages-set_page_free,
  bit_clear-full,
}
use atom.Mm.Pmm.Count.{free_pages_of, free_pages_of-set_page_free, in_run, free_pages_of-none}
use atom.Mm.Pmm.Alloc.{Inv}

-- What `set_range_free` does to `n` tracked pages.
record Freed (start n : ℕ) (s after : State) : Type 0 where
  pub valid : IsValid after
  pub total : after.total_pages ≡ s.total_pages
  pub counter : after.free_count ≡ s.free_count + n
  pub pages : (q : ℕ) → is_page_free q after ≡ (if in_run start n q then true else is_page_free q s)
  pub more :
      ((q : ℕ) → in_run start n q ≡ true → is_page_free q s ≡ false)
      → free_pages_of after ≡ free_pages_of s + n

module _ (start : ℕ) (s : State) (v : IsValid s) (h : start < s.total_pages) where
  -- The state after one round.
  abbrev next : State
  next = record (set_page_free start s) { free_count = (set_page_free start s).free_count + 1 }

  next-IsValid : IsValid next
  next-IsValid =
      let w = set_page_free-IsValid start s v in
      record { sized = w.sized; bytes = w.bytes; tracked = w.tracked }

  next_pages : (q : ℕ) → is_page_free q next ≡ (if start == q then true else is_page_free q s)
  unfolding is_page_free
  next_pages q = is_page_free-set_page_free start q s v h

  next_more : is_page_free start s ≡ false → free_pages_of next ≡ free_pages_of s + 1
  unfolding free_pages_of is_page_free
  next_more used = free_pages_of-set_page_free start s v h used

  Freed-next :
      (n : ℕ) (after : State) → Freed (start + 1) n next after → Freed start (suc n) s after
  Freed-next n after rest = record {
    valid = rest.valid;
    total = rest.total ∙ (total_pages-set_page_free start s).0;
    counter = omega (arith, rest.counter, (total_pages-set_page_free start s).1);
    pages = λ q. ground (arith, rest.pages q, next_pages q);
    more = λ used. omega (
      arith,
      rest.more (λ q i. ground (arith, next_pages q, used q)),
      next_more (used start (ground arith)),
    );
  }

set_range_free-Freed :
    (n start : ℕ) (s : State)
    → IsValid s
    → start + n ≤ s.total_pages
    → Freed start n s (set_range_free n start s)
unfolding set_range_free
set_range_free-Freed zero start s v h = record {
  valid = v;
  total = refl;
  counter = omega arith;
  pages = λ q. ground arith;
  more = λ used. omega arith;
}
set_range_free-Freed (suc n) start s v h =
    Freed-next start s v (omega arith) n
      (set_range_free n (start + 1) (next start s v (omega arith)))
      (set_range_free-Freed n (start + 1) (next start s v (omega arith))
        (next-IsValid start s v (omega arith))
        (omega (arith, (total_pages-set_page_free start s).0)))

-- Whether the page is one of the descriptor's, and the descriptor is of conventional memory.
abbrev pub covers : ℕ → Descriptor → ℕ → Bool
covers total d q =
    (d.typ == efi_conventional_memory)
    && (leb (start_page d) q
        && (ltb q (saturating_add (start_page d) d.number_of_pages) && ltb q total))

abbrev pub covered : ℕ → List Descriptor → ℕ → Bool
covered total [] q = false
covered total (d ∷ ds) q = covers total d q || covered total ds q

-- No page stands in two descriptors of conventional memory.
abbrev pub IsSeparate : ℕ → List Descriptor → Type 0
IsSeparate total [] = Unit {0}
IsSeparate total (d ∷ ds) =
    ((q : ℕ) → covers total d q ≡ true → covered total ds q ≡ false) × IsSeparate total ds

record Filled (total : ℕ) (ds : List Descriptor) (s after : State) : Type 0 where
  pub valid : IsValid after
  pub same : after.total_pages ≡ total
  pub pages : (q : ℕ) → is_page_free q after ≡ covered total ds q || is_page_free q s
  pub counted :
      IsSeparate total ds
      → ((q : ℕ) → covered total ds q ≡ true → is_page_free q s ≡ false)
      → s.free_count ≡ free_pages_of s
      → after.free_count ≡ free_pages_of after

-- One round of the second loop.
one_descriptor : Descriptor → State → State
one_descriptor d s =
    if not (d.typ == efi_conventional_memory)
    then s
    else if leb s.total_pages (start_page d)
    then s
    else set_range_free
        (min (saturating_add (start_page d) d.number_of_pages) s.total_pages - start_page d)
        (start_page d) s

one_descriptor-Filled :
    (d : Descriptor) (s : State) → IsValid s → Filled s.total_pages (d ∷ []) s (one_descriptor d s)
unfolding one_descriptor
one_descriptor-Filled d s v = elim (Bool-cases (d.typ == efi_conventional_memory)) [
  | inl conventional ↦ elim (Bool-cases (leb s.total_pages (start_page d))) [
    | inl beyond ↦
        rw (conventional, beyond)
          (record {
            valid = v;
            same = refl;
            pages = λ q. ground (arith, beyond);
            counted = λ sep used e. e;
          })
    | inr inside ↦ rw (conventional, inside) (filled conventional inside)
  ]
  | inr other ↦ rw other (record {
    valid = v;
    same = refl;
    pages = λ q. ground (arith, other);
    counted = λ sep used e. e;
  })
]
  where
    n : ℕ
    n = min (saturating_add (start_page d) d.number_of_pages) s.total_pages - start_page d

    filled :
        (d.typ == efi_conventional_memory) ≡ true
        → leb s.total_pages (start_page d) ≡ false
        → Filled s.total_pages (d ∷ []) s (set_range_free n (start_page d) s)
    filled conventional inside =
        let f = set_range_free-Freed n (start_page d) s v (ground arith) in
        record {
          valid = f.valid;
          same = f.total;
          pages = λ q. ground (arith, f.pages q, conventional);
          counted = λ sep used e.
              omega (arith, f.counter, f.more (λ q i. used q (ground (arith, conventional))), e);
        }

Filled-cons :
    (total : ℕ) (d : Descriptor) (ds : List Descriptor) (s next after : State)
    → Filled total (d ∷ []) s next
    → Filled total ds next after
    → Filled total (d ∷ ds) s after
Filled-cons total d ds s next after f g = record {
  valid = g.valid;
  same = g.same;
  pages = λ q. ground (arith, f.pages q, g.pages q);
  counted = λ sep used e.
      g.counted sep.1 (λ q c. ground (arith, f.pages q, sep.0 q, used q))
        (f.counted ((λ q c. refl), tt) (λ q c. used q (ground (arith, c))) e);
}

free_descriptors-Filled :
    (total : ℕ) (ds : List Descriptor) (s : State)
    → IsValid s
    → s.total_pages ≡ total
    → Filled total ds s (free_descriptors ds s)
unfolding free_descriptors one_descriptor
free_descriptors-Filled total [] s v e = record {
  valid = v;
  same = e;
  pages = λ q. refl;
  counted = λ sep used c. c;
}
free_descriptors-Filled total (d ∷ ds) s v e =
    let f : Filled total (d ∷ []) s (one_descriptor d s) =
      subst (λ (t : ℕ). Filled t (d ∷ []) s (one_descriptor d s)) e (one_descriptor-Filled d s v) in
    Filled-cons total d ds s (one_descriptor d s) (free_descriptors ds (one_descriptor d s)) f
      (free_descriptors-Filled total ds (one_descriptor d s) f.valid f.same)

-- The number of pages that `init` tracks.
abbrev pub total_of : List Descriptor → ℕ
total_of memory_map = min (tracked_end_page memory_map 0) max_pages

-- The state before the second loop, with a bitmap of `n` bytes.
abbrev blank : ℕ → ℕ → State
blank n total = record {
  bitmap = replicate n 255;
  total_pages = total;
  free_count = 0;
  next_free_hint = 0;
  largest_free_run = 0;
}

get_or-replicate : (n i : ℕ) → get_or {A = ℕ} (replicate n 255) i 255 ≡ 255
get_or-replicate zero i = refl
get_or-replicate (suc n) zero = refl
get_or-replicate (suc n) (suc i) = get_or-replicate n i

All-replicate : (n : ℕ) → All (λ (byte : ℕ). byte < 256) (replicate n 255)
All-replicate zero = tt
All-replicate (suc n) = (omega arith, All-replicate n)

blank-IsValid : (n total : ℕ) → total ≤ 8 * n → total ≤ max_pages → IsValid (blank n total)
blank-IsValid n total h k = record {
  sized = omega (arith, length-replicate {A = ℕ} n 255);
  bytes = All-replicate n;
  tracked = k;
}

blank_used : (n total q : ℕ) → is_page_free q (blank n total) ≡ false
unfolding is_page_free
blank_used n total q =
    ground (arith, get_or-replicate n (q / 8), bit_clear-full (q % 8) (omega arith))

free_descriptors-blank :
    (n total : ℕ) (ds : List Descriptor)
    → total ≤ 8 * n
    → total ≤ max_pages
    → let s = free_descriptors ds (blank n total) in
      ((q : ℕ) → is_page_free q s ≡ covered total ds q) × (IsSeparate total ds → Inv s)
free_descriptors-blank n total ds h k =
    let f = free_descriptors-Filled total ds (blank n total) (blank-IsValid n total h k) refl in
    (
      λ q. ground (arith, f.pages q, blank_used n total q),
      λ sep. record {
        valid = f.valid;
        counted =
            f.counted sep (λ q c. blank_used n total q)
              (sym (free_pages_of-none (blank n total) (blank_used n total)));
      },
    )

-- After `init` a page is free exactly if it is tracked and stands in a descriptor of conventional
-- memory.
pub is_page_free-init :
    (memory_map : List Descriptor) (q : ℕ)
    → is_page_free q (init memory_map) ≡ covered (total_of memory_map) memory_map q
unfolding init is_page_free
is_page_free-init memory_map q =
    (free_descriptors-blank (max_pages / 8) (total_of memory_map) memory_map (omega arith)
        (omega arith)).0
      q

-- If no page stands in two descriptors of conventional memory, then after `init` the bitmap is well
-- formed and the counter is the number of free pages.
pub init-Inv :
    (memory_map : List Descriptor)
    → IsSeparate (total_of memory_map) memory_map
    → Inv (init memory_map)
unfolding init free_pages_of is_page_free
init-Inv memory_map sep =
    let v =
      (free_descriptors-blank (max_pages / 8) (total_of memory_map) memory_map (omega arith)
          (omega arith)).1
        sep in
    record {
      valid = record { sized = v.valid.sized; bytes = v.valid.bytes; tracked = v.valid.tracked };
      counted = v.counted;
    }
