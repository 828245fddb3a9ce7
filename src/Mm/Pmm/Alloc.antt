-- ===== src/Mm/Pmm/Alloc.antt =====
-- kernel/src/mm/pmm.rs, `alloc_page` and `alloc_pages`: the pages handed out were free, are free no
-- more, and the counter stays the number of free pages.
use atom.Prelude.{
  ℕ, zero, suc, ◌+◌, ◌-◌, ◌*◌, ◌≤◌, ◌<◌, ◌≡◌, inl, inr, refl, ◌∙◌, true, false, arith,
  if◌then◌else◌, ◌==◌, ltb, Option, none, some, Option-cases, Bool-cases,
}
use atom.Mm.Pmm.{
  State, page_size, is_page_free, find_free, find_run, run_is_free, set_run_allocated, alloc_page,
  alloc_run, alloc_pages, fetch_sub,
}
use atom.Mm.Pmm.Bitmap.{IsValid, is_page_free-tracked}
use atom.Mm.Pmm.Count.{
  free_pages_of, free_pages_of-none, free_pages_of-le, in_run, set_run_allocated-TakesRun,
  run_is_free-all,
}

-- The bitmap is well formed, and the counter is the number of free pages.
pub record Inv (s : State) : Type 0 where
  pub valid : IsValid s
  pub counted : s.free_count ≡ free_pages_of s

-- The search for a run finds the first one.
find_run-some :
    (n start count p : ℕ) (s : State)
    → find_run n start count s ≡ some p
    → (start ≤ p)
      × (p < start + n)
      × (run_is_free count p s ≡ true)
      × ((q : ℕ) → start ≤ q → q < p → run_is_free count q s ≡ false)
unfolding find_run
find_run-some zero start count p s h = cc
find_run-some (suc n) start count p s h = elim (Bool-cases (run_is_free count start s)) [
  | inl here ↦
      let e : start ≡ p = ground arith in
      (omega arith, omega arith, ground arith, λ q a b. absurd (omega arith))
  | inr missing ↦
      let (a, b, free, first) = find_run-some n (start + 1) count p s (ground arith) in
      (omega arith, omega arith, free, λ q l r. ground (arith, missing, first q))
]

find_run-none :
    (n start count : ℕ) (s : State)
    → find_run n start count s ≡ none
    → (q : ℕ) → start ≤ q
    → q < start + n
    → run_is_free count q s ≡ false
unfolding find_run
find_run-none zero start count s h q a b = absurd (omega arith)
find_run-none (suc n) start count s h q a b =
    ground (
      arith,
      λ (r : find_run n (start + 1) count s ≡ none). find_run-none n (start + 1) count s r q,
    )

-- What an allocation of `count` pages gives: the first run of that many free pages, which are then
-- taken, and no other; or nothing, and then there is no such run and nothing changes.
pub data Allocates (count : ℕ) (s : State) : Option ℕ × State → Type 0 where
  found :
      (start : ℕ) (after : State)
      → start + count ≤ s.total_pages
      → ((q : ℕ) → in_run start count q ≡ true → is_page_free q s ≡ true)
      → ((p : ℕ) → p < start → run_is_free count p s ≡ false)
      → ((q : ℕ)
          → is_page_free q after ≡ (if in_run start count q then false else is_page_free q s))
      → after.free_count + count ≡ s.free_count
      → after.total_pages ≡ s.total_pages
      → Inv after
      → Allocates count s (some (start * page_size), after)
  full : ((p : ℕ) → run_is_free count p s ≡ false) → Allocates count s (none, s)

-- A run of at least one page that reaches beyond the tracked pages is not free.
run_is_free-beyond :
    (count p : ℕ) (s : State)
    → 0 < count
    → s.total_pages < p + count
    → run_is_free count p s ≡ false
run_is_free-beyond count p s some_page h = elim (Bool-cases (run_is_free count p s)) [
  | inl free ↦
      let last = run_is_free-all count p s free (p + count - 1) (ground arith) in
      absurd (omega (arith, is_page_free-tracked (p + count - 1) s last))
  | inr used ↦ used
]

-- A free run is no longer than there are free pages.
run_is_free-le :
    (count p : ℕ) (s : State) → IsValid s → run_is_free count p s ≡ true → count ≤ free_pages_of s
run_is_free-le count p s v h = omega (arith, (set_run_allocated-TakesRun count p s v h).fewer)

too_few :
    (count : ℕ) (s : State) → Inv s → s.free_count < count → (p : ℕ) → run_is_free count p s ≡ false
too_few count s v h p = ground (arith, v.counted, run_is_free-le count p s v.valid)

-- Where no page is free, the counter is 0.
pub run_is_free-free_count :
    (s : State) → Inv s → ((p : ℕ) → run_is_free 1 p s ≡ false) → s.free_count ≡ 0
unfolding run_is_free
run_is_free-free_count s v h = v.counted ∙ free_pages_of-none s (λ q. ground (arith, h q))

takes :
    (count start : ℕ) (s : State)
    → Inv s
    → 0 < count
    → run_is_free count start s ≡ true
    → ((p : ℕ) → p < start → run_is_free count p s ≡ false)
    → Allocates count s (
      some (start * page_size),
      record (set_run_allocated count start s) { free_count = fetch_sub s.free_count count },
    )
takes count start s v some_page free first =
    let r = set_run_allocated-TakesRun count start s v.valid free in
    let last = run_is_free-all count start s free (start + count - 1) (ground arith) in
    let inside = is_page_free-tracked (start + count - 1) s last in
    let left : fetch_sub s.free_count count + count ≡ s.free_count = omega (
      arith,
      v.counted,
      v.valid.tracked,
      free_pages_of-le s,
      run_is_free-le count start s v.valid free,
    ) in
    found start
      (record (set_run_allocated count start s) { free_count = fetch_sub s.free_count count })
      (omega arith) (run_is_free-all count start s free) first (unfold is_page_free in r.pages) left
      r.total
      (record {
        valid = record { sized = r.valid.sized; bytes = r.valid.bytes; tracked = r.valid.tracked };
        counted = unfold free_pages_of is_page_free in omega (arith, left, v.counted, r.fewer);
      })

find_free-find_run : (n page : ℕ) (s : State) → find_free n page s ≡ find_run n page 1 s
unfolding find_free find_run run_is_free
find_free-find_run zero page s = refl
find_free-find_run (suc n) page s = ground (arith, find_free-find_run n (page + 1) s)

-- No free run of `count` pages starts at one of the places searched, so there is none.
none_free :
    (count : ℕ) (s : State)
    → 0 < count
    → ((q : ℕ) → q + count ≤ s.total_pages → run_is_free count q s ≡ false)
    → (p : ℕ) → run_is_free count p s ≡ false
none_free count s some_page h p = ground (arith, h p, run_is_free-beyond count p s some_page)

-- Under the invariant, `alloc_page` takes the first free page, and no other, and the counter goes
-- down by one; it returns nothing only if no page is free.
pub alloc_page-Allocates : (s : State) → Inv s → Allocates 1 s (alloc_page s)
unfolding alloc_page
alloc_page-Allocates s v = elim (Bool-cases (s.free_count == 0)) [
  | inl zero_left ↦ rw zero_left (full (too_few 1 s v (ground arith)))
  | inr some_left ↦ elim (Option-cases (find_run s.total_pages 0 1 s)) [
    | inl e ↦
        rw (some_left, find_free-find_run s.total_pages 0 s, e)
          (full (
            none_free 1 s (omega arith)
              (λ q h. find_run-none s.total_pages 0 1 s e q (omega arith) (omega arith))))
    | inr (page, e) ↦
        let (a, b, free, first) = find_run-some s.total_pages 0 1 page s e in
        rw (some_left, find_free-find_run s.total_pages 0 s, e)
          (unfold set_run_allocated in
            (takes 1 page s v (omega arith) free (λ p. first p (omega arith))))
  ]
]

-- The search reads the bitmap only, whatever the hint says.
find_free-next_free_hint :
    (n page hint : ℕ) (s : State)
    → find_free n page (record s { next_free_hint = hint }) ≡ find_free n page s
unfolding find_free is_page_free
find_free-next_free_hint zero page hint s = refl
find_free-next_free_hint (suc n) page hint s =
    ground (arith, find_free-next_free_hint n (page + 1) hint s)

-- Under the invariant, `alloc_page` takes the first free page of all, and no other, and the counter
-- goes down by one; it returns nothing only if no page is free. `next_free_hint` has no part in the
-- choice: with any other hint the same page is answered.
pub alloc_page-next_free_hint :
    (s : State) (hint : ℕ)
    → Inv s
    → Allocates 1 s (alloc_page s)
      × ((alloc_page (record s { next_free_hint = hint })).0 ≡ (alloc_page s).0)
unfolding alloc_page
alloc_page-next_free_hint s hint v = (alloc_page-Allocates s v, same)
  where
    same : (alloc_page (record s { next_free_hint = hint })).0 ≡ (alloc_page s).0
    same = elim (Option-cases (find_free s.total_pages 0 s)) [
      | inl e ↦
          rw (find_free-next_free_hint s.total_pages 0 hint s, e)
            (elim (Bool-cases (s.free_count == 0)) [ inl z ↦ rw z refl | inr z ↦ rw z refl ])
      | inr (page, e) ↦
          rw (find_free-next_free_hint s.total_pages 0 hint s, e)
            (elim (Bool-cases (s.free_count == 0)) [ inl z ↦ rw z refl | inr z ↦ rw z refl ])
    ]

alloc_run-Allocates :
    (count : ℕ) (s : State) → 0 < count → Inv s → Allocates count s (alloc_run count s)
unfolding alloc_run
alloc_run-Allocates count s some_page v = elim (Bool-cases (ltb s.free_count count)) [
  | inl few ↦ rw few (full (too_few count s v (ground arith)))
  | inr enough ↦ elim (Bool-cases (ltb s.total_pages count)) [
    | inl few ↦ rw (enough, few) (full (λ p. run_is_free-beyond count p s some_page (ground arith)))
    | inr fits ↦ elim (Option-cases (find_run (s.total_pages - count + 1) 0 count s)) [
      | inl e ↦
          rw (enough, fits, e)
            (full (
              none_free count s some_page (λ q h.
                find_run-none (s.total_pages - count + 1) 0 count s e q (omega arith)
                  (omega arith))))
      | inr (start, e) ↦
          let (a, b, free, first) = find_run-some (s.total_pages - count + 1) 0 count start s e in
          rw (enough, fits, e) (takes count start s v some_page free (λ p. first p (omega arith)))
    ]
  ]
]

-- Under the invariant, `alloc_pages` of at least one page takes the first run of that many free
-- pages, and no other page, and the counter goes down by as many; it returns nothing only if there is
-- no such run.
pub alloc_pages-Allocates :
    (count : ℕ) (s : State) → 0 < count → Inv s → Allocates count s (alloc_pages count s)
unfolding alloc_pages
alloc_pages-Allocates count s some_page v = elim (Bool-cases (count == 1)) [
  | inl one ↦ let e : count ≡ 1 = ground arith in rw e (alloc_page-Allocates s v)
  | inr more ↦
      let nonzero : (count == 0) ≡ false = ground arith in
      rw (nonzero, more) (alloc_run-Allocates count s some_page v)
]
