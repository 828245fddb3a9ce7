-- ===== src/Mm/Pmm/Free.antt =====
-- kernel/src/mm/pmm.rs, `free_page` and `free_pages`: what is given back is free again.
use atom.Prelude.{
  ℕ, zero, suc, ◌+◌, ◌*◌, ◌/◌, ◌%◌, ◌^◌, ◌≤◌, ◌<◌, ◌≡◌, inl, inr, refl, ◌∙◌, sym, true, false,
  arith, if◌then◌else◌, ◌==◌, leb, Option, some, Bool-cases,
}
use atom.Mm.Pmm.{
  State, max_pages, page_size, is_page_free, set_page_free, free_page, free_pages, alloc_pages,
  fetch_add,
}
use atom.Mm.Pmm.Bitmap.{
  is_page_free-set_page_free, set_page_free-IsValid, total_pages-set_page_free,
  is_page_free-tracked,
}
use atom.Mm.Pmm.Count.{
  free_pages_of, free_pages_of-le, free_pages_of-set_page_free, free_pages_of-same, in_run,
}
use atom.Mm.Pmm.Alloc.{Inv, Allocates, alloc_pages-Allocates}

-- What `free_page` does at a multiple of the page size.
free_page_lem :
    (page : ℕ) (s : State)
    → page < max_pages
    → free_page (page * page_size) s ≡ (
        if is_page_free page s
        then s
        else record (set_page_free page s) { free_count = fetch_add s.free_count 1 })
unfolding free_page
free_page_lem page s h =
    let aligned : (page * page_size % page_size == 0) ≡ true = ground arith in
    let index : page * page_size / page_size ≡ page = omega arith in
    let bounded : leb max_pages page ≡ false = ground arith in
    elim (Bool-cases (is_page_free page s)) [
      | inl free ↦ rw (aligned, index, bounded, free) refl
      | inr used ↦ rw (aligned, index, bounded, used) refl
    ]

-- What giving pages back does to the state.
pub record Frees (start count : ℕ) (s after : State) : Type 0 where
  pub pages :
      (q : ℕ) → is_page_free q after ≡ (if in_run start count q then true else is_page_free q s)
  pub total : after.total_pages ≡ s.total_pages
  pub inv : Inv after

pub free_page-Frees :
    (page : ℕ) (s : State)
    → Inv s
    → page < s.total_pages
    → Frees page 1 s (free_page (page * page_size) s)
free_page-Frees page s v h = elim (Bool-cases (is_page_free page s)) [
  | inl free ↦
      rw (free_page_lem page s (omega (arith, v.valid.tracked)), free)
        (record { pages = λ q. ground (arith, free); total = refl; inv = v })
  | inr used ↦
      let w = set_page_free-IsValid page s v.valid in
      let more = free_pages_of-set_page_free page s v.valid h used in
      rw (free_page_lem page s (omega (arith, v.valid.tracked)), used)
        (record {
          pages = λ q.
              unfold is_page_free in
              (ground (arith, is_page_free-set_page_free page q s v.valid h));
          total = (total_pages-set_page_free page s).0;
          inv = record {
            valid = record { sized = w.sized; bytes = w.bytes; tracked = w.tracked };
            counted =
                unfold free_pages_of is_page_free in
                omega (arith, more, v.counted, v.valid.tracked, free_pages_of-le s);
          };
        })
]

free_pages-Frees :
    (count start : ℕ) (s : State)
    → Inv s
    → start + count ≤ s.total_pages
    → Frees start count s (free_pages (start * page_size) count s)
unfolding free_pages
free_pages-Frees zero start s v h = record { pages = λ q. ground arith; total = refl; inv = v }
free_pages-Frees (suc count) start s v h =
    let one = free_page-Frees start s v (omega arith) in
    let next : (start * page_size + page_size) % 2 ^ 64 ≡ (start + 1) * page_size =
      omega (arith, v.valid.tracked) in
    let rest =
      free_pages-Frees count (start + 1) (free_page (start * page_size) s) one.inv
        (omega (arith, one.total)) in
    rw (next, free_pages)
      (record {
        pages = λ q. ground (arith, one.pages q, rest.pages q);
        total = rest.total ∙ one.total;
        inv = rest.inv;
      })

-- Under the invariant, `free_page` of a tracked page makes that page free and changes no other,
-- whether it was allocated or not, and keeps the invariant.
pub free_page-Frees_page :
    (page : ℕ) (s : State)
    → Inv s
    → page < s.total_pages
    → ((q : ℕ)
        → is_page_free q (free_page (page * page_size) s)
          ≡ (if page == q then true else is_page_free q s))
      × Inv (free_page (page * page_size) s)
free_page-Frees_page page s v h =
    let r = free_page-Frees page s v h in (λ q. ground (arith, r.pages q), r.inv)

-- What freeing the pages that an allocation gave out restores.
record Restores (s back : State) : Type 0 where
  pub pages : (q : ℕ) → is_page_free q back ≡ is_page_free q s
  pub counter : back.free_count ≡ s.free_count
  pub inv : Inv back

undo :
    (count : ℕ) (s : State) (out : Option ℕ × State)
    → Inv s
    → Allocates count s out
    → (addr : ℕ) → out.0 ≡ some addr
    → Restores s (free_pages addr count out.1)
undo count s out v (Allocates.full _) addr e = absurd (ground arith)
undo count s out v (Allocates.found start after inside free first pages left total inv) addr e =
    let same : addr ≡ start * page_size = ground arith in
    let back = free_pages-Frees count start after inv (omega arith) in
    let all : (q : ℕ)
        → is_page_free q (free_pages (start * page_size) count after) ≡ is_page_free q s =
      λ q. ground (arith, back.pages q, pages q, free q) in
    rw same (record {
      pages = all;
      counter =
          back.inv.counted
          ∙ free_pages_of-same s (free_pages (start * page_size) count after) all
              (back.total ∙ total)
          ∙ sym v.counted;
      inv = back.inv;
    })

-- Under the invariant, giving back with `free_pages` what `alloc_pages` of at least one page handed
-- out makes the same pages free as before, with the same counter, and keeps the invariant.
pub free_pages-alloc_pages :
    (count addr : ℕ) (s : State)
    → 0 < count
    → Inv s
    → (alloc_pages count s).0 ≡ some addr
    → let back = free_pages addr count (alloc_pages count s).1 in
      ((q : ℕ) → is_page_free q back ≡ is_page_free q s)
      × (back.free_count ≡ s.free_count)
      × Inv back
free_pages-alloc_pages count addr s some_page v e =
    let r =
      undo count s (alloc_pages count s) v (alloc_pages-Allocates count s some_page v) addr e in
    (r.pages, r.counter, r.inv)

-- Under the invariant, `free_page` of a page that the bitmap has room for and that is not tracked
-- frees no page, and yet adds one to the counter, which is then no longer the number of free pages.
pub free_page-untracked :
    (page : ℕ) (s : State)
    → Inv s
    → s.total_pages ≤ page
    → page < max_pages
    → let after = free_page (page * page_size) s in
      ((q : ℕ) → is_page_free q after ≡ is_page_free q s)
      × (after.free_count ≡ free_pages_of after + 1)
free_page-untracked page s v out bounded =
    rw (free_page_lem page s bounded, unused)
      (unfold set_page_free in
        rw (beyond, set_page_free)
          (
            λ q. unfold is_page_free in refl,
            unfold free_pages_of is_page_free in
                omega (arith, v.counted, v.valid.tracked, free_pages_of-le s),
          ))
  where
    unused : is_page_free page s ≡ false
    unused = elim (Bool-cases (is_page_free page s)) [
      | inl free ↦ absurd (omega (arith, is_page_free-tracked page s free))
      | inr used ↦ used
    ]

    beyond : leb s.total_pages page ≡ true
    beyond = ground arith
