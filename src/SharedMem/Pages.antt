-- ===== src/SharedMem/Pages.antt =====
-- kernel/src/shared_mem.rs: the physical pages of a region, from `create_region` to `destroy_region`.
use atom.Prelude.{
  ℕ, zero, suc, ◌*◌, ◌/◌, ◌<◌, ◌≡◌, refl, ◌∙◌, sym, subst, List, [], ◌∷◌, ◌++◌, Option, none, some,
  Bool, true, false, ◌==◌, ◌||◌, if◌then◌else◌, arith, Result, ok, err, All, Option-cases,
  Bool-cases, inl, inr,
}
use atom.Prelude.BTreeMap.{get, insert, get-insert}
use atom.Mm.Pmm
use atom.Mm.Pmm.{page_size, align_up, is_page_free, alloc_page, free_page}
use atom.Mm.Pmm.Alloc.{Inv, Allocates, alloc_page-Allocates}
use atom.Mm.Pmm.Free.{Frees, free_page-Frees}
use atom.SharedMem.{
  State, SharedRegion, SharedMemError, free_all, take_pages, made_of, new_region, enter,
  create_region, destroy_region, can_destroy,
}

-- Whether a page's address is in the list.
abbrev has_page : ℕ → List ℕ → Bool
has_page q [] = false
has_page q (page ∷ pages) = (page == q * page_size) || has_page q pages

-- An address of a tracked page.
abbrev IsTracked : ℕ → ℕ → Type 0
IsTracked total addr = (addr ≡ addr / page_size * page_size) × (addr / page_size < total)

-- `pmm` is `before` less the pages of a list, all of which were free.
record Holding (before : Pmm.State) (pages : List ℕ) (pmm : Pmm.State) : Type 0 where
  pub inv : Inv pmm
  pub total : pmm.total_pages ≡ before.total_pages
  pub tracked : All (IsTracked before.total_pages) pages
  pub free :
      (q : ℕ) → is_page_free q pmm ≡ (if has_page q pages then false else is_page_free q before)
  pub were_free : (q : ℕ) → has_page q pages ≡ true → is_page_free q before ≡ true

-- The same pages are free.
pub record SamePages (before after : Pmm.State) : Type 0 where
  pub inv : Inv after
  pub total : after.total_pages ≡ before.total_pages
  pub free : (q : ℕ) → is_page_free q after ≡ is_page_free q before

record Freed (pages : List ℕ) (pmm after : Pmm.State) : Type 0 where
  pub inv : Inv after
  pub total : after.total_pages ≡ pmm.total_pages
  pub free :
      (q : ℕ) → is_page_free q after ≡ (if has_page q pages then true else is_page_free q pmm)

free_all-Freed :
    (pages : List ℕ) (pmm : Pmm.State)
    → Inv pmm
    → All (IsTracked pmm.total_pages) pages
    → Freed pages pmm (free_all pages pmm)
unfolding free_all
free_all-Freed [] pmm v t = record { inv = v; total = refl; free = λ q. refl }
free_all-Freed (page ∷ pages) pmm v t =
    let e = t.0.0 in
    let one : Frees (page / page_size) 1 pmm (free_page page pmm) =
      subst (λ (a : ℕ). Frees (page / page_size) 1 pmm (free_page a pmm)) (sym e)
        (free_page-Frees (page / page_size) pmm v t.0.1) in
    let rest =
      free_all-Freed pages (free_page page pmm) one.inv
        (subst (λ (n : ℕ). All (IsTracked n) pages) (sym one.total) t.1) in
    record {
      inv = rest.inv;
      total = rest.total ∙ one.total;
      free = λ q. ground (arith, e, one.pages q, rest.free q);
    }

Holding-SamePages :
    (before pmm : Pmm.State) (pages : List ℕ)
    → Holding before pages pmm
    → SamePages before (free_all pages pmm)
Holding-SamePages before pmm pages h =
    let f =
      free_all-Freed pages pmm h.inv
        (subst (λ (n : ℕ). All (IsTracked n) pages) (sym h.total) h.tracked) in
    record {
      inv = f.inv;
      total = f.total ∙ h.total;
      free = λ q. ground (arith, f.free q, h.free q, h.were_free q);
    }

has_page-append :
    (q page : ℕ) (pages : List ℕ)
    → has_page q (pages ++ page ∷ []) ≡ has_page q pages || (page == q * page_size)
has_page-append q page [] = ground arith
has_page-append q page (p ∷ pages) = ground (arith, has_page-append q page pages)

All-append :
    (total page : ℕ) (pages : List ℕ)
    → All (IsTracked total) pages
    → IsTracked total page
    → All (IsTracked total) (pages ++ page ∷ [])
All-append total page [] h t = (t, tt)
All-append total page (p ∷ pages) h t = (h.0, All-append total page pages h.1 t)

-- One more page taken.
Holding-found :
    (before pmm : Pmm.State) (taken : List ℕ) (out : Option ℕ × Pmm.State) (page : ℕ)
    → Holding before taken pmm
    → Allocates 1 pmm out
    → out.0 ≡ some page
    → Holding before (taken ++ page ∷ []) out.1
Holding-found before pmm taken out page h (Allocates.full none_free) e = cc
Holding-found before pmm taken out page h
      (Allocates.found start after inside free first pages left total inv) e =
    let at : page ≡ start * page_size = ground arith in
    record {
      inv = inv;
      total = total ∙ h.total;
      tracked =
          All-append before.total_pages page taken h.tracked (omega arith, omega (arith, h.total));
      free = λ q. ground (arith, at, h.free q, pages q, has_page-append q page taken);
      were_free = λ q i.
          ground (arith, at, i, h.free q, h.were_free q, free q, has_page-append q page taken);
    }

Allocates-none :
    (pmm : Pmm.State) (out : Option ℕ × Pmm.State)
    → Allocates 1 pmm out
    → out.0 ≡ none
    → out.1 ≡ pmm
Allocates-none pmm out (Allocates.full none_free) e = refl
Allocates-none pmm out (Allocates.found start after inside free first pages left total inv) e = cc

-- What `take_pages` leaves: the pages taken, or none.
abbrev Takes : Pmm.State → Result (List ℕ) SharedMemError × Pmm.State → Type 0
Takes before (ok pages, pmm) = Holding before pages pmm
Takes before (err e, pmm) = SamePages before pmm

take_pages-Takes :
    (n : ℕ) (taken : List ℕ) (before pmm : Pmm.State)
    → Holding before taken pmm
    → Takes before (take_pages n taken pmm)
unfolding take_pages
take_pages-Takes zero taken before pmm h = h
take_pages-Takes (suc n) taken before pmm h =
    let a = alloc_page-Allocates pmm h.inv in
    elim (Option-cases (alloc_page pmm).0) [
      | inl e ↦
          rw (e, take_pages, Allocates-none pmm (alloc_page pmm) a e)
            (Holding-SamePages before pmm taken h)
      | inr (page, e) ↦
          rw (e, take_pages)
            (take_pages-Takes n (taken ++ page ∷ []) before (alloc_page pmm).1
              (Holding-found before pmm taken (alloc_page pmm) page h a e))
    ]

-- What `new_region` leaves.
abbrev Makes : ℕ → Pmm.State → Result SharedRegion SharedMemError × Pmm.State → Type 0
Makes owner before (ok r, pmm) =
    Holding before r.physical_pages pmm × (r.owner ≡ owner) × (r.ref_count ≡ 0)
Makes owner before (err e, pmm) = SamePages before pmm

made_of-Makes :
    (id owner size : ℕ) (before : Pmm.State) (taken : Result (List ℕ) SharedMemError × Pmm.State)
    → Takes before taken
    → Makes owner before (made_of id owner size taken.0, taken.1)
unfolding made_of
made_of-Makes id owner size before (err e, pmm) h = h
made_of-Makes id owner size before (ok pages, pmm) h = (h, refl, refl)

Holding-refl : (pmm : Pmm.State) → Inv pmm → Holding pmm [] pmm
Holding-refl pmm v = record {
  inv = v;
  total = refl;
  tracked = tt;
  free = λ q. refl;
  were_free = λ q e. cc;
}

new_region-Makes :
    (id owner size : ℕ) (pmm : Pmm.State) → Inv pmm → Makes owner pmm (new_region id owner size pmm)
unfolding new_region
new_region-Makes id owner size pmm v = elim (Bool-cases (align_up size / page_size == 0)) [
  | inl none_needed ↦ rw none_needed (record { inv = v; total = refl; free = λ q. refl })
  | inr some_needed ↦ rw some_needed (
      made_of-Makes id owner (align_up size) pmm (take_pages (align_up size / page_size) [] pmm)
        (take_pages-Takes (align_up size / page_size) [] pmm pmm (Holding-refl pmm v)))
]

-- What `create_region` leaves: nothing taken, or a region that `destroy_region` gives back.
abbrev Creates : ℕ → State → Result ℕ SharedMemError × State → Type 0
Creates owner s (err e, after) = SamePages s.pmm after.pmm
Creates owner s (ok id, after) =
    ((destroy_region id owner after).0 ≡ ok tt)
    × SamePages s.pmm (destroy_region id owner after).1.pmm

enter-Creates :
    (owner : ℕ) (s : State) (made : Result SharedRegion SharedMemError × Pmm.State)
    → Makes owner s.pmm made
    → Creates owner s (enter s made)
unfolding enter
enter-Creates owner s (err e, pmm) h = h
enter-Creates owner s (ok r, pmm) (h, own, unused) =
    let there : get s.next_id (insert s.next_id r s.regions) ≡ some r =
      ground (arith, get-insert s.next_id s.next_id r s.regions) in
    let mine : (r.owner == owner) ≡ true = ground (arith, own) in
    let free : can_destroy r ≡ true = unfold can_destroy in ground (arith, unused) in
    unfold destroy_region in
    rw (there, destroy_region, mine, free) (refl, Holding-SamePages s.pmm pmm r.physical_pages h)

create_region-Creates :
    (owner size : ℕ) (s : State) → Inv s.pmm → Creates owner s (create_region owner size s)
unfolding create_region
create_region-Creates owner size s v =
    enter-Creates owner s (new_region s.next_id owner size s.pmm)
      (new_region-Makes s.next_id owner size s.pmm v)

-- Where the page allocator's invariant holds, a `create_region` that fails, be it after it has taken
-- some pages, leaves the same pages free as before.
pub create_region-SamePages :
    (owner size : ℕ) (s : State) (e : SharedMemError)
    → Inv s.pmm
    → (create_region owner size s).0 ≡ err e
    → SamePages s.pmm (create_region owner size s).1.pmm
create_region-SamePages owner size s e v failed =
    go (create_region owner size s) failed (create_region-Creates owner size s v)
  where
    go :
        (out : Result ℕ SharedMemError × State)
        → out.0 ≡ err e
        → Creates owner s out
        → SamePages s.pmm out.1.pmm
    go (err x, after) f h = h
    go (ok id, after) f h = cc

-- Where the page allocator's invariant holds, `destroy_region` by the owner succeeds right after
-- `create_region` did, and then the same pages are free as before both.
pub destroy_region-create_region :
    (owner size id : ℕ) (s : State)
    → Inv s.pmm
    → (create_region owner size s).0 ≡ ok id
    → let (result, back) = destroy_region id owner (create_region owner size s).1 in
      (result ≡ ok tt) × SamePages s.pmm back.pmm
destroy_region-create_region owner size id s v made =
    go (create_region owner size s) made (create_region-Creates owner size s v)
  where
    go :
        (out : Result ℕ SharedMemError × State)
        → out.0 ≡ ok id
        → Creates owner s out
        → ((destroy_region id owner out.1).0 ≡ ok tt)
          × SamePages s.pmm (destroy_region id owner out.1).1.pmm
    go (err x, after) f h = cc
    go (ok k, after) f h =
        let same : k ≡ id = cc in
        subst
          (λ (n : ℕ).
            ((destroy_region n owner after).0 ≡ ok tt)
            × SamePages s.pmm (destroy_region n owner after).1.pmm)
          same h
