-- ===== src/SharedMem/Mapping/Counted.antt =====
-- kernel/src/shared_mem.rs: what holds of every region between operations.
pub mod Mapped
use atom.Prelude.{
  ℕ, zero, suc, ◌+◌, ◌-◌, ◌*◌, ◌/◌, ◌%◌, ◌^◌, ◌≤◌, ◌<◌, ◌≡◌, ◌≢◌, refl, ◌∙◌, sym, subst, ap, List,
  [], ◌∷◌, ◌++◌, Option, none, some, Bool, true, false, not, ◌==◌, if◌then◌else◌, arith, Result, ok,
  err, length, length-append, Option-cases, Bool-cases, inl, inr,
}
use atom.Prelude.BTreeMap.{BTreeMap, get, insert, remove, get-insert, get-remove}
use atom.Mm.Pmm
use atom.Mm.Pmm.{page_size, align_up, alloc_page, is_page_aligned}
use atom.Mm.Pmm.Align.{align_up_lem}
use atom.Mm.Vm.{PageFlags}
use atom.SharedMem.{
  State, SharedRegion, RegionMapping, RegionFlags, SharedMemError, made_of, enter, new_region,
  take_pages, create_region, destroy_region, can_destroy, to_page_flags, out_of_memory, free_all,
}
use atom.SharedMem.Mapping.{
  PageTables, is_mapped_by, mapping_of, without_mapping, map_pages, unmap_pages, add_mapping, map,
  unmap, map_region, unmap_region,
}

-- No thread maps the region twice.
abbrev pub IsDistinct : List RegionMapping → Type 0
IsDistinct [] = Unit {0}
IsDistinct (m ∷ ms) = (is_mapped_by m.thread_id ms ≡ false) × IsDistinct ms

pub record IsSound (id : ℕ) (r : SharedRegion) : Type 0 where
  pub own_id : r.id ≡ id
  pub counted : r.ref_count ≡ length r.mappings
  pub distinct : IsDistinct r.mappings
  pub sized : r.size ≡ length r.physical_pages * page_size

abbrev pub Regions : BTreeMap SharedRegion → Type 0
Regions regions = (id : ℕ) (r : SharedRegion) → get id regions ≡ some r → IsSound id r

pub length-take_pages :
    (n : ℕ) (taken : List ℕ) (pmm : Pmm.State) (pages : List ℕ)
    → (take_pages n taken pmm).0 ≡ ok pages
    → length pages ≡ length taken + n
unfolding take_pages
length-take_pages zero taken pmm pages e = ground arith
length-take_pages (suc n) taken pmm pages e = elim (Option-cases (alloc_page pmm).0) [
  | inl f ↦ absurd (cc)
  | inr (page, f) ↦ omega (
    arith,
    length-append taken (page ∷ []),
    length-take_pages n (taken ++ page ∷ []) (alloc_page pmm).1 pages (rw (f, take_pages) at e),
  )
]

pub is_mapped_by-append :
    (k : ℕ) (ms : List RegionMapping) (m : RegionMapping)
    → is_mapped_by k (ms ++ m ∷ []) ≡ (if is_mapped_by k ms then true else m.thread_id == k)
unfolding is_mapped_by
is_mapped_by-append k [] m = ground arith
is_mapped_by-append k (x ∷ ms) m = ground (arith, is_mapped_by-append k ms m)

pub IsDistinct-append :
    (ms : List RegionMapping) (m : RegionMapping)
    → is_mapped_by m.thread_id ms ≡ false
    → IsDistinct ms
    → IsDistinct (ms ++ m ∷ [])
unfolding is_mapped_by
IsDistinct-append [] m fresh d = (refl, tt)
IsDistinct-append (x ∷ ms) m fresh d = (
  ground (arith, d.0, is_mapped_by-append x.thread_id ms m),
  IsDistinct-append ms m (ground arith) d.1,
)

pub is_mapped_by-without :
    (k j : ℕ) (ms : List RegionMapping)
    → is_mapped_by j ms ≡ false
    → is_mapped_by j (without_mapping k ms) ≡ false
unfolding is_mapped_by without_mapping
is_mapped_by-without k j [] h = refl
is_mapped_by-without k j (x ∷ ms) h = ground (arith, is_mapped_by-without k j ms)

pub IsDistinct-without :
    (k : ℕ) (ms : List RegionMapping) → IsDistinct ms → IsDistinct (without_mapping k ms)
unfolding without_mapping
IsDistinct-without k [] d = tt
IsDistinct-without k (x ∷ ms) d = elim (Bool-cases (x.thread_id == k)) [
  | inl here ↦ rw here d.1
  | inr other ↦ rw other (is_mapped_by-without k x.thread_id ms d.0, IsDistinct-without k ms d.1)
]

pub length-without :
    (k : ℕ) (ms : List RegionMapping) (m : RegionMapping)
    → mapping_of k ms ≡ some m
    → length ms ≡ length (without_mapping k ms) + 1
unfolding mapping_of without_mapping
length-without k [] m h = cc
length-without k (x ∷ ms) m h = ground (arith, length-without k ms m)

pub add_mapping-IsSound :
    {S : Type 0} (vm : PageTables S) (id : ℕ) (r : SharedRegion) (m : RegionMapping)
    (answer : Result (Unit {0}) SharedMemError)
    → is_mapped_by m.thread_id r.mappings ≡ false
    → IsSound id r
    → IsSound id (add_mapping vm r m answer).1
unfolding add_mapping
add_mapping-IsSound vm id r m (err e) fresh v = v
add_mapping-IsSound vm id r m (ok _) fresh v = record {
  own_id = v.own_id;
  counted = omega (arith, v.counted, length-append r.mappings (m ∷ []));
  distinct = IsDistinct-append r.mappings m fresh v.distinct;
  sized = v.sized;
}

pub Regions-insert :
    (id : ℕ) (r : SharedRegion) (m : BTreeMap SharedRegion)
    → IsSound id r
    → Regions m
    → Regions (insert id r m)
Regions-insert id r m v w k c e = elim (Bool-cases (id == k)) [
  | inl here ↦
      let same : r ≡ c = ground (arith, e, here, get-insert id k r m) in
      let key : id ≡ k = ground (arith, here) in
      subst (λ (x : SharedRegion). IsSound k x) same (subst (λ (n : ℕ). IsSound n r) key v)
  | inr other ↦ w k c (ground (arith, e, other, get-insert id k r m))
]

pub Regions-remove : (id : ℕ) (m : BTreeMap SharedRegion) → Regions m → Regions (remove id m)
Regions-remove id m w k c e = w k c (ground (arith, e, get-remove id k m))

pub made_of-IsSound :
    (id owner size n : ℕ) (taken : Result (List ℕ) SharedMemError) (r : SharedRegion)
    → ((pages : List ℕ) → taken ≡ ok pages → length pages ≡ n)
    → size ≡ n * page_size
    → made_of id owner size taken ≡ ok r
    → IsSound id r
unfolding made_of
made_of-IsSound id owner size n (err x) r count h e = cc
made_of-IsSound id owner size n (ok pages) r count h e =
    let fresh : SharedRegion = record {
      id = id;
      owner = owner;
      size = size;
      physical_pages = pages;
      mappings = [];
      ref_count = 0;
    } in
    let same : fresh ≡ r = cc in
    subst (IsSound id) same
      (record { own_id = refl; counted = refl; distinct = tt; sized = rw (count pages refl) h })

pub new_region-IsSound :
    (id owner size : ℕ) (pmm : Pmm.State) (r : SharedRegion)
    → (new_region id owner size pmm).0 ≡ ok r
    → IsSound id r
unfolding new_region
new_region-IsSound id owner size pmm r e =
    let n = align_up size / page_size in
    elim (Bool-cases (n == 0)) [
      | inl none_needed ↦ absurd (ground (arith, none_needed, e))
      | inr some_needed ↦
          made_of-IsSound id owner (align_up size) n (take_pages n [] pmm).0 r
            (λ pages f. omega (arith, length-take_pages n [] pmm pages f))
            (omega (arith, align_up_lem size)) (rw some_needed at e)
    ]

pub enter-Regions :
    (s : State) (made : Result SharedRegion SharedMemError × Pmm.State)
    → ((r : SharedRegion) → made.0 ≡ ok r → IsSound s.next_id r)
    → Regions s.regions
    → Regions (enter s made).1.regions
unfolding enter
enter-Regions s (err e, pmm) sound w = w
enter-Regions s (ok r, pmm) sound w = Regions-insert s.next_id r s.regions (sound r refl) w

pub create_region-Regions :
    (owner size : ℕ) (s : State)
    → Regions s.regions
    → Regions (create_region owner size s).1.regions
unfolding create_region
create_region-Regions owner size s w =
    enter-Regions s (new_region s.next_id owner size s.pmm)
      (new_region-IsSound s.next_id owner size s.pmm) w

pub destroy_region-Regions :
    (id caller : ℕ) (s : State) → Regions s.regions → Regions (destroy_region id caller s).1.regions
unfolding destroy_region
destroy_region-Regions id caller s w = elim (Option-cases (get id s.regions)) [
  | inl e ↦ rw (e, destroy_region) w
  | inr (r, e) ↦ elim (Bool-cases (r.owner == caller)) [
    | inr stranger ↦ rw (e, destroy_region, stranger) w
    | inl own ↦ elim (Bool-cases (can_destroy r)) [
      | inr used ↦ rw (e, destroy_region, own, used) w
      | inl free ↦ rw (e, destroy_region, own, free) (Regions-remove id s.regions w)
    ]
  ]
]
