-- ===== src/SharedMem.antt =====
-- kernel/src/shared_mem.rs: regions of physical pages that threads map. The table of the active
-- address space, which vm.rs keeps, is a state `S` with the two operations used of it.
pub mod Flags
pub mod Mapping
pub mod Pages
mod Tests
use atom.Prelude.{
  ℕ, zero, suc, ◌+◌, ◌-◌, ◌*◌, ◌/◌, ◌%◌, ◌^◌, List, [], ◌∷◌, ◌++◌, Option, none, some, Bool, true,
  false, not, ◌==◌, ◌&&◌, if◌then◌else◌, Result, ok, err, length, bit_and, bit_or,
}
use atom.Prelude.BTreeMap
use atom.Prelude.BTreeMap.{BTreeMap, values}
use atom.Mm.Pmm
use atom.Mm.Pmm.{page_size, align_up, is_page_aligned, alloc_page, free_page}
use atom.Mm.Vm.{PageFlags, VmError, present, writable, user, union, with_nx}
use atom.Mm.Vm

pub data SharedMemError : Type 0 where
  invalid_region invalid_size permission_denied out_of_memory unaligned already_mapped not_mapped
        mapping_failed region_in_use :
      SharedMemError

pub record RegionFlags : Type 0 where
  pub read : Bool
  pub write : Bool
  pub execute : Bool

unfoldable pub to_page_flags : RegionFlags → PageFlags
to_page_flags self =
    let flags = if self.write then union present writable else present in
    union (if not self.execute then with_nx flags else flags) user

-- `raw & mask != 0`
abbrev pub has_bit : ℕ → ℕ → Bool
has_bit raw mask = not (bit_and raw mask == 0)

unfoldable pub from_raw : ℕ → RegionFlags
from_raw raw =
    let bits = bit_and raw 7 in
    if bits == raw
    then if has_bit bits 1 && not (has_bit bits 4)
      then record { read = has_bit bits 4; write = has_bit bits 2; execute = has_bit bits 1 }
      else record { read = has_bit bits 1; write = has_bit bits 2; execute = has_bit bits 4 }
    else record { read = has_bit raw 1; write = has_bit raw 2; execute = has_bit raw 4 }

unfoldable pub to_raw : RegionFlags → ℕ
to_raw self =
    let raw1 = if self.read then bit_or 0 4 else 0 in
    let raw2 = if self.write then bit_or raw1 2 else raw1 in
    if self.execute then bit_or raw2 1 else raw2

pub record RegionMapping : Type 0 where
  pub thread_id : ℕ
  pub virt_addr : ℕ
  pub flags : RegionFlags

pub record SharedRegion : Type 0 where
  pub id : ℕ
  pub owner : ℕ
  pub size : ℕ
  pub physical_pages : List ℕ
  pub mappings : List RegionMapping
  pub ref_count : ℕ

-- `for &page in pages { pmm::free_page(page); }`
unfoldable pub free_all : List ℕ → Pmm.State → Pmm.State
free_all [] pmm = pmm
free_all (page ∷ pages) pmm = free_all pages (free_page page pmm)

-- The loop of `SharedRegion::new` with `n` rounds left: where a page is missing, those taken so far
-- are given back. The pages are zeroed, which nothing here reads.
unfoldable pub take_pages : ℕ → List ℕ → Pmm.State → Result (List ℕ) SharedMemError × Pmm.State
take_pages zero taken pmm = (ok taken, pmm)
take_pages (suc n) taken pmm =
    let (found, pmm') = alloc_page pmm in
    elim found [
      | none ↦ (err SharedMemError.out_of_memory, free_all taken pmm')
      | some page ↦ take_pages n (taken ++ page ∷ []) pmm'
    ]

-- The region made of the pages taken.
unfoldable pub made_of :
    ℕ → ℕ → ℕ → Result (List ℕ) SharedMemError → Result SharedRegion SharedMemError
made_of id owner size (err e) = err e
made_of id owner size (ok physical_pages) = ok (record {
  id = id;
  owner = owner;
  size = size;
  physical_pages = physical_pages;
  mappings = [];
  ref_count = 0;
})

-- `SharedRegion::new`
unfoldable pub new_region : ℕ → ℕ → ℕ → Pmm.State → Result SharedRegion SharedMemError × Pmm.State
new_region id owner size pmm =
    if align_up size / page_size == 0
    then (err invalid_size, pmm)
    else let (taken, pmm') = take_pages (align_up size / page_size) [] pmm in
      (made_of id owner (align_up size) taken, pmm')

unfoldable pub can_destroy : SharedRegion → Bool
can_destroy self = self.ref_count == 0

pub record State : Type 0 where
  pub next_id : ℕ
  pub regions : BTreeMap SharedRegion
  pub pmm : Pmm.State

-- What `create_region` does with the region made under the next id, which is used up in any case.
unfoldable pub enter :
    State → Result SharedRegion SharedMemError × Pmm.State → Result ℕ SharedMemError × State
enter s (err e, pmm) = (err e, record s { next_id = (s.next_id + 1) % 2 ^ 64; pmm = pmm })
enter s (ok region, pmm) = (
  ok s.next_id,
  record s {
    next_id = (s.next_id + 1) % 2 ^ 64;
    pmm = pmm;
    regions = BTreeMap.insert s.next_id region s.regions;
  },
)

unfoldable pub create_region : ℕ → ℕ → State → Result ℕ SharedMemError × State
create_region owner size s = enter s (new_region s.next_id owner size s.pmm)

unfoldable pub destroy_region : ℕ → ℕ → State → Result (Unit {0}) SharedMemError × State
destroy_region region_id caller s = elim (BTreeMap.get region_id s.regions) [
  | none ↦ (err invalid_region, s)
  | some region ↦
      if not (region.owner == caller)
      then (err permission_denied, s)
      else if not (can_destroy region)
      then (err region_in_use, s)
      else (
        ok tt,
        record s {
          regions = BTreeMap.remove region_id s.regions;
          pmm = free_all region.physical_pages s.pmm;
        },
      )
]

pub record RegionInfo : Type 0 where
  pub id : ℕ
  pub owner : ℕ
  pub size : ℕ
  pub ref_count : ℕ

unfoldable pub get_region_info : ℕ → BTreeMap SharedRegion → Result RegionInfo SharedMemError
get_region_info region_id regions = elim (BTreeMap.get region_id regions) [
  | none ↦ err invalid_region
  | some region ↦ ok (record {
    id = region.id;
    owner = region.owner;
    size = region.size;
    ref_count = region.ref_count;
  })
]

pub record SharedMemStats : Type 0 where
  pub total_regions : ℕ
  pub total_size : ℕ
  pub total_mappings : ℕ

-- The two sums of `get_stats`.
unfoldable pub sum_size : List SharedRegion → ℕ
sum_size [] = 0
sum_size (r ∷ rs) = r.size + sum_size rs

unfoldable pub sum_ref_count : List SharedRegion → ℕ
sum_ref_count [] = 0
sum_ref_count (r ∷ rs) = r.ref_count + sum_ref_count rs

unfoldable pub get_stats : State → SharedMemStats
get_stats s = record {
  total_regions = length s.regions;
  total_size = sum_size (values s.regions);
  total_mappings = sum_ref_count (values s.regions);
}
