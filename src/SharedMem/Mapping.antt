-- ===== src/SharedMem/Mapping.antt =====
-- kernel/src/shared_mem.rs: mapping a region into the active address space and out of it.
pub mod Counted
pub mod Run
pub mod Paged
use atom.Prelude.{
  ℕ, zero, suc, ◌+◌, ◌-◌, ◌*◌, ◌%◌, ◌^◌, List, [], ◌∷◌, ◌++◌, Option, none, some, Bool, true, false,
  not, ◌==◌, if◌then◌else◌, Result, ok, err, length,
}
use atom.Prelude.BTreeMap
use atom.Mm.Pmm
use atom.Mm.Pmm.{page_size, is_page_aligned}
use atom.Mm.Vm.{PageFlags, VmError}
use atom.Mm.Vm
use atom.SharedMem.{
  State, SharedRegion, RegionMapping, RegionFlags, SharedMemError, invalid_region, out_of_memory,
  unaligned, already_mapped, not_mapped, mapping_failed, to_page_flags,
}

-- What is used of vm.rs: the two operations on a state `S`, the active table and the allocator.
pub record PageTables (S : Type 0) : Type 0 where
  pub map_page : ℕ → ℕ → PageFlags → S → Result (Unit {0}) VmError × S
  pub unmap_page : ℕ → S → Result (Unit {0}) VmError × S

-- `mappings.iter().any(|m| m.thread_id == thread_id)`
unfoldable pub is_mapped_by : ℕ → List RegionMapping → Bool
is_mapped_by thread_id [] = false
is_mapped_by thread_id (m ∷ ms) =
    let rest = is_mapped_by thread_id ms in if m.thread_id == thread_id then true else rest

-- The first mapping of a thread, which `position` finds.
unfoldable pub mapping_of : ℕ → List RegionMapping → Option RegionMapping
mapping_of thread_id [] = none
mapping_of thread_id (m ∷ ms) =
    let rest = mapping_of thread_id ms in if m.thread_id == thread_id then some m else rest

-- `mappings.remove(idx)` of that one.
unfoldable pub without_mapping : ℕ → List RegionMapping → List RegionMapping
without_mapping thread_id [] = []
without_mapping thread_id (m ∷ ms) =
    let rest = without_mapping thread_id ms in if m.thread_id == thread_id then ms else m ∷ rest

-- The error of `map` for one of `map_page`.
unfoldable pub map_error : VmError → SharedMemError
map_error Vm.already_mapped = already_mapped
map_error Vm.out_of_memory = out_of_memory
map_error _ = mapping_failed

-- `virt_addr + i * PAGE_SIZE`
abbrev pub page_at : ℕ → ℕ → ℕ
page_at virt_addr i = (virt_addr + i * page_size) % 2 ^ 64

module _ {S : Type 0} (vm : PageTables S) where
  -- Pages `j` to `j + n - 1` leave the table; what each call answers is ignored.
  unfoldable pub unmap_pages : ℕ → ℕ → ℕ → S → S
  unmap_pages zero j virt_addr t = t
  unmap_pages (suc n) j virt_addr t =
      unmap_pages n (j + 1) virt_addr (vm.unmap_page (page_at virt_addr j) t).1

  -- The loop of `map` from page `i` on.
  unfoldable pub map_pages : List ℕ → ℕ → ℕ → PageFlags → S → Result (Unit {0}) SharedMemError × S
  map_pages [] i virt_addr flags t = (ok tt, t)
  map_pages (phys_page ∷ pages) i virt_addr flags t =
      let (answer, t') = vm.map_page (page_at virt_addr i) phys_page flags t in
      elim answer [
        | err e ↦ (err (map_error e), unmap_pages i 0 virt_addr t')
        | ok _ ↦ map_pages pages (i + 1) virt_addr flags t'
      ]

  -- What `map` does once the pages are in the table, or are not.
  unfoldable pub add_mapping :
      SharedRegion
      → RegionMapping
      → Result (Unit {0}) SharedMemError
      → Result (Unit {0}) SharedMemError × SharedRegion
  add_mapping self mapping (err e) = (err e, self)
  add_mapping self mapping (ok _) = (
    ok tt,
    record self { mappings = self.mappings ++ mapping ∷ []; ref_count = self.ref_count + 1 },
  )

  unfoldable pub map :
      SharedRegion → ℕ → ℕ → RegionFlags → S → (Result (Unit {0}) SharedMemError × SharedRegion) × S
  map self thread_id virt_addr flags t =
      if not (is_page_aligned virt_addr)
      then ((err unaligned, self), t)
      else if is_mapped_by thread_id self.mappings
      then ((err already_mapped, self), t)
      else let (answer, t') = map_pages self.physical_pages 0 virt_addr (to_page_flags flags) t in
        (
          add_mapping self (record { thread_id = thread_id; virt_addr = virt_addr; flags = flags })
              answer,
          t',
        )

  -- `ref_count -= 1` is reached only with a mapping.
  unfoldable pub unmap :
      SharedRegion → ℕ → S → (Result (Unit {0}) SharedMemError × SharedRegion) × S
  unmap self thread_id t = elim (mapping_of thread_id self.mappings) [
    | none ↦ ((err not_mapped, self), t)
    | some mapping ↦ (
      (
        ok tt,
        record self {
          mappings = without_mapping thread_id self.mappings;
          ref_count = self.ref_count - 1;
        },
      ),
      unmap_pages (length self.physical_pages) 0 mapping.virt_addr t,
    )
  ]

-- The calls take the pages for their tables from the allocator that the regions take theirs from.
module _ {S : Type 0} (vm : PageTables (S × Pmm.State)) where
  unfoldable pub map_region :
      ℕ → ℕ → ℕ → RegionFlags → State × S → Result (Unit {0}) SharedMemError × (State × S)
  map_region region_id thread_id virt_addr flags (s, t) = elim (BTreeMap.get region_id s.regions) [
    | none ↦ (err invalid_region, (s, t))
    | some region ↦
        let (mapped, (t', pmm)) = map vm region thread_id virt_addr flags (t, s.pmm) in
        (
          mapped.0,
          (record s { regions = BTreeMap.insert region_id mapped.1 s.regions; pmm = pmm }, t'),
        )
  ]

  unfoldable pub unmap_region : ℕ → ℕ → State × S → Result (Unit {0}) SharedMemError × (State × S)
  unmap_region region_id thread_id (s, t) = elim (BTreeMap.get region_id s.regions) [
    | none ↦ (err invalid_region, (s, t))
    | some region ↦
        let (unmapped, (t', pmm)) = unmap vm region thread_id (t, s.pmm) in
        (
          unmapped.0,
          (record s { regions = BTreeMap.insert region_id unmapped.1 s.regions; pmm = pmm }, t'),
        )
  ]
