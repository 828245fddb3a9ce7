-- ===== src/SharedMem/Mapping/Counted/Mapped.antt =====
-- kernel/src/shared_mem.rs: mapping and unmapping keep what holds of every region.
use atom.Prelude.{ℕ, arith, Option-cases, Bool-cases, inl, inr}
use atom.Prelude.BTreeMap.{get}
use atom.Mm.Pmm
use atom.Mm.Pmm.{is_page_aligned}
use atom.SharedMem.{State, SharedRegion, RegionFlags, to_page_flags}
use atom.SharedMem.Mapping.{
  PageTables, is_mapped_by, mapping_of, map_pages, map, unmap, map_region, unmap_region,
}
use atom.SharedMem.Mapping.Counted.{
  IsDistinct-without, IsSound, Regions, Regions-insert, add_mapping-IsSound, length-without,
}

module _ {S : Type 0} (vm : PageTables S) where
  map-IsSound :
      (id thread_id virt_addr : ℕ) (flags : RegionFlags) (r : SharedRegion) (t : S)
      → IsSound id r
      → IsSound id (map vm r thread_id virt_addr flags t).0.1
  unfolding map
  map-IsSound id thread_id virt_addr flags r t v = elim (Bool-cases (is_page_aligned virt_addr)) [
    | inr odd ↦ rw odd v
    | inl aligned ↦ elim (Bool-cases (is_mapped_by thread_id r.mappings)) [
      | inl there ↦ rw (aligned, there) v
      | inr fresh ↦
          rw (aligned, fresh)
            (add_mapping-IsSound vm id r
              (record { thread_id = thread_id; virt_addr = virt_addr; flags = flags })
              (map_pages vm r.physical_pages 0 virt_addr (to_page_flags flags) t).0 fresh v)
    ]
  ]

  unmap-IsSound :
      (id thread_id : ℕ) (r : SharedRegion) (t : S)
      → IsSound id r
      → IsSound id (unmap vm r thread_id t).0.1
  unfolding unmap
  unmap-IsSound id thread_id r t v = elim (Option-cases (mapping_of thread_id r.mappings)) [
    | inl e ↦ rw (e, unmap) v
    | inr (m, e) ↦
        rw (e, unmap)
          (record {
            own_id = v.own_id;
            counted = omega (arith, v.counted, length-without thread_id r.mappings m e);
            distinct = IsDistinct-without thread_id r.mappings v.distinct;
            sized = v.sized;
          })
  ]

module _ {S : Type 0} (vm : PageTables (S × Pmm.State)) where
  pub map_region-Regions :
      (id thread_id virt_addr : ℕ) (flags : RegionFlags) (s : State) (t : S)
      → Regions s.regions
      → Regions (map_region vm id thread_id virt_addr flags (s, t)).1.0.regions
  unfolding map_region
  map_region-Regions id thread_id virt_addr flags s t w = elim (Option-cases (get id s.regions)) [
    | inl e ↦ rw (e, map_region) w
    | inr (r, e) ↦
        rw (e, map_region)
          (Regions-insert id (map vm r thread_id virt_addr flags (t, s.pmm)).0.1 s.regions
            (map-IsSound vm id thread_id virt_addr flags r (t, s.pmm) (w id r e)) w)
  ]

  pub unmap_region-Regions :
      (id thread_id : ℕ) (s : State) (t : S)
      → Regions s.regions
      → Regions (unmap_region vm id thread_id (s, t)).1.0.regions
  unfolding unmap_region
  unmap_region-Regions id thread_id s t w = elim (Option-cases (get id s.regions)) [
    | inl e ↦ rw (e, unmap_region) w
    | inr (r, e) ↦
        rw (e, unmap_region)
          (Regions-insert id (unmap vm r thread_id (t, s.pmm)).0.1 s.regions
            (unmap-IsSound vm id thread_id r (t, s.pmm) (w id r e)) w)
  ]
