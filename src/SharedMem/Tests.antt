-- ===== src/SharedMem/Tests.antt =====
-- Shared regions on twelve pages, of which four are free.
use atom.Prelude.{◌≡◌, ◌↔◌, refl, List, [], ◌∷◌, some, true, false, ok, err}
use atom.Prelude.BTreeMap.{get}
use atom.Mm.Pmm.{
  alloc_page, find_free, set_page_allocated, is_page_free, bit_clear, align_up, set_bit,
}
use atom.Mm.Pmm.Tests.{small, small-Inv}
use atom.Mm.Vm.Tables
use atom.SharedMem.{
  State, SharedRegion, RegionFlags, create_region, destroy_region, new_region, take_pages, made_of,
  enter, out_of_memory, from_raw, to_raw,
}
use atom.SharedMem.Flags.{from_raw-to_raw}
use atom.SharedMem.Mapping.Paged.{page_tables}
use atom.SharedMem.Mapping.Counted.{Regions, create_region-Regions}
use atom.SharedMem.Mapping.Run.{
  Op, creates, maps, unmaps, destroys, run, run-Regions, destroy_region_iff,
}
use atom.SharedMem.Pages.{SamePages, create_region-SamePages, destroy_region-create_region}

-- A root table on page 4, and nothing mapped.
abbrev tables : Tables.State
tables = record {
  active_pml4 = 16384;
  mapped_pages = 0;
  page_table_pages = 1;
  memory = λ t i. 0;
  pmm = small;
}

abbrev read_write : RegionFlags
read_write = record { read = true; write = true; execute = false }

abbrev empty : State
empty = record { next_id = 1; regions = []; pmm = small }

empty-Regions : Regions empty.regions
unfolding get
empty-Regions id r e = cc

abbrev ops : List Op
ops = creates 7 8192 ∷ maps 1 7 65536 read_write ∷ destroys 1 7 ∷ unmaps 1 7 ∷ destroys 1 7 ∷ []

run-Regions_example : Regions (run page_tables ops (empty, tables)).0.regions
run-Regions_example = run-Regions page_tables ops (empty, tables) empty-Regions

destroy_region_iff_example :
    let s = (create_region 7 5000 empty).1 in
    ((destroy_region 1 7 s).0 ≡ ok tt)
    ↔ ((r : SharedRegion) × (get 1 s.regions ≡ some r) × (r.owner ≡ 7) × (r.mappings ≡ []))
destroy_region_iff_example =
    destroy_region_iff 1 7 (create_region 7 5000 empty).1
      (create_region-Regions 7 5000 empty empty-Regions)

too_large : (create_region 7 20000 empty).0 ≡ err out_of_memory
unfolding create_region enter new_region take_pages made_of alloc_page find_free set_page_allocated
    is_page_free bit_clear align_up set_bit
too_large = refl

fits : (create_region 7 5000 empty).0 ≡ ok 1
unfolding create_region enter new_region take_pages made_of alloc_page find_free set_page_allocated
    is_page_free bit_clear align_up set_bit
fits = refl

create_region-SamePages_example : SamePages empty.pmm (create_region 7 20000 empty).1.pmm
create_region-SamePages_example =
    create_region-SamePages 7 20000 empty out_of_memory small-Inv too_large

destroy_region-create_region_example :
    let (result, back) = destroy_region 1 7 (create_region 7 5000 empty).1 in
    (result ≡ ok tt) × SamePages empty.pmm back.pmm
destroy_region-create_region_example = destroy_region-create_region 7 5000 1 empty small-Inv fits

from_raw-to_raw_example :
    from_raw (to_raw read_write) ≡ record { read = false; write = true; execute = true }
from_raw-to_raw_example = from_raw-to_raw read_write
