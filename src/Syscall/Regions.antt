-- ===== src/Syscall/Regions.antt =====
-- kernel/src/syscall/mod.rs: the calls on shared regions, over shared_mem.rs and the page tables.
use atom.Prelude.{ℕ, Option, none, some, ok, err}
use atom.SharedMem
use atom.SharedMem.{
  State, SharedMemError, invalid_region, invalid_size, permission_denied, out_of_memory, unaligned,
  already_mapped, not_mapped, region_in_use, create_region, destroy_region,
}
use atom.Mm.Pmm
use atom.SharedMem.Mapping.{PageTables, map_region, unmap_region}
use atom.Syscall.Codes.{esuccess, einval, enomem, eperm, ebusy}

create_code : SharedMemError → ℕ
create_code invalid_size = einval
create_code out_of_memory = enomem
create_code _ = einval

unfoldable pub sys_shared_region_create : ℕ → Option ℕ → State → ℕ × State
unfolding create_code
sys_shared_region_create size none s = (einval, s)
sys_shared_region_create size (some caller) s =
    let (result, s') = create_region caller size s in
    (elim result [ ok region_id ↦ region_id | err e ↦ create_code e ], s')

destroy_code : SharedMemError → ℕ
destroy_code invalid_region = einval
destroy_code permission_denied = eperm
destroy_code region_in_use = ebusy
destroy_code _ = einval

unfoldable pub sys_shared_region_destroy : ℕ → Option ℕ → State → ℕ × State
unfolding destroy_code
sys_shared_region_destroy region_id none s = (einval, s)
sys_shared_region_destroy region_id (some caller) s =
    let (result, s') = destroy_region region_id caller s in
    (elim result [ ok _ ↦ esuccess | err e ↦ destroy_code e ], s')

map_code : SharedMemError → ℕ
map_code invalid_region = einval
map_code unaligned = einval
map_code already_mapped = ebusy
map_code out_of_memory = enomem
map_code _ = einval

module _ {S : Type 0} (vm : PageTables (S × Pmm.State)) where
  unfoldable pub sys_shared_region_map : ℕ → ℕ → ℕ → Option ℕ → State × S → ℕ × (State × S)
  unfolding map_code
  sys_shared_region_map region_id virt_addr flags_raw none st = (einval, st)
  sys_shared_region_map region_id virt_addr flags_raw (some caller) st =
      let (result, st') =
        map_region vm region_id caller virt_addr (SharedMem.from_raw flags_raw) st in
      (elim result [ ok _ ↦ esuccess | err e ↦ map_code e ], st')

  unfoldable pub sys_shared_region_unmap : ℕ → Option ℕ → State × S → ℕ × (State × S)
  sys_shared_region_unmap region_id none st = (einval, st)
  sys_shared_region_unmap region_id (some caller) st =
      let (result, st') = unmap_region vm region_id caller st in
      (elim result [ ok _ ↦ esuccess | err e ↦ einval ], st')
