-- ===== src/SharedMem/Mapping/Paged.antt =====
-- kernel/src/mm/vm.rs under kernel/src/shared_mem.rs: the page tables that regions are mapped into.
use atom.Mm.Pmm
use atom.Mm.Vm.Tables
use atom.Mm.Vm.Tables.{map_page}
use atom.Mm.Vm.Access.{unmap_page}
use atom.SharedMem.Mapping.{PageTables}

-- The page tables with the allocator beside them, which `map_page` takes its tables from.
abbrev pub page_tables : PageTables (Tables.State × Pmm.State)
page_tables = record {
  map_page = λ virt phys flags st.
      let out = map_page virt phys flags (record st.0 { pmm = st.1 }) in
      (out.0, (out.1, out.1.pmm));
  unmap_page = λ virt st.
      let out = unmap_page virt (record st.0 { pmm = st.1 }) in (out.0, (out.1, out.1.pmm));
}
