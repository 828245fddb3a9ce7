-- ===== src/Mm/Vm/Access.antt =====
-- kernel/src/mm/vm.rs: the operations that walk the tables without making any.
use atom.Prelude.{
  ℕ, ◌+◌, ◌-◌, ◌%◌, ◌^◌, Option, none, some, false, not, ◌==◌, ◌||◌, ltb, if◌then◌else◌, Result, ok,
  err, bit_and, bit_or,
}
use atom.Prelude.Bits.{complement}
use atom.Mm.Pmm.{is_page_aligned}
use atom.Mm.Vm.{PageFlags, VmError, user, not_initialized, unaligned, not_mapped}
use atom.Mm.Vm.Tables.{
  State, Memory, addr_mask, is_present, addr, set, store, pml4_index, pdpt_index, pd_index,
  pt_index, walk_to_entry_with_root_user,
}

-- `walk_to_entry(virt, false)`
unfoldable pub walk_to_entry : ℕ → State → Result ℕ VmError
walk_to_entry virt s =
    if s.active_pml4 == 0
    then err not_initialized
    else (walk_to_entry_with_root_user s.active_pml4 virt false false s).0

-- The entry of the address, if a walk found its table and it is present.
unfoldable pub entry_of : ℕ → Result ℕ VmError → State → Result (ℕ × ℕ) VmError
entry_of virt (err e) s = err e
entry_of virt (ok table) s =
    if is_present (s.memory table (pt_index virt))
    then ok (table, s.memory table (pt_index virt))
    else err not_mapped

-- `entry.clear()`, with the count of mapped pages.
unfoldable pub cleared : ℕ → Result (ℕ × ℕ) VmError → State → Result (Unit {0}) VmError × State
cleared virt (err e) s = (err e, s)
cleared virt (ok (table, entry)) s = (
  ok tt,
  record (store table (pt_index virt) 0 s) {
    mapped_pages = (s.mapped_pages + (2 ^ 64 - 1)) % 2 ^ 64;
  },
)

unfoldable pub unmap_page : ℕ → State → Result (Unit {0}) VmError × State
unmap_page virt s =
    if not (is_page_aligned virt)
    then (err unaligned, s)
    else cleared virt (entry_of virt (walk_to_entry virt s) s) s

unfoldable pub unmap_page_in_pml4 : ℕ → ℕ → State → Result (Unit {0}) VmError × State
unmap_page_in_pml4 pml4_phys virt s =
    if not (is_page_aligned virt)
    then (err unaligned, s)
    else if pml4_phys == 0
    then (err not_initialized, s)
    else cleared virt
        (entry_of virt (walk_to_entry_with_root_user pml4_phys virt false false s).0 s) s

-- `entry.set(..)` on the entry found.
unfoldable pub replaced :
    ℕ → (ℕ → ℕ) → Result (ℕ × ℕ) VmError → State → Result (Unit {0}) VmError × State
replaced virt word (err e) s = (err e, s)
replaced virt word (ok (table, entry)) s = (ok tt, store table (pt_index virt) (word entry) s)

-- The flags that an entry has, and those that are added.
unfoldable pub with_flags : PageFlags → ℕ → ℕ
with_flags additional_flags raw =
    set (bit_and raw addr_mask)
      (record { bits = bit_or (bit_and raw (complement 64 addr_mask)) additional_flags.bits })

unfoldable pub remap_page_flags : ℕ → PageFlags → State → Result (Unit {0}) VmError × State
remap_page_flags virt additional_flags s =
    if not (is_page_aligned virt)
    then (err unaligned, s)
    else replaced virt (with_flags additional_flags) (entry_of virt (walk_to_entry virt s) s) s

unfoldable pub remap_page : ℕ → ℕ → PageFlags → State → Result (Unit {0}) VmError × State
remap_page virt new_phys flags s =
    if not (is_page_aligned virt) || not (is_page_aligned new_phys)
    then (err unaligned, s)
    else replaced virt (λ entry. set new_phys flags) (entry_of virt (walk_to_entry virt s) s) s

unfoldable pub query_mapping_in_pml4 : ℕ → ℕ → State → Result (ℕ × PageFlags) VmError
query_mapping_in_pml4 pml4_phys virt s =
    if not (is_page_aligned virt)
    then err unaligned
    else if pml4_phys == 0
    then err not_initialized
    else elim (entry_of virt (walk_to_entry_with_root_user pml4_phys virt false false s).0 s) [
      | err e ↦ err e
      | ok found ↦ ok (addr found.1, record { bits = found.1 })
    ]

unfoldable pub translate : ℕ → State → Option ℕ
translate virt s = elim (entry_of virt (walk_to_entry virt s) s) [
  | err e ↦ none
  | ok found ↦ some (addr found.1)
]

-- One level of `remap_page_user`: the entry of the table gets the bit, if it is present.
unfoldable pub mark_user : ℕ → Result ℕ VmError × State → Result ℕ VmError × State
mark_user idx (err e, s) = (err e, s)
mark_user idx (ok table, s) =
    let entry = s.memory table idx in
    if not (is_present entry)
    then (err not_mapped, s)
    else (ok (addr (bit_or entry user.bits)), store table idx (bit_or entry user.bits) s)

unfoldable pub done : Result ℕ VmError × State → Result (Unit {0}) VmError × State
done (err e, s) = (err e, s)
done (ok table, s) = (ok tt, s)

unfoldable pub remap_page_user : ℕ → State → Result (Unit {0}) VmError × State
remap_page_user virt s =
    if not (is_page_aligned virt)
    then (err unaligned, s)
    else if s.active_pml4 == 0
    then (err not_initialized, s)
    else done (
        mark_user (pt_index virt) (
          mark_user (pd_index virt)
            (mark_user (pdpt_index virt) (mark_user (pml4_index virt) (ok s.active_pml4, s)))))

-- The two loops of `clone_kernel_mappings`: the lower half is cleared, the upper copied.
unfoldable pub cloned : ℕ → ℕ → Memory → Memory
cloned src dst memory t i =
    if t == dst
    then if ltb i 256 then 0 else if ltb i 512 then memory src i else memory t i
    else memory t i

unfoldable pub clone_kernel_mappings : ℕ → State → Result (Unit {0}) VmError × State
clone_kernel_mappings dst_pml4_phys s =
    if not (is_page_aligned dst_pml4_phys)
    then (err unaligned, s)
    else if s.active_pml4 == 0
    then (err not_initialized, s)
    else (ok tt, record s { memory = cloned s.active_pml4 dst_pml4_phys s.memory })
