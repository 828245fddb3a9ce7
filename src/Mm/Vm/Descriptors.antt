-- ===== src/Mm/Vm/Descriptors.antt =====
-- kernel/src/mm/vm.rs: the flags of the pages that a descriptor of the firmware's memory map names.
use atom.Prelude.{ℕ, ◌^◌, Bool, not, leb, ◌==◌, ◌&&◌, ◌||◌, if◌then◌else◌, bit_and, bit_or}
use atom.Mm.Vm.{
  PageFlags, writable, write_through, cache_disable, kernel_rw, union, with_nx, without,
}

-- Loader, boot services and runtime services code and data, conventional memory (1 to 7), ACPI memory
-- that can be reclaimed or not (9, 10), persistent memory (14).
unfoldable pub is_mappable_ram : ℕ → Bool
is_mappable_ram typ = (leb 1 typ && leb typ 7) || (typ == 9) || (typ == 10) || (typ == 14)

unfoldable pub is_code_descriptor : ℕ → Bool
is_code_descriptor typ = (typ == 1) || (typ == 3) || (typ == 5)

-- `attribute & bits != 0`
abbrev pub has : ℕ → ℕ → Bool
has attribute bits = not (bit_and attribute bits == 0)

unfoldable pub apply_cacheability_flags : PageFlags → ℕ → PageFlags
apply_cacheability_flags flags attribute =
    if has attribute (bit_or 1 16)
    then union flags cache_disable
    else if has attribute 4
    then union flags write_through
    else if has attribute 2
    then union flags cache_disable
    else flags

unfoldable pub flags_for_descriptor : ℕ → ℕ → PageFlags
flags_for_descriptor typ attribute =
    let flags =
      if has attribute (2 ^ 63) || not (is_code_descriptor typ)
      then with_nx kernel_rw
      else kernel_rw in
    let flags' = if has attribute (bit_or 4096 8192) then without flags writable else flags in
    apply_cacheability_flags flags' attribute
