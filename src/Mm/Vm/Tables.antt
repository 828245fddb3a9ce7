-- ===== src/Mm/Vm/Tables.antt =====
-- kernel/src/mm/vm.rs: the page tables and the walk through their four levels. A table is a page of
-- 512 words, so the memory gives the word at an index of the table at a physical address. What
-- invalidates the processor's cache of translations changes none of it and is left out.
use atom.Prelude.{
  ℕ, ◌+◌, ◌/◌, ◌%◌, ◌^◌, Option, none, some, Bool, true, false, not, ◌==◌, ◌&&◌, ◌||◌,
  if◌then◌else◌, Result, ok, err, bit_and, bit_or,
}
use atom.Mm.Pmm
use atom.Mm.Pmm.{alloc_page, is_page_aligned}
use atom.Mm.Vm.{
  PageFlags, VmError, present, writable, user, union, not_initialized, unaligned, already_mapped,
  not_mapped, out_of_memory,
}

abbrev pub addr_mask : ℕ
addr_mask = 4503599627366400

unfoldable pub is_present : ℕ → Bool
is_present entry = not (bit_and entry present.bits == 0)

unfoldable pub addr : ℕ → ℕ
addr entry = bit_and entry addr_mask

unfoldable pub set : ℕ → PageFlags → ℕ
set addr flags = bit_or (bit_and addr addr_mask) flags.bits

abbrev pub Memory : Type 0
Memory = ℕ → ℕ → ℕ

unfoldable pub write : ℕ → ℕ → ℕ → Memory → Memory
write table idx word memory t i = if (t == table) && (i == idx) then word else memory t i

-- `write_bytes(ptr, 0, PAGE_SIZE)` on a table.
unfoldable pub zeroed : ℕ → Memory → Memory
zeroed table memory t i = if t == table then 0 else memory t i

pub record State : Type 0 where
  pub active_pml4 : ℕ
  pub mapped_pages : ℕ
  pub page_table_pages : ℕ
  pub memory : Memory
  pub pmm : Pmm.State

unfoldable pub store : ℕ → ℕ → ℕ → State → State
store table idx word s = record s { memory = write table idx word s.memory }

-- `entry.0 & USER == 0`
unfoldable pub lacks_user : ℕ → Bool
lacks_user entry = bit_and entry user.bits == 0

-- The new table that `alloc_page_zeroed` found, or did not.
unfoldable pub new_table :
    ℕ → ℕ → PageFlags → Bool → Option ℕ × Pmm.State → State → Result ℕ VmError × (Bool × State)
new_table table idx flags created (none, pmm) s =
    (err out_of_memory, (created, record s { pmm = pmm }))
new_table table idx flags created (some phys, pmm) s = (
  ok phys,
  (
    true,
    record s {
      pmm = pmm;
      page_table_pages = (s.page_table_pages + 1) % 2 ^ 64;
      memory = write table idx (set phys flags) (zeroed phys s.memory);
    },
  ),
)

-- `ensure_table` on the entry `idx` of a table, with whether a table has been created so far.
unfoldable pub ensure_table : ℕ → ℕ → Bool → Bool × State → Result ℕ VmError × (Bool × State)
ensure_table table idx create (created, s) =
    let entry = s.memory table idx in
    if is_present entry
    then (ok (addr entry), (created, s))
    else if not create
    then (err not_mapped, (created, s))
    else new_table table idx (union present writable) created (alloc_page s.pmm) s

unfoldable pub table_flags : Bool → PageFlags
table_flags user_access =
    if user_access then union (union present writable) user else union present writable

unfoldable pub ensure_table_user :
    ℕ → ℕ → Bool → Bool → Bool × State → Result ℕ VmError × (Bool × State)
ensure_table_user table idx create user_access (created, s) =
    let entry = s.memory table idx in
    if is_present entry
    then if user_access && lacks_user entry
      then (
        ok (addr (bit_or entry user.bits)),
        (created, store table idx (bit_or entry user.bits) s),
      )
      else (ok (addr entry), (created, s))
    else if not create
    then (err not_mapped, (created, s))
    else new_table table idx (table_flags user_access) created (alloc_page s.pmm) s

-- The four indices of an address.
abbrev pub pml4_index : ℕ → ℕ
pml4_index virt = virt / 2 ^ 39 % 512

abbrev pub pdpt_index : ℕ → ℕ
pdpt_index virt = virt / 2 ^ 30 % 512

abbrev pub pd_index : ℕ → ℕ
pd_index virt = virt / 2 ^ 21 % 512

abbrev pub pt_index : ℕ → ℕ
pt_index virt = virt / 2 ^ 12 % 512

-- `?` between two levels.
unfoldable pub next_table :
    ℕ → Bool → Result ℕ VmError × (Bool × State) → Result ℕ VmError × (Bool × State)
next_table idx create (err e, st) = (err e, st)
next_table idx create (ok table, st) = ensure_table table idx create st

unfoldable pub next_table_user :
    ℕ → Bool → Bool → Result ℕ VmError × (Bool × State) → Result ℕ VmError × (Bool × State)
next_table_user idx create user_access (err e, st) = (err e, st)
next_table_user idx create user_access (ok table, st) =
    ensure_table_user table idx create user_access st

-- The walks: the last table, in which the entry stands at `pt_index virt`.
unfoldable pub walk_to_entry_with_root : ℕ → ℕ → Bool → State → Result ℕ VmError × (Bool × State)
walk_to_entry_with_root pml4_phys virt create s = next_table (pd_index virt) create (
    next_table (pdpt_index virt) create
      (ensure_table pml4_phys (pml4_index virt) create (false, s)))

unfoldable pub walk_to_entry_with_root_user :
    ℕ → ℕ → Bool → Bool → State → Result ℕ VmError × (Bool × State)
walk_to_entry_with_root_user pml4_phys virt create user_access s =
    next_table_user (pd_index virt) create user_access (
      next_table_user (pdpt_index virt) create user_access
        (ensure_table_user pml4_phys (pml4_index virt) create user_access (false, s)))

-- What `map_page_internal` does at the end of the walk.
unfoldable pub map_entry :
    ℕ → ℕ → PageFlags → Result ℕ VmError × (Bool × State) → Result (Unit {0}) VmError × State
map_entry virt phys flags (err e, (created, s)) = (err e, s)
map_entry virt phys flags (ok table, (created, s)) =
    if is_present (s.memory table (pt_index virt)) then (err already_mapped, s) else (
      ok tt,
      record (store table (pt_index virt) (set phys flags) s) {
        mapped_pages = (s.mapped_pages + 1) % 2 ^ 64;
      },
    )

unfoldable pub map_page_internal : ℕ → ℕ → ℕ → PageFlags → State → Result (Unit {0}) VmError × State
map_page_internal pml4_phys virt phys flags s =
    if not (is_page_aligned virt) || not (is_page_aligned phys)
    then (err unaligned, s)
    else map_entry virt phys flags
        (walk_to_entry_with_root_user pml4_phys virt true (not (lacks_user flags.bits)) s)

unfoldable pub map_page : ℕ → ℕ → PageFlags → State → Result (Unit {0}) VmError × State
map_page virt phys flags s =
    if not (is_page_aligned virt) || not (is_page_aligned phys)
    then (err unaligned, s)
    else if s.active_pml4 == 0
    then (err not_initialized, s)
    else map_page_internal s.active_pml4 virt phys flags s

unfoldable pub map_page_in_pml4 : ℕ → ℕ → ℕ → PageFlags → State → Result (Unit {0}) VmError × State
map_page_in_pml4 pml4_phys virt phys flags s =
    if not (is_page_aligned virt) || not (is_page_aligned phys)
    then (err unaligned, s)
    else if pml4_phys == 0
    then (err not_initialized, s)
    else map_page_internal pml4_phys virt phys flags s
