-- ===== src/Mm/Pmm.antt =====
-- kernel/src/mm/pmm.rs: the physical page allocator. Its statics are the fields of `State`; a bit of
-- the bitmap is set for a page that is allocated. `usize` has 64 bits.
pub mod Bitmap
pub mod Count
pub mod Alloc
pub mod Init
pub mod Align
pub mod Tests
pub mod Free
use atom.Prelude.{
  ℕ, zero, suc, ◌+◌, ◌-◌, ◌*◌, ◌/◌, ◌%◌, ◌^◌, min, max, bit_and, bit_or, List, [], ◌∷◌, Option,
  none, some, Bool, true, false, not, ◌&&◌, if◌then◌else◌, ◌==◌, ltb, leb, get_or, set, replicate,
}
use atom.Prelude.Bits.{complement}

abbrev pub max_pages : ℕ
max_pages = 256 * 1024

abbrev pub page_size : ℕ
page_size = 4096

-- `EFI_CONVENTIONAL_MEMORY`
abbrev pub efi_conventional_memory : ℕ
efi_conventional_memory = 7

pub record State : Type 0 where
  pub bitmap : List ℕ
  pub total_pages : ℕ
  pub free_count : ℕ
  pub next_free_hint : ℕ
  pub largest_free_run : ℕ

-- `fetch_add` and `fetch_sub` on an `AtomicUsize`, which wrap.
abbrev pub fetch_add : ℕ → ℕ → ℕ
fetch_add counter n = (counter + n) % 2 ^ 64

abbrev pub fetch_sub : ℕ → ℕ → ℕ
fetch_sub counter n = (counter + 2 ^ 64 - n) % 2 ^ 64

-- The byte tests and updates: `byte & (1 << bit) == 0`, `byte &= !(1 << bit)`, `byte |= 1 << bit`.
unfoldable pub bit_clear : ℕ → ℕ → Bool
bit_clear byte bit = bit_and byte (2 ^ bit) == 0

unfoldable pub clear_bit : ℕ → ℕ → ℕ
clear_bit byte bit = bit_and byte (complement 8 (2 ^ bit))

unfoldable pub set_bit : ℕ → ℕ → ℕ
set_bit byte bit = bit_or byte (2 ^ bit)

-- `BITMAP[byte]`; the index is in range for a tracked page.
abbrev pub byte_of : List ℕ → ℕ → ℕ
byte_of bitmap page = get_or bitmap (page / 8) 255

unfoldable pub is_page_free : ℕ → State → Bool
is_page_free page s =
    if leb s.total_pages page then false else bit_clear (byte_of s.bitmap page) (page % 8)

unfoldable pub set_page_free : ℕ → State → State
set_page_free page s = if leb s.total_pages page then s else record s {
  bitmap = set s.bitmap (page / 8) (clear_bit (byte_of s.bitmap page) (page % 8));
}

unfoldable pub set_page_allocated : ℕ → State → State
set_page_allocated page s =
    if leb s.total_pages page
    then s
    else record s { bitmap = set s.bitmap (page / 8) (set_bit (byte_of s.bitmap page) (page % 8)) }

-- The first free page of `n` from `page` on.
unfoldable pub find_free : ℕ → ℕ → State → Option ℕ
find_free zero page s = none
find_free (suc n) page s =
    let rest = find_free n (page + 1) s in if is_page_free page s then some page else rest

unfoldable pub alloc_page : State → Option ℕ × State
alloc_page s = if s.free_count == 0 then (none, s) else elim (find_free s.total_pages 0 s) [
  | none ↦ (none, s)
  | some page ↦ (
    some (page * page_size),
    record (set_page_allocated page s) { free_count = fetch_sub s.free_count 1 },
  )
]

unfoldable pub free_page : ℕ → State → State
free_page addr s =
    if not (addr % page_size == 0)
    then s
    else if leb max_pages (addr / page_size)
    then s
    else if not (is_page_free (addr / page_size) s)
    then record (set_page_free (addr / page_size) s) { free_count = fetch_add s.free_count 1 }
    else s

-- Whether the `count` pages from `start` on are all free.
unfoldable pub run_is_free : ℕ → ℕ → State → Bool
run_is_free zero start s = true
run_is_free (suc count) start s =
    let rest = run_is_free count (start + 1) s in if is_page_free start s then rest else false

unfoldable pub set_run_allocated : ℕ → ℕ → State → State
set_run_allocated zero start s = s
set_run_allocated (suc count) start s =
    set_run_allocated count (start + 1) (set_page_allocated start s)

-- The first of `n` starts, from `start` on, of a free run.
unfoldable pub find_run : ℕ → ℕ → ℕ → State → Option ℕ
find_run zero start count s = none
find_run (suc n) start count s =
    let rest = find_run n (start + 1) count s in
    if run_is_free count start s then some start else rest

unfoldable pub alloc_run : ℕ → State → Option ℕ × State
alloc_run count s =
    if ltb s.free_count count
    then (none, s)
    else if ltb s.total_pages count
    then (none, s)
    else elim (find_run (s.total_pages - count + 1) 0 count s) [
      | none ↦ (none, s)
      | some start ↦ (
        some (start * page_size),
        record (set_run_allocated count start s) { free_count = fetch_sub s.free_count count },
      )
    ]

unfoldable pub alloc_pages : ℕ → State → Option ℕ × State
alloc_pages count s =
    if count == 0 then (none, s) else if count == 1 then alloc_page s else alloc_run count s

unfoldable pub free_pages : ℕ → ℕ → State → State
free_pages addr zero s = s
free_pages addr (suc count) s = free_pages ((addr + page_size) % 2 ^ 64) count (free_page addr s)

unfoldable pub get_stats : State → ℕ × ℕ
get_stats s = (s.total_pages, s.free_count)

unfoldable pub is_page_aligned : ℕ → Bool
is_page_aligned addr = addr % page_size == 0

unfoldable pub align_down : ℕ → ℕ
align_down addr = bit_and addr (complement 64 (page_size - 1))

unfoldable pub align_up : ℕ → ℕ
align_up addr = bit_and ((addr + page_size - 1) % 2 ^ 64) (complement 64 (page_size - 1))

-- What `init` reads of a descriptor of the UEFI memory map.
pub record Descriptor : Type 0 where
  pub typ : ℕ
  pub physical_start : ℕ
  pub number_of_pages : ℕ

-- `usize::saturating_add`
abbrev pub saturating_add : ℕ → ℕ → ℕ
saturating_add a b = min (a + b) (2 ^ 64 - 1)

abbrev pub start_page : Descriptor → ℕ
start_page d = d.physical_start / page_size

-- The first loop of `init`: the end of the last page of the map.
unfoldable pub tracked_end_page : List Descriptor → ℕ → ℕ
tracked_end_page [] tracked = tracked
tracked_end_page (d ∷ ds) tracked =
    tracked_end_page ds (max (saturating_add (start_page d) d.number_of_pages) tracked)

-- `for page in start_page..end_page { set_page_free(page); free_pages += 1; }`, with the counter kept
-- in the state.
unfoldable pub set_range_free : ℕ → ℕ → State → State
set_range_free zero page s = s
set_range_free (suc n) page s =
    let freed = set_page_free page s in
    set_range_free n (page + 1) (record freed { free_count = freed.free_count + 1 })

-- The second loop.
unfoldable pub free_descriptors : List Descriptor → State → State
free_descriptors [] s = s
free_descriptors (d ∷ ds) s = free_descriptors ds (
    if not (d.typ == efi_conventional_memory)
    then s
    else if leb s.total_pages (start_page d)
    then s
    else set_range_free (end_page - start_page d) (start_page d) s)
  where
    end_page : ℕ
    end_page = min (saturating_add (start_page d) d.number_of_pages) s.total_pages

-- The third loop, from `page` on: the longest run so far and the current one.
unfoldable pub longest_run : ℕ → ℕ → ℕ → ℕ → State → ℕ
longest_run zero page current_run max_run s = max_run
longest_run (suc n) page current_run max_run s =
    let grown = longest_run n (page + 1) (current_run + 1) (max max_run (current_run + 1)) s in
    let cut = longest_run n (page + 1) 0 max_run s in if is_page_free page s then grown else cut

unfoldable pub init : List Descriptor → State
init memory_map =
    let s = free_descriptors memory_map (record {
      bitmap = replicate (max_pages / 8) 255;
      total_pages = min (tracked_end_page memory_map 0) max_pages;
      free_count = 0;
      next_free_hint = 0;
      largest_free_run = 0;
    }) in
    record s { largest_free_run = longest_run s.total_pages 0 0 0 s }
