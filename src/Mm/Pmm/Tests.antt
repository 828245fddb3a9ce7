-- ===== src/Mm/Pmm/Tests.antt =====
-- The page allocator on twelve pages, of which the first four are free.
use atom.Prelude.{
  ℕ, ◌+◌, ◌*◌, ◌≤◌, ◌<◌, ◌≡◌, refl, List, [], ◌∷◌, some, true, arith, if◌then◌else◌, ◌==◌,
}
use atom.Mm.Pmm.{
  State, Descriptor, page_size, is_page_free, bit_clear, find_run, run_is_free, alloc_run,
  alloc_page, alloc_pages, free_page, free_pages, align_up, is_page_aligned, init,
}
use atom.Mm.Pmm.Count.{count_true, free_pages_of}
use atom.Mm.Pmm.Alloc.{Inv, Allocates, alloc_page-next_free_hint, alloc_pages-Allocates}
use atom.Mm.Pmm.Free.{free_page-Frees_page, free_pages-alloc_pages, free_page-untracked}
use atom.Mm.Pmm.Init.{IsSeparate, covered, total_of, is_page_free-init, init-Inv}
use atom.Mm.Pmm.Align.{align_up-IsAligned}

abbrev pub small : State
small = record {
  bitmap = 240 ∷ 255 ∷ [];
  total_pages = 12;
  free_count = 4;
  next_free_hint = 0;
  largest_free_run = 4;
}

pub small-Inv : Inv small
unfolding free_pages_of count_true is_page_free bit_clear
small-Inv = record {
  valid = record {
    sized = omega arith;
    bytes = (omega arith, (omega arith, tt));
    tracked = omega arith;
  };
  counted = refl;
}

alloc_page-next_free_hint_example :
    Allocates 1 small (alloc_page small)
    × ((alloc_page (record small { next_free_hint = 3 })).0 ≡ (alloc_page small).0)
alloc_page-next_free_hint_example = alloc_page-next_free_hint small 3 small-Inv

alloc_pages-Allocates_example : Allocates 3 small (alloc_pages 3 small)
alloc_pages-Allocates_example = alloc_pages-Allocates 3 small (omega arith) small-Inv

three_given : (alloc_pages 3 small).0 ≡ some 0
unfolding alloc_pages alloc_run find_run run_is_free is_page_free bit_clear
three_given = refl

free_pages-alloc_pages_example :
    let back = free_pages 0 3 (alloc_pages 3 small).1 in
    ((q : ℕ) → is_page_free q back ≡ is_page_free q small)
    × (back.free_count ≡ small.free_count)
    × Inv back
free_pages-alloc_pages_example =
    free_pages-alloc_pages 3 0 small (omega arith) small-Inv three_given

free_page-Frees_page_example :
    ((q : ℕ)
      → is_page_free q (free_page (5 * page_size) small)
        ≡ (if 5 == q then true else is_page_free q small))
    × Inv (free_page (5 * page_size) small)
free_page-Frees_page_example = free_page-Frees_page 5 small small-Inv (omega arith)

free_page-untracked_example :
    let after = free_page (20 * page_size) small in
    ((q : ℕ) → is_page_free q after ≡ is_page_free q small)
    × (after.free_count ≡ free_pages_of after + 1)
free_page-untracked_example = free_page-untracked 20 small small-Inv (omega arith) (omega arith)

-- Pages 0 to 3 of conventional memory, and page 4 of another type.
abbrev memory_map : List Descriptor
memory_map =
    record { typ = 7; physical_start = 0; number_of_pages = 4 }
    ∷ record { typ = 3; physical_start = 16384; number_of_pages = 1 }
    ∷ []

memory_map-IsSeparate : IsSeparate (total_of memory_map) memory_map
memory_map-IsSeparate = ((λ q c. refl), ((λ q c. refl), tt))

init-Inv_example : Inv (init memory_map)
init-Inv_example = init-Inv memory_map memory_map-IsSeparate

is_page_free-init_example :
    is_page_free 2 (init memory_map) ≡ covered (total_of memory_map) memory_map 2
is_page_free-init_example = is_page_free-init memory_map 2

align_up-IsAligned_example :
    (is_page_aligned (align_up 5000) ≡ true)
    × (5000 ≤ align_up 5000)
    × (align_up 5000 < 5000 + page_size)
align_up-IsAligned_example = align_up-IsAligned 5000 (omega arith)
