-- ===== src/Mm/Pmm/Align.antt =====
-- kernel/src/mm/pmm.rs, `align_down` and `align_up`: rounding by a mask.
use atom.Prelude.{ℕ, ◌+◌, ◌-◌, ◌*◌, ◌/◌, ◌%◌, ◌^◌, ◌≤◌, ◌<◌, ◌≡◌, true, arith}
use atom.Prelude.Bits.{and-clear_low}
use atom.Mm.Pmm.{page_size, align_down, align_up, is_page_aligned}

-- `align_down` gives the last multiple of the page size that is no greater than the address.
pub align_down-IsAligned :
    (addr : ℕ)
    → addr < 2 ^ 64
    → (is_page_aligned (align_down addr) ≡ true)
      × (align_down addr ≤ addr)
      × (addr < align_down addr + page_size)
unfolding align_down is_page_aligned
align_down-IsAligned addr h =
    let e = and-clear_low 12 64 addr (omega arith) h in
    (ground (arith, e), omega (arith, e), omega (arith, e))

-- For an address that is at least a page below the end of the address space, `align_up` gives the
-- first multiple of the page size that is no less than the address.
pub align_up-IsAligned :
    (addr : ℕ)
    → addr + page_size ≤ 2 ^ 64
    → (is_page_aligned (align_up addr) ≡ true)
      × (addr ≤ align_up addr)
      × (align_up addr < addr + page_size)
unfolding align_up is_page_aligned
align_up-IsAligned addr h =
    let e = and-clear_low 12 64 ((addr + page_size - 1) % 2 ^ 64) (omega arith) (omega arith) in
    (ground (arith, e), omega (arith, e), omega (arith, e))

pub align_up_lem :
    (addr : ℕ) → align_up addr ≡ (addr + page_size - 1) % 2 ^ 64 / page_size * page_size
unfolding align_up
align_up_lem addr =
    and-clear_low 12 64 ((addr + page_size - 1) % 2 ^ 64) (omega arith) (omega arith)
