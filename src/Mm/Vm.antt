-- ===== src/Mm/Vm.antt =====
-- kernel/src/mm/vm.rs: the flags of a page and the errors of the virtual memory manager.
pub mod Tables
pub mod Access
pub mod Descriptors
pub mod Tree
pub mod Seen
pub mod Changes
pub mod Words
pub mod NewTable
pub mod Grow
pub mod Missing
pub mod Ensure
pub mod Failing
pub mod Mapped
mod Tests
use atom.Prelude.{ℕ, ◌^◌, bit_and, bit_or}
use atom.Prelude.Bits.{complement}

pub data VmError : Type 0 where
  not_initialized unaligned already_mapped not_mapped out_of_memory : VmError

-- A `u64` of flags.
pub record PageFlags : Type 0 where
  pub bits : ℕ

abbrev pub present : PageFlags
present = record { bits = 1 }

abbrev pub writable : PageFlags
writable = record { bits = 2 }

abbrev pub user : PageFlags
user = record { bits = 4 }

abbrev pub write_through : PageFlags
write_through = record { bits = 8 }

abbrev pub cache_disable : PageFlags
cache_disable = record { bits = 16 }

abbrev pub global : PageFlags
global = record { bits = 256 }

abbrev pub no_execute : PageFlags
no_execute = record { bits = 2 ^ 63 }

-- `BitOr`
unfoldable pub union : PageFlags → PageFlags → PageFlags
union self rhs = record { bits = bit_or self.bits rhs.bits }

unfoldable pub with_nx : PageFlags → PageFlags
with_nx self = record { bits = bit_or self.bits no_execute.bits }

unfoldable pub without : PageFlags → PageFlags → PageFlags
without self other = record { bits = bit_and self.bits (complement 64 other.bits) }

unfoldable pub kernel_rw : PageFlags
kernel_rw = union (union present writable) global

unfoldable pub kernel_rw_nx : PageFlags
kernel_rw_nx = record { bits = bit_or kernel_rw.bits no_execute.bits }
