-- ===== src/Cap/Permissions.antt =====
-- kernel/src/cap.rs, `CapPermissions`: a `u32` of flags.
pub mod Attenuation
use atom.Prelude.{ℕ, ◌<◌, ◌^◌, Bool, bit_and, bit_or, ◌==◌}
use atom.Prelude.Bits.{complement}

pub record CapPermissions : Type 0 where
  pub bits : ℕ

-- `CapPermissions::READ` (1 << 0), `WRITE` (1 << 1), `EXECUTE` (1 << 2), `GRANT` (1 << 3) and
-- `REVOKE` (1 << 4).
abbrev pub read : CapPermissions
read = record { bits = 1 }

abbrev pub write : CapPermissions
write = record { bits = 2 }

abbrev pub execute : CapPermissions
execute = record { bits = 4 }

abbrev pub grant : CapPermissions
grant = record { bits = 8 }

abbrev pub revoke : CapPermissions
revoke = record { bits = 16 }

unfoldable pub contains : CapPermissions → CapPermissions → Bool
contains self other = bit_and self.bits other.bits == other.bits

unfoldable pub union : CapPermissions → CapPermissions → CapPermissions
union self other = record { bits = bit_or self.bits other.bits }

unfoldable pub intersection : CapPermissions → CapPermissions → CapPermissions
intersection self other = record { bits = bit_and self.bits other.bits }

unfoldable pub is_subset_of : CapPermissions → CapPermissions → Bool
is_subset_of self other = bit_and self.bits (complement 32 other.bits) == 0

-- The bits fit the `u32`.
abbrev pub IsWord : CapPermissions → Type 0
IsWord p = p.bits < 2 ^ 32
