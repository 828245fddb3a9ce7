-- ===== src/Cap/Permissions/Attenuation.antt =====
-- What `is_subset_of` promises: a capability derived with fewer permissions allows nothing more.
use atom.Prelude.{◌≡◌, ◌↔◌, true, ==_iff, bit_and}
use atom.Prelude.Bits.{
  and-complement_zero, and_zero-complement, and_keeps_trans, and_self, and_subset_trans,
}
use atom.Cap.Permissions.{CapPermissions, contains, is_subset_of, IsWord}

pub is_subset_of_iff :
    (a b : CapPermissions)
    → IsWord a
    → IsWord b
    → (is_subset_of a b ≡ true) ↔ (bit_and a.bits b.bits ≡ a.bits)
unfolding is_subset_of
is_subset_of_iff a b ha hb = (
  λ h. and-complement_zero 32 a.bits b.bits ha hb ((==_iff _ 0).0 h),
  λ h. (==_iff _ 0).1 (and_zero-complement 32 a.bits b.bits ha hb h),
)

-- For permissions of 32 bits, if `a` is a subset of `b` by `is_subset_of`, every permission that `a`
-- contains is one that `b` contains.
pub contains-is_subset_of :
    (a b p : CapPermissions)
    → IsWord a
    → IsWord b
    → IsWord p
    → is_subset_of a b ≡ true
    → contains a p ≡ true
    → contains b p ≡ true
unfolding contains
contains-is_subset_of a b p ha hb hp sub has = (==_iff _ p.bits).1 (
    and_keeps_trans 32 p.bits a.bits b.bits hp ((is_subset_of_iff a b ha hb).0 sub)
      ((==_iff _ p.bits).0 has))

-- Being a subset is reflexive and transitive.
pub is_subset_of_refl : (a : CapPermissions) → IsWord a → is_subset_of a a ≡ true
is_subset_of_refl a ha = (is_subset_of_iff a a ha ha).1 (and_self 32 a.bits ha)

pub is_subset_of_trans :
    (a b c : CapPermissions)
    → IsWord a
    → IsWord b
    → IsWord c
    → is_subset_of a b ≡ true
    → is_subset_of b c ≡ true
    → is_subset_of a c ≡ true
is_subset_of_trans a b c ha hb hc p q = (is_subset_of_iff a c ha hc).1 (
    and_subset_trans 32 a.bits b.bits c.bits ha ((is_subset_of_iff a b ha hb).0 p)
      ((is_subset_of_iff b c hb hc).0 q))
