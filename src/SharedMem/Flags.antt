-- ===== src/SharedMem/Flags.antt =====
-- kernel/src/shared_mem.rs, `RegionFlags`: the two raw forms.
use atom.Prelude.{Bool, true, false, not, ◌&&◌, ◌≡◌, refl, if◌then◌else◌}
use atom.SharedMem.{RegionFlags, from_raw, to_raw}

abbrev flags_of : Bool → Bool → Bool → RegionFlags
flags_of r w x = record { read = r; write = w; execute = x }

table :
    (r w x : Bool)
    → from_raw (to_raw (flags_of r w x)) ≡ (if x && not r then flags_of r w x else flags_of x w r)
unfolding from_raw to_raw
table true true true = refl
table true true false = refl
table true false true = refl
table true false false = refl
table false true true = refl
table false true false = refl
table false false true = refl
table false false false = refl

-- Reading back what `to_raw` wrote gives the same flags if the region may be executed and not read;
-- else it gives the flags with read and execute swapped.
pub from_raw-to_raw :
    (f : RegionFlags)
    → from_raw (to_raw f) ≡ (
        if f.execute && not f.read
        then f
        else record { read = f.execute; write = f.write; execute = f.read })
from_raw-to_raw f = table f.read f.write f.execute
