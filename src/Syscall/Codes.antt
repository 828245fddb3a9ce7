-- ===== src/Syscall/Codes.antt =====
-- kernel/src/syscall/mod.rs: the codes that a handler returns in the result register, a `u64`.
use atom.Prelude.{ℕ, ◌-◌, ◌^◌}

-- `u64::MAX`
abbrev pub max_u64 : ℕ
max_u64 = 2 ^ 64 - 1

abbrev pub esuccess : ℕ
esuccess = 0

abbrev pub einval : ℕ
einval = max_u64 - 1

abbrev pub enosys : ℕ
enosys = max_u64 - 2

abbrev pub enomem : ℕ
enomem = max_u64 - 3

abbrev pub eperm : ℕ
eperm = max_u64 - 4

abbrev pub ebusy : ℕ
ebusy = max_u64 - 5

abbrev pub emsgsize : ℕ
emsgsize = max_u64 - 6

abbrev pub etimedout : ℕ
etimedout = max_u64 - 7

abbrev pub ewouldblock : ℕ
ewouldblock = max_u64 - 8

abbrev pub edeadlk : ℕ
edeadlk = max_u64 - 9
