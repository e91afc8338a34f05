-- ===== src/Runtime/Abi.antt =====
-- Constants of <cerrno> and of the io_uring interface on Linux, as the headers document them.
use fiberexec.Base.{ℕ, ◌/◌, ◌%◌, ◌^◌, Bool, ◌==◌}

abbrev pub enoent : ℕ
enoent = 2

abbrev pub einval : ℕ
einval = 22

abbrev pub enodata : ℕ
enodata = 61

abbrev pub etime : ℕ
etime = 62

abbrev pub ecanceled : ℕ
ecanceled = 125

-- IORING_CQE_F_BUFFER, _F_MORE and _F_NOTIF are the bits 0, 1 and 3 of a completion's flags.
abbrev bit : ℕ → ℕ → Bool
bit i flags = flags / 2 ^ i % 2 == 1

abbrev pub has_buffer : ℕ → Bool
has_buffer flags = bit 0 flags

abbrev pub has_more : ℕ → Bool
has_more flags = bit 1 flags

abbrev pub is_notif : ℕ → Bool
is_notif flags = bit 3 flags

-- `static_cast<uint16_t>(flags >> IORING_CQE_BUFFER_SHIFT)`
abbrev pub buffer_of : ℕ → ℕ
buffer_of flags = flags / 2 ^ 16 % 2 ^ 16
