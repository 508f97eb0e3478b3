-- ===== src/Base/Words.antt =====
-- Machine words of C on a 64-bit host: `size_t` and `ssize_t`.
use Prim.Native.Nat.{ℕ, ◌+◌, ◌-◌, ◌%◌, ◌^◌, ◌≤◌, ◌<◌}
use mathlib.Core.Path.{◌≡◌}
use native.Mathlib.Omega.{arith}
use unpv13e.Base.Tests.{ltb, if◌then◌else◌}
use unpv13e.Base.Int.{ℤ, pos, negsuc}

-- `size_t` subtraction wraps.
abbrev pub sub_size : ℕ → ℕ → ℕ
sub_size a b = (a + 2 ^ 64 - b) % 2 ^ 64

-- `size_t` addition wraps.
abbrev pub add_size : ℕ → ℕ → ℕ
add_size a b = (a + b) % 2 ^ 64

-- The `ssize_t` that a `size_t` value converts to.
abbrev pub to_ssize : ℕ → ℤ
to_ssize n = if ltb n (2 ^ 63) then pos n else negsuc (2 ^ 64 - n - 1)

pub sub_size_lem : (a b : ℕ) → b ≤ a → a < 2 ^ 64 → sub_size a b ≡ a - b
sub_size_lem a b h k = omega arith

pub to_ssize_lem : (n : ℕ) → n < 2 ^ 63 → to_ssize n ≡ pos n
to_ssize_lem n h = ground arith

-- The `size_t` that an `ssize_t` converts to.
abbrev pub to_size : ℤ → ℕ
to_size (pos n) = n
to_size (negsuc n) = 2 ^ 64 - n - 1
