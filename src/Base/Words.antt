-- ===== src/Base/Words.antt =====
-- 32-bit machine words as native numbers below 2 ^ 32.
use Prim.Native.Nat.{ℕ, ◌+◌, ◌-◌, ◌*◌, ◌/◌, ◌%◌, ◌^◌}
use mathlib.Core.Bool.{Bool}
use desiros.Base.Tests.{◌==◌}

abbrev pub u32_mod : ℕ
u32_mod = 2 ^ 32

-- uint32_t a + b and a - b.
abbrev pub add32 : ℕ → ℕ → ℕ
add32 a b = (a + b) % u32_mod

abbrev pub sub32 : ℕ → ℕ → ℕ
sub32 a b = (a + u32_mod - b) % u32_mod

-- `PAGE_SIZE`, and the alignment macros of include/macros.h at it. The mask `~(boundary - 1)` keeps
-- the multiple of the boundary below the value.
abbrev pub page_size : ℕ
page_size = 4096

abbrev pub page_align_inf : ℕ → ℕ
page_align_inf v = v / page_size * page_size

abbrev pub page_align_sup : ℕ → ℕ
page_align_sup v = add32 (sub32 v 1 / page_size * page_size) page_size

abbrev pub is_page_aligned : ℕ → Bool
is_page_aligned v = (v % page_size) == 0
