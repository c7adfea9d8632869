-- ===== src/Base/Memory.antt =====
-- Byte-addressed memory, copying into it, and positions in units of a fixed size.
use native.Mathlib.Nat.{div-add-mod, div-eq_of_lt-le}
use Prim.Native.Nat.{ℕ, zero, suc, ◌+◌, ◌*◌, ◌/◌, ◌%◌, ◌<◌}
use mathlib.Core.Path.{◌≡◌, refl}
use mathlib.Core.Logic.{◌≢◌}
use native.Mathlib.Omega.{arith}
use native.Mathlib.Decide.{ℕ_discrete}
use desiros.Base.Tests.{◌==◌, if◌then◌else◌}

-- The byte at each address.
abbrev pub Memory : Type 0
Memory = ℕ → ℕ

abbrev pub store : Memory → ℕ → ℕ → Memory
store m a v x = if x == a then v else m x

-- `memcpy(dst, src, n)` for a source that the destination does not overlap, given by its bytes.
unfoldable pub copy_in : Memory → ℕ → (ℕ → ℕ) → ℕ → Memory
copy_in m dst src zero = m
copy_in m dst src (suc n) = store (copy_in m dst src n) (dst + n) (src n)

pub copy_in-inside :
    (m : Memory) (dst : ℕ) (src : ℕ → ℕ) (n i : ℕ) → i < n → copy_in m dst src n (dst + i) ≡ src i
unfolding copy_in
copy_in-inside m dst src zero i h = ground arith
copy_in-inside m dst src (suc n) i h = elim (ℕ_discrete i n) [
  | yes e ↦ rw e (ground arith)
  | no ne ↦ ground (arith, copy_in-inside m dst src n i (omega arith), ne)
]

pub copy_in-outside :
    (m : Memory) (dst : ℕ) (src : ℕ → ℕ) (n a : ℕ)
    → ((i : ℕ) → i < n → a ≢ dst + i)
    → copy_in m dst src n a ≡ m a
unfolding copy_in
copy_in-outside m dst src zero a h = refl
copy_in-outside m dst src (suc n) a h =
    ground (arith, h n (omega arith), copy_in-outside m dst src n a (λ i l. h i (omega arith)))

pub div_within : (n k m : ℕ) → n % m + k < m → (n + k) / m ≡ n / m
div_within n k m h =
    div-eq_of_lt-le m (ground (arith, div-add-mod n m)) (grind (arith, div-add-mod n m))

pub mod_within : (n k m : ℕ) → n % m + k < m → (n + k) % m ≡ n % m + k
mod_within n k m h =
    let d : (n + k) / m ≡ n / m = div_within n k m h in
    let e : m * (n / m) + (n + k) % m ≡ n + k = rw (← d) (div-add-mod (n + k) m) in
    omega (arith, div-add-mod n m)
