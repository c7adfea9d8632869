-- ===== src/Blockdev/Positions.antt =====
-- Positions in a device of blocks: what the loops of block_dev.c rely on.
use native.Mathlib.Nat.{div-add-mod, mod-lt, le-div_iff_mul-le, mul_comm, mul-le-mul_left}
use desiros.Base.{ℕ, ◌+◌, ◌-◌, ◌*◌, ◌/◌, ◌%◌, ◌<◌, ◌≤◌, ◌≡◌, arith, ltb, if◌then◌else◌}
use desiros.Blockdev.{BlockdevInstance, chunk}

-- How much of `left` bytes from `offset` on lies in front of `size`.
abbrev pub within : ℕ → ℕ → ℕ → ℕ
within size offset left = if ltb left (size - offset) then left else size - offset

abbrev pub device_size : BlockdevInstance → ℕ
device_size b = b.block_size * b.number_of_blocks

module _ (b : BlockdevInstance) (pos : 0 < b.block_size) (offset : ℕ) where
  pub at_end : b.number_of_blocks ≤ offset / b.block_size → device_size b ≤ offset
  at_end h = rw (mul_comm b.block_size b.number_of_blocks) ((le-div_iff_mul-le pos).0 h)

  pub before_end :
      offset / b.block_size < b.number_of_blocks
      → offset + (b.block_size - offset % b.block_size) ≤ device_size b
  before_end h =
      grind
        (arith, div-add-mod offset b.block_size, mod-lt offset pos, mul-le-mul_left b.block_size h)

  pub chunk-pos : (left : ℕ) → 0 < left → 0 < chunk b offset left
  chunk-pos left l = ground (arith, mod-lt offset pos)

  pub chunk-le : (left : ℕ) → chunk b offset left ≤ left
  chunk-le left = ground arith

  pub chunk-block : (left : ℕ) → offset % b.block_size + chunk b offset left ≤ b.block_size
  chunk-block left = ground (arith, mod-lt offset pos)

pub within-step :
    (size offset left n : ℕ)
    → n ≤ left
    → offset + n ≤ size
    → n + within size (offset + n) (left - n) ≡ within size offset left
within-step size offset left n l s = ground arith

pub within-end : (size offset left : ℕ) → size ≤ offset → within size offset left ≡ 0
within-end size offset left l = ground arith
