-- ===== src/Ext2/Bitmaps.antt =====
-- `alloc_block` finds a free block and takes it, and `free_block` gives it back.
use mathlib.Core.Path.{subst}
use desiros.Base.{
  ℕ, zero, suc, ◌+◌, ◌*◌, ◌/◌, ◌<◌, ◌≡◌, ◌≢◌, ◌⊎◌, inl, inr, true, false, Bool-cases, Option, none,
  some, arith, ℕ_discrete,
}
use desiros.Base.Memory.{Memory}
use desiros.Ext2.{
  Ext2, bit_at, byte_set, block_size, write_data, free_bit, block_bitmap, free_block,
}

-- The answer of a search for a clear bit: none is clear, or the first clear one.
pub data FreeBit (m : Memory) (base n : ℕ) : Option ℕ → Type 0 where
  all_set : ((k : ℕ) → k < n → bit_at m base k ≡ true) → FreeBit m base n none
  first_clear :
      (ib : ℕ)
      → ib < n
      → bit_at m base ib ≡ false
      → ((k : ℕ) → k < ib → bit_at m base k ≡ true)
      → FreeBit m base n (some ib)

free_bit-from :
    (m : Memory) (base n ib : ℕ)
    → ((k : ℕ) → k < ib → bit_at m base k ≡ true)
    → FreeBit m base (ib + n) (free_bit m base n ib)
unfolding free_bit
free_bit-from m base zero ib h = all_set (λ k l. h k (omega (arith, l)))
free_bit-from m base (suc n) ib h = elim (Bool-cases (bit_at m base ib)) [
  | inr e ↦ rw (free_bit, e) (first_clear ib (omega arith) e h)
  | inl e ↦
      let more : (k : ℕ) → k < ib + 1 → bit_at m base k ≡ true =
        λ k l. elim (ℕ_discrete k ib) [ yes z ↦ rw z e | no z ↦ h k (omega (arith, l, z)) ] in
      let shift : ib + 1 + n ≡ ib + suc n = omega arith in
      rw (free_bit, e) (rw (← shift) (free_bit-from m base n (ib + 1) more))
]

pub free_bit_lem : (m : Memory) (base n : ℕ) → FreeBit m base n (free_bit m base n 0)
free_bit_lem m base n =
    let e : 0 + n ≡ n = omega arith in
    subst (λ y. FreeBit m base y (free_bit m base n 0)) e
      (free_bit-from m base n 0 (λ k l. ground (arith, l)))

-- A group that has no free block: its count says so, or every bit of its bitmap is set.
abbrev pub Full : Ext2 → ℕ → Type 0
Full s i =
    ((s.group_desc_table i).bg_free_blocks_count ≡ 0)
    ⊎ ((k : ℕ) → k < s.superblock.s_blocks_per_group → bit_at s.disk (block_bitmap s i) k ≡ true)

-- The answer of the search over the groups.
pub data FreeBlock (s : Ext2) (n : ℕ) : Option (ℕ × ℕ) → Type 0 where
  all_full : ((i : ℕ) → i < n → Full s i) → FreeBlock s n none
  first_free :
      (i ib : ℕ)
      → i < n
      → ib < s.superblock.s_blocks_per_group
      → bit_at s.disk (block_bitmap s i) ib ≡ false
      → ((k : ℕ) → k < ib → bit_at s.disk (block_bitmap s i) k ≡ true)
      → ((j : ℕ) → j < i → Full s j)
      → FreeBlock s n (some (i, ib))

-- The state with the bit set.
abbrev with_bit : Ext2 → ℕ → ℕ → Ext2
with_bit s i ib = record s {
  disk =
      write_data s s.disk (block_bitmap s i + ib / 8) (λ _. byte_set s.disk (block_bitmap s i) ib)
        1;
}

-- The result of `alloc_block`: the block was free, is the first such block, and is taken now; no byte
-- of another block of the device changes, and `free_block` makes the bitmap's byte what it was.
pub record Taken (s : Ext2) (i ib : ℕ) (blk : ℕ) (t : Ext2) : Type 0 where
  pub group : i < s.n_groups
  pub bit : ib < s.superblock.s_blocks_per_group
  pub number : blk ≡ ib + i * s.superblock.s_blocks_per_group
  pub was_free : bit_at s.disk (block_bitmap s i) ib ≡ false
  pub first : (k : ℕ) → k < ib → bit_at s.disk (block_bitmap s i) k ≡ true
  pub groups_full : (j : ℕ) → j < i → Full s j
  pub is_taken : bit_at t.disk (block_bitmap s i) ib ≡ true
  pub in_bitmap : ib / 8 < block_size s.superblock
  pub others :
      (a : ℕ)
      → a / s.device_block ≢ (block_bitmap s i + ib / 8) / s.device_block
      → t.disk a ≡ s.disk a
  pub given_back :
      (free_block t blk).disk (block_bitmap s i + ib / 8) ≡ s.disk (block_bitmap s i + ib / 8)
  pub others_back :
      (a : ℕ)
      → a / s.device_block ≢ (block_bitmap s i + ib / 8) / s.device_block
      → (free_block t blk).disk a ≡ s.disk a

pub data Allocated (s : Ext2) : ℕ × Ext2 → Type 0 where
  no_block : ((i : ℕ) → i < s.n_groups → Full s i) → Allocated s (0, s)
  taken : (i ib blk : ℕ) (t : Ext2) → Taken s i ib blk t → Allocated s (blk, t)
