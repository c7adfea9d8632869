-- ===== src/Ext2.antt =====
-- Blocks and inodes of the Ext2 file system, fs/ext2/ext2_internal.c. `read_data` and `write_data`
-- are blockdev_wrap_read and blockdev_wrap_write of block_dev.c, whose status the code does not look
-- at: on the bytes of the device, in addresses before its end, a read takes bytes as they are, and a
-- write leaves whole blocks of the device. An inode is the sequence of the bytes of `struct ext2_inode`.
pub mod Bitmaps
pub mod Inodes
mod Examples
use desiros.Base.{
  ℕ, zero, suc, ◌+◌, ◌-◌, ◌*◌, ◌/◌, ◌%◌, ◌^◌, Bool, true, false, ◌&&◌, not, Option, none, some, ltb,
  leb, ◌==◌, if◌then◌else◌,
}
use desiros.Base.Words.{add32, u32_mod}
use desiros.Base.Memory.{Memory, copy_in}

pub record Superblock : Type 0 where
  pub s_log_block_size : ℕ
  pub s_blocks_per_group : ℕ
  pub s_inodes_per_group : ℕ
  pub s_inode_size : ℕ

pub record GroupDesc : Type 0 where
  pub bg_block_bitmap : ℕ
  pub bg_inode_bitmap : ℕ
  pub bg_inode_table : ℕ
  pub bg_free_blocks_count : ℕ
  pub bg_free_inodes_count : ℕ

-- `struct _ext2_fs_instance_t`, with the bytes of the disk. `inode_bitmap` is the copy of the
-- inodes' bitmaps in `group_desc_table_internal`. `device_block` is the device's block size, and
-- `fresh` what the blocks of `kmalloc` hold, by the address of the write and the place on the device.
pub record Ext2 : Type 0 where
  pub superblock : Superblock
  pub n_groups : ℕ
  pub group_desc_table : ℕ → GroupDesc
  pub inode_bitmap : ℕ → Memory
  pub disk : Memory
  pub device_block : ℕ
  pub fresh : ℕ → ℕ → ℕ

-- The place lies in a block of the device that a write of `n` bytes, at least one, touches.
abbrev pub touched : ℕ → ℕ → ℕ → ℕ → Bool
touched db a n x = leb (a / db) (x / db) && leb (x / db) ((a + (n - 1)) / db)

-- The device before the bytes are copied: `blockdev_generic_write` does not read the blocks that it
-- writes, and takes what `kmalloc` returns.
abbrev pub spoiled : Ext2 → Memory → ℕ → ℕ → Memory
spoiled s m a n x = if touched s.device_block a n x then s.fresh a x else m x

abbrev pub write_data : Ext2 → Memory → ℕ → (ℕ → ℕ) → ℕ → Memory
write_data s m a bytes n = copy_in (spoiled s m a n) a bytes n

abbrev pub block_size : Superblock → ℕ
block_size b = 1024 * 2 ^ b.s_log_block_size

-- `addr * (1024 << s_log_block_size)`, in 32 bits.
abbrev pub block_address : Superblock → ℕ → ℕ
block_address b addr = addr * block_size b % u32_mod

-- `byte & (1 << bit)`, `byte | (1 << bit)` and `byte & ~(1 << bit)`.
abbrev pub bit_of : ℕ → ℕ → Bool
bit_of byte bit = ((byte / 2 ^ bit) % 2) == 1

abbrev pub set_bit : ℕ → ℕ → ℕ
set_bit byte bit = if bit_of byte bit then byte else byte + 2 ^ bit

abbrev pub clear_bit : ℕ → ℕ → ℕ
clear_bit byte bit = if bit_of byte bit then byte - 2 ^ bit else byte

-- The bit of a bitmap that starts at an address.
abbrev pub bit_at : Memory → ℕ → ℕ → Bool
bit_at m base ib = bit_of (m (base + ib / 8)) (ib % 8)

-- The byte of a bitmap with a bit set.
abbrev pub byte_set : Memory → ℕ → ℕ → ℕ
byte_set m base ib = set_bit (m (base + ib / 8)) (ib % 8)

-- The loops over the `n` bits from `ib` on.
unfoldable pub free_bit : Memory → ℕ → ℕ → ℕ → Option ℕ
free_bit m base zero ib = none
free_bit m base (suc n) ib =
    let rest = free_bit m base n (ib + 1) in if bit_at m base ib then rest else some ib

abbrev pub block_bitmap : Ext2 → ℕ → ℕ
block_bitmap s i = block_address s.superblock (s.group_desc_table i).bg_block_bitmap

-- The loop of `alloc_block` over the `n` groups from `i` on: the group and the bit that it finds.
unfoldable pub find_block : Ext2 → ℕ → ℕ → Option (ℕ × ℕ)
unfolding free_bit
find_block s zero i = none
find_block s (suc n) i =
    let rest = find_block s n (i + 1) in
    if (s.group_desc_table i).bg_free_blocks_count == 0
    then rest
    else elim (free_bit s.disk (block_bitmap s i) s.superblock.s_blocks_per_group 0) [
      | none ↦ rest
      | some ib ↦ some (i, ib)
    ]

unfoldable pub alloc_block : Ext2 → ℕ × Ext2
unfolding find_block
alloc_block s = elim (find_block s s.n_groups 0) [
  | none ↦ (0, s)
  | some (i, ib) ↦ (
    add32 ib (i * s.superblock.s_blocks_per_group % u32_mod),
    record s {
      disk =
          write_data s s.disk (block_bitmap s i + ib / 8)
            (λ _. byte_set s.disk (block_bitmap s i) ib) 1;
    },
  )
]

unfoldable pub free_block : Ext2 → ℕ → Ext2
free_block s blk =
    let i = blk / s.superblock.s_blocks_per_group in
    let ib = blk - s.superblock.s_blocks_per_group * i in
    let a = block_bitmap s i + ib / 8 in
    record s { disk = write_data s s.disk a (λ _. clear_bit (s.disk a) (ib % 8)) 1 }

-- `sizeof(struct ext2_inode)`.
abbrev pub inode_bytes : ℕ
inode_bytes = 128

-- Where an inode stands: the block of the group's table and the offset in it.
abbrev pub inode_per_block : Superblock → ℕ
inode_per_block b = block_size b / b.s_inode_size

abbrev pub inode_block : Ext2 → ℕ → ℕ
inode_block s inum =
    let group = (inum - 1) / s.superblock.s_inodes_per_group in
    let inode_in_group = (inum - 1) % s.superblock.s_inodes_per_group in
    add32 (s.group_desc_table group).bg_inode_table (inode_in_group / inode_per_block s.superblock)

abbrev pub inode_offset : Ext2 → ℕ → ℕ
inode_offset s inum =
    (inum - 1)
    % s.superblock.s_inodes_per_group
    % inode_per_block s.superblock
    * s.superblock.s_inode_size

-- For inodes from 1 on. The first `n` bytes of the inode are read, the others are those of the fresh structure at `old`.
unfoldable pub read_inode : Ext2 → ℕ → (ℕ → ℕ) → ℕ → ℕ
read_inode s inum old k =
    let n =
      if leb s.superblock.s_inode_size inode_bytes
      then s.superblock.s_inode_size
      else inode_bytes in
    if ltb k n
    then s.disk (inode_block s inum * block_size s.superblock + inode_offset s inum + k)
    else old k

-- `none` stands for -ENOENT.
unfoldable pub write_inode : Ext2 → ℕ → (ℕ → ℕ) → Option Ext2
write_inode s inum einode =
    if inum == 0
    then none
    else some (record s {
      disk =
          write_data s s.disk (inode_block s inum * block_size s.superblock + inode_offset s inum)
            einode inode_bytes;
    })

-- The loop of `alloc_inode` over the groups: the group and the bit in the copy of its bitmap.
unfoldable pub find_inode : Ext2 → ℕ → ℕ → Option (ℕ × ℕ)
unfolding free_bit
find_inode s zero i = none
find_inode s (suc n) i =
    let rest = find_inode s n (i + 1) in
    if (s.group_desc_table i).bg_free_inodes_count == 0
    then rest
    else elim (free_bit (s.inode_bitmap i) 0 s.superblock.s_inodes_per_group 0) [
      | none ↦ rest
      | some ib ↦ some (i, ib)
    ]

-- The inode is written at the place of the bit in the table, then the byte of the bitmap.
unfoldable pub alloc_inode : Ext2 → (ℕ → ℕ) → ℕ × Ext2
unfolding find_inode
alloc_inode s inode = elim (find_inode s s.n_groups 0) [
  | none ↦ (0, s)
  | some (i, ib) ↦
      let g = s.group_desc_table i in
      let table =
        add32 (block_address s.superblock g.bg_inode_table) (inode_bytes * ib % u32_mod) in
      let byte = byte_set (s.inode_bitmap i) 0 ib in
      let bitmap : Memory = λ k. if k == ib / 8 then byte else s.inode_bitmap i k in
      let written = write_data s s.disk table inode inode_bytes in
      (
        add32 (add32 (i * s.superblock.s_inodes_per_group % u32_mod) ib) 1,
        record s {
          inode_bitmap = λ j. if j == i then bitmap else s.inode_bitmap j;
          disk =
              write_data s written (add32 (block_address s.superblock g.bg_inode_bitmap) (ib / 8))
                (λ _. byte) 1;
        },
      )
]
