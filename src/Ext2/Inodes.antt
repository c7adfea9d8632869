-- ===== src/Ext2/Inodes.antt =====
-- Inodes in the tables of their groups: `write_inode` and `read_inode`.
use desiros.Base.{ℕ, ◌+◌, ◌-◌, ◌*◌, ◌/◌, ◌≤◌, ◌<◌, ◌≡◌, ◌≢◌, ltb, ◌&&◌, if◌then◌else◌}
use desiros.Base.Words.{u32_mod}
use desiros.Ext2.{
  Ext2, block_size, inode_bytes, inode_per_block, inode_block, inode_offset, read_inode, touched,
}

-- The byte of the disk at which an inode begins.
abbrev pub inode_place : Ext2 → ℕ → ℕ
inode_place s inum = inode_block s inum * block_size s.superblock + inode_offset s inum

-- The tables of inodes: an inode's slot holds its structure, the slots of a block fit in it, and the
-- table's blocks have 32-bit numbers.
pub record Tables (s : Ext2) : Type 0 where
  pub wide : inode_bytes ≤ s.superblock.s_inode_size
  pub some_fit : 0 < inode_per_block s.superblock
  pub slots : inode_per_block s.superblock * s.superblock.s_inode_size ≤ block_size s.superblock
  pub numbers :
      (g : ℕ)
      → (s.group_desc_table g).bg_inode_table
          + s.superblock.s_inodes_per_group / inode_per_block s.superblock
        < u32_mod
  pub inodes : 0 < s.superblock.s_inodes_per_group

-- What a write of one inode does to the reads of all inodes of its group: what stands in a block of
-- the device that it touches is replaced by what the block from `kmalloc` holds.
pub record Written (s : Ext2) (inum : ℕ) (einode : ℕ → ℕ) (t : Ext2) : Type 0 where
  pub here : (old : ℕ → ℕ) (k : ℕ) → k < inode_bytes → read_inode t inum old k ≡ einode k
  pub others :
      (j : ℕ) (old : ℕ → ℕ) (k : ℕ)
      → j ≢ 0
      → j ≢ inum
      → (j - 1) / s.superblock.s_inodes_per_group ≡ (inum - 1) / s.superblock.s_inodes_per_group
      → read_inode t j old k ≡ (
          if ltb k inode_bytes
            && touched s.device_block (inode_place s inum) inode_bytes (inode_place s j + k)
          then s.fresh (inode_place s inum) (inode_place s j + k)
          else read_inode s j old k)
