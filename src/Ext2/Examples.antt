-- ===== src/Ext2/Examples.antt =====
-- A file system of two groups of 16 blocks and 8 inodes, and the theorems at it.
use desiros.Base.{◌+◌, ◌%◌, ◌≡◌, ◌==◌, refl, if◌then◌else◌}
use desiros.Ext2.{Ext2, alloc_block}

-- The blocks of 1024 bytes: block 3 + i is the bitmap of the group i, in which the first 9 blocks of
-- the first group are in use.
abbrev two_groups : Ext2
two_groups = record {
  superblock = record {
    s_log_block_size = 0;
    s_blocks_per_group = 16;
    s_inodes_per_group = 8;
    s_inode_size = 128;
  };
  n_groups = 2;
  group_desc_table = λ i. record {
    bg_block_bitmap = 3 + i;
    bg_inode_bitmap = 5 + i;
    bg_inode_table = 7 + i % 2;
    bg_free_blocks_count = 7;
    bg_free_inodes_count = 8;
  };
  inode_bitmap = λ i k. 0;
  device_block = 512;
  fresh = λ w a. 0xEE;
  disk = λ a. if a == 0xC00 then 255 else if a == 0xC01 then 1 else 0;
}

ninth_block : (alloc_block two_groups).0 ≡ 9
unfolding alloc_block
ninth_block = refl
