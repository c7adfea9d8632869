-- ===== src/Blockdev/Examples.antt =====
-- Runs of the block devices on a disk of blocks of four bytes, and the theorems at them.
use desiros.Base.{
  ℕ, ◌+◌, ◌*◌, ◌/◌, ◌%◌, ◌<◌, ◌≤◌, ◌≡◌, refl, ◌⊎◌, arith, some, none, [], ◌∷◌, ltb, if◌then◌else◌,
  ◌==◌,
}
use desiros.Base.Memory.{Memory}
use desiros.Blockdev.{
  BlockdevOperations, BlockdevInstance, Registered, register_disk, register_partition, ref_instance,
  release_instance, lookup_blockdev_instance, generic_read, generic_write,
}
use desiros.Blockdev.Positions.{within, device_size}
use desiros.Blockdev.Registry.{WellRegistered}
use desiros.Blockdev.Registering.{
  DiskRegistered, register_disk_lem, PartitionRegistered, register_partition_lem,
  release-ref_instance,
}
use desiros.Blockdev.Reading.{Read, Readable, generic_read_lem}
use desiros.Blockdev.Writing.{generic_write_count, generic_write_block}

abbrev Disk : Type 0
Disk = ℕ → ℕ → ℕ

-- Blocks of four bytes; what lies behind them in a buffer stays.
abbrev ram : BlockdevOperations Disk
ram = record {
  read_block = λ d old block i. if ltb i 4 then d block i else old i;
  write_block = λ d bytes block k i. if k == block then bytes i else d k i;
}

abbrev device : BlockdevInstance
device = record {
  uid = 0;
  block_size = 4;
  number_of_blocks = 3;
  parent_blockdev = none;
  index_of_first_block = 1;
  device_class = 3;
  device_instance = 1;
  operations = 0;
  custom_data = 0;
  ref_cnt = 1;
}

abbrev numbered : Disk
numbered block i = 10 * block + i

abbrev blank : Memory
blank a = 0

device-Readable : Readable ram device numbered numbered
device-Readable = record {
  size_pos = omega arith;
  addressable = omega arith;
  fills = λ old block i l. ground arith;
}

generic_read_lem_example :
    (m1 : Memory) × (generic_read ram device numbered (λ _ _. 0) blank 6 100 20
      ≡ some (within (device_size device) 6 20, m1))
    × Read device numbered blank m1 6 100 (within (device_size device) 6 20)
generic_read_lem_example =
    generic_read_lem device-Readable (λ _ _. 0) 100 20 (omega arith) blank 6 (omega arith)

generic_write_count_example :
    (d1 : Disk) × (generic_write ram device numbered (λ _ _. 0) blank 6 100 20
      ≡ some (within (device_size device) 6 20, d1))
generic_write_count_example =
    generic_write_count ram device (omega arith) (λ _ _. 0) blank 100 20 (omega arith) numbered 6
      (omega arith)

generic_write_block_example :
    (block : ℕ → ℕ) × (generic_write ram device numbered (λ _ _. 9) blank 5 100 2
      ≡ some (2, ram.write_block numbered block (5 / 4 + 1)))
    × ((i : ℕ) → i < 2 → block (5 % 4 + i) ≡ blank (100 + i))
    × ((i : ℕ) → (i < 5 % 4) ⊎ (5 % 4 + 2 ≤ i) → block i ≡ 9)
generic_write_block_example =
    generic_write_block ram device (omega arith) (λ _ _. 9) blank 100 2 (omega arith) numbered 5
      (omega arith) (omega arith) (omega arith) (omega arith) (omega arith)

abbrev one_disk : Registered
one_disk = record {
  instance_at = λ _. device;
  registered_blockdev_instances = 50 ∷ [];
  last_fs_instance_uid = 1;
}

one_disk-WellRegistered : WellRegistered one_disk
one_disk-WellRegistered = record { distinct = ground arith; one_each = λ p q mp mq i. ground arith }

register_disk_lem_example :
    DiskRegistered one_disk 3 2 512 100 (some 60) (register_disk one_disk 3 2 512 100 0 0 (some 60))
register_disk_lem_example =
    register_disk_lem one_disk 3 2 512 100 0 0 (some 60) one_disk-WellRegistered
      (λ p e. ground arith)

register_partition_lem_example :
    PartitionRegistered one_disk 3 2 50 1 2
      (some 60)
      (register_partition one_disk 3 2 (some 50) 1 2 (some 60))
register_partition_lem_example =
    register_partition_lem one_disk 3 2 50 1 2 (some 60) one_disk-WellRegistered refl
      (λ p e. ground arith)

listed_device : lookup_blockdev_instance one_disk 3 1 ≡ some 50
unfolding lookup_blockdev_instance
listed_device = refl

release-ref_instance_example :
    ((ref_instance one_disk 3 1).0 ≡ some 50)
    × (release_instance (ref_instance one_disk 3 1).1 50 ≡ one_disk)
release-ref_instance_example = release-ref_instance one_disk 3 1 50 listed_device (omega arith)
