-- ===== src/Blockdev.antt =====
-- The block devices, block_dev.c. A device is named by the address of its structure; the list of
-- registered devices is kept as a sequence, as in module Physmem. The drivers' entry points are
-- fields of a record, as in the source; a driver's failure selects a debug message only.
mod Positions
pub mod Registry
pub mod Registering
pub mod Reading
pub mod Writing
mod Examples
use desiros.Base.{
  ℕ, zero, suc, ◌+◌, ◌-◌, ◌*◌, ◌/◌, ◌%◌, ◌^◌, Bool, true, false, ◌&&◌, ◌||◌, not, List, [], ◌∷◌,
  ◌++◌, Option, none, some, ltb, leb, ◌==◌, if◌then◌else◌,
}
use desiros.Base.Words.{add32, sub32}
use desiros.Base.Memory.{Memory, copy_in}

abbrev pub add64 : ℕ → ℕ → ℕ
add64 a b = (a + b) % 2 ^ 64

-- `struct blockdev_operations` of a driver with its custom data, whose state is a `D`. The first
-- argument after it is the buffer's old content and the last the block's index.
pub record BlockdevOperations {ℓ} (D : Type ℓ) : Type ℓ where
  pub read_block : D → (ℕ → ℕ) → ℕ → ℕ → ℕ
  pub write_block : D → (ℕ → ℕ) → ℕ → D

-- `struct blockdev_instance`, with the number of its driver's operations and custom data.
pub record BlockdevInstance : Type 0 where
  pub uid : ℕ
  pub block_size : ℕ
  pub number_of_blocks : ℕ
  pub parent_blockdev : Option ℕ
  pub index_of_first_block : ℕ
  pub device_class : ℕ
  pub device_instance : ℕ
  pub operations : ℕ
  pub custom_data : ℕ
  pub ref_cnt : ℕ

-- The static variables, with the structures that the pointers name.
pub record Registered : Type 0 where
  pub instance_at : ℕ → BlockdevInstance
  pub registered_blockdev_instances : List ℕ
  pub last_fs_instance_uid : ℕ

-- `-EBUSY`, `-EINVAL`, `-ENOMEM`, `OK`.
pub data Status : Type 0 where
  ebusy einval enomem ok : Status

abbrev pub is_device : BlockdevInstance → ℕ → ℕ → Bool
is_device b class inst = b.device_class == class && b.device_instance == inst

unfoldable pub find_device : (ℕ → BlockdevInstance) → List ℕ → ℕ → ℕ → Option ℕ
find_device h [] class inst = none
find_device h (p ∷ ps) class inst =
    if is_device (h p) class inst then some p else find_device h ps class inst

unfoldable pub lookup_blockdev_instance : Registered → ℕ → ℕ → Option ℕ
unfolding find_device
lookup_blockdev_instance s class inst =
    find_device s.instance_at s.registered_blockdev_instances class inst

abbrev pub set_instance : (ℕ → BlockdevInstance) → ℕ → BlockdevInstance → ℕ → BlockdevInstance
set_instance h p b q = if q == p then b else h q

-- The structure at `p` is filled and put at the end of the list.
abbrev pub add_instance : Registered → ℕ → BlockdevInstance → Registered
add_instance s p b = record {
  instance_at = set_instance s.instance_at p b;
  registered_blockdev_instances = s.registered_blockdev_instances ++ p ∷ [];
  last_fs_instance_uid = add64 s.last_fs_instance_uid 1;
}

-- `kmalloc`'s answer is the last argument, `none` for NULL. A block size of 0 stands for one that is
-- not positive.
unfoldable pub register_disk : Registered → ℕ → ℕ → ℕ → ℕ → ℕ → ℕ → Option ℕ → Status × Registered
unfolding lookup_blockdev_instance
register_disk s class inst block_size number_of_blocks ops custom allocated =
    elim (lookup_blockdev_instance s class inst) [
      | some _ ↦ (ebusy, s)
      | none ↦
          if block_size == 0
          then (einval, s)
          else if number_of_blocks == 0
          then (einval, s)
          else elim allocated [
            | none ↦ (enomem, s)
            | some p ↦ (
              ok,
              add_instance s p (record {
                uid = s.last_fs_instance_uid;
                block_size = block_size;
                number_of_blocks = number_of_blocks;
                parent_blockdev = none;
                index_of_first_block = 0;
                device_class = class;
                device_instance = inst;
                operations = ops;
                custom_data = custom;
                ref_cnt = 1;
              }),
            )
          ]
    ]

unfoldable pub use_instance : Registered → ℕ → Registered
use_instance s p = record s {
  instance_at =
      set_instance s.instance_at p
        (record (s.instance_at p) { ref_cnt = add32 (s.instance_at p).ref_cnt 1 });
}

unfoldable pub register_partition :
    Registered → ℕ → ℕ → Option ℕ → ℕ → ℕ → Option ℕ → Status × Registered
unfolding lookup_blockdev_instance use_instance
register_partition s class inst none first number_of_blocks allocated = (einval, s)
register_partition s class inst (some parent) first number_of_blocks allocated =
    elim (lookup_blockdev_instance s class inst) [
      | some _ ↦ (ebusy, s)
      | none ↦ elim allocated [
        | none ↦ (enomem, s)
        | some p ↦
            let t = use_instance s parent in
            let above = t.instance_at parent in
            (
              ok,
              add_instance t p (record {
                uid = s.last_fs_instance_uid;
                block_size = above.block_size;
                number_of_blocks = number_of_blocks;
                parent_blockdev = some parent;
                index_of_first_block = add64 above.index_of_first_block first;
                device_class = class;
                device_instance = inst;
                operations = above.operations;
                custom_data = above.custom_data;
                ref_cnt = 1;
              }),
            )
      ]
    ]

unfoldable pub ref_instance : Registered → ℕ → ℕ → Option ℕ × Registered
unfolding lookup_blockdev_instance use_instance
ref_instance s class inst = elim (lookup_blockdev_instance s class inst) [
  | none ↦ (none, s)
  | some p ↦ (some p, use_instance s p)
]

unfoldable pub release_instance : Registered → ℕ → Registered
release_instance s p = record s {
  instance_at =
      set_instance s.instance_at p
        (record (s.instance_at p) { ref_cnt = sub32 (s.instance_at p).ref_cnt 1 });
}

-- How many bytes one turn of the loops moves: to the end of the block, or what is left.
abbrev pub chunk : BlockdevInstance → ℕ → ℕ → ℕ
chunk b offset left =
    let to_end = b.block_size - offset % b.block_size in if ltb left to_end then left else to_end

module _ {ℓ} {D : Type ℓ} (operations : BlockdevOperations D) (b : BlockdevInstance) where
  -- The loop of `blockdev_generic_read`: the number of bytes read and the memory, `none` if the fuel
  -- runs out. `fresh` is the content of the block that `kmalloc` returns in the turn.
  unfoldable pub read_loop : ℕ → D → (ℕ → ℕ → ℕ) → Memory → ℕ → ℕ → ℕ → ℕ → Option (ℕ × Memory)
  read_loop zero d fresh m offset buff len rdbytes = none
  read_loop (suc fuel) d fresh m offset buff len rdbytes =
      if ltb rdbytes len
      then if leb b.number_of_blocks (offset / b.block_size)
        then some (rdbytes, m)
        else (let block_data =
              operations.read_block d (fresh rdbytes)
                (add64 (offset / b.block_size) b.index_of_first_block) in
            let n = chunk b offset (len - rdbytes) in
            read_loop fuel d fresh
              (copy_in m (add32 buff rdbytes) (λ i. block_data (offset % b.block_size + i)) n)
              (add64 offset n) buff len (add32 rdbytes n))
      else some (rdbytes, m)

  unfoldable pub generic_read : D → (ℕ → ℕ → ℕ) → Memory → ℕ → ℕ → ℕ → Option (ℕ × Memory)
  unfolding read_loop
  generic_read d fresh m offset buff len = read_loop (suc len) d fresh m offset buff len 0

  -- The loop of `blockdev_generic_write`, which leaves the memory but for the blocks of `kmalloc`.
  unfoldable pub write_loop : ℕ → D → (ℕ → ℕ → ℕ) → Memory → ℕ → ℕ → ℕ → ℕ → Option (ℕ × D)
  unfolding copy_in
  write_loop zero d fresh m offset buff len wrbytes = none
  write_loop (suc fuel) d fresh m offset buff len wrbytes =
      if ltb wrbytes len
      then if leb b.number_of_blocks (offset / b.block_size)
        then some (wrbytes, d)
        else (let n = chunk b offset (len - wrbytes) in
            let block_data =
              copy_in (fresh wrbytes) (offset % b.block_size) (λ i. m (buff + i)) n in
            write_loop fuel
              (operations.write_block d block_data
                (add64 (offset / b.block_size) b.index_of_first_block))
              fresh m (add64 offset n) buff len (add32 wrbytes n))
      else some (wrbytes, d)

  unfoldable pub generic_write : D → (ℕ → ℕ → ℕ) → Memory → ℕ → ℕ → ℕ → Option (ℕ × D)
  unfolding write_loop
  generic_write d fresh m offset buff len = write_loop (suc len) d fresh m offset buff len 0
