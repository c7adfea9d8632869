-- ===== src/Blockdev/Registering.antt =====
-- The calls that register devices, and the references to them.
use mathlib.Core.Path.{fun_ext}
use desiros.Base.{
  ℕ, ◌^◌, ◌<◌, ◌≡◌, refl, sym, ap, ◌∙◌, ◌≢◌, ◌⊎◌, inl, inr, true, false, arith, Option, some, none,
  Option-cases, ◌==◌, ne→==, eq→==, has, ℕ_discrete,
}
use desiros.Base.Words.{add32, sub32}
use desiros.Blockdev.{
  add64, BlockdevInstance, Registered, Status, ebusy, einval, enomem, ok, lookup_blockdev_instance,
  set_instance, add_instance, register_disk, register_partition, use_instance, ref_instance,
  release_instance,
}
use desiros.Blockdev.Registry.{
  WellRegistered, Added, add_instance-Added, used-found, used-WellRegistered,
}

-- What `blockdev_register_disk` may do; `fresh` is what `kmalloc` returned.
pub data DiskRegistered (s : Registered) (class inst block_size number_of_blocks : ℕ)
    (fresh : Option ℕ) (r : Status × Registered) : Type 0 where
  disk_busy :
      (p : ℕ)
      → lookup_blockdev_instance s class inst ≡ some p
      → r ≡ (ebusy, s)
      → DiskRegistered s class inst block_size number_of_blocks fresh r
  disk_invalid :
      (block_size ≡ 0) ⊎ (number_of_blocks ≡ 0)
      → lookup_blockdev_instance s class inst ≡ none
      → r ≡ (einval, s)
      → DiskRegistered s class inst block_size number_of_blocks fresh r
  disk_no_memory :
      block_size ≢ 0
      → number_of_blocks ≢ 0
      → lookup_blockdev_instance s class inst ≡ none
      → fresh ≡ none
      → r ≡ (enomem, s)
      → DiskRegistered s class inst block_size number_of_blocks fresh r
  disk_added :
      (p : ℕ)
      → block_size ≢ 0
      → number_of_blocks ≢ 0
      → lookup_blockdev_instance s class inst ≡ none
      → fresh ≡ some p
      → r.0 ≡ ok
      → Added s r.1 class inst p
      → (r.1.instance_at p).block_size ≡ block_size
      → (r.1.instance_at p).number_of_blocks ≡ number_of_blocks
      → (r.1.instance_at p).index_of_first_block ≡ 0
      → (r.1.instance_at p).ref_cnt ≡ 1
      → DiskRegistered s class inst block_size number_of_blocks fresh r

-- On a registry where no two devices have the same identification, and with a structure from
-- kmalloc that is not in the list yet, blockdev_register_disk refuses an identification that is in
-- use with EBUSY, then an empty geometry with EINVAL, then a failed allocation with ENOMEM, and
-- changes nothing in these cases; else the new device, of the given geometry from block 0 on and with
-- one reference, is found under its identification, all other lookups are as before, and the registry
-- stays well formed.
pub register_disk_lem :
    (s : Registered) (class inst bs n ops custom : ℕ) (fresh : Option ℕ)
    → WellRegistered s
    → ((p : ℕ) → fresh ≡ some p → has p s.registered_blockdev_instances ≡ false)
    → DiskRegistered s class inst bs n fresh (register_disk s class inst bs n ops custom fresh)
unfolding register_disk lookup_blockdev_instance
register_disk_lem s class inst bs n ops custom fresh w new =
    elim (Option-cases (lookup_blockdev_instance s class inst)) [
      | inr (p, e) ↦ disk_busy p e (rw (register_disk, e) refl)
      | inl e ↦ elim (ℕ_discrete bs 0) [
        | yes z ↦ disk_invalid (inl z) e (rw (register_disk, e, eq→== bs 0 z) refl)
        | no nz ↦ elim (ℕ_discrete n 0) [
          | yes z ↦ disk_invalid (inr z) e (rw (register_disk, e, ne→== bs 0 nz, eq→== n 0 z) refl)
          | no nn ↦ elim (Option-cases fresh) [
            | inl f ↦
                disk_no_memory nz nn e f
                  (rw (register_disk, e, ne→== bs 0 nz, ne→== n 0 nn, f) refl)
            | inr (p, f) ↦
                let self : (p == p) ≡ true = eq→== p p refl in
                disk_added p nz nn e f (rw (register_disk, e, ne→== bs 0 nz, ne→== n 0 nn, f) refl)
                  (let b : BlockdevInstance = record {
                    uid = s.last_fs_instance_uid;
                    block_size = bs;
                    number_of_blocks = n;
                    parent_blockdev = none;
                    index_of_first_block = 0;
                    device_class = class;
                    device_instance = inst;
                    operations = ops;
                    custom_data = custom;
                    ref_cnt = 1;
                  } in
                    let q : register_disk s class inst bs n ops custom fresh
                        ≡ (ok, add_instance s p b) =
                      rw (register_disk, e, ne→== bs 0 nz, ne→== n 0 nn, f) refl in
                    rw q (add_instance-Added w p b (new p f) e))
                  (rw (register_disk, e, ne→== bs 0 nz, ne→== n 0 nn, f, self) refl)
                  (rw (register_disk, e, ne→== bs 0 nz, ne→== n 0 nn, f, self) refl)
                  (rw (register_disk, e, ne→== bs 0 nz, ne→== n 0 nn, f, self) refl)
                  (rw (register_disk, e, ne→== bs 0 nz, ne→== n 0 nn, f, self) refl)
          ]
        ]
      ]
    ]

-- What `blockdev_register_partition` may do below a parent.
pub data PartitionRegistered (s : Registered) (class inst parent first number_of_blocks : ℕ)
    (fresh : Option ℕ) (r : Status × Registered) : Type 0 where
  partition_busy :
      (p : ℕ)
      → lookup_blockdev_instance s class inst ≡ some p
      → r ≡ (ebusy, s)
      → PartitionRegistered s class inst parent first number_of_blocks fresh r
  partition_no_memory :
      lookup_blockdev_instance s class inst ≡ none
      → fresh ≡ none
      → r ≡ (enomem, s)
      → PartitionRegistered s class inst parent first number_of_blocks fresh r
  partition_added :
      (p : ℕ)
      → lookup_blockdev_instance s class inst ≡ none
      → fresh ≡ some p
      → r.0 ≡ ok
      → Added s r.1 class inst p
      → (r.1.instance_at p).index_of_first_block
        ≡ add64 (s.instance_at parent).index_of_first_block first
      → (r.1.instance_at p).number_of_blocks ≡ number_of_blocks
      → (r.1.instance_at parent).ref_cnt ≡ add32 (s.instance_at parent).ref_cnt 1
      → PartitionRegistered s class inst parent first number_of_blocks fresh r

partition_new :
    (s : Registered) (class inst parent first n : ℕ) (fresh : Option ℕ)
    → WellRegistered s
    → (p : ℕ) → has p s.registered_blockdev_instances ≡ false
    → parent ≢ p
    → lookup_blockdev_instance s class inst ≡ none
    → fresh ≡ some p
    → PartitionRegistered s class inst parent first n fresh
        (register_partition s class inst (some parent) first n fresh)
unfolding register_partition lookup_blockdev_instance use_instance
partition_new s class inst parent first n fresh w p new apart e f =
    let t : Registered = use_instance s parent in
    let above : BlockdevInstance = t.instance_at parent in
    let b : BlockdevInstance = record {
      uid = s.last_fs_instance_uid;
      block_size = above.block_size;
      number_of_blocks = n;
      parent_blockdev = some parent;
      index_of_first_block = add64 above.index_of_first_block first;
      device_class = class;
      device_instance = inst;
      operations = above.operations;
      custom_data = above.custom_data;
      ref_cnt = 1;
    } in
    let q : register_partition s class inst (some parent) first n fresh ≡ (ok, add_instance t p b) =
      rw (register_partition, e, f) refl in
    let a : Added t (add_instance t p b) class inst p =
      add_instance-Added (used-WellRegistered s parent w) p b new
        (used-found s parent class inst ∙ e) in
    let self : (p == p) ≡ true = ground arith in
    let same : (parent == parent) ≡ true = ground arith in
    partition_added p e f (rw q refl)
      (rw q (record {
        new = a.new;
        others = λ c i o. a.others c i o ∙ used-found s parent c i;
        well = a.well;
      }))
      (rw (q, self, same) refl) (rw (q, self) refl) (rw (q, ne→== parent p apart, same) refl)

-- On a registry where no two devices have the same identification, and with a structure from
-- kmalloc that is not in the list yet, blockdev_register_partition below a registered parent refuses
-- an identification in use with EBUSY, then a failed allocation with ENOMEM, and changes nothing
-- then; else the partition, and nothing else, is found under its identification, it begins at the
-- parent's first block plus its own, it has the length asked for, and the parent has one reference more.
pub register_partition_lem :
    (s : Registered) (class inst parent first n : ℕ) (fresh : Option ℕ)
    → WellRegistered s
    → has parent s.registered_blockdev_instances ≡ true
    → ((p : ℕ) → fresh ≡ some p → has p s.registered_blockdev_instances ≡ false)
    → PartitionRegistered s class inst parent first n fresh
        (register_partition s class inst (some parent) first n fresh)
unfolding register_partition lookup_blockdev_instance
register_partition_lem s class inst parent first n fresh w listed new =
    elim (Option-cases (lookup_blockdev_instance s class inst)) [
      | inr (p, e) ↦ partition_busy p e (rw (register_partition, e) refl)
      | inl e ↦ elim (Option-cases fresh) [
        | inl f ↦ partition_no_memory e f (rw (register_partition, e, f) refl)
        | inr (p, f) ↦
            partition_new s class inst parent first n fresh w p (new p f)
              (λ z.
                ground (
                  arith,
                  sym (ap (λ y. has y s.registered_blockdev_instances) z) ∙ listed,
                  new p f,
                ))
              e f
      ]
    ]

counted_back :
    (h : ℕ → BlockdevInstance) (p q : ℕ)
    → (h p).ref_cnt < 2 ^ 32
    → let up = set_instance h p (record (h p) { ref_cnt = add32 (h p).ref_cnt 1 }) in
      set_instance up p (record (up p) { ref_cnt = sub32 (up p).ref_cnt 1 }) q ≡ h q
counted_back h p q l = elim (ℕ_discrete q p) [
  | no n ↦ rw (ne→== q p n) refl
  | yes e ↦
      let self : (p == p) ≡ true = ground arith in
      let count : sub32 (add32 (h p).ref_cnt 1) 1 ≡ (h p).ref_cnt = omega arith in
      rw (e, self, count) refl
]

-- A device's reference that blockdev_ref_instance takes and blockdev_release_instance gives back
-- leaves the registry as it was, the count being a 32-bit one.
pub release-ref_instance :
    (s : Registered) (class inst p : ℕ)
    → lookup_blockdev_instance s class inst ≡ some p
    → (s.instance_at p).ref_cnt < 2 ^ 32
    → ((ref_instance s class inst).0 ≡ some p)
      × (release_instance (ref_instance s class inst).1 p ≡ s)
unfolding ref_instance release_instance use_instance
release-ref_instance s class inst p e l =
    let q : ref_instance s class inst ≡ (some p, use_instance s p) = rw (ref_instance, e) refl in
    (
      rw q refl,
      rw q (λ i. record s {
        instance_at = fun_ext {g = s.instance_at} (λ x. counted_back s.instance_at p x l) i;
      }),
    )
