-- ===== src/Blockdev/Reading.antt =====
-- What `blockdev_generic_read` leaves in the buffer.
use desiros.Base.{
  ℕ, zero, suc, ◌+◌, ◌-◌, ◌/◌, ◌%◌, ◌^◌, ◌<◌, ◌≤◌, ◌≡◌, refl, ◌⊎◌, inl, inr, false, arith, some,
  dec_lt, leb, lt→ltb,
}
use desiros.Base.Words.{add32}
use desiros.Base.Memory.{Memory, copy_in, copy_in-inside, copy_in-outside, div_within, mod_within}
use desiros.Blockdev.{BlockdevOperations, BlockdevInstance, add64, chunk, read_loop, generic_read}
use desiros.Blockdev.Positions.{
  within, device_size, at_end, before_end, chunk-pos, chunk-le, chunk-block, within-step,
  within-end,
}

-- The byte at a position of the device, where `content` gives the bytes of the disk's blocks.
abbrev pub device_byte : BlockdevInstance → (ℕ → ℕ → ℕ) → ℕ → ℕ
device_byte b content p = content (p / b.block_size + b.index_of_first_block) (p % b.block_size)

-- The result of a read to `dst` that got the `count` bytes of the device from `offset` on.
pub record Read (b : BlockdevInstance) (content : ℕ → ℕ → ℕ) (m m1 : Memory) (offset dst count : ℕ)
    : Type 0 where
  pub bytes : (i : ℕ) → i < count → m1 (dst + i) ≡ device_byte b content (offset + i)
  pub rest : (a : ℕ) → (a < dst) ⊎ (dst + count ≤ a) → m1 a ≡ m a

-- The device lies inside its disk, and its driver fills the whole of a block.
pub record Readable {ℓ} {D : Type ℓ} (operations : BlockdevOperations D) (b : BlockdevInstance)
    (d : D) (content : ℕ → ℕ → ℕ) : Type ℓ where
  pub size_pos : 0 < b.block_size
  pub addressable : b.number_of_blocks + b.index_of_first_block ≤ 2 ^ 64
  pub fills :
      (old : ℕ → ℕ) (block i : ℕ)
      → i < b.block_size
      → operations.read_block d old block i ≡ content block i

module _ {ℓ} {D : Type ℓ} {operations : BlockdevOperations D} {b : BlockdevInstance} {d : D}
    {content : ℕ → ℕ → ℕ} (v : Readable operations b d content) (fresh : ℕ → ℕ → ℕ) (buff len : ℕ)
    (room : buff + len < 2 ^ 32) where
  Loop : (fuel : ℕ) (m : Memory) (offset rd count : ℕ) → Type 0
  Loop fuel m offset rd count =
      (m1 : Memory) × (read_loop operations b fuel d fresh m offset buff len rd
        ≡ some (rd + count, m1))
      × Read b content m m1 offset (buff + rd) count

  one_block :
      (offset i left : ℕ)
      → offset / b.block_size < b.number_of_blocks
      → i < chunk b offset left
      → (old : ℕ → ℕ)
      → operations.read_block d old
          (add64 (offset / b.block_size) b.index_of_first_block)
          (offset % b.block_size + i)
        ≡ device_byte b content (offset + i)
  one_block offset i left q l old =
      let fit : offset % b.block_size + i < b.block_size =
        omega (arith, chunk-block b v.size_pos offset left) in
      let id : add64 (offset / b.block_size) b.index_of_first_block
          ≡ offset / b.block_size + b.index_of_first_block =
        omega (arith, v.addressable) in
      rw
        (
          id,
          v.fills old (offset / b.block_size + b.index_of_first_block) (offset % b.block_size + i)
              fit,
          div_within offset i b.block_size fit,
          mod_within offset i b.block_size fit,
        )
        refl

  joined :
      {m m1 : Memory} (offset rd n more : ℕ) (src : ℕ → ℕ)
      → ((i : ℕ) → i < n → src i ≡ device_byte b content (offset + i))
      → Read b content (copy_in m (buff + rd) src n) m1 (offset + n) (buff + (rd + n)) more
      → Read b content m m1 offset (buff + rd) (n + more)
  joined {m} {m1} offset rd n more src get r = record {
    bytes = λ i l. elim (dec_lt i n) [
      | yes q ↦ ground (
        arith,
        r.rest (buff + rd + i) (inl (omega arith)),
        copy_in-inside m (buff + rd) src n i q,
        get i q,
      )
      | no q ↦ later i (i - n) l (omega arith)
    ];
    rest = λ a o. ground (
      arith,
      r.rest a (ground arith),
      copy_in-outside m (buff + rd) src n a (λ i l. ground arith),
    );
  }
    where
      later :
          (i j : ℕ)
          → i < n + more
          → i ≡ n + j
          → m1 (buff + rd + i) ≡ device_byte b content (offset + i)
      later i j l e = rw e (ground (arith, r.bytes j (omega arith)))

  stopped :
      (fuel : ℕ) (m : Memory) (offset rd : ℕ)
      → (len ≤ rd) ⊎ (b.number_of_blocks ≤ offset / b.block_size)
      → Loop (suc fuel) m offset rd 0
  unfolding read_loop Loop
  stopped fuel m offset rd o =
      (m, ground arith, record { bytes = λ i l. ground arith; rest = λ a q. refl })

  moved :
      (fuel : ℕ) (m : Memory) (offset rd more : ℕ)
      → offset / b.block_size < b.number_of_blocks
      → rd < len
      → offset + len < 2 ^ 64 + rd
      → ((m2 : Memory)
          → Loop fuel m2 (offset + chunk b offset (len - rd)) (rd + chunk b offset (len - rd)) more)
      → Loop (suc fuel) m offset rd (chunk b offset (len - rd) + more)
  unfolding read_loop Loop
  moved fuel m offset rd more q l o go =
      let n : ℕ = chunk b offset (len - rd) in
      let le : chunk b offset (len - rd) ≤ len - rd = chunk-le b v.size_pos offset (len - rd) in
      let block : ℕ → ℕ =
        operations.read_block d (fresh rd) (add64 (offset / b.block_size) b.index_of_first_block) in
      let t : leb b.number_of_blocks (offset / b.block_size) ≡ false = ground arith in
      let e1 : add32 buff rd ≡ buff + rd = omega arith in
      let e2 : add64 offset (chunk b offset (len - rd)) ≡ offset + chunk b offset (len - rd) =
        omega arith in
      let e3 : add32 rd (chunk b offset (len - rd)) ≡ rd + chunk b offset (len - rd) =
        omega arith in
      let (m1, e, r) = go (copy_in m (buff + rd) (λ i. block (offset % b.block_size + i)) n) in
      (
        m1,
        rw (lt→ltb rd len l, t, e1, e2, e3, e) (ground arith),
        joined offset rd n more (λ i. block (offset % b.block_size + i))
            (λ i z. one_block offset i (len - rd) q z (fresh rd)) r,
      )

  read_loop_lem :
      (fuel : ℕ) (m : Memory) (offset rd : ℕ)
      → rd ≤ len
      → len < fuel + rd
      → offset + len < 2 ^ 64 + rd
      → Loop fuel m offset rd (within (device_size b) offset (len - rd))
  read_loop_lem zero m offset rd h f o = ground arith
  read_loop_lem (suc fuel) m offset rd h f o = elim (dec_lt rd len) [
    | no full ↦
        let e : within (device_size b) offset (len - rd) ≡ 0 = ground arith in
        rw e (stopped fuel m offset rd (inl (omega arith)))
    | yes less ↦ elim (dec_lt (offset / b.block_size) b.number_of_blocks) [
      | no end ↦
          rw
            (within-end (device_size b) offset (len - rd)
              (at_end b v.size_pos offset (omega arith)))
            (stopped fuel m offset rd (inr (omega arith)))
      | yes inside ↦
          let n : ℕ = chunk b offset (len - rd) in
          let le : n ≤ len - rd = chunk-le b v.size_pos offset (len - rd) in
          let pos : 0 < n = chunk-pos b v.size_pos offset (len - rd) (omega arith) in
          let fits : offset + n ≤ device_size b =
            ground (arith, before_end b v.size_pos offset inside) in
          let left : len - rd - n ≡ len - (rd + n) = omega arith in
          rw (← within-step (device_size b) offset (len - rd) n le fits, left)
            (moved fuel m offset rd (within (device_size b) (offset + n) (len - (rd + n))) inside
              less o
              (λ m2.
                read_loop_lem fuel m2 (offset + n) (rd + n) (omega arith) (omega arith)
                  (omega arith)))
    ]
  ]

  from_start :
      (m : Memory) (offset left : ℕ)
      → left ≡ len - 0
      → offset + len < 2 ^ 64
      → Loop (suc len) m offset 0 (within (device_size b) offset left)
  from_start m offset left e o =
      rw e (read_loop_lem (suc len) m offset 0 (omega arith) (omega arith) (omega arith))

  -- blockdev_generic_read always ends, its fuel being one step more than the length; it reads the
  -- bytes of the device from the offset on, up to the length or to the end of the device, whichever
  -- comes first, returns their number, and changes no other byte of the memory, if the buffer and
  -- the offset do not wrap around, the device lies inside its disk and the driver fills whole blocks.
  pub generic_read_lem :
      (m : Memory) (offset : ℕ)
      → offset + len < 2 ^ 64
      → (m1 : Memory) × (generic_read operations b d fresh m offset buff len
          ≡ some (within (device_size b) offset len, m1))
        × Read b content m m1 offset buff (within (device_size b) offset len)
  unfolding generic_read Loop
  generic_read_lem m offset o =
      let (m1, e, r) = from_start m offset len (omega arith) o in
      (
        m1,
        ground (arith, e),
        record {
          bytes = λ i l. ground (arith, r.bytes i l);
          rest = λ a q. r.rest a (ground arith);
        },
      )
