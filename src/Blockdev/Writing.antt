-- ===== src/Blockdev/Writing.antt =====
-- How much `blockdev_generic_write` writes, and what a write inside one block hands to the driver.
use desiros.Base.{
  ℕ, zero, suc, ◌+◌, ◌-◌, ◌/◌, ◌%◌, ◌^◌, ◌<◌, ◌≤◌, ◌≡◌, refl, ◌⊎◌, inl, inr, false, arith, some,
  dec_lt, leb, lt→ltb, le→ltb,
}
use desiros.Base.Words.{add32}
use desiros.Base.Memory.{Memory, copy_in, copy_in-inside, copy_in-outside}
use desiros.Blockdev.{BlockdevOperations, BlockdevInstance, add64, chunk, write_loop, generic_write}
use desiros.Blockdev.Positions.{
  within, device_size, at_end, before_end, chunk-pos, chunk-le, within-step, within-end,
}

module _ {ℓ} {D : Type ℓ} (operations : BlockdevOperations D) (b : BlockdevInstance)
    (pos : 0 < b.block_size) (fresh : ℕ → ℕ → ℕ) (m : Memory) (buff len : ℕ)
    (small : len < 2 ^ 32) where
  Loop : (fuel : ℕ) (d : D) (offset wr count : ℕ) → Type ℓ
  Loop fuel d offset wr count =
      (d1 : D) × (write_loop operations b fuel d fresh m offset buff len wr ≡ some (wr + count, d1))

  stopped :
      (fuel : ℕ) (d : D) (offset wr : ℕ)
      → (len ≤ wr) ⊎ (b.number_of_blocks ≤ offset / b.block_size)
      → Loop (suc fuel) d offset wr 0
  unfolding write_loop Loop
  stopped fuel d offset wr o = (d, ground arith)

  moved :
      (fuel : ℕ) (d : D) (offset wr more : ℕ)
      → offset / b.block_size < b.number_of_blocks
      → wr < len
      → offset + len < 2 ^ 64 + wr
      → ((d2 : D)
          → Loop fuel d2 (offset + chunk b offset (len - wr)) (wr + chunk b offset (len - wr)) more)
      → Loop (suc fuel) d offset wr (chunk b offset (len - wr) + more)
  unfolding write_loop Loop
  moved fuel d offset wr more q l o go =
      let le : chunk b offset (len - wr) ≤ len - wr = chunk-le b pos offset (len - wr) in
      let t : leb b.number_of_blocks (offset / b.block_size) ≡ false = ground arith in
      let e2 : add64 offset (chunk b offset (len - wr)) ≡ offset + chunk b offset (len - wr) =
        omega arith in
      let e3 : add32 wr (chunk b offset (len - wr)) ≡ wr + chunk b offset (len - wr) =
        omega arith in
      let (d1, e) = go (
        operations.write_block d
          (copy_in (fresh wr) (offset % b.block_size) (λ i. m (buff + i))
            (chunk b offset (len - wr)))
          (add64 (offset / b.block_size) b.index_of_first_block)) in
      (d1, rw (lt→ltb wr len l, t, e2, e3, e) (ground arith))

  write_loop_lem :
      (fuel : ℕ) (d : D) (offset wr : ℕ)
      → wr ≤ len
      → len < fuel + wr
      → offset + len < 2 ^ 64 + wr
      → Loop fuel d offset wr (within (device_size b) offset (len - wr))
  write_loop_lem zero d offset wr h f o = ground arith
  write_loop_lem (suc fuel) d offset wr h f o = elim (dec_lt wr len) [
    | no full ↦
        let e : within (device_size b) offset (len - wr) ≡ 0 = ground arith in
        rw e (stopped fuel d offset wr (inl (omega arith)))
    | yes less ↦ elim (dec_lt (offset / b.block_size) b.number_of_blocks) [
      | no end ↦
          rw (within-end (device_size b) offset (len - wr) (at_end b pos offset (omega arith)))
            (stopped fuel d offset wr (inr (omega arith)))
      | yes inside ↦
          let n : ℕ = chunk b offset (len - wr) in
          let le : n ≤ len - wr = chunk-le b pos offset (len - wr) in
          let some_left : 0 < n = chunk-pos b pos offset (len - wr) (omega arith) in
          let fits : offset + n ≤ device_size b = ground (arith, before_end b pos offset inside) in
          let left : len - wr - n ≡ len - (wr + n) = omega arith in
          rw (← within-step (device_size b) offset (len - wr) n le fits, left)
            (moved fuel d offset wr (within (device_size b) (offset + n) (len - (wr + n))) inside
              less o
              (λ d2.
                write_loop_lem fuel d2 (offset + n) (wr + n) (omega arith) (omega arith)
                  (omega arith)))
    ]
  ]

  -- blockdev_generic_write always ends, its fuel being one step more than the length, and counts
  -- the bytes up to the length or to the end of the device, whichever comes first, if the offset
  -- does not wrap around.
  pub generic_write_count :
      (d : D) (offset : ℕ)
      → offset + len < 2 ^ 64
      → (d1 : D) × (generic_write operations b d fresh m offset buff len
          ≡ some (within (device_size b) offset len, d1))
  unfolding generic_write Loop
  generic_write_count d offset o =
      let (d1, e) = write_loop_lem (suc len) d offset 0 (omega arith) (omega arith) (omega arith) in
      (d1, ground (arith, e))

  finished :
      (fuel : ℕ) (d : D) (offset wr : ℕ)
      → 0 < fuel
      → len ≤ wr
      → write_loop operations b fuel d fresh m offset buff len wr ≡ some (wr, d)
  unfolding write_loop
  finished zero d offset wr p h = ground arith
  finished (suc fuel) d offset wr p h = rw (le→ltb wr len h) refl

  -- A write that does not leave one block of the device hands that block to the driver once: the
  -- bytes of the buffer at their place, and behind and in front of them what the fresh block held.
  pub generic_write_block :
      (d : D) (offset : ℕ)
      → 0 < len
      → offset / b.block_size < b.number_of_blocks
      → offset % b.block_size + len ≤ b.block_size
      → offset + len < 2 ^ 64
      → b.number_of_blocks + b.index_of_first_block ≤ 2 ^ 64
      → (block : ℕ → ℕ) × (generic_write operations b d fresh m offset buff len
          ≡ some (
            len,
            operations.write_block d block (offset / b.block_size + b.index_of_first_block),
          ))
        × ((i : ℕ) → i < len → block (offset % b.block_size + i) ≡ m (buff + i))
        × ((i : ℕ)
            → (i < offset % b.block_size) ⊎ (offset % b.block_size + len ≤ i)
            → block i ≡ fresh 0 i)
  unfolding generic_write write_loop
  generic_write_block d offset some_left inside one o space = (
    copy_in (fresh 0) (offset % b.block_size) (λ i. m (buff + i)) len,
    run,
    λ i l. copy_in-inside (fresh 0) (offset % b.block_size) (λ i. m (buff + i)) len i l,
    λ i q.
        copy_in-outside (fresh 0) (offset % b.block_size) (λ i. m (buff + i)) len i
          (λ j l. ground arith),
  )
    where
      whole : chunk b offset (len - 0) ≡ len
      whole = ground arith

      run :
          generic_write operations b d fresh m offset buff len
          ≡ some (
            len,
            operations.write_block d
                (copy_in (fresh 0) (offset % b.block_size) (λ i. m (buff + i)) len)
                (offset / b.block_size + b.index_of_first_block),
          )
      run =
          let t : leb b.number_of_blocks (offset / b.block_size) ≡ false = ground arith in
          let id : add64 (offset / b.block_size) b.index_of_first_block
              ≡ offset / b.block_size + b.index_of_first_block =
            omega arith in
          let all : add32 0 len ≡ len = omega arith in
          rw (lt→ltb 0 len some_left, t, whole, id, all)
            (finished len _ (add64 offset len) len some_left (omega arith))
