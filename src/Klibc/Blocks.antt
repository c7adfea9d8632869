-- ===== src/Klibc/Blocks.antt =====
-- What `memset`, `memmove` and `memcpy` leave in memory.
use desiros.Base.{
  ℕ, zero, suc, ◌+◌, ◌%◌, ◌<◌, ◌≤◌, ◌≡◌, refl, ◌⊎◌, inl, inr, arith, ltb, Bool-cases, dec_lt,
  ltb→le, ltb→lt,
}
use desiros.Base.Memory.{Memory, store}
use desiros.Klibc.{memset, move_down, move_up, memmove, memcpy}

-- `a` lies outside the `n` bytes at `p`.
abbrev pub Outside : ℕ → ℕ → ℕ → Type 0
Outside p n a = (a < p) ⊎ (p + n ≤ a)

pub memset-Outside : (n : ℕ) (m : Memory) (d c a : ℕ) → Outside d n a → memset m d c n a ≡ m a
unfolding memset
memset-Outside zero m d c a h = refl
memset-Outside (suc n) m d c a h =
    ground (arith, memset-Outside n (store m d (c % 256)) (d + 1) c a (ground arith))

memset-inside : (n : ℕ) (m : Memory) (d c i : ℕ) → i < n → memset m d c n (d + i) ≡ c % 256
unfolding memset
memset-inside zero m d c i h = ground arith
memset-inside (suc n) m d c zero h =
    ground (arith, memset-Outside n (store m d (c % 256)) (d + 1) c d (ground arith))
memset-inside (suc n) m d c (suc i) h =
    ground (arith, memset-inside n (store m d (c % 256)) (d + 1) c i (omega arith))

pub move_up-Outside : (n : ℕ) (m : Memory) (d s a : ℕ) → Outside d n a → move_up m d s n a ≡ m a
unfolding move_up
move_up-Outside zero m d s a h = refl
move_up-Outside (suc n) m d s a h =
    ground (arith, move_up-Outside n (store m d (m s)) (d + 1) (s + 1) a (ground arith))

move_up-inside :
    (n : ℕ) (m : Memory) (d s i : ℕ)
    → (d ≤ s) ⊎ (s + n ≤ d)
    → i < n
    → move_up m d s n (d + i) ≡ m (s + i)
unfolding move_up
move_up-inside zero m d s i o h = ground arith
move_up-inside (suc n) m d s zero o h =
    ground (arith, move_up-Outside n (store m d (m s)) (d + 1) (s + 1) d (ground arith))
move_up-inside (suc n) m d s (suc i) o h =
    ground
      (arith, move_up-inside n (store m d (m s)) (d + 1) (s + 1) i (ground arith) (omega arith))

move_down-Outside : (n : ℕ) (m : Memory) (d s a : ℕ) → Outside d n a → move_down m d s n a ≡ m a
unfolding move_down
move_down-Outside zero m d s a h = refl
move_down-Outside (suc n) m d s a h =
    ground (arith, move_down-Outside n (store m (d + n) (m (s + n))) d s a (ground arith))

move_down-inside :
    (n : ℕ) (m : Memory) (d s i : ℕ) → s < d → i < n → move_down m d s n (d + i) ≡ m (s + i)
unfolding move_down
move_down-inside zero m d s i o h = ground arith
move_down-inside (suc n) m d s i o h = elim (dec_lt i n) [
  | yes l ↦ ground (arith, move_down-inside n (store m (d + n) (m (s + n))) d s i o l)
  | no g ↦
      let e : i ≡ n = omega arith in
      rw e (
        ground (
          arith,
          move_down-Outside n (store m (d + n) (m (s + n))) d s (d + n) (inr (omega arith)),
        ))
]

-- The `n` bytes at `d` of `m1` are those at `s` of `m`, and nothing else differs.
abbrev pub Copied : Memory → Memory → ℕ → ℕ → ℕ → Type 0
Copied m m1 d s n =
    ((i : ℕ) → i < n → m1 (d + i) ≡ m (s + i)) × ((a : ℕ) → Outside d n a → m1 a ≡ m a)

-- memset sets the n bytes from d on to the low byte of c and changes no other byte.
pub memset_lem :
    (m : Memory) (d c n : ℕ)
    → ((i : ℕ) → i < n → memset m d c n (d + i) ≡ c % 256)
      × ((a : ℕ) → Outside d n a → memset m d c n a ≡ m a)
memset_lem m d c n = (λ i l. memset-inside n m d c i l, λ a o. memset-Outside n m d c a o)

-- memmove copies the n bytes, overlapping or not, and changes no other byte.
pub memmove_lem : (m : Memory) (to from n : ℕ) → Copied m (memmove m to from n) to from n
unfolding memmove
memmove_lem m to from n = elim (Bool-cases (ltb from to)) [
  | inl e ↦ rw e (
    λ i l. move_down-inside n m to from i (ltb→lt from to e) l,
    λ a o. move_down-Outside n m to from a o,
  )
  | inr e ↦ rw e (
    λ i l. move_up-inside n m to from i (inl (ltb→le from to e)) l,
    λ a o. move_up-Outside n m to from a o,
  )
]

-- memcpy copies the n bytes and changes no other byte, if the destination does not begin inside
-- the source.
pub memcpy_lem :
    (m : Memory) (dst src n : ℕ)
    → (dst ≤ src) ⊎ (src + n ≤ dst)
    → Copied m (memcpy m dst src n) dst src n
unfolding memcpy
memcpy_lem m dst src n o =
    (λ i l. move_up-inside n m dst src i o l, λ a h. move_up-Outside n m dst src a h)
