-- ===== src/Klibc/Copies.antt =====
-- The functions that copy NUL-terminated strings: `strcpy`, `strncpy`, `strzcpy`.
use desiros.Base.{
  ℕ, zero, suc, ◌+◌, ◌-◌, ◌<◌, ◌≤◌, ◌≡◌, refl, ◌⊎◌, true, false, arith, some, dec_lt, ne→==,
}
use desiros.Base.Memory.{Memory, store}
use desiros.Klibc.{strcpy, strncpy, pad, strzcpy, strzcpy_loop, memcpy, move_up}
use desiros.Klibc.Blocks.{Outside, Copied, memcpy_lem}
use desiros.Klibc.Strings.{CString, tail-CString, head-CString, empty-CString}

-- A write in front of the rest of the string, or behind it, leaves the rest as it is.
kept-CString :
    {m : Memory} {s n : ℕ} (d v : ℕ)
    → CString m s n
    → (d < s) ⊎ (s + n < d)
    → CString (store m d v) s n
kept-CString {m} {s} {n} d v c o = record {
  ends = ground (arith, c.ends);
  goes_on = λ i l. ground (arith, c.goes_on i l);
}

strcpy-memcpy :
    (fuel : ℕ) (m : Memory) (d s n : ℕ)
    → CString m s n
    → n < fuel
    → (d ≤ s) ⊎ (s + n < d)
    → strcpy fuel m d s ≡ some (memcpy m d s (suc n))
unfolding strcpy memcpy move_up
strcpy-memcpy zero m d s n c l o = ground arith
strcpy-memcpy (suc fuel) m d s zero c l o = ground (arith, empty-CString c)
strcpy-memcpy (suc fuel) m d s (suc n) c l o = ground (
  arith,
  head-CString c,
  strcpy-memcpy fuel (store m d (m s)) (d + 1) (s + 1) n
      (kept-CString d (m s) (tail-CString c) (ground arith)) (omega arith) (ground arith),
)

-- strcpy ends, copies the string with its NUL and changes no other byte, if the destination does
-- not begin inside the string, with fuel for one step more than the string's length.
pub strcpy_lem :
    (fuel : ℕ) (m : Memory) (dest src n : ℕ)
    → CString m src n
    → n < fuel
    → (dest ≤ src) ⊎ (src + n < dest)
    → (r : Memory) × (strcpy fuel m dest src ≡ some r) × Copied m r dest src (suc n)
strcpy_lem fuel m dest src n c l o = (
  memcpy m dest src (suc n),
  strcpy-memcpy fuel m dest src n c l o,
  memcpy_lem m dest src (suc n) (ground arith),
)

pad-Outside : (n : ℕ) (m : Memory) (d a : ℕ) → Outside d n a → pad m d n a ≡ m a
unfolding pad
pad-Outside zero m d a o = refl
pad-Outside (suc n) m d a o = ground (arith, pad-Outside n (store m d 0) (d + 1) a (ground arith))

pad-inside : (n : ℕ) (m : Memory) (d i : ℕ) → i < n → pad m d n (d + i) ≡ 0
unfolding pad
pad-inside zero m d i o = ground arith
pad-inside (suc n) m d zero o = ground (arith, pad-Outside n (store m d 0) (d + 1) d (ground arith))
pad-inside (suc n) m d (suc i) o =
    ground (arith, pad-inside n (store m d 0) (d + 1) i (omega arith))

strncpy-Outside : (k : ℕ) (m : Memory) (d s a : ℕ) → Outside d k a → strncpy m d s k a ≡ m a
unfolding strncpy
strncpy-Outside zero m d s a o = refl
strncpy-Outside (suc k) m d s a o = ground (
  arith,
  pad-Outside (suc k) m d a o,
  strncpy-Outside k (store m d (m s)) (d + 1) (s + 1) a (ground arith),
)

-- The bytes of the string, and zeros behind it.
module _ where
  strncpy-copied :
      (k : ℕ) (m : Memory) (d s n i : ℕ)
      → CString m s n
      → (d ≤ s) ⊎ (s + n < d)
      → i < k
      → i < n
      → strncpy m d s k (d + i) ≡ m (s + i)
  unfolding strncpy
  strncpy-copied zero m d s n i c o l q = ground arith
  strncpy-copied (suc k) m d s zero i c o l q = ground arith
  strncpy-copied (suc k) m d s (suc n) zero c o l q =
      ground (
        arith,
        head-CString c,
        strncpy-Outside k (store m d (m s)) (d + 1) (s + 1) d (ground arith),
      )
  strncpy-copied (suc k) m d s (suc n) (suc i) c o l q = ground (
    arith,
    head-CString c,
    strncpy-copied k (store m d (m s)) (d + 1) (s + 1) n i
        (kept-CString d (m s) (tail-CString c) (ground arith)) (ground arith) (omega arith)
        (omega arith),
  )

  strncpy-padded :
      (k : ℕ) (m : Memory) (d s n i : ℕ)
      → CString m s n
      → (d ≤ s) ⊎ (s + n < d)
      → i < k
      → n ≤ i
      → strncpy m d s k (d + i) ≡ 0
  unfolding strncpy
  strncpy-padded zero m d s n i c o l q = ground arith
  strncpy-padded (suc k) m d s zero i c o l q =
      ground (arith, empty-CString c, pad-inside (suc k) m d i l)
  strncpy-padded (suc k) m d s (suc n) zero c o l q = ground arith
  strncpy-padded (suc k) m d s (suc n) (suc i) c o l q = ground (
    arith,
    head-CString c,
    strncpy-padded k (store m d (m s)) (d + 1) (s + 1) n i
        (kept-CString d (m s) (tail-CString c) (ground arith)) (ground arith) (omega arith)
        (omega arith),
  )

-- strncpy fills k bytes, with the string's characters and with zeros behind them, and changes no
-- other byte, if the destination does not begin inside the string.
pub strncpy_lem :
    (m : Memory) (dest src n k : ℕ)
    → CString m src n
    → (dest ≤ src) ⊎ (src + n < dest)
    → ((i : ℕ) → i < k → i < n → strncpy m dest src k (dest + i) ≡ m (src + i))
      × ((i : ℕ) → i < k → n ≤ i → strncpy m dest src k (dest + i) ≡ 0)
      × ((a : ℕ) → Outside dest k a → strncpy m dest src k a ≡ m a)
strncpy_lem m dest src n k c o = (
  λ i l q. strncpy-copied k m dest src n i c o l q,
  λ i l q. strncpy-padded k m dest src n i c o l q,
  λ a h. strncpy-Outside k m dest src a h,
)

-- The loop of `strzcpy` is `memcpy`, of the whole string or of as much as fits.
strzcpy-short :
    (k : ℕ) (m : Memory) (d s n : ℕ)
    → CString m s n
    → (d ≤ s) ⊎ (s + n < d)
    → n < k
    → strzcpy_loop m d s k ≡ (true, memcpy m d s (suc n))
unfolding strzcpy_loop memcpy move_up
strzcpy-short zero m d s n c o l = ground arith
strzcpy-short (suc k) m d s zero c o l = ground (arith, empty-CString c)
strzcpy-short (suc k) m d s (suc n) c o l = ground (
  arith,
  head-CString c,
  strzcpy-short k (store m d (m s)) (d + 1) (s + 1) n
      (kept-CString d (m s) (tail-CString c) (ground arith)) (ground arith) (omega arith),
)

strzcpy-long :
    (k : ℕ) (m : Memory) (d s n : ℕ)
    → CString m s n
    → (d ≤ s) ⊎ (s + n < d)
    → k ≤ n
    → strzcpy_loop m d s k ≡ (false, memcpy m d s k)
unfolding strzcpy_loop memcpy move_up
strzcpy-long zero m d s n c o l = refl
strzcpy-long (suc k) m d s zero c o l = ground arith
strzcpy-long (suc k) m d s (suc n) c o l = ground (
  arith,
  head-CString c,
  strzcpy-long k (store m d (m s)) (d + 1) (s + 1) n
      (kept-CString d (m s) (tail-CString c) (ground arith)) (ground arith) (omega arith),
)

-- What `strzcpy` leaves: the string, or as many characters as fit and a NUL.
pub data Bounded (m r : Memory) (dst src n len : ℕ) : Type 0 where
  whole : n < len → Copied m r dst src (suc n) → Bounded m r dst src n len
  cut_off :
      len ≤ n
      → ((i : ℕ) → suc i < len → r (dst + i) ≡ m (src + i))
      → ((i : ℕ) → suc i ≡ len → r (dst + i) ≡ 0)
      → ((a : ℕ) → Outside dst len a → r a ≡ m a)
      → Bounded m r dst src n len

-- For a length above 0, strzcpy copies the whole string with its NUL when that fits into the
-- length; else it copies all characters that fit and leaves a NUL as the last byte. No other byte
-- changes, if the destination does not begin inside the string.
pub strzcpy_lem :
    (m : Memory) (dst src n len : ℕ)
    → CString m src n
    → (dst ≤ src) ⊎ (src + n < dst)
    → 0 < len
    → Bounded m (strzcpy m dst src len) dst src n len
unfolding strzcpy
strzcpy_lem m dst src n len c o pos = elim (dec_lt n len) [
  | yes l ↦ whole l (
      rw (strzcpy, ne→== len 0 (omega arith), strzcpy-short len m dst src n c o l)
        (memcpy_lem m dst src (suc n) (ground arith)))
  | no g ↦
      rw (strzcpy, ne→== len 0 (omega arith), strzcpy-long len m dst src n c o (omega arith))
        (cut (memcpy_lem m dst src len (ground arith)) (omega arith))
]
  where
    cut :
        Copied m (memcpy m dst src len) dst src len
        → len ≤ n
        → Bounded m (store (memcpy m dst src len) (dst + (len - 1)) 0) dst src n len
    cut h g =
        cut_off g (λ i l. ground (arith, h.0 i (omega arith))) (λ i e. ground arith)
          (λ a q. ground (arith, h.1 a q))
