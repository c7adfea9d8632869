-- ===== src/Klibc.antt =====
-- The memory and string functions of klibc.c on byte-addressed memory. Addresses are natural
-- numbers: a buffer does not reach the end of the address space. A loop that runs up to a NUL byte
-- takes fuel and returns `none` when it needs more.
pub mod Blocks
pub mod Strings
pub mod Copies
mod Examples
use desiros.Base.{
  ℕ, zero, suc, ◌+◌, ◌-◌, ◌%◌, ◌^◌, Bool, true, false, ◌&&◌, ◌||◌, not, Option, none, some, ltb,
  ◌==◌, if◌then◌else◌,
}
use desiros.Base.Memory.{Memory, store}

unfoldable pub memset : Memory → ℕ → ℕ → ℕ → Memory
memset m d c zero = m
memset m d c (suc n) = memset (store m d (c % 256)) (d + 1) c n

-- The two loops of `memmove`; the second is also that of `memcpy`.
unfoldable pub move_down : Memory → ℕ → ℕ → ℕ → Memory
move_down m dstp srcp zero = m
move_down m dstp srcp (suc length) =
    move_down (store m (dstp + length) (m (srcp + length))) dstp srcp length

unfoldable pub move_up : Memory → ℕ → ℕ → ℕ → Memory
move_up m dstp srcp zero = m
move_up m dstp srcp (suc length) = move_up (store m dstp (m srcp)) (dstp + 1) (srcp + 1) length

unfoldable pub memmove : Memory → ℕ → ℕ → ℕ → Memory
unfolding move_down move_up
memmove m to from length =
    if ltb from to then move_down m to from length else move_up m to from length

unfoldable pub memcpy : Memory → ℕ → ℕ → ℕ → Memory
unfolding move_up
memcpy m dst src size = move_up m dst src size

unfoldable pub strlen_loop : ℕ → Memory → ℕ → Option ℕ
strlen_loop zero m p = none
strlen_loop (suc fuel) m p = if m p == 0 then some p else strlen_loop fuel m (p + 1)

unfoldable pub strlen : ℕ → Memory → ℕ → Option ℕ
unfolding strlen_loop
strlen fuel m s = elim (strlen_loop fuel m s) [ none ↦ none | some p ↦ some (p - s) ]

unfoldable pub strcpy : ℕ → Memory → ℕ → ℕ → Option Memory
strcpy zero m dest src = none
strcpy (suc fuel) m dest src =
    if m src == 0
    then some (store m dest 0)
    else strcpy fuel (store m dest (m src)) (dest + 1) (src + 1)

-- The loops of `strncpy`: `n` is what is left of the count.
unfoldable pub pad : Memory → ℕ → ℕ → Memory
pad m s1 zero = m
pad m s1 (suc n) = pad (store m s1 0) (s1 + 1) n

unfoldable pub strncpy : Memory → ℕ → ℕ → ℕ → Memory
unfolding pad
strncpy m s1 s2 zero = m
strncpy m s1 s2 (suc n) =
    if m s2 == 0 then pad m s1 (suc n) else strncpy (store m s1 (m s2)) (s1 + 1) (s2 + 1) n

-- The loop of `strzcpy`, then the NUL that cuts the string off. Whether the loop met a NUL comes first.
unfoldable pub strzcpy_loop : Memory → ℕ → ℕ → ℕ → Bool × Memory
strzcpy_loop m dst src zero = (false, m)
strzcpy_loop m dst src (suc n) =
    let m1 = store m dst (m src) in
    if m1 src == 0 then (true, m1) else strzcpy_loop m1 (dst + 1) (src + 1) n

-- A negative `len` is 0 here: both return at once.
unfoldable pub strzcpy : Memory → ℕ → ℕ → ℕ → Memory
unfolding strzcpy_loop
strzcpy m dst src len =
    if len == 0
    then m
    else let r = strzcpy_loop m dst src len in if r.0 then r.1 else store r.1 (dst + (len - 1)) 0

-- `strcmp`: `some 0` for equal strings, `some 1` for different ones.
unfoldable pub strcmp : ℕ → Memory → ℕ → ℕ → Option ℕ
strcmp zero m dst src = none
strcmp (suc fuel) m dst src =
    if m dst == m src
    then if m src == 0 then some 0 else strcmp fuel m (dst + 1) (src + 1)
    else some 1

-- The address of the first `c` of the string, or of its NUL.
unfoldable pub strchrnul : ℕ → Memory → ℕ → ℕ → Option ℕ
strchrnul zero m i c = none
strchrnul (suc fuel) m i c =
    if m i == 0 then some i else if m i == c then some i else strchrnul fuel m (i + 1) c
