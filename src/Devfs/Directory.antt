-- ===== src/Devfs/Directory.antt =====
-- What a listing of the directory of drivers returns.
use desiros.Base.{
  ℕ, suc, ◌+◌, ◌%◌, ◌^◌, true, ltb→lt, ◌≤◌, ◌<◌, ltb→le, ◌≡◌, refl, ap, ◌∙◌, false, ◌&&◌,
  Bool-cases, inl, inr, List, [], ◌∷◌, ◌++◌, ltb, leb, drop, if◌then◌else◌, arith,
}
use mathlib.Core.List.{append_assoc}
use desiros.Devfs.{DriverEntry, Dirent, Listing, reclen_of, dirents_of, readdir_loop, devfs_readdir}

-- All entries of a directory, in the order of the table.
abbrev pub all_dirents : List DriverEntry → List Dirent
all_dirents [] = []
all_dirents (d ∷ drivers) = dirents_of d ++ all_dirents drivers

abbrev pub total_reclen : List Dirent → ℕ
total_reclen [] = 0
total_reclen (e ∷ es) = e.d_reclen + total_reclen es

-- Why a listing of `count` bytes stops before these drivers.
pub data Ended (size count : ℕ) : List DriverEntry → Type 0 where
  table_end : Ended size count []
  buffer_full : (drivers : List DriverEntry) → size ≤ count → Ended size count drivers
  too_long :
      (d : DriverEntry) (drivers : List DriverEntry)
      → d.used ≡ true
      → size < count + reclen_of d
      → Ended size count (d ∷ drivers)

-- The listing passed some entries: it wrote theirs, counted their bytes, and goes on behind them.
pub data Listed (drivers : List DriverEntry) (size i count : ℕ) (out : Listing) : Type 0 where
  listed :
      (k : ℕ)
      → out.current_octet ≡ i + k
      → out.entries ++ all_dirents (drop k drivers) ≡ all_dirents drivers
      → out.count ≡ count + total_reclen out.entries
      → out.count ≤ size
      → Ended size out.count (drop k drivers)
      → Listed drivers size i count out

stopped :
    (drivers : List DriverEntry) (size i count : ℕ)
    → count ≤ size
    → Ended size count drivers
    → Listed drivers size i count (record { entries = []; count = count; current_octet = i })
stopped drivers size i count h e = listed 0 (omega arith) refl (omega arith) h e

total_of_dirents :
    (d : DriverEntry) (es : List Dirent) (count : ℕ)
    → (if d.used then count + reclen_of d % 2 ^ 16 else count) + total_reclen es
      ≡ count + total_reclen (dirents_of d ++ es)
unfolding dirents_of
total_of_dirents d es count = elim (Bool-cases d.used) [
  | inr u ↦ rw u refl
  | inl u ↦ rw u (omega arith)
]

passed :
    (d : DriverEntry) (drivers : List DriverEntry) (size i count : ℕ) (rest : Listing)
    → Listed drivers size (suc i) (if d.used then count + reclen_of d % 2 ^ 16 else count) rest
    → Listed (d ∷ drivers) size i count (record rest { entries = dirents_of d ++ rest.entries })
passed d drivers size i count rest (listed k at all counted fits ended) =
    listed (suc k) (omega (arith, at))
      (append_assoc (dirents_of d) rest.entries (all_dirents (drop k drivers))
        ∙ ap (λ es. dirents_of d ++ es) all)
      (counted ∙ total_of_dirents d rest.entries count) fits ended

leb→lt : (a b : ℕ) → leb a b ≡ false → b < a
leb→lt a b h = ground arith

no_room :
    (d : DriverEntry) (drivers : List DriverEntry) (size count : ℕ)
    → ltb count size && leb (if d.used then count + reclen_of d else count) size ≡ false
    → Ended size count (d ∷ drivers)
unfolding reclen_of
no_room d drivers size count h = elim (Bool-cases (ltb count size)) [
  | inr e ↦ buffer_full (d ∷ drivers) (ltb→le count size e)
  | inl e ↦ elim (Bool-cases d.used) [
    | inl u ↦ too_long d drivers u (leb→lt (count + reclen_of d) size (rw (e, u) at h))
    | inr u ↦ absurd (ground (arith, leb→lt count size (rw (e, u) at h), ltb→lt count size e))
  ]
]

readdir_loop_lem :
    (drivers : List DriverEntry) (size i count : ℕ)
    → count ≤ size
    → Listed drivers size i count (readdir_loop drivers size i count)
unfolding readdir_loop
readdir_loop_lem [] size i count h = stopped [] size i count h table_end
readdir_loop_lem (d ∷ drivers) size i count h =
    let needed = if d.used then count + reclen_of d else count in
    let next = if d.used then count + reclen_of d % 2 ^ 16 else count in
    elim (Bool-cases (ltb count size && leb needed size)) [
      | inr e ↦ simp e (stopped (d ∷ drivers) size i count h (no_room d drivers size count e))
      | inl e ↦ simp e (
          passed d drivers size i count (readdir_loop drivers size (suc i) next)
            (readdir_loop_lem drivers size (suc i) next (ground (arith, e))))
    ]

-- A listing from an entry of the table on writes the entries of the drivers in use, in the table's
-- order and without a gap, up to the entry that it goes on with; the count that it returns is the
-- total of their 16-bit lengths, and is at most the size of the buffer. It stops at the end of the table,
-- at a full buffer, or before an entry for which the buffer has no room.
pub devfs_readdir-Listed :
    (drivers : List DriverEntry) (current_octet size : ℕ)
    → Listed
        (drop current_octet drivers)
        size
        current_octet
        0
        (devfs_readdir drivers current_octet size)
unfolding devfs_readdir
devfs_readdir-Listed drivers current_octet size =
    readdir_loop_lem (drop current_octet drivers) size current_octet 0 (omega arith)
