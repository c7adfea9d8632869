-- ===== src/Klibc/Examples.antt =====
-- Runs of the functions of klibc.c on small buffers, and the theorems at them.
use desiros.Base.{
  ℕ, zero, suc, ◌+◌, ◌%◌, ◌<◌, ◌≤◌, ◌≡◌, refl, ◌≢◌, inr, arith, ltb, some, ◌==◌, if◌then◌else◌,
}
use desiros.Base.Memory.{Memory}
use desiros.Klibc.{memset, memmove, strlen, strcpy, strncpy, strzcpy, strcmp, strchrnul}
use desiros.Klibc.Blocks.{Outside, Copied, memset_lem, memmove_lem}
use desiros.Klibc.Strings.{CString, strlen_lem, Compared, strcmp_lem, Found, strchrnul_lem}
use desiros.Klibc.Copies.{strcpy_lem, strncpy_lem, Bounded, strzcpy_lem}

-- "abc" at 10, and 7 at every address from 14 on.
abbrev abc : Memory
abc a =
    if ltb a 10
    then 7
    else if a == 10
    then 97
    else if a == 11
    then 98
    else if a == 12
    then 99
    else if a == 13
    then 0
    else 7

abc-CString : CString abc 10 3
abc-CString = record { ends = refl; goes_on = each }
  where
    each : (i : ℕ) → i < 3 → abc (10 + i) ≢ 0
    each zero l = ground arith
    each (suc zero) l = ground arith
    each (suc (suc zero)) l = ground arith
    each (suc (suc (suc i))) l = ground arith

memmove_lem_example : Copied abc (memmove abc 11 10 3) 11 10 3
memmove_lem_example = memmove_lem abc 11 10 3

moved_up : memmove abc 11 10 3 13 ≡ 99
unfolding memmove
moved_up = refl

memset_lem_example :
    ((i : ℕ) → i < 2 → memset abc 10 300 2 (10 + i) ≡ 300 % 256)
    × ((a : ℕ) → Outside 10 2 a → memset abc 10 300 2 a ≡ abc a)
memset_lem_example = memset_lem abc 10 300 2

strcmp_lem_example : Compared abc 11 10 3 (strcmp 4 abc 11 10)
strcmp_lem_example = strcmp_lem 4 abc 11 10 3 abc-CString (omega arith)

strlen_lem_example : strlen 4 abc 10 ≡ some 3
strlen_lem_example = strlen_lem 4 abc 10 3 abc-CString (omega arith)

strchrnul_lem_example : Found abc 10 3 98 (strchrnul 4 abc 10 98)
strchrnul_lem_example = strchrnul_lem 4 abc 10 3 98 abc-CString (omega arith)

strcpy_lem_example : (r : Memory) × (strcpy 4 abc 20 10 ≡ some r) × Copied abc r 20 10 4
strcpy_lem_example = strcpy_lem 4 abc 20 10 3 abc-CString (omega arith) (inr (omega arith))

strncpy_lem_example :
    ((i : ℕ) → i < 5 → i < 3 → strncpy abc 20 10 5 (20 + i) ≡ abc (10 + i))
    × ((i : ℕ) → i < 5 → 3 ≤ i → strncpy abc 20 10 5 (20 + i) ≡ 0)
    × ((a : ℕ) → Outside 20 5 a → strncpy abc 20 10 5 a ≡ abc a)
strncpy_lem_example = strncpy_lem abc 20 10 3 5 abc-CString (inr (omega arith))

strzcpy_lem_example : Bounded abc (strzcpy abc 20 10 2) 20 10 3 2
strzcpy_lem_example = strzcpy_lem abc 20 10 3 2 abc-CString (inr (omega arith)) (omega arith)
