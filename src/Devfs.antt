-- ===== src/Devfs.antt =====
-- The device file system, fs/devfs.c: the table of drivers, which is a sequence of its entries, and the
-- listing of its directory. A name is the sequence of its characters.
pub mod Drivers
pub mod Directory
mod Examples
use desiros.Base.{
  ℕ, zero, suc, ◌+◌, ◌%◌, ◌^◌, Bool, true, false, List, [], ◌∷◌, ◌++◌, Option, none, some, length,
  ltb, leb, if◌then◌else◌, ◌&&◌, drop,
}
use desiros.Vfs.{Name, same_name}

pub data DeviceType : Type 0 where
  chardev blkdev : DeviceType

-- `driver_entry`; the interfaces and the device's number are given by their addresses.
pub record DriverEntry : Type 0 where
  pub used : Bool
  pub name : Name
  pub device_type : DeviceType
  pub di : ℕ
  pub dev_id : ℕ

abbrev pub max_drivers : ℕ
max_drivers = 64

abbrev pub unused_driver : DriverEntry
unused_driver = record { used = false; name = []; device_type = chardev; di = 0; dev_id = 0 }

unfoldable pub init_driver_list : ℕ → List DriverEntry
init_driver_list zero = []
init_driver_list (suc n) = unused_driver ∷ init_driver_list n

unfoldable pub find_driver : List DriverEntry → Name → Option DriverEntry
find_driver [] name = none
find_driver (d ∷ drivers) name =
    let rest = find_driver drivers name in
    if d.used then if same_name d.name name then some d else rest else rest

-- The two functions that register a driver, which differ in its type; -1 is `false`.
unfoldable pub register_driver :
    DeviceType → List DriverEntry → Name → ℕ → ℕ → Bool × List DriverEntry
register_driver device_type [] name di dev_id = (false, [])
register_driver device_type (d ∷ drivers) name di dev_id =
    let rest = register_driver device_type drivers name di dev_id in
    if d.used then (rest.0, d ∷ rest.1) else (
      true,
      record { used = true; name = name; device_type = device_type; di = di; dev_id = dev_id }
          ∷ drivers,
    )

abbrev pub devfs_register_chardev : List DriverEntry → Name → ℕ → ℕ → Bool × List DriverEntry
devfs_register_chardev drivers name di dev_id = register_driver chardev drivers name di dev_id

abbrev pub devfs_register_blkdev : List DriverEntry → Name → ℕ → ℕ → Bool × List DriverEntry
devfs_register_blkdev drivers name di dev_id = register_driver blkdev drivers name di dev_id

-- `struct dirent`: the fields that a listing fills.
pub record Dirent : Type 0 where
  pub d_ino : ℕ
  pub d_reclen : ℕ
  pub d_name : Name

-- The entries written, the count of bytes, and the entry to go on with.
pub record Listing : Type 0 where
  pub entries : List Dirent
  pub count : ℕ
  pub current_octet : ℕ

-- The sizes of the fields before the name, the name and its NUL.
unfoldable pub reclen_of : DriverEntry → ℕ
reclen_of d = 4 + 2 + 1 + length d.name + 1

unfoldable pub dirents_of : DriverEntry → List Dirent
dirents_of d =
    if d.used
    then record { d_ino = 1; d_reclen = reclen_of d % 2 ^ 16; d_name = d.name } ∷ []
    else []

-- The loop of `devfs_readdir` on the drivers from the entry `i` on; `break` ends it before the
-- entry that does not fit.
unfoldable pub readdir_loop : List DriverEntry → ℕ → ℕ → ℕ → Listing
readdir_loop [] size i count = record { entries = []; count = count; current_octet = i }
readdir_loop (d ∷ drivers) size i count =
    let needed = if d.used then count + reclen_of d else count in
    let next = if d.used then count + reclen_of d % 2 ^ 16 else count in
    let rest = readdir_loop drivers size (suc i) next in
    if ltb count size && leb needed size
    then record rest { entries = dirents_of d ++ rest.entries }
    else record { entries = []; count = count; current_octet = i }

unfoldable pub devfs_readdir : List DriverEntry → ℕ → ℕ → Listing
devfs_readdir drivers current_octet size =
    readdir_loop (drop current_octet drivers) size current_octet 0
