-- ===== src/Devfs/Examples.antt =====
-- A table of two entries, and the theorem at it.
use desiros.Base.{List, true, ◌≡◌, refl, [], ◌∷◌, none}
use desiros.Devfs.{
  blkdev, init_driver_list, find_driver, DriverEntry, devfs_readdir, readdir_loop, dirents_of,
  reclen_of, register_driver, unused_driver,
}
use desiros.Devfs.Directory.{Listed, devfs_readdir-Listed}
use desiros.Devfs.Drivers.{Registered, register_driver_lem}

two_free : init_driver_list 2 ≡ unused_driver ∷ unused_driver ∷ []
unfolding init_driver_list
two_free = refl

nothing_found : find_driver (unused_driver ∷ unused_driver ∷ []) (104 ∷ 100 ∷ []) ≡ none
unfolding find_driver
nothing_found = refl

register_driver_lem_example :
    Registered blkdev
      (unused_driver ∷ unused_driver ∷ [])
      (104 ∷ 100 ∷ [])
      0x500
      0x300
      (register_driver blkdev (unused_driver ∷ unused_driver ∷ []) (104 ∷ 100 ∷ []) 0x500 0x300)
register_driver_lem_example =
    register_driver_lem blkdev (unused_driver ∷ unused_driver ∷ []) (104 ∷ 100 ∷ []) 0x500 0x300
      nothing_found

-- A buffer of 20 bytes takes the entry of the driver in use, and the listing ends behind the table.
abbrev one_driver : List DriverEntry
one_driver =
    unused_driver
    ∷ record { used = true; name = 104 ∷ 100 ∷ []; device_type = blkdev; di = 1; dev_id = 3 }
    ∷ unused_driver
    ∷ []

devfs_readdir_run : devfs_readdir one_driver 0 20 ≡ record {
  entries = record { d_ino = 1; d_reclen = 10; d_name = 104 ∷ 100 ∷ [] } ∷ [];
  count = 10;
  current_octet = 3;
}
unfolding devfs_readdir readdir_loop dirents_of reclen_of
devfs_readdir_run = refl

devfs_readdir-Listed_example : Listed one_driver 20 0 0 (devfs_readdir one_driver 0 20)
devfs_readdir-Listed_example = devfs_readdir-Listed one_driver 0 20
