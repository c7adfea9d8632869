-- ===== src/Vfs/Examples.antt =====
-- A small tree below the mount point "m", and the theorems at it.
use desiros.Base.{
  ℕ, ◌+◌, ◌≡◌, refl, true, false, ◌&&◌, [], ◌∷◌, Option, none, some, ◌==◌, if◌then◌else◌, arith,
}
use desiros.Vfs.{
  Name, FsInstance, Vfs, Nameidata, same_name, get_mnt_from_path, get_next_part_path, lookup,
}
use desiros.Vfs.Resolution.{Resolved, lookup_lem, Parented, lookup-Parented}
use desiros.Vfs.Calls.{vfs_stat, vfs_close, dentry_open}
use desiros.Vfs.Calls.Opening.{Mounted, Reached, vfs_open-stat}
use desiros.Vfs.Calls.Mounting.{vfs_close-dentry_open}
use desiros.Vfs.Names.{ends}

-- The root 1 holds "a", which is 2, and that holds "b", which is 3. The state counts the opens.
abbrev find : ℕ → ℕ → Name → Option ℕ
find files d name =
    if d == 1 && same_name name (97 ∷ [])
    then some 2
    else if d == 2 && same_name name (98 ∷ [])
    then some 3
    else none

abbrev tree : FsInstance ℕ
tree = record {
  getroot = some 1;
  lookup = find;
  mkdir = none;
  mknod = none;
  unlink = none;
  rmdir = none;
  setattr = none;
  open_file = some (λ files d. files + 1);
  umount = none;
  rename = none;
}

abbrev mounted : Vfs ℕ
mounted = record {
  mount_list = record { instance_of = some tree; name = 109 ∷ [] } ∷ [];
  mvfs = tree;
  root_vfs = 0;
  files = 0;
  root_links = 2;
  i_count = λ d. 0;
}

-- "/m/a/./b"
abbrev path : Name
path = 47 ∷ 109 ∷ 47 ∷ 97 ∷ 47 ∷ 46 ∷ 47 ∷ 98 ∷ []

path-Mounted : Mounted mounted path tree 1
unfolding get_mnt_from_path get_next_part_path ends
path-Mounted = record {
  m = record { instance_of = some tree; name = 109 ∷ [] };
  found = refl;
  instance_there = refl;
  root_there = refl;
  no_slash = refl;
}

vfs_open-stat_example : Reached mounted path tree 1
vfs_open-stat_example = vfs_open-stat mounted path tree 1 path-Mounted

found_b : vfs_stat mounted path ≡ some (some 3, mounted)
unfolding vfs_stat
found_b = refl

abbrev below : Nameidata ℕ
below = record { dentry = 1; mnt = tree; last = 47 ∷ 97 ∷ 47 ∷ 46 ∷ 47 ∷ 98 ∷ [] }

below-ends : ends below.last ≡ true
unfolding ends
below-ends = refl

lookup_lem_example : Resolved 0 below (lookup 7 false 0 below)
lookup_lem_example = lookup_lem 7 0 below (omega arith) below-ends

lookup-Parented_example : Parented 0 below (lookup 7 true 0 below)
lookup-Parented_example = lookup-Parented 7 0 below (omega arith) below-ends

vfs_close-dentry_open_example : vfs_close (dentry_open mounted 3) 3 ≡ mounted
vfs_close-dentry_open_example = vfs_close-dentry_open mounted 3
