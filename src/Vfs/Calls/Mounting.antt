-- ===== src/Vfs/Calls/Mounting.antt =====
-- What `vfs_mount`, `vfs_umount` and `vfs_close` leave.
use mathlib.Core.Path.{fun_ext}
use desiros.Base.{
  ℕ, ◌≡◌, refl, true, ◌-◌, Option, some, none, [], ◌∷◌, arith, ℕ_discrete, eq→==, ne→==,
}
use desiros.Vfs.{Name, MountedFs, Vfs, same_name, get_mnt_from_path}
use desiros.Vfs.Calls.{dentry_open, vfs_close}

same_name_refl : (n : Name) → same_name n n ≡ true
unfolding same_name
same_name_refl [] = refl
same_name_refl (x ∷ xs) = ground (arith, same_name_refl xs)

module _ {ℓ} {F : Type ℓ} where
  counted_back : (s : Vfs F) (d q : ℕ) → (vfs_close (dentry_open s d) d).i_count q ≡ s.i_count q
  unfolding vfs_close
  counted_back s d q = elim (ℕ_discrete q d) [
    | yes e ↦ rw (e, eq→== d d refl) (omega arith)
    | no n ↦ rw (ne→== q d n) refl
  ]

  -- vfs_close of an entry that has just been opened gives its user back: all of the state is as before.
  pub vfs_close-dentry_open : (s : Vfs F) (d : ℕ) → vfs_close (dentry_open s d) d ≡ s
  unfolding vfs_close
  vfs_close-dentry_open s d i = record s { i_count = fun_ext {g = s.i_count} (counted_back s d) i }

  -- What the instance's `umount` and the device's `close` make of the file systems' state, if they are there.
  abbrev pub files_without : MountedFs F → F → F
  files_without m files = elim m.instance_of [
    | none ↦ files
    | some i ↦ elim i.umount [ none ↦ files | some f ↦ f files ]
  ]

  -- What `vfs_umount` may do: nothing is mounted under the name; or the first file system of that name
  -- is unmounted, and is found under it all the same.
  pub data Unmounted (s : Vfs F) (mountpoint : Name) (r : ℕ × Vfs F) : Type ℓ where
    not_mounted :
        get_mnt_from_path s.mount_list mountpoint ≡ none → r ≡ (1, s) → Unmounted s mountpoint r
    unmounted :
        (m : MountedFs F)
        → get_mnt_from_path s.mount_list mountpoint ≡ some m
        → r ≡ (0, record s { files = files_without m s.files; root_links = s.root_links - 1 })
        → get_mnt_from_path r.1.mount_list mountpoint ≡ some m
        → Unmounted s mountpoint r

  found_or : MountedFs F → Option (MountedFs F) → MountedFs F
  found_or x none = x
  found_or x (some m) = m
