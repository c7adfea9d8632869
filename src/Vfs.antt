-- ===== src/Vfs.antt =====
-- The virtual file system, vfs.c. Names and paths are sequences of characters without their NUL. A
-- directory entry stands for its inode as well. The operations of the file systems are fields of a
-- record, as in the source, `none` for NULL, over their own state `F`.
pub mod Names
pub mod Resolution
pub mod Calls
mod Examples
use desiros.Base.{
  ℕ, zero, suc, ◌+◌, ◌-◌, Bool, true, false, ◌&&◌, not, List, [], ◌∷◌, Option, none, some, leb,
  ◌==◌, if◌then◌else◌, length,
}

abbrev pub Name : Type 0
Name = List ℕ

abbrev pub slash : ℕ
slash = 47

abbrev pub dot : ℕ
dot = 46

unfoldable pub same_name : Name → Name → Bool
same_name [] [] = true
same_name [] (y ∷ ys) = false
same_name (x ∷ xs) [] = false
same_name (x ∷ xs) (y ∷ ys) = (x == y) && same_name xs ys

-- `struct _fs_instance_t`, with `open` for the open file operations of its files.
pub record FsInstance {ℓ} (F : Type ℓ) : Type ℓ where
  pub getroot : Option ℕ
  pub lookup : F → ℕ → Name → Option ℕ
  pub mkdir : Option (F → ℕ → Name → ℕ → F)
  -- the second result is the inode of the new entry
  pub mknod : Option (F → ℕ → Name → ℕ → F × ℕ)
  pub unlink : Option (F → ℕ → ℕ → F)
  pub rmdir : Option (F → ℕ → ℕ → F)
  -- the inode and its new size: the only attribute that `vfs_open` sets
  pub setattr : Option (F → ℕ → ℕ → F)
  -- `open` of the inode's operations, and `fs->umount` with the `close` of the device
  pub open_file : Option (F → ℕ → F)
  pub umount : Option (F → F)
  pub rename : Option (F → ℕ → ℕ → ℕ → Name → F)

pub record MountedFs {ℓ} (F : Type ℓ) : Type ℓ where
  pub instance_of : Option (FsInstance F)
  pub name : Name

-- `mount_list`, `mvfs` with `root_vfs`, the file systems' own state, the `i_nlink` of
-- the root and the inodes' `i_count`.
pub record Vfs {ℓ} (F : Type ℓ) : Type ℓ where
  pub mount_list : List (MountedFs F)
  pub mvfs : FsInstance F
  pub root_vfs : ℕ
  pub files : F
  pub root_links : ℕ
  pub i_count : ℕ → ℕ

-- `struct nameidata` without its flags. The instance is that of `mnt`.
pub record Nameidata {ℓ} (F : Type ℓ) : Type ℓ where
  pub dentry : ℕ
  pub mnt : FsInstance F
  pub last : Name

-- The results 0, -1 and -2 of the resolution, -ENOENT and -EEXIST.
pub data Result : Type 0 where
  success not_found no_mount enoent eexist : Result

unfoldable pub skip_slashes : Name → Name
skip_slashes [] = []
skip_slashes (c ∷ cs) = if c == slash then skip_slashes cs else c ∷ cs

-- The characters in front of the next slash, and those from it on.
unfoldable pub part : Name → Name
part [] = []
part (c ∷ cs) = if c == slash then [] else c ∷ part cs

unfoldable pub after_part : Name → Name
after_part [] = []
after_part (c ∷ cs) = if c == slash then c ∷ cs else after_part cs

-- The part's name and the new `nb->last`.
unfoldable pub get_next_part_path : Name → Name × Name
unfolding skip_slashes part after_part
get_next_part_path last = (part (skip_slashes last), after_part (skip_slashes last))

unfoldable pub is_dot : Name → Bool
is_dot [] = false
is_dot (c ∷ []) = c == dot
is_dot (c ∷ d ∷ cs) = false

abbrev pub is_end : Name → Bool
is_end [] = true
is_end (c ∷ cs) = false

module _ {ℓ} {F : Type ℓ} where
  -- `lookup`, with `parent` for the flag LOOKUP_PARENT; `none` if the fuel runs out.
  unfoldable pub lookup : ℕ → Bool → F → Nameidata F → Option (Result × Nameidata F)
  unfolding get_next_part_path is_dot
  lookup zero parent files nb = none
  lookup (suc fuel) parent files nb =
      if is_end nb.last
      then some (success, nb)
      else (let (name, rest) = get_next_part_path nb.last in
          if is_dot name
          then lookup fuel parent files (record nb { last = rest })
          else if is_end rest && parent
          then some (success, record nb { last = name })
          else elim (nb.mnt.lookup files nb.dentry name) [
            | none ↦ some (not_found, record nb { last = rest })
            | some dentry ↦ lookup fuel parent files (record nb { last = rest; dentry = dentry })
          ])

  unfoldable pub get_mnt_from_path : List (MountedFs F) → Name → Option (MountedFs F)
  unfolding same_name
  get_mnt_from_path [] name = none
  get_mnt_from_path (m ∷ ms) name =
      if same_name m.name name then some m else get_mnt_from_path ms name

  -- The result and the name data, `none` for those that are not filled. The outer `none` is missing fuel.
  unfoldable pub open_namei : Vfs F → Bool → Name → Option (Result × Option (Nameidata F) × Vfs F)
  unfolding lookup get_mnt_from_path get_next_part_path
  open_namei s parent pathname =
      let (name, rest) = get_next_part_path pathname in
      elim (get_mnt_from_path s.mount_list name) [
        | some m ↦ elim m.instance_of [
          | none ↦ some (not_found, none, s)
          | some mnt ↦ elim mnt.getroot [
            | none ↦ some (not_found, none, s)
            | some root ↦
                let nb : Nameidata F = record { dentry = root; mnt = mnt; last = rest } in
                if is_end rest && parent
                then some (success, some nb, s)
                else elim (lookup (suc (length rest)) parent s.files nb) [
                  | none ↦ none
                  | some (result, nb1) ↦ some (result, some nb1, s)
                ]
          ]
        ]
        | none ↦
            if leb (length pathname) 1
            then some (
              success,
              some (record { dentry = s.root_vfs; mnt = s.mvfs; last = rest }),
              record s { i_count = λ d. if d == s.root_vfs then s.i_count d + 1 else s.i_count d },
            )
            else some (no_mount, none, s)
      ]
