-- ===== src/Vfs/Calls.antt =====
-- The calls of vfs.c on names: opening, closing, mounting, and those that change a directory. The
-- outer `none` of a result is missing fuel or a call through a NULL entry of the instance.
pub mod Opening
pub mod Mounting
use desiros.Base.{
  ℕ, zero, suc, ◌+◌, ◌-◌, Bool, true, false, ◌&&◌, not, List, [], ◌∷◌, Option, none, some, ◌==◌,
  if◌then◌else◌, length,
}
use desiros.Vfs.{
  Name, FsInstance, MountedFs, Vfs, Nameidata, Result, success, not_found, no_mount, enoent, eexist,
  lookup, open_namei, same_name,
}

abbrev pub succeeded : Result → Bool
succeeded success = true
succeeded not_found = false
succeeded no_mount = false
succeeded enoent = false
succeeded eexist = false

-- `struct _file_system_t`: the name and `mount`.
pub record FileSystem {ℓ} (F : Type ℓ) : Type ℓ where
  pub fs_name : Name
  pub mount : F → Option ℕ → FsInstance F × F

module _ {ℓ} {F : Type ℓ} where
  -- `dentry_open`: one more user of the inode.
  abbrev pub dentry_open : Vfs F → ℕ → Vfs F
  dentry_open s dentry = record s {
    i_count = λ d. if d == dentry then s.i_count d + 1 else s.i_count d;
  }

  unfoldable pub vfs_close : Vfs F → ℕ → Vfs F
  vfs_close s dentry = record s {
    i_count = λ d. if d == dentry then s.i_count d - 1 else s.i_count d;
  }

  -- The end of `vfs_open`, from its label on: `at` is what `nb` still names.
  unfoldable pub open_end : FsInstance F → Vfs F → ℕ → ℕ → Bool → Vfs F
  open_end mnt s at dentry trunc =
      let cut : F = elim mnt.setattr [
        | none ↦ s.files
        | some set ↦ if trunc then set s.files at 0 else s.files
      ] in
      let opened : F = elim mnt.open_file [ none ↦ cut | some f ↦ f cut dentry ] in
      record s { files = opened }

  -- The entry that is opened, `none` for NULL. `creat` and `trunc` are the flags of those names.
  unfoldable pub open_found : Vfs F → Nameidata F → Bool → Bool → Option (Option ℕ × Vfs F)
  unfolding lookup open_end
  open_found s nb creat trunc = elim (lookup (suc (length nb.last)) false s.files nb) [
    | none ↦ none
    | some (result, nb_last) ↦
        if succeeded result
        then some (
          some nb_last.dentry,
          open_end nb.mnt (dentry_open s nb_last.dentry) nb_last.dentry nb_last.dentry trunc,
        )
        else if creat
        then elim nb.mnt.mknod [
          | none ↦ none
          | some make ↦
              let (files, entry) = make s.files nb.dentry nb.last 0 in
              some (
                some entry,
                open_end nb.mnt (dentry_open (record s { files = files }) entry) nb.dentry entry
                    trunc,
              )
        ]
        else some (none, s)
  ]

  unfoldable pub vfs_open : Vfs F → Name → Bool → Bool → Option (Option ℕ × Vfs F)
  unfolding open_namei open_found
  vfs_open s pathname creat trunc = elim (open_namei s true pathname) [
    | none ↦ none
    | some (result, nbo, s1) ↦ elim nbo [
      | none ↦ some (none, s1)
      | some nb ↦ if succeeded result then open_found s1 nb creat trunc else some (none, s1)
    ]
  ]

  -- `vfs_stat` as far as the inode that it describes.
  unfoldable pub vfs_stat : Vfs F → Name → Option (Option ℕ × Vfs F)
  unfolding open_namei
  vfs_stat s pathname = elim (open_namei s false pathname) [
    | none ↦ none
    | some (result, nbo, s1) ↦ elim nbo [
      | none ↦ some (none, s1)
      | some nb ↦ if succeeded result then some (some nb.dentry, s1) else some (none, s1)
    ]
  ]

  -- A call that resolves the parent first; `act` gets its entry and the last name's data.
  unfoldable pub with_parent :
      Vfs F → Name → (Vfs F → Nameidata F → Option (Vfs F)) → Option (Result × Vfs F)
  unfolding open_namei
  with_parent s pathname act = elim (open_namei s true pathname) [
    | none ↦ none
    | some (result, nbo, s1) ↦ elim nbo [
      | none ↦ some (enoent, s1)
      | some nb ↦
          if succeeded result
          then (elim (act s1 nb) [ none ↦ none | some t ↦ some (success, t) ])
          else some (enoent, s1)
    ]
  ]

  -- `vfs_unlink` and `vfs_rmdir` do not look at the result of the second `lookup`.
  unfoldable pub remove_entry :
      (FsInstance F → Option (F → ℕ → ℕ → F)) → Vfs F → Nameidata F → Option (Vfs F)
  unfolding lookup
  remove_entry op s nb = elim (op nb.mnt) [
    | none ↦ some s
    | some remove ↦ elim (lookup (suc (length nb.last)) false s.files nb) [
      | none ↦ none
      | some (_, nb1) ↦ some (record s { files = remove s.files nb.dentry nb1.dentry })
    ]
  ]

  unfoldable pub vfs_unlink : Vfs F → Name → Option (Result × Vfs F)
  unfolding with_parent remove_entry
  vfs_unlink s pathname = with_parent s pathname (remove_entry (λ m. m.unlink))

  unfoldable pub vfs_rmdir : Vfs F → Name → Option (Result × Vfs F)
  unfolding with_parent remove_entry
  vfs_rmdir s pathname = with_parent s pathname (remove_entry (λ m. m.rmdir))

  unfoldable pub vfs_mknod : Vfs F → Name → ℕ → Option (Result × Vfs F)
  unfolding with_parent
  vfs_mknod s pathname mode = with_parent s pathname (λ t nb. elim nb.mnt.mknod [
    | none ↦ some t
    | some make ↦ some (record t { files = (make t.files nb.dentry nb.last mode).0 })
  ])

  unfoldable pub vfs_mkdir : Vfs F → Name → ℕ → Option (Result × Vfs F)
  unfolding with_parent open_namei
  vfs_mkdir s pathname mode = elim (open_namei s false pathname) [
    | none ↦ none
    | some (result, _, s1) ↦
        if succeeded result
        then some (eexist, s1)
        else with_parent s1 pathname (λ t nb. elim nb.mnt.mkdir [
          | none ↦ some t
          | some make ↦ some (record t { files = make t.files nb.dentry nb.last mode })
        ])
  ]

  -- `vfs_register_fs` puts the file system at the head of the list.
  unfoldable pub vfs_register_fs : List (FileSystem F) → FileSystem F → List (FileSystem F)
  vfs_register_fs fs_list fs = fs ∷ fs_list

  -- The loop of `vfs_mount`: every file system of the type is mounted.
  unfoldable pub vfs_mount :
      List (FileSystem F) → Vfs F → Option Name → Name → Name → Option (Vfs F)
  unfolding vfs_open same_name
  vfs_mount [] s device mountpoint type = some s
  vfs_mount (fs ∷ rest) s device mountpoint type =
      if same_name fs.fs_name type
      then (let opening : Option (Option ℕ × Vfs F) = elim device [
        | none ↦ some (none, s)
        | some path ↦ vfs_open s path false false
      ] in
          elim opening [
            | none ↦ none
            | some (ofd, s1) ↦
                let (inst, files) = fs.mount s1.files ofd in
                vfs_mount rest
                  (record s1 {
                    files = files;
                    mount_list =
                        record { instance_of = some inst; name = mountpoint } ∷ s1.mount_list;
                    root_links = s1.root_links + 1;
                  })
                  device mountpoint type
          ])
      else vfs_mount rest s device mountpoint type

  -- The returned status and the new state.
  unfoldable pub umount_loop : List (MountedFs F) → Vfs F → Name → ℕ × Vfs F
  unfolding same_name
  umount_loop [] s mountpoint = (1, s)
  umount_loop (m ∷ rest) s mountpoint =
      if same_name m.name mountpoint
      then (
        0,
        record s {
          files = elim m.instance_of [
            | none ↦ s.files
            | some i ↦ elim i.umount [ none ↦ s.files | some f ↦ f s.files ]
          ];
          root_links = s.root_links - 1;
        },
      )
      else umount_loop rest s mountpoint

  unfoldable pub vfs_umount : Vfs F → Name → ℕ × Vfs F
  unfolding umount_loop
  vfs_umount s mountpoint = umount_loop s.mount_list s mountpoint
