-- ===== src/Vfs/Calls/Opening.antt =====
-- What `vfs_open` and `vfs_stat` reach.
use desiros.Base.{
  ℕ, suc, ◌≡◌, refl, sym, ap, ◌∙◌, true, false, ◌&&◌, Option, none, some, length, arith, Bool-cases,
  inl, inr, Option-cases,
}
use desiros.Vfs.{
  Name, FsInstance, MountedFs, Vfs, Nameidata, Result, success, not_found, lookup, open_namei,
  get_mnt_from_path, get_next_part_path, is_end,
}
use desiros.Vfs.Names.{components, ends}
use desiros.Vfs.Resolution.{
  walk, Resolved, walked, lost, lookup_lem, Parented, above, parent_lost, lookup-Parented,
}
use desiros.Vfs.Calls.{dentry_open, open_end, open_found, vfs_open, vfs_stat}

abbrev entry_of : Option ℕ → ℕ
entry_of none = 0
entry_of (some d) = d

module _ {ℓ} {F : Type ℓ} where
  -- The path's first part names a mounted instance with a root; what follows does not end in a slash.
  pub record Mounted (s : Vfs F) (pathname : Name) (mnt : FsInstance F) (root : ℕ) : Type ℓ where
    pub m : MountedFs F
    pub found : get_mnt_from_path s.mount_list (get_next_part_path pathname).0 ≡ some m
    pub instance_there : m.instance_of ≡ some mnt
    pub root_there : mnt.getroot ≡ some root
    pub no_slash : ends (get_next_part_path pathname).1 ≡ true

  start : FsInstance F → ℕ → Name → Nameidata F
  start mnt root pathname = record {
    dentry = root;
    mnt = mnt;
    last = (get_next_part_path pathname).1;
  }

  -- What `open_namei` leads to, by the end of the walk from the root of the instance.
  namei-Parented :
      (s : Vfs F) (pathname : Name) (mnt : FsInstance F) (root : ℕ)
      → Mounted s pathname mnt root
      → (r : Option (Result × Nameidata F)) × Parented s.files (start mnt root pathname) r
        × (open_namei s true pathname
            ≡ elim r [ none ↦ none | some (result, nb1) ↦ some (result, some nb1, s) ])
  unfolding open_namei start
  namei-Parented s pathname mnt root h =
      elim (Bool-cases (is_end (get_next_part_path pathname).1)) [
        | inl e ↦ (
          some (success, start mnt root pathname),
          above root (get_next_part_path pathname).1 refl h.no_slash (omega arith) refl,
          simp (open_namei, h.found, h.instance_there, h.root_there, e),
        )
        | inr e ↦ (
          lookup (suc (length (get_next_part_path pathname).1)) true s.files
              (start mnt root pathname),
          lookup-Parented (suc (length (get_next_part_path pathname).1)) s.files
              (start mnt root pathname) (omega arith) h.no_slash,
          simp (open_namei, h.found, h.instance_there, h.root_there, e),
        )
      ]

  namei-Resolved :
      (s : Vfs F) (pathname : Name) (mnt : FsInstance F) (root : ℕ)
      → Mounted s pathname mnt root
      → (r : Option (Result × Nameidata F)) × Resolved s.files (start mnt root pathname) r
        × (open_namei s false pathname
            ≡ elim r [ none ↦ none | some (result, nb1) ↦ some (result, some nb1, s) ])
  unfolding open_namei start
  namei-Resolved s pathname mnt root h =
      let not_parent : (is_end (get_next_part_path pathname).1 && false) ≡ false = ground arith in
      (
        lookup (suc (length (get_next_part_path pathname).1)) false s.files
            (start mnt root pathname),
        lookup_lem (suc (length (get_next_part_path pathname).1)) s.files (start mnt root pathname)
            (omega arith) h.no_slash,
        simp (open_namei, h.found, h.instance_there, h.root_there, not_parent),
      )

  -- What opening and describing a path give: both reach the end of the walk, or neither.
  pub data Reached (s : Vfs F) (pathname : Name) (mnt : FsInstance F) (root : ℕ) : Type ℓ where
    reached :
        (d : ℕ)
        → walk s.files mnt root (components (get_next_part_path pathname).1) ≡ some d
        → vfs_open s pathname false false ≡ some (some d, open_end mnt (dentry_open s d) d d false)
        → vfs_stat s pathname ≡ some (some d, s)
        → Reached s pathname mnt root
    missing :
        walk s.files mnt root (components (get_next_part_path pathname).1) ≡ none
        → vfs_open s pathname false false ≡ some (none, s)
        → vfs_stat s pathname ≡ some (none, s)
        → Reached s pathname mnt root

  stat_found :
      (s : Vfs F) (pathname : Name) (r : Option (Result × Nameidata F)) (nb : Nameidata F)
      → open_namei s false pathname
        ≡ elim r [ none ↦ none | some (result, nb1) ↦ some (result, some nb1, s) ]
      → r ≡ some (success, nb)
      → vfs_stat s pathname ≡ some (some nb.dentry, s)
  unfolding vfs_stat
  stat_found s pathname r nb e q = simp (vfs_stat, e, q)

  stat_lost :
      (s : Vfs F) (pathname : Name) (r : Option (Result × Nameidata F)) (nb : Nameidata F)
      → open_namei s false pathname
        ≡ elim r [ none ↦ none | some (result, nb1) ↦ some (result, some nb1, s) ]
      → r ≡ some (not_found, nb)
      → vfs_stat s pathname ≡ some (none, s)
  unfolding vfs_stat
  stat_lost s pathname r nb e q = simp (vfs_stat, e, q)

  open_above :
      (s : Vfs F) (pathname : Name) (r : Option (Result × Nameidata F)) (nb : Nameidata F)
      → open_namei s true pathname
        ≡ elim r [ none ↦ none | some (result, nb1) ↦ some (result, some nb1, s) ]
      → r ≡ some (success, nb)
      → vfs_open s pathname false false ≡ open_found s nb false false
  unfolding vfs_open
  open_above s pathname r nb e q = simp (vfs_open, e, q)

  open_lost :
      (s : Vfs F) (pathname : Name) (r : Option (Result × Nameidata F)) (nb : Nameidata F)
      → open_namei s true pathname
        ≡ elim r [ none ↦ none | some (result, nb1) ↦ some (result, some nb1, s) ]
      → r ≡ some (not_found, nb)
      → vfs_open s pathname false false ≡ some (none, s)
  unfolding vfs_open
  open_lost s pathname r nb e q = simp (vfs_open, e, q)

  -- The second `lookup` of `vfs_open`, from what the first one left.
  module _ (s : Vfs F) (nb : Nameidata F) (h : ends nb.last ≡ true) where
    second : Resolved s.files nb (lookup (suc (length nb.last)) false s.files nb)
    second = lookup_lem (suc (length nb.last)) s.files nb (omega arith) h

    open_found-walked :
        (d : ℕ)
        → walk s.files nb.mnt nb.dentry (components nb.last) ≡ some d
        → open_found s nb false false ≡ some (some d, open_end nb.mnt (dentry_open s d) d d false)
    unfolding open_found
    open_found-walked d w = elim second [
      | walked e w1 q ↦
          let same : some e ≡ some d = sym w1 ∙ w in
          let ed : e ≡ d = ap entry_of same in
          simp (open_found, q)
            (ap (λ x. some (some x, open_end nb.mnt (dentry_open s x) x x false)) ed)
      | lost w1 _ q ↦ let clash : none ≡ some d = sym w1 ∙ w in ground (arith, clash)
    ]

    open_found-lost :
        walk s.files nb.mnt nb.dentry (components nb.last) ≡ none
        → open_found s nb false false ≡ some (none, s)
    unfolding open_found
    open_found-lost w = elim second [
      | walked e w1 q ↦ let clash : none ≡ some e = sym w ∙ w1 in ground (arith, clash)
      | lost w1 nb1 q ↦ simp (open_found, q)
    ]

  stat_lem :
      (s : Vfs F) (pathname : Name) (mnt : FsInstance F) (root : ℕ)
      → Mounted s pathname mnt root
      → ((d : ℕ)
          → walk s.files mnt root (components (get_next_part_path pathname).1) ≡ some d
          → vfs_stat s pathname ≡ some (some d, s))
        × (walk s.files mnt root (components (get_next_part_path pathname).1) ≡ none
            → vfs_stat s pathname ≡ some (none, s))
  unfolding start
  stat_lem s pathname mnt root h =
      let (r, v, e) = namei-Resolved s pathname mnt root h in
      elim v [
        | walked d w q ↦ (
          λ d1 w1.
              let same : some d ≡ some d1 = sym w ∙ w1 in
              stat_found s pathname r _ e q ∙ ap (λ x. some (x, s)) same,
          λ w1. let clash : none ≡ some d = sym w1 ∙ w in ground (arith, clash),
        )
        | lost w nb q ↦ (
          λ d1 w1. let clash : none ≡ some d1 = sym w ∙ w1 in ground (arith, clash),
          λ w1. stat_lost s pathname r nb e q,
        )
      ]

  open_lem :
      (s : Vfs F) (pathname : Name) (mnt : FsInstance F) (root : ℕ)
      → Mounted s pathname mnt root
      → ((d : ℕ)
          → walk s.files mnt root (components (get_next_part_path pathname).1) ≡ some d
          → vfs_open s pathname false false
            ≡ some (some d, open_end mnt (dentry_open s d) d d false))
        × (walk s.files mnt root (components (get_next_part_path pathname).1) ≡ none
            → vfs_open s pathname false false ≡ some (none, s))
  unfolding start
  open_lem s pathname mnt root h =
      let (r, v, e) = namei-Parented s pathname mnt root h in
      elim v [
        | above d left q l _ w ↦
            let nb : Nameidata F = record { dentry = d; mnt = mnt; last = left } in
            (
              λ d1 w1. open_above s pathname r nb e q ∙ open_found-walked s nb l d1 (w ∙ w1),
              λ w1. open_above s pathname r nb e q ∙ open_found-lost s nb l (w ∙ w1),
            )
        | parent_lost w nb q ↦ (
          λ d1 w1. let clash : none ≡ some d1 = sym w ∙ w1 in ground (arith, clash),
          λ w1. open_lost s pathname r nb e q,
        )
      ]

  -- Below a mounted instance with a root, and for a path that does not end in a slash, vfs_open
  -- without O_CREAT and O_TRUNC, which resolves the parent first and the last name then, and
  -- vfs_stat, which resolves the path at once, reach the same entry, the end of the walk along the
  -- components of the path; vfs_open counts one more user of it and calls its open operation. When
  -- the walk fails both report that, and nothing changes.
  pub vfs_open-stat :
      (s : Vfs F) (pathname : Name) (mnt : FsInstance F) (root : ℕ)
      → Mounted s pathname mnt root
      → Reached s pathname mnt root
  vfs_open-stat s pathname mnt root h =
      elim (Option-cases (walk s.files mnt root (components (get_next_part_path pathname).1))) [
        | inl w ↦
            missing w ((open_lem s pathname mnt root h).1 w) ((stat_lem s pathname mnt root h).1 w)
        | inr (d, w) ↦
            reached d w ((open_lem s pathname mnt root h).0 d w)
              ((stat_lem s pathname mnt root h).0 d w)
      ]
