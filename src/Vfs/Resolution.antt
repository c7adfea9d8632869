-- ===== src/Vfs/Resolution.antt =====
-- The resolution of paths: `lookup` against a walk along the components of the path.
use desiros.Base.{
  ℕ, zero, suc, ◌≤◌, ◌<◌, ◌≡◌, refl, sym, ap, ◌∙◌, Bool, true, false, ◌&&◌, List, [], ◌∷◌, arith,
  if◌then◌else◌, length, inl, inr, Bool-cases, Option, some, none, Option-cases,
}
use desiros.Vfs.{
  Name, skip_slashes, part, after_part, is_dot, is_end, get_next_part_path, FsInstance, Nameidata,
  Result, success, not_found, lookup,
}
use desiros.Vfs.Names.{
  components, ends, components_skip, components_step, ends-skip, ends-after, some_part, length-rest,
  length-part, part-part, after-part, ends-part, is_end-empty, components_empty,
}

module _ {ℓ} {F : Type ℓ} where
  -- From entry to entry.
  unfoldable pub walk : F → FsInstance F → ℕ → List Name → Option ℕ
  walk files mnt d [] = some d
  walk files mnt d (n ∷ ns) = elim (mnt.lookup files d n) [
    | none ↦ none
    | some e ↦ walk files mnt e ns
  ]

  -- What `lookup` without LOOKUP_PARENT finds.
  pub data Resolved (files : F) (nb : Nameidata F) (r : Option (Result × Nameidata F))
      : Type ℓ where
    walked :
        (d : ℕ)
        → walk files nb.mnt nb.dentry (components nb.last) ≡ some d
        → r ≡ some (success, record nb { dentry = d; last = [] })
        → Resolved files nb r
    lost :
        walk files nb.mnt nb.dentry (components nb.last) ≡ none
        → (nb1 : Nameidata F) → r ≡ some (not_found, nb1)
        → Resolved files nb r

  -- What `lookup` with LOOKUP_PARENT finds: an entry from which what is left leads on.
  pub data Parented (files : F) (nb : Nameidata F) (r : Option (Result × Nameidata F))
      : Type ℓ where
    above :
        (d : ℕ) (left : Name)
        → r ≡ some (success, record nb { dentry = d; last = left })
        → ends left ≡ true
        → length left ≤ length nb.last
        → walk files nb.mnt d (components left) ≡ walk files nb.mnt nb.dentry (components nb.last)
        → Parented files nb r
    parent_lost :
        walk files nb.mnt nb.dentry (components nb.last) ≡ none
        → (nb1 : Nameidata F) → r ≡ some (not_found, nb1)
        → Parented files nb r

  module _ (files : F) (nb : Nameidata F) where
    name : Name
    name = part (skip_slashes nb.last)

    rest : Name
    rest = after_part (skip_slashes nb.last)

    -- One turn of the loop, seen on the components.
    split :
        is_end nb.last ≡ false
        → ends nb.last ≡ true
        → components nb.last ≡ (if is_dot name then components rest else name ∷ components rest)
    unfolding name rest
    split g h =
        sym (components_skip nb.last)
        ∙ rw (components_step (skip_slashes nb.last), some_part nb.last g h) refl

    lone :
        is_end nb.last ≡ false
        → ends nb.last ≡ true
        → is_dot name ≡ false
        → components name ≡ name ∷ []
    unfolding name rest
    lone g h nd =
        components_step name
        ∙ rw
            (
              part-part (skip_slashes nb.last),
              after-part (skip_slashes nb.last),
              some_part nb.last g h,
              nd,
              components_empty,
            )
            refl

    -- The last name alone.
    alone :
        is_end nb.last ≡ false
        → ends nb.last ≡ true
        → is_dot name ≡ false
        → is_end rest ≡ true
        → components nb.last ≡ components name
    unfolding name rest
    alone g h nd e =
        let q : rest ≡ [] = is_end-empty rest e in
        let last_one : components name ≡ name ∷ [] = lone g h nd in
        split g h ∙ rw (nd, q, components_empty, last_one) refl

    module _ (fuel : ℕ) (parent : Bool) where
      turn_end : is_end nb.last ≡ true → lookup (suc fuel) parent files nb ≡ some (success, nb)
      unfolding lookup
      turn_end e = rw e refl

      turn_dot :
          is_end nb.last ≡ false
          → is_dot name ≡ true
          → lookup (suc fuel) parent files nb ≡ lookup fuel parent files (record nb { last = rest })
      unfolding lookup name rest get_next_part_path
      turn_dot g d = rw (lookup, g, d) refl

      turn_missing :
          is_end nb.last ≡ false
          → is_dot name ≡ false
          → (is_end rest && parent) ≡ false
          → nb.mnt.lookup files nb.dentry name ≡ none
          → lookup (suc fuel) parent files nb ≡ some (not_found, record nb { last = rest })
      unfolding lookup name rest get_next_part_path
      turn_missing g d p m = rw (lookup, g, d, p, m) refl

      turn_there :
          (e : ℕ)
          → is_end nb.last ≡ false
          → is_dot name ≡ false
          → (is_end rest && parent) ≡ false
          → nb.mnt.lookup files nb.dentry name ≡ some e
          → lookup (suc fuel) parent files nb
            ≡ lookup fuel parent files (record nb { last = rest; dentry = e })
      unfolding lookup name rest get_next_part_path
      turn_there e g d p m = rw (lookup, g, d, p, m) refl

    turn_break :
        (fuel : ℕ)
        → is_end nb.last ≡ false
        → is_dot name ≡ false
        → is_end rest ≡ true
        → lookup (suc fuel) true files nb ≡ some (success, record nb { last = name })
    unfolding lookup name rest get_next_part_path
    turn_break fuel g d e = rw (lookup, g, d, e) refl

    dot_walk :
        is_end nb.last ≡ false
        → ends nb.last ≡ true
        → is_dot name ≡ true
        → walk files nb.mnt nb.dentry (components nb.last)
          ≡ walk files nb.mnt nb.dentry (components rest)
    dot_walk g h d = ap (walk files nb.mnt nb.dentry) (split g h ∙ rw d refl)

    step_walk :
        is_end nb.last ≡ false
        → ends nb.last ≡ true
        → is_dot name ≡ false
        → walk files nb.mnt nb.dentry (components nb.last)
          ≡ walk files nb.mnt nb.dentry (name ∷ components rest)
    step_walk g h d = ap (walk files nb.mnt nb.dentry) (split g h ∙ rw d refl)

    there_walk :
        (e : ℕ)
        → is_end nb.last ≡ false
        → ends nb.last ≡ true
        → is_dot name ≡ false
        → nb.mnt.lookup files nb.dentry name ≡ some e
        → walk files nb.mnt nb.dentry (components nb.last) ≡ walk files nb.mnt e (components rest)
    unfolding walk
    there_walk e g h d m = step_walk g h d ∙ rw (walk, m) refl

    missing_walk :
        is_end nb.last ≡ false
        → ends nb.last ≡ true
        → is_dot name ≡ false
        → nb.mnt.lookup files nb.dentry name ≡ none
        → walk files nb.mnt nb.dentry (components nb.last) ≡ none
    unfolding walk
    missing_walk g h d m = step_walk g h d ∙ rw (walk, m) refl

    end_walk :
        is_end nb.last ≡ true → walk files nb.mnt nb.dentry (components nb.last) ≡ some nb.dentry
    unfolding walk
    end_walk e =
        ap (λ x. walk files nb.mnt nb.dentry (components x)) (is_end-empty nb.last e)
        ∙ rw components_empty refl

    rest-ends : ends nb.last ≡ true → ends rest ≡ true
    unfolding rest
    rest-ends h = ends-after (skip_slashes nb.last) (ends-skip nb.last h)

    rest-shorter : is_end nb.last ≡ false → length rest < length nb.last
    unfolding rest
    rest-shorter g = length-rest nb.last g

    name-ends : ends name ≡ true
    unfolding name
    name-ends = ends-part (skip_slashes nb.last)

    name-shorter : length name ≤ length nb.last
    unfolding name
    name-shorter = length-part nb.last

    -- The loop goes on with `e` and what is left.
    module _ (e : ℕ)
        (w : walk files nb.mnt nb.dentry (components nb.last)
          ≡ walk files nb.mnt e (components rest)) where
      later-Resolved :
          {r : Option (Result × Nameidata F)}
          → Resolved files (record nb { last = rest; dentry = e }) r
          → Resolved files nb r
      later-Resolved (walked d a b) = walked d (w ∙ a) b
      later-Resolved (lost a nb1 b) = lost (w ∙ a) nb1 b

      later-Parented :
          {r : Option (Result × Nameidata F)}
          → is_end nb.last ≡ false
          → Parented files (record nb { last = rest; dentry = e }) r
          → Parented files nb r
      later-Parented g (above d left a c l q) =
          above d left a c (omega (arith, rest-shorter g)) (q ∙ sym w)
      later-Parented g (parent_lost a nb1 b) = parent_lost (w ∙ a) nb1 b

  -- Without LOOKUP_PARENT, lookup walks along the components of the path, which are its non-empty
  -- parts but ".", and fails exactly when the walk does, if the path does not end in a slash; fuel
  -- for one step more than the length of the path is enough.
  pub lookup_lem :
      (fuel : ℕ) (files : F) (nb : Nameidata F)
      → length nb.last < fuel
      → ends nb.last ≡ true
      → Resolved files nb (lookup fuel false files nb)
  lookup_lem zero files nb l h = ground arith
  lookup_lem (suc fuel) files nb l h = elim (Bool-cases (is_end nb.last)) [
    | inl e ↦ walked nb.dentry (end_walk files nb e) (
        turn_end files nb fuel false e
        ∙ ap (λ x. some (success, record nb { last = x })) (is_end-empty nb.last e))
    | inr g ↦ elim (Bool-cases (is_dot (name files nb))) [
      | inl d ↦ rw (turn_dot files nb fuel false g d) (
          later-Resolved files nb nb.dentry (dot_walk files nb g h d) (
            lookup_lem fuel files (record nb { last = rest files nb })
              (omega (arith, rest-shorter files nb g)) (rest-ends files nb h)))
      | inr nd ↦ elim (Option-cases (nb.mnt.lookup files nb.dentry (name files nb))) [
        | inl m ↦
            lost (missing_walk files nb g h nd m) (record nb { last = rest files nb })
              (turn_missing files nb fuel false g nd (ground arith) m)
        | inr (e, m) ↦ rw (turn_there files nb fuel false e g nd (ground arith) m) (
            later-Resolved files nb e (there_walk files nb e g h nd m) (
              lookup_lem fuel files (record nb { last = rest files nb; dentry = e })
                (omega (arith, rest-shorter files nb g)) (rest-ends files nb h)))
      ]
    ]
  ]

  -- With LOOKUP_PARENT, lookup stops at an entry from which the walk along what is left of the path
  -- leads where the walk along the whole path does, or fails when that walk does, if the path does
  -- not end in a slash; fuel for one step more than the length of the path is enough.
  pub lookup-Parented :
      (fuel : ℕ) (files : F) (nb : Nameidata F)
      → length nb.last < fuel
      → ends nb.last ≡ true
      → Parented files nb (lookup fuel true files nb)
  lookup-Parented zero files nb l h = ground arith
  lookup-Parented (suc fuel) files nb l h = elim (Bool-cases (is_end nb.last)) [
    | inl e ↦ above nb.dentry nb.last (turn_end files nb fuel true e) h (omega arith) refl
    | inr g ↦ elim (Bool-cases (is_dot (name files nb))) [
      | inl d ↦ rw (turn_dot files nb fuel true g d) (
          later-Parented files nb nb.dentry (dot_walk files nb g h d) g (
            lookup-Parented fuel files (record nb { last = rest files nb })
              (omega (arith, rest-shorter files nb g)) (rest-ends files nb h)))
      | inr nd ↦ elim (Bool-cases (is_end (rest files nb))) [
        | inl e ↦
            above nb.dentry (name files nb) (turn_break files nb fuel g nd e) (name-ends files nb)
              (name-shorter files nb)
              (ap (walk files nb.mnt nb.dentry) (sym (alone files nb g h nd e)))
        | inr ne ↦ elim (Option-cases (nb.mnt.lookup files nb.dentry (name files nb))) [
          | inl m ↦
              parent_lost (missing_walk files nb g h nd m) (record nb { last = rest files nb })
                (turn_missing files nb fuel true g nd (rw ne refl) m)
          | inr (e, m) ↦ rw (turn_there files nb fuel true e g nd (rw ne refl) m) (
              later-Parented files nb e (there_walk files nb e g h nd m) g (
                lookup-Parented fuel files (record nb { last = rest files nb; dentry = e })
                  (omega (arith, rest-shorter files nb g)) (rest-ends files nb h)))
        ]
      ]
    ]
  ]
