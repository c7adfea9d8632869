-- ===== src/Vfs/Names.antt =====
-- The parts of a path, by the code's scan and by a reference that splits the path at its slashes.
use desiros.Base.{
  ℕ, ◌≤◌, ◌<◌, ◌≡◌, refl, ap, Bool, true, false, ◌||◌, not, List, [], ◌∷◌, arith, ◌==◌,
  if◌then◌else◌, length, inl, inr, Bool-cases,
}
use desiros.Vfs.{Name, slash, skip_slashes, part, after_part, is_dot, is_end}

-- The pieces between the slashes, empty ones too.
abbrev pub grow : ℕ → List Name → List Name
grow c [] = []
grow c (p ∷ ps) = (c ∷ p) ∷ ps

unfoldable pub pieces : Name → List Name
pieces [] = [] ∷ []
pieces (c ∷ cs) = if c == slash then [] ∷ pieces cs else grow c (pieces cs)

-- The pieces that name something.
unfoldable pub named : List Name → List Name
named [] = []
named (p ∷ ps) = if is_end p || is_dot p then named ps else p ∷ named ps

unfoldable pub components : Name → List Name
unfolding pieces named
components path = named (pieces path)

-- The path does not end in a slash.
unfoldable pub ends : Name → Bool
ends [] = true
ends (c ∷ []) = not (c == slash)
ends (c ∷ d ∷ cs) = ends (d ∷ cs)

abbrev tail_pieces : Name → List Name
tail_pieces [] = []
tail_pieces (c ∷ cs) = pieces cs

pieces_lem : (p : Name) → pieces p ≡ part p ∷ tail_pieces (after_part p)
unfolding pieces part after_part
pieces_lem [] = refl
pieces_lem (c ∷ cs) = elim (Bool-cases (c == slash)) [
  | inl e ↦ rw e refl
  | inr e ↦ rw (e, pieces_lem cs) refl
]

named_tail : (p : Name) → named (tail_pieces (after_part p)) ≡ components (after_part p)
unfolding components pieces named after_part
named_tail [] = refl
named_tail (c ∷ cs) = elim (Bool-cases (c == slash)) [
  | inl e ↦ rw (e, e) refl
  | inr e ↦ rw e (named_tail cs)
]

pub components_skip : (p : Name) → components (skip_slashes p) ≡ components p
unfolding components pieces named skip_slashes
components_skip [] = refl
components_skip (c ∷ cs) = elim (Bool-cases (c == slash)) [
  | inl e ↦ rw (e) (components_skip cs)
  | inr e ↦ let z : skip_slashes (c ∷ cs) ≡ c ∷ cs = rw e refl in ap components z
]

pub components_step :
    (p : Name)
    → components p ≡ (
        if is_end (part p) || is_dot (part p)
        then components (after_part p)
        else part p ∷ components (after_part p))
unfolding components named
components_step p = rw (pieces_lem p, named_tail p) refl

pub ends-skip : (p : Name) → ends p ≡ true → ends (skip_slashes p) ≡ true
unfolding skip_slashes ends
ends-skip [] h = refl
ends-skip (c ∷ []) h = elim (Bool-cases (c == slash)) [ inl e ↦ rw e refl | inr e ↦ rw (e, e) refl ]
ends-skip (c ∷ d ∷ cs) h = elim (Bool-cases (c == slash)) [
  | inl e ↦ rw e (ends-skip (d ∷ cs) h)
  | inr e ↦ rw e h
]

pub ends-after : (p : Name) → ends p ≡ true → ends (after_part p) ≡ true
unfolding after_part ends
ends-after [] h = refl
ends-after (c ∷ []) h = elim (Bool-cases (c == slash)) [ inl e ↦ rw e h | inr e ↦ rw e refl ]
ends-after (c ∷ d ∷ cs) h = elim (Bool-cases (c == slash)) [
  | inl e ↦ rw e h
  | inr e ↦ rw e (ends-after (d ∷ cs) h)
]

-- A path that goes on and does not end in a slash has a part.
pub some_part :
    (p : Name) → is_end p ≡ false → ends p ≡ true → is_end (part (skip_slashes p)) ≡ false
unfolding part skip_slashes ends
some_part [] g h = g
some_part (c ∷ []) g h = elim (Bool-cases (c == slash)) [
  | inl e ↦ ground (arith, e, h)
  | inr e ↦ rw (e, e) refl
]
some_part (c ∷ d ∷ cs) g h = elim (Bool-cases (c == slash)) [
  | inl e ↦ rw e (some_part (d ∷ cs) refl h)
  | inr e ↦ rw (e, e) refl
]

length-skip : (p : Name) → length (skip_slashes p) ≤ length p
unfolding skip_slashes
length-skip [] = omega arith
length-skip (c ∷ cs) = ground (arith, length-skip cs)

length-after : (p : Name) → length (after_part p) ≤ length p
unfolding after_part
length-after [] = omega arith
length-after (c ∷ cs) = ground (arith, length-after cs)

pub length-rest : (p : Name) → is_end p ≡ false → length (after_part (skip_slashes p)) < length p
unfolding skip_slashes after_part
length-rest [] g = ground arith
length-rest (c ∷ cs) g = elim (Bool-cases (c == slash)) [
  | inl e ↦ rw e (omega (arith, length-after (skip_slashes cs), length-skip cs))
  | inr e ↦ rw (e, e) (omega (arith, length-after cs))
]

length-one_part : (p : Name) → length (part p) ≤ length p
unfolding part
length-one_part [] = omega arith
length-one_part (c ∷ cs) = ground (arith, length-one_part cs)

pub length-part : (p : Name) → length (part (skip_slashes p)) ≤ length p
length-part p = omega (arith, length-one_part (skip_slashes p), length-skip p)

-- A part has no slash.
pub part-part : (p : Name) → part (part p) ≡ part p
unfolding part
part-part [] = refl
part-part (c ∷ cs) = elim (Bool-cases (c == slash)) [
  | inl e ↦ rw e refl
  | inr e ↦ rw (e, e, part-part cs) refl
]

pub after-part : (p : Name) → after_part (part p) ≡ []
unfolding part after_part
after-part [] = refl
after-part (c ∷ cs) = elim (Bool-cases (c == slash)) [
  | inl e ↦ rw e refl
  | inr e ↦ rw (e, e) (after-part cs)
]

pub ends-part : (p : Name) → ends (part p) ≡ true
unfolding part ends
ends-part [] = refl
ends-part (c ∷ []) = elim (Bool-cases (c == slash)) [ inl e ↦ rw e refl | inr e ↦ rw (e, e) refl ]
ends-part (c ∷ d ∷ cs) = elim (Bool-cases (c == slash)) [
  | inl e ↦ rw e refl
  | inr e ↦ elim (Bool-cases (d == slash)) [
    | inl g ↦ rw (e, g, e) refl
    | inr g ↦
        let rest : ends (part (d ∷ cs)) ≡ true = ends-part (d ∷ cs) in rw (e, g) (rw g at rest)
  ]
]

pub is_end-empty : (p : Name) → is_end p ≡ true → p ≡ []
is_end-empty [] e = refl
is_end-empty (c ∷ cs) e = ground arith

pub components_empty : components [] ≡ []
unfolding components pieces named
components_empty = refl
