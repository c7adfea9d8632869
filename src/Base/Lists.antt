-- ===== src/Base/Lists.antt =====
-- Lists measured and indexed by native numbers, and lists of addresses as finite sets.
use Prim.Native.Nat.{ℕ, zero, suc, ◌+◌, ◌-◌, min}
use mathlib.Core.Path.{◌≡◌, refl, ap, sym}
use mathlib.Core.Logic.{◌≢◌}
use mathlib.Core.Bool.{or_assoc}
use mathlib.Core.Bool.{Bool, true, false, ◌||◌}
use mathlib.Core.List.{List, [], ◌∷◌, ◌++◌}
use mathlib.Core.Logic.{◌⊎◌, inl, inr}
use native.Mathlib.Omega.{arith}
use desiros.Base.Tests.{◌==◌, if◌then◌else◌, Bool-cases, ==→eq}

module _ {ℓ} {A : Type ℓ} where
  abbrev pub length : List A → ℕ
  length [] = 0
  length (x ∷ xs) = suc (length xs)

  abbrev pub get_or : List A → ℕ → A → A
  get_or [] i d = d
  get_or (x ∷ xs) zero d = x
  get_or (x ∷ xs) (suc i) d = get_or xs i d

  abbrev pub take : ℕ → List A → List A
  take zero xs = []
  take (suc n) [] = []
  take (suc n) (x ∷ xs) = x ∷ take n xs

  abbrev pub drop : ℕ → List A → List A
  drop zero xs = xs
  drop (suc n) [] = []
  drop (suc n) (x ∷ xs) = drop n xs

  pub length-append : (xs ys : List A) → length (xs ++ ys) ≡ length xs + length ys
  length-append [] ys = omega arith
  length-append (x ∷ xs) ys = omega (arith, length-append xs ys)

  pub length-take : (n : ℕ) (xs : List A) → length (take n xs) ≡ min n (length xs)
  length-take zero xs = omega arith
  length-take (suc n) [] = omega arith
  length-take (suc n) (x ∷ xs) = omega (arith, length-take n xs)

  pub length-drop : (n : ℕ) (xs : List A) → length (drop n xs) ≡ length xs - n
  length-drop zero xs = omega arith
  length-drop (suc n) [] = omega arith
  length-drop (suc n) (x ∷ xs) = omega (arith, length-drop n xs)

  pub append-snoc : (xs : List A) (a : A) (ys : List A) → (xs ++ a ∷ []) ++ ys ≡ xs ++ a ∷ ys
  append-snoc [] a ys = refl
  append-snoc (x ∷ xs) a ys = ap (◌∷◌ x) (append-snoc xs a ys)

  pub append_nil : (xs : List A) → xs ++ [] ≡ xs
  append_nil [] = refl
  append_nil (x ∷ xs) = ap (◌∷◌ x) (append_nil xs)

  pub List-cases : (xs : List A) → (xs ≡ []) ⊎ ((x : A) × (r : List A) × (xs ≡ x ∷ r))
  List-cases [] = inl refl
  List-cases (x ∷ xs) = inr (x, xs, refl)

-- Is the number in the list?
abbrev pub has : ℕ → List ℕ → Bool
has a [] = false
has a (x ∷ xs) = (a == x) || has a xs

infix 40 ◌∈◌ ◌∉◌
abbrev pub ◌∈◌ : ℕ → List ℕ → Type 0
a ∈ xs = has a xs ≡ true

abbrev pub ◌∉◌ : ℕ → List ℕ → Type 0
a ∉ xs = has a xs ≡ false

-- No number stands twice in the list.
abbrev pub Distinct : List ℕ → Type 0
Distinct [] = Unit {0}
Distinct (x ∷ xs) = (x ∉ xs) × Distinct xs

-- No number stands in both lists.
abbrev pub Disjoint : List ℕ → List ℕ → Type 0
Disjoint xs ys = (a : ℕ) → a ∈ xs → a ∉ ys

pub has-append : (a : ℕ) (xs ys : List ℕ) → has a (xs ++ ys) ≡ (has a xs || has a ys)
has-append a [] ys = refl
has-append a (x ∷ xs) ys = rw (has-append a xs ys, or_assoc)

pub not-has-append : (a : ℕ) (xs ys : List ℕ) → a ∉ xs → a ∉ ys → a ∉ xs ++ ys
not-has-append a xs ys p q = ground (arith, has-append a xs ys)

pub not-has-append_left : (a : ℕ) (xs ys : List ℕ) → a ∉ xs ++ ys → a ∉ xs
not-has-append_left a xs ys p = ground (arith, has-append a xs ys)

pub not-has-append_right : (a : ℕ) (xs ys : List ℕ) → a ∉ xs ++ ys → a ∉ ys
not-has-append_right a xs ys p = ground (arith, has-append a xs ys)

pub has-rotate : (a : ℕ) (xs ys : List ℕ) → has a (xs ++ ys) ≡ has a (ys ++ xs)
has-rotate a xs ys = ground (arith, has-append a xs ys, has-append a ys xs)

pub Distinct-append :
    (xs ys : List ℕ) → Distinct xs → Distinct ys → Disjoint xs ys → Distinct (xs ++ ys)
Distinct-append [] ys dx dy apart = dy
Distinct-append (x ∷ xs) ys dx dy apart = (
  not-has-append x xs ys dx.0 (apart x (ground arith)),
  Distinct-append xs ys dx.1 dy λ a m. apart a (ground arith),
)

pub Distinct-append_left : (xs ys : List ℕ) → Distinct (xs ++ ys) → Distinct xs
Distinct-append_left [] ys d = tt
Distinct-append_left (x ∷ xs) ys d =
    (not-has-append_left x xs ys d.0, Distinct-append_left xs ys d.1)

pub Distinct-append_right : (xs ys : List ℕ) → Distinct (xs ++ ys) → Distinct ys
Distinct-append_right [] ys d = d
Distinct-append_right (x ∷ xs) ys d = Distinct-append_right xs ys d.1

pub Distinct-append_apart : (xs ys : List ℕ) → Distinct (xs ++ ys) → Disjoint xs ys
Distinct-append_apart [] ys d a m = ground arith
Distinct-append_apart (x ∷ xs) ys d a m =
    ground (arith, not-has-append_right x xs ys d.0, Distinct-append_apart xs ys d.1 a)

pub Disjoint-swap : (xs ys : List ℕ) → Disjoint xs ys → Disjoint ys xs
Disjoint-swap xs ys apart a m = ground (arith, apart a)

pub Distinct-rotate : (xs ys : List ℕ) → Distinct (xs ++ ys) → Distinct (ys ++ xs)
Distinct-rotate xs ys d =
    Distinct-append ys xs (Distinct-append_right xs ys d) (Distinct-append_left xs ys d)
      (Disjoint-swap xs ys (Distinct-append_apart xs ys d))

-- The list without the first occurrence of a number.
unfoldable pub erase : ℕ → List ℕ → List ℕ
erase a [] = []
erase a (x ∷ xs) = if a == x then xs else x ∷ erase a xs

pub not_mem-erase : (a : ℕ) (xs : List ℕ) → Distinct xs → a ∉ erase a xs
unfolding erase
not_mem-erase a [] d = refl
not_mem-erase a (x ∷ xs) d = ground (arith, d.0, not_mem-erase a xs d.1)

-- Members other than the erased one stay, and no others come.
pub has-erase_ne : (a b : ℕ) (xs : List ℕ) → a ≢ b → has a (erase b xs) ≡ has a xs
unfolding erase
has-erase_ne a b [] h = refl
has-erase_ne a b (x ∷ xs) h = ground (arith, has-erase_ne a b xs)

pub has-erase : (a b : ℕ) (xs : List ℕ) → a ∈ erase b xs → a ∈ xs
unfolding erase
has-erase a b [] h = h
has-erase a b (x ∷ xs) h = ground (arith, has-erase a b xs)

pub Distinct-erase : (a : ℕ) (xs : List ℕ) → Distinct xs → Distinct (erase a xs)
unfolding erase
Distinct-erase a [] d = tt
Distinct-erase a (x ∷ xs) d = ground (arith, Distinct-erase a xs d.1, has-erase x a xs)

pub length-erase : (a : ℕ) (xs : List ℕ) → a ∈ xs → length xs ≡ suc (length (erase a xs))
unfolding erase
length-erase a [] h = cc
length-erase a (x ∷ xs) h = ground (arith, length-erase a xs)

-- A new last element is erased without a trace.
pub erase-append_new : (a : ℕ) (xs : List ℕ) → a ∉ xs → erase a (xs ++ a ∷ []) ≡ xs
unfolding erase
erase-append_new a [] h = ground arith
erase-append_new a (x ∷ xs) h = ground (arith, erase-append_new a xs)

pub cons-erase_head : (a : ℕ) (rest xs : List ℕ) → xs ≡ a ∷ rest → a ∷ erase a xs ≡ xs
unfolding erase
cons-erase_head a rest xs e = rw e (ground arith)

-- What stands in front of a member of a list, and what stands behind it.
pub record Split (a : ℕ) (xs : List ℕ) : Type 0 where
  pub before : List ℕ
  pub after : List ℕ
  pub whole : xs ≡ before ++ a ∷ after
  pub rest : erase a xs ≡ before ++ after

pub split : (a : ℕ) (xs : List ℕ) → a ∈ xs → Split a xs
unfolding erase
split a [] m = cc
split a (x ∷ xs) m = elim (Bool-cases (a == x)) [
  | inl hit ↦ record {
    before = [];
    after = xs;
    whole = ap (λ y. y ∷ xs) (sym (==→eq a x hit));
    rest = rw hit;
  }
  | inr miss ↦
      let s : Split a xs = split a xs (ground arith) in
      record {
        before = x ∷ s.before;
        after = s.after;
        whole = ap (◌∷◌ x) s.whole;
        rest = rw miss (ap (◌∷◌ x) s.rest);
      }
]
