-- ===== src/Uvmm/View.antt =====
-- An address space as a partial function from user addresses to places in resources, and arenas
-- that stand in order and apart: the view that mem/uvmm.c has to keep.
use desiros.Base.{
  ℕ, ◌+◌, ◌-◌, ◌^◌, ◌≤◌, ◌<◌, ◌≡◌, refl, sym, ◌∙◌, ◌&&◌, Bool-cases, inl, inr, List, [], ◌∷◌, ◌++◌,
  Option, none, some, ltb, leb, if◌then◌else◌, arith, append-snoc, le→leb, lt→leb, dec_lt,
}
use desiros.Uvmm.{Arena, add64, seek}
use desiros.Base.Words.{add32, sub32}

pub record Place : Type 0 where
  pub resource : ℕ
  pub offset : ℕ
  pub rights : ℕ
  pub sharing : ℕ

-- What an arena maps at one of its addresses.
unfoldable pub place_in : Arena → ℕ → Place
place_in a x = record {
  resource = a.mapped_resource;
  offset = add64 a.offset_in_resource (x - a.start);
  rights = a.access_rights;
  sharing = a.flags;
}

unfoldable pub view : List Arena → ℕ → Option Place
view [] x = none
view (a ∷ arenas) x =
    if leb a.start x && ltb x (a.start + a.size) then some (place_in a x) else view arenas x

-- No arena is empty, each ends before the next one begins, and all are within the bounds.
abbrev pub Chain : ℕ → List Arena → ℕ → Type 0
Chain low [] high = low ≤ high
Chain low (a ∷ arenas) high = (low ≤ a.start) × (0 < a.size) × Chain (a.start + a.size) arenas high

-- The second address space maps what the first one maps, but nothing in the interval.
abbrev pub Carved : ℕ → ℕ → List Arena → List Arena → Type 0
Carved low high xs ys = (x : ℕ) → view ys x ≡ (if leb low x && ltb x high then none else view xs x)

pub Chain-le : (low high : ℕ) (xs : List Arena) → Chain low xs high → low ≤ high
Chain-le low high [] c = c
Chain-le low high (a ∷ xs) c = omega (arith, c.0, c.1, Chain-le (a.start + a.size) high xs c.2)

pub Chain-weaken :
    (low low' high : ℕ) (xs : List Arena) → low' ≤ low → Chain low xs high → Chain low' xs high
Chain-weaken low low' high [] le c = omega arith
Chain-weaken low low' high (a ∷ xs) le c = (omega (arith, c.0), c.1, c.2)

pub Chain-raise :
    (low high high' : ℕ) (xs : List Arena) → high ≤ high' → Chain low xs high → Chain low xs high'
Chain-raise low high high' [] le c = omega arith
Chain-raise low high high' (a ∷ xs) le c =
    (c.0, c.1, Chain-raise (a.start + a.size) high high' xs le c.2)

pub Chain-append :
    (low mid high : ℕ) (xs ys : List Arena)
    → Chain low xs mid
    → Chain mid ys high
    → Chain low (xs ++ ys) high
Chain-append low mid high [] ys c d = Chain-weaken mid low high ys c d
Chain-append low mid high (a ∷ xs) ys c d =
    (c.0, c.1, Chain-append (a.start + a.size) mid high xs ys c.2 d)

pub view-below : (low high x : ℕ) (xs : List Arena) → Chain low xs high → x < low → view xs x ≡ none
unfolding view
view-below low high x [] c lt = refl
view-below low high x (a ∷ xs) c lt =
    ground (arith, c.0, c.1, view-below (a.start + a.size) high x xs c.2 (omega (arith, c.0, c.1)))

pub view-above :
    (low high x : ℕ) (xs : List Arena) → Chain low xs high → high ≤ x → view xs x ≡ none
unfolding view
view-above low high x [] c le = refl
view-above low high x (a ∷ xs) c le =
    ground (
      arith,
      Chain-le (a.start + a.size) high xs c.2,
      view-above (a.start + a.size) high x xs c.2 le,
    )

-- Carving what stands behind a list of arenas that end below the interval.
pub Carved-append :
    (bottom mid low high : ℕ) (xs ys zs : List Arena)
    → Chain bottom xs mid
    → mid ≤ low
    → Carved low high ys zs
    → Carved low high (xs ++ ys) (xs ++ zs)
unfolding view
Carved-append bottom mid low high [] ys zs c le h x = h x
Carved-append bottom mid low high (a ∷ xs) ys zs c le h x = ground (
  arith,
  Chain-le (a.start + a.size) mid xs c.2,
  Carved-append (a.start + a.size) mid low high xs ys zs c.2 le h x,
)

pub Carved-from :
    (low high : ℕ) (xs ys zs : List Arena) → xs ≡ ys → Carved low high ys zs → Carved low high xs zs
Carved-from low high xs ys zs e c x = rw e (c x)

-- Two address spaces map the same outside the interval.
abbrev pub Agree : ℕ → ℕ → List Arena → List Arena → Type 0
Agree low high xs ys =
    (x : ℕ)
    → (if leb low x && ltb x high then none else view xs x)
      ≡ (if leb low x && ltb x high then none else view ys x)

pub Agree-append :
    (low high : ℕ) (xs ys zs : List Arena)
    → Agree low high ys zs
    → Agree low high (xs ++ ys) (xs ++ zs)
unfolding view
Agree-append low high [] ys zs h x = h x
Agree-append low high (a ∷ xs) ys zs h x = ground (arith, Agree-append low high xs ys zs h x)

-- Arenas that are apart from the interval.
pub Carved-above :
    (low high bottom top : ℕ) (xs : List Arena)
    → Chain bottom xs top
    → high ≤ bottom
    → Carved low high xs xs
Carved-above low high bottom top xs c le x = elim (Bool-cases (leb low x && ltb x high)) [
  | inl e ↦ rw e (view-below bottom top x xs c (ground arith))
  | inr e ↦ rw e refl
]

pub Carved-below :
    (low high bottom top : ℕ) (xs : List Arena)
    → Chain bottom xs top
    → top ≤ low
    → Carved low high xs xs
Carved-below low high bottom top xs c le x = elim (Bool-cases (leb low x && ltb x high)) [
  | inl e ↦ rw e (view-above bottom top x xs c (ground arith))
  | inr e ↦ rw e refl
]

abbrev pub Live : ℕ → List Arena → Type 0
Live uaddr [] = Unit {0}
Live uaddr (a ∷ arenas) = uaddr < a.start + a.size

-- The place in front of which every arena ends at or below an address, and from which the first one
-- goes beyond it.
pub record Sought (low high : ℕ) (uaddr : ℕ) (xs : List Arena) (found : List Arena × List Arena)
    : Type 0 where
  pub whole : xs ≡ found.0 ++ found.1
  pub middle : ℕ
  pub in_front : Chain low found.0 middle
  pub behind : Chain middle found.1 high
  pub below : middle ≤ uaddr
  pub live : Live uaddr found.1

pub seek-Sought :
    (low mid high uaddr : ℕ) (xs before after : List Arena)
    → xs ≡ before ++ after
    → Chain low before mid
    → Chain mid after high
    → mid ≤ uaddr
    → high < 2 ^ 32
    → Sought low high uaddr xs (seek before after uaddr)
unfolding seek
seek-Sought low mid high uaddr xs before [] e c d le h = record {
  whole = e;
  middle = mid;
  in_front = c;
  behind = d;
  below = le;
  live = tt;
}
seek-Sought low mid high uaddr xs before (a ∷ after) e c d le h =
    let le_high : a.start + a.size ≤ high = Chain-le (a.start + a.size) high after d.2 in
    let last : add32 a.start (sub32 a.size 1) ≡ a.start + a.size - 1 =
      omega (arith, d.1, le_high, h) in
    elim (dec_lt uaddr (a.start + a.size)) [
      | yes l ↦
          rw (last, le→leb uaddr (a.start + a.size - 1) (omega (arith, l, d.1)))
            (record { whole = e; middle = mid; in_front = c; behind = d; below = le; live = l })
      | no n ↦
          rw (last, lt→leb uaddr (a.start + a.size - 1) (omega (arith, n, d.1)))
            (seek-Sought low (a.start + a.size) high uaddr xs (before ++ a ∷ []) after
              (e ∙ sym (append-snoc before a after))
              (Chain-append low mid (a.start + a.size) before (a ∷ []) c (d.0, d.1, omega arith))
              d.2 (omega (arith, n)) h)
    ]
