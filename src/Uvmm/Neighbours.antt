-- ===== src/Uvmm/Neighbours.antt =====
-- The neighbours of a place in the list of arenas.
use desiros.Base.{
  ℕ, suc, ◌+◌, ◌≤◌, ◌<◌, ◌≡◌, refl, ap, ◌⊎◌, inl, inr, List, [], ◌∷◌, ◌++◌, some, le→ltb, lt→ltb,
  arith,
}
use desiros.Base.Words.{add32}
use desiros.Uvmm.{Arena}
use desiros.Uvmm.Mapping.{absent, in_front, last_of, find_prev, widen_last}
use desiros.Uvmm.View.{Chain}

-- A list of arenas is empty or has a last one.
pub record Last (xs : List Arena) : Type 0 where
  pub init : List Arena
  pub last : Arena
  pub whole : xs ≡ init ++ last ∷ []

pub Last-cases : (xs : List Arena) → (xs ≡ []) ⊎ Last xs
Last-cases [] = inl refl
Last-cases (a ∷ xs) = elim (Last-cases xs) [
  | inl e ↦ inr (record { init = []; last = a; whole = ap (◌∷◌ a) e })
  | inr l ↦ inr (record { init = a ∷ l.init; last = l.last; whole = ap (◌∷◌ a) l.whole })
]

pub last_of-snoc : (xs : List Arena) (p : Arena) → last_of (xs ++ p ∷ []) ≡ some p
last_of-snoc [] p = refl
last_of-snoc (a ∷ []) p = refl
last_of-snoc (a ∷ b ∷ xs) p = last_of-snoc (b ∷ xs) p

pub widen_last-snoc :
    (xs : List Arena) (p : Arena) (more : ℕ)
    → widen_last (xs ++ p ∷ []) more ≡ xs ++ record p { size = add32 p.size more } ∷ []
widen_last-snoc [] p more = refl
widen_last-snoc (a ∷ []) p more = refl
widen_last-snoc (a ∷ b ∷ xs) p more = ap (◌∷◌ a) (widen_last-snoc (b ∷ xs) p more)

last_of-above :
    (low high : ℕ) (a : Arena) (xs : List Arena)
    → Chain low (a ∷ xs) high
    → (p : Arena) × (last_of (a ∷ xs) ≡ some p) × (low ≤ p.start)
last_of-above low high a [] c = (a, refl, c.0)
last_of-above low high a (b ∷ xs) c =
    let (p, e, l) = last_of-above (a.start + a.size) high b xs c.2 in (p, e, omega (arith, c.0, l))

pub find_prev-absent :
    (hint high : ℕ) (after : List Arena)
    → Chain (suc hint) after high
    → find_prev [] after hint ≡ absent
unfolding find_prev
find_prev-absent hint high [] c = refl
find_prev-absent hint high (n ∷ after) c =
    let (p, e, l) = last_of-above (suc hint) high n after c in
    rw (find_prev, e, lt→ltb hint p.start (omega (arith, l))) refl

pub find_prev-in_front :
    (hint : ℕ) (xs after : List Arena) (p : Arena)
    → p.start ≤ hint
    → find_prev (xs ++ p ∷ []) after hint ≡ in_front p
unfolding find_prev
find_prev-in_front hint xs [] p l = rw (find_prev, last_of-snoc xs p) refl
find_prev-in_front hint xs (n ∷ after) p l =
    rw (find_prev, last_of-snoc xs p, le→ltb hint p.start l) refl

pub Chain-snoc :
    (low high : ℕ) (xs : List Arena) (p : Arena)
    → Chain low (xs ++ p ∷ []) high
    → Chain low xs p.start × (0 < p.size) × (p.start + p.size ≤ high)
Chain-snoc low high [] p c = c
Chain-snoc low high (a ∷ xs) p c =
    let d = Chain-snoc (a.start + a.size) high xs p c.2 in ((c.0, c.1, d.0), d.1, d.2)
