-- ===== src/Ring/Segment.antt =====
-- What it means that links form a ring, and how a ring is cut and turned.
use mathlib.Core.List.{append-nil}
use desiros.Base.{
  ℕ, ◌≡◌, refl, List, [], ◌∷◌, ◌++◌, arith, ◌∈◌, ◌∉◌, Distinct, has-rotate, Distinct-rotate,
}
use desiros.Ring.{Links}

-- Behind `a` come the elements `xs`, then `b`, and the `prev` links lead back the same way.
abbrev pub Linked : Links → ℕ → List ℕ → ℕ → Type 0
Linked s a [] b = (s.next a ≡ b) × (s.prev b ≡ a)
Linked s a (x ∷ xs) b = (s.next a ≡ x) × (s.prev x ≡ a) × Linked s x xs b

-- The elements form a cycle.
abbrev pub Cycle : Links → List ℕ → Type 0
Cycle s [] = Unit {0}
Cycle s (x ∷ xs) = Linked s x xs x

abbrev pub head_of : List ℕ → ℕ
head_of [] = 0
head_of (x ∷ xs) = x

-- The list variable stands for the elements `xs`, in order: distinct, not `NULL`, and a cycle.
pub record IsRing (s : Links) (list : ℕ) (xs : List ℕ) : Type 0 where
  pub head : list ≡ head_of xs
  pub not_null : 0 ∉ xs
  pub distinct : Distinct xs
  pub cycle : Cycle s xs

-- The links of `t` are those of `s`, but for the elements of `xs`.
abbrev pub SameOutside : List ℕ → Links → Links → Type 0
SameOutside xs s t = (c : ℕ) → c ∉ xs → (t.next c ≡ s.next c) × (t.prev c ≡ s.prev c)

pub Linked-append :
    (s : Links) (a : ℕ) (xs : List ℕ) (y : ℕ) (ys : List ℕ) (b : ℕ)
    → Linked s a xs y
    → Linked s y ys b
    → Linked s a (xs ++ y ∷ ys) b
Linked-append s a [] y ys b l r = (l.0, l.1, r)
Linked-append s a (x ∷ xs) y ys b l r = (l.0, l.1, Linked-append s x xs y ys b l.2 r)

pub Linked-append_left :
    (s : Links) (a : ℕ) (xs : List ℕ) (y : ℕ) (ys : List ℕ) (b : ℕ)
    → Linked s a (xs ++ y ∷ ys) b
    → Linked s a xs y
Linked-append_left s a [] y ys b l = (l.0, l.1)
Linked-append_left s a (x ∷ xs) y ys b l = (l.0, l.1, Linked-append_left s x xs y ys b l.2)

pub Linked-append_right :
    (s : Links) (a : ℕ) (xs : List ℕ) (y : ℕ) (ys : List ℕ) (b : ℕ)
    → Linked s a (xs ++ y ∷ ys) b
    → Linked s y ys b
Linked-append_right s a [] y ys b l = l.2
Linked-append_right s a (x ∷ xs) y ys b l = Linked-append_right s x xs y ys b l.2

-- The last element before the end is the one that the end leads back to.
pub prev-mem : (s : Links) (a : ℕ) (xs : List ℕ) (b : ℕ) → Linked s a xs b → s.prev b ∈ a ∷ xs
prev-mem s a [] b l = ground arith
prev-mem s a (x ∷ xs) b l = ground (arith, prev-mem s x xs b l.2)

pub Linked-frame :
    (s t : Links) (a : ℕ) (xs : List ℕ) (b : ℕ)
    → ((c : ℕ) → c ∈ a ∷ xs → t.next c ≡ s.next c)
    → ((c : ℕ) → c ∈ b ∷ xs → t.prev c ≡ s.prev c)
    → Linked s a xs b
    → Linked t a xs b
Linked-frame s t a [] b hn hp l = (ground (arith, hn a), ground (arith, hp b))
Linked-frame s t a (x ∷ xs) b hn hp l = (
  ground (arith, hn a),
  ground (arith, hp x),
  Linked-frame s t x xs b (λ c m. hn c (ground arith)) (λ c m. hp c (ground arith)) l.2,
)

-- A ring survives what is done to other elements.
pub IsRing-frame :
    {s t : Links} {list : ℕ} (xs ys : List ℕ)
    → IsRing s list xs
    → SameOutside ys s t
    → ((c : ℕ) → c ∈ xs → c ∉ ys)
    → IsRing t list xs
IsRing-frame [] ys r same apart = record {
  head = r.head;
  not_null = refl;
  distinct = tt;
  cycle = tt;
}
IsRing-frame {s} {t} (x ∷ xs) ys r same apart = record {
  head = r.head;
  not_null = r.not_null;
  distinct = r.distinct;
  cycle =
      Linked-frame s t x xs x (λ c m. (same c (apart c m)).0) (λ c m. (same c (apart c m)).1)
        r.cycle;
}

-- A cycle may be entered anywhere.
pub Cycle-rotate : (s : Links) (xs ys : List ℕ) → Cycle s (xs ++ ys) → Cycle s (ys ++ xs)
Cycle-rotate s [] ys c = rw (append-nil ys) c
Cycle-rotate s (x ∷ xs) [] c = rw (append-nil xs) at c
Cycle-rotate s (x ∷ xs) (y ∷ ys) c =
    Linked-append s y ys x xs y (Linked-append_right s x xs y ys x c)
      (Linked-append_left s x xs y ys x c)

-- A ring seen from another element: its members without the list variable.
pub record IsCycle (s : Links) (xs : List ℕ) : Type 0 where
  pub not_null : 0 ∉ xs
  pub distinct : Distinct xs
  pub cycle : Cycle s xs

pub IsCycle-rotate : {s : Links} (xs ys : List ℕ) → IsCycle s (xs ++ ys) → IsCycle s (ys ++ xs)
IsCycle-rotate {s} xs ys c = record {
  not_null = ground (arith, has-rotate 0 xs ys);
  distinct = Distinct-rotate xs ys c.distinct;
  cycle = Cycle-rotate s xs ys c.cycle;
}
