-- ===== src/Uvmm/Overlaid.antt =====
-- A new mapping in the view of an address space: the arenas that `uvmm_map` makes or widens.
use desiros.Base.{
  ℕ, ◌+◌, ◌≤◌, ◌≡◌, refl, sym, ◌∙◌, true, ◌&&◌, Bool-cases, inl, inr, List, [], ◌∷◌, ◌++◌, some,
  ltb, leb, if◌then◌else◌, arith,
}
use desiros.Uvmm.{Arena, no_ops, add64}
use desiros.Uvmm.Mapping.{Request, new_arena, same_kind}
use desiros.Uvmm.View.{Place, place_in, view, Chain, Carved, Chain-le}
use desiros.Uvmm.Cutting.{place_in-later}

-- What a request asks to be mapped at an address.
abbrev pub requested : Request → ℕ → Place
requested r x = place_in (new_arena 0 r no_ops) x

-- The second address space maps the interval as requested, and all else as the first one.
abbrev pub Overlaid : Request → List Arena → List Arena → Type 0
Overlaid r xs ys =
    (x : ℕ)
    → view ys x
      ≡ (if leb r.start x && ltb x (r.start + r.size) then some (requested r x) else view xs x)

pub Overlaid-append :
    (bottom mid : ℕ) (r : Request) (xs ys zs : List Arena)
    → Chain bottom xs mid
    → mid ≤ r.start
    → Overlaid r ys zs
    → Overlaid r (xs ++ ys) (xs ++ zs)
unfolding view
Overlaid-append bottom mid r [] ys zs c le h x = h x
Overlaid-append bottom mid r (a ∷ xs) ys zs c le h x = ground (
  arith,
  Chain-le (a.start + a.size) mid xs c.2,
  Overlaid-append (a.start + a.size) mid r xs ys zs c.2 le h x,
)

pub Overlaid-from :
    (r : Request) (xs ys zs : List Arena) → xs ≡ ys → Overlaid r ys zs → Overlaid r xs zs
Overlaid-from r xs ys zs e o x = rw e (o x)

-- What is mapped after the interval has been carved out first.
pub Overlaid-Carved :
    (r : Request) (xs ys zs : List Arena)
    → Carved r.start (r.start + r.size) xs ys
    → Overlaid r ys zs
    → Overlaid r xs zs
Overlaid-Carved r xs ys zs c o x = elim (Bool-cases (leb r.start x && ltb x (r.start + r.size))) [
  | inl e ↦ o x ∙ rw e refl
  | inr e ↦ o x ∙ rw e (c x ∙ rw e refl)
]

-- An arena whose end the request continues, in the same resource.
pub preceding-place :
    (p : Arena) (r : Request) (x : ℕ)
    → same_kind p r ≡ true
    → add64 p.offset_in_resource p.size ≡ r.offset
    → p.start + p.size ≡ r.start
    → r.start ≤ x
    → requested r x ≡ place_in p x
preceding-place p r x k o s le =
    place_in-later p (new_arena 0 r no_ops) p.size x (sym s) (sym o) (ground arith) (ground arith)
      (ground arith) le

-- An arena that continues the request, in the same resource.
pub next-place :
    (n : Arena) (r : Request) (x : ℕ)
    → same_kind n r ≡ true
    → add64 r.offset r.size ≡ n.offset_in_resource
    → r.start + r.size ≡ n.start
    → n.start ≤ x
    → place_in n x ≡ requested r x
next-place n r x k o s le =
    place_in-later (new_arena 0 r no_ops) n r.size x (sym s) (sym o) (ground arith) (ground arith)
      (ground arith) le

module _ (r : Request) (after : List Arena) (high : ℕ)
    (c : Chain (r.start + r.size) after high) where
  pub Overlaid-new :
      (b : Arena)
      → b.start ≡ r.start
      → b.size ≡ r.size
      → ((x : ℕ) → place_in b x ≡ requested r x)
      → Overlaid r after (b ∷ after)
  unfolding view
  Overlaid-new b s z h x = ground (arith, h x)

  pub Overlaid-prev :
      (p q : Arena)
      → p.start + p.size ≡ r.start
      → q.start ≡ p.start
      → q.size ≡ p.size + r.size
      → ((x : ℕ) → place_in q x ≡ place_in p x)
      → ((x : ℕ) → r.start ≤ x → requested r x ≡ place_in p x)
      → Overlaid r (p ∷ after) (q ∷ after)
  unfolding view
  Overlaid-prev p q s qs qz hq hr x = ground (arith, hq x, hr x)

pub Overlaid-both :
    (r : Request) (p q n : Arena) (after : List Arena)
    → p.start + p.size ≡ r.start
    → r.start + r.size ≡ n.start
    → q.start ≡ p.start
    → q.size ≡ p.size + (r.size + n.size)
    → ((x : ℕ) → place_in q x ≡ place_in p x)
    → ((x : ℕ) → r.start ≤ x → requested r x ≡ place_in p x)
    → ((x : ℕ) → n.start ≤ x → place_in n x ≡ requested r x)
    → Overlaid r (p ∷ n ∷ after) (q ∷ after)
unfolding view
Overlaid-both r p q n after s t qs qz hq hr hn x = ground (arith, hq x, hr x, hn x)
