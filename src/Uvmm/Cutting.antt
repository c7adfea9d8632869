-- ===== src/Uvmm/Cutting.antt =====
-- How an interval cuts an arena, and what is left of the arena in the view.
use desiros.Base.{
  ℕ, ◌+◌, ◌-◌, ◌^◌, ◌≤◌, ◌<◌, ◌≡◌, refl, ap, true, false, List, [], ◌∷◌, none, leb, lt→ltb, le→ltb,
  le→leb, lt→leb, arith, dec_lt,
}
use desiros.Base.Words.{add32, sub32}
use desiros.Uvmm.{Arena, add64}
use desiros.Uvmm.Unmapping.{
  apart, whole, inside, head, tail, overlap, lower_part, upper_part, shifted,
}
use desiros.Uvmm.View.{place_in, view, Chain, Carved, Agree, Live, view-below}

-- How an arena that ends behind the interval's start lies to it.
pub data Lies (a : Arena) (u z : ℕ) : Type 0 where
  lies_apart : overlap a u z ≡ apart → u + z ≤ a.start → Lies a u z
  lies_whole : overlap a u z ≡ whole → u ≤ a.start → a.start + a.size ≤ u + z → Lies a u z
  lies_inside : overlap a u z ≡ inside → a.start < u → u + z < a.start + a.size → Lies a u z
  lies_head :
      overlap a u z ≡ head → u ≤ a.start → a.start < u + z → u + z < a.start + a.size → Lies a u z
  lies_tail :
      overlap a u z ≡ tail
      → a.start < u
      → u < a.start + a.size
      → a.start + a.size ≤ u + z
      → Lies a u z

pub add32-fits : (a b : ℕ) → a + b < 2 ^ 32 → add32 a b ≡ a + b
add32-fits a b h = omega (arith, h)

pub sub32-fits : (a b : ℕ) → b ≤ a → a < 2 ^ 32 → sub32 a b ≡ a - b
sub32-fits a b h l = omega (arith, h, l)

pub overlap_lem :
    (a : Arena) (u z : ℕ)
    → u < a.start + a.size
    → a.start + a.size < 2 ^ 32
    → u + z < 2 ^ 32
    → Lies a u z
unfolding overlap
overlap_lem a u z l h k =
    let p = add32-fits a.start a.size h in
    let e = add32-fits u z k in
    let t1 : leb (a.start + a.size) u ≡ false = lt→leb (a.start + a.size) u l in
    elim (dec_lt a.start (u + z)) [
      | no n ↦
          lies_apart (rw (p, e, t1, le→leb (u + z) a.start (omega (arith, n))) refl)
            (omega (arith, n))
      | yes y ↦
          let t2 : leb (u + z) a.start ≡ false = lt→leb (u + z) a.start y in
          elim (dec_lt a.start u) [
            | yes s ↦
                let t3 : leb u a.start ≡ false = lt→leb u a.start s in
                elim (dec_lt (u + z) (a.start + a.size)) [
                  | yes i ↦
                      lies_inside
                        (rw
                          (
                            p,
                            e,
                            t1,
                            t2,
                            t3,
                            lt→ltb a.start u s,
                            lt→ltb (u + z) (a.start + a.size) i,
                          )
                          refl)
                        s i
                  | no i ↦
                      lies_tail
                        (rw
                          (
                            p,
                            e,
                            t1,
                            t2,
                            t3,
                            lt→ltb a.start u s,
                            le→ltb (u + z) (a.start + a.size) (omega (arith, i)),
                            le→leb (a.start + a.size) (u + z) (omega (arith, i)),
                          )
                          refl)
                        s l (omega (arith, i))
                ]
            | no s ↦
                let t3 : leb u a.start ≡ true = le→leb u a.start (omega (arith, s)) in
                elim (dec_lt (u + z) (a.start + a.size)) [
                  | yes i ↦
                      lies_head
                        (rw
                          (
                            p,
                            e,
                            t1,
                            t2,
                            t3,
                            lt→leb (a.start + a.size) (u + z) i,
                            le→ltb a.start u (omega (arith, s)),
                          )
                          refl)
                        (omega (arith, s)) y i
                  | no i ↦
                      lies_whole
                        (rw (p, e, t1, t2, t3, le→leb (a.start + a.size) (u + z) (omega (arith, i)))
                          refl)
                        (omega (arith, s)) (omega (arith, i))
                ]
          ]
    ]

pub overlap-below :
    (a : Arena) (u z : ℕ) → a.start + a.size ≤ u → a.start + a.size < 2 ^ 32 → overlap a u z ≡ apart
unfolding overlap
overlap-below a u z l h = rw (add32-fits a.start a.size h, le→leb (a.start + a.size) u l) refl

-- An arena that begins later, further into the resource, maps the same places.
pub place_in-later :
    (a b : Arena) (t x : ℕ)
    → b.start ≡ a.start + t
    → b.offset_in_resource ≡ add64 a.offset_in_resource t
    → b.mapped_resource ≡ a.mapped_resource
    → b.access_rights ≡ a.access_rights
    → b.flags ≡ a.flags
    → b.start ≤ x
    → place_in b x ≡ place_in a x
unfolding place_in
place_in-later a b t x s o m r f le =
    let e : add64 b.offset_in_resource (x - b.start) ≡ add64 a.offset_in_resource (x - a.start) =
      rw o (omega (arith, s, le)) in
    rw (e, m, r, f) refl

-- The parts of an arena that is cut, with what stands behind it.
module _ (a : Arena) (u z high : ℕ) (after : List Arena)
    (c : Chain (a.start + a.size) after high) where
  pub none_inside : (x : ℕ) → x < a.start + a.size → view after x ≡ none
  none_inside x l = view-below (a.start + a.size) high x after c l

  pub Agree-whole : u ≤ a.start → a.start + a.size ≤ u + z → Agree u (u + z) (a ∷ after) after
  unfolding view
  Agree-whole s e x = ground arith

  pub Carved-inside :
      (b d : Arena)
      → b.start ≡ a.start
      → b.start + b.size ≡ u
      → d.start ≡ u + z
      → d.start + d.size ≡ a.start + a.size
      → a.start < u
      → ((x : ℕ) → place_in b x ≡ place_in a x)
      → ((x : ℕ) → u + z ≤ x → place_in d x ≡ place_in a x)
      → Carved u (u + z) (a ∷ after) (b ∷ d ∷ after)
  unfolding view
  Carved-inside b d bs be ds de l pb pd x = ground (arith, pb x, pd x, none_inside x)

  pub Carved-head :
      (d : Arena)
      → d.start ≡ u + z
      → d.start + d.size ≡ a.start + a.size
      → u ≤ a.start
      → a.start ≤ u + z
      → ((x : ℕ) → u + z ≤ x → place_in d x ≡ place_in a x)
      → Carved u (u + z) (a ∷ after) (d ∷ after)
  unfolding view
  Carved-head d ds de l k pd x = ground (arith, pd x, none_inside x)

  pub Agree-tail :
      (b : Arena)
      → a.start < u
      → u ≤ a.start + a.size
      → b.start ≡ a.start
      → b.start + b.size ≡ u
      → a.start + a.size ≤ u + z
      → ((x : ℕ) → place_in b x ≡ place_in a x)
      → Agree u (u + z) (a ∷ after) (b ∷ after)
  unfolding view
  Agree-tail b l m bs be e pb x = ground (arith, pb x, none_inside x)

pub lower_part-place : (a : Arena) (u x : ℕ) → place_in (lower_part a u) x ≡ place_in a x
unfolding place_in
lower_part-place a u x = refl

pub upper_part-place :
    (a : Arena) (u z p : ℕ)
    → a.start < u
    → u + z < 2 ^ 32
    → a.start + a.size < 2 ^ 32
    → u + z < a.start + a.size
    → (x : ℕ) → u + z ≤ x
    → place_in (upper_part a u z p) x ≡ place_in a x
upper_part-place a u z p g e h i x l =
    place_in-later a (upper_part a u z p) (u + z - a.start) x (omega (arith, g, e))
      (ap (add64 a.offset_in_resource) (omega (arith, g, e))) refl refl refl (omega (arith, e, l))

pub shifted-place :
    (a : Arena) (u z : ℕ)
    → u ≤ a.start
    → a.start < u + z
    → u + z < 2 ^ 32
    → (x : ℕ) → u + z ≤ x
    → place_in (shifted a u z) x ≡ place_in a x
shifted-place a u z g i e x l =
    place_in-later a (shifted a u z) (u + z - a.start) x (omega (arith, g, i, e))
      (ap (add64 a.offset_in_resource) (omega (arith, g, i, e))) refl refl refl
      (omega (arith, i, e, l))

pub Live-above : (m high u : ℕ) (xs : List Arena) → Chain m xs high → u ≤ m → Live u xs
Live-above m high u [] c l = tt
Live-above m high u (a ∷ xs) c l = omega (arith, c.0, c.1, l)
