-- ===== src/Ring/Middle.antt =====
-- Insertion beside a member anywhere in the ring: `list_insert_before` and `list_insert_after`.
use desiros.Base.{
  ℕ, ◌≡◌, refl, ◌≢◌, List, [], ◌∷◌, ◌++◌, arith, ◌∉◌, Distinct, ◌∙◌, ◌==◌, has-rotate, has-append,
  if◌then◌else◌,
}
use desiros.Ring.{Links, list_insert_before, list_insert_after}
use desiros.Ring.Segment.{IsRing, IsCycle, SameOutside, IsCycle-rotate, head_of}
use desiros.Ring.Insert.{
  Inserted, ring-IsCycle, after-IsCycle, after-SameOutside, atleft-IsCycle, atleft-SameOutside,
}

head_of-append :
    (xs : List ℕ) (y : ℕ) (ys zs : List ℕ) → head_of (xs ++ y ∷ ys) ≡ head_of (xs ++ y ∷ zs)
head_of-append [] y ys zs = refl
head_of-append (x ∷ xs) y ys zs = refl

new_head :
    {list : ℕ} (before : List ℕ) (a : ℕ) (after : List ℕ) (item : ℕ)
    → list ≡ head_of (before ++ a ∷ after)
    → Distinct (before ++ a ∷ after)
    → (if list == a then item else list) ≡ head_of (before ++ item ∷ a ∷ after)
new_head [] a after item h d = ground arith
new_head (b ∷ bs) a after item h d = ground (arith, d.0, has-append b bs (a ∷ after))

module _ {s : Links} {list : ℕ} (before : List ℕ) (a : ℕ) (after : List ℕ) (item : ℕ)
    (r : IsRing s list (before ++ a ∷ after)) (some_ptr : item ≢ 0)
    (new : item ∉ before ++ a ∷ after) where
  turned : IsCycle s (a ∷ after ++ before)
  turned = IsCycle-rotate before (a ∷ after) (ring-IsCycle r)

  new_turned : item ∉ a ∷ after ++ before
  new_turned = ground (arith, has-rotate item before (a ∷ after))

  same_turned :
      {t : Links}
      → SameOutside (item ∷ a ∷ after ++ before) s t
      → SameOutside (item ∷ before ++ a ∷ after) s t
  same_turned same c out = same c (ground (arith, has-rotate c before (a ∷ after)))

  -- `list_insert_after` puts a new element right behind a member.
  pub list_insert_after_lem :
      Inserted s item
        (before ++ a ∷ after)
        (before ++ a ∷ item ∷ after)
        (list_insert_after s a item, list)
  list_insert_after_lem =
      let c =
        IsCycle-rotate (a ∷ item ∷ after) before
          (after-IsCycle a (after ++ before) item turned some_ptr new_turned) in
      record {
        ring = record {
          head = r.head ∙ head_of-append before a after (item ∷ after);
          not_null = c.not_null;
          distinct = c.distinct;
          cycle = c.cycle;
        };
        same = same_turned (after-SameOutside a (after ++ before) item turned);
      }

  -- `list_insert_before` puts a new element right in front of a member; in front of the first, the
  -- list variable moves to it.
  pub list_insert_before_lem :
      Inserted s item
        (before ++ a ∷ after)
        (before ++ item ∷ a ∷ after)
        (list_insert_before s list a item)
  unfolding list_insert_before
  list_insert_before_lem =
      let c =
        IsCycle-rotate (item ∷ a ∷ after) before (atleft-IsCycle item turned some_ptr new_turned) in
      record {
        ring = record {
          head = new_head before a after item r.head r.distinct;
          not_null = c.not_null;
          distinct = c.distinct;
          cycle = c.cycle;
        };
        same = same_turned (atleft-SameOutside item turned some_ptr new_turned);
      }
