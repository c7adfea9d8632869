-- ===== src/Ring/Delete.antt =====
-- The deletions of include/list.h.
use mathlib.Core.Path.{subst}
use mathlib.Core.List.{append-nil}
use desiros.Base.{
  ℕ, ◌≡◌, refl, ◌≢◌, false, List, [], ◌∷◌, ◌++◌, arith, ◌∈◌, ◌∉◌, Distinct, ◌==◌, eq→==,
  if◌then◌else◌, erase, split, Split, has-rotate, has-append, ◌∙◌, sym,
}
use desiros.Ring.{Links, set_next, set_prev, list_delete, list_pop_head}
use desiros.Ring.Segment.{Linked, IsRing, IsCycle, SameOutside, prev-mem, IsCycle-rotate, head_of}
use desiros.Ring.Insert.{ring-IsCycle}

-- The two writes that take `x` out of the ring, and the two that clear its own links.
abbrev bypass : Links → ℕ → ℕ → Links
bypass s x y = set_prev (set_next s (s.prev x) y) y (s.prev x)

abbrev cleared : Links → ℕ → Links
cleared s x = set_prev (set_next s x 0) x 0

-- A segment that led to `x` leads to `y` instead.
bypass-Linked :
    (s : Links) (a x y : ℕ) (ys : List ℕ)
    → Distinct (a ∷ ys)
    → x ∉ a ∷ ys
    → y ∉ ys
    → y ≢ x
    → Linked s a ys x
    → Linked (cleared (bypass s x y) x) a ys y
bypass-Linked s a x y [] d out new ne l = (ground arith, ground arith)
bypass-Linked s a x y (z ∷ zs) d out new ne l = (
  ground (arith, prev-mem s z zs x l.2),
  ground arith,
  bypass-Linked s z x y zs d.1 (ground arith) (ground arith) ne l.2,
)

delete-alone :
    (s : Links) (list x : ℕ)
    → Linked s x [] x
    → list_delete s list x ≡ (set_next (set_prev s x 0) x 0, 0)
unfolding list_delete
delete-alone s list x l = rw (eq→== (s.next x) x l.0, eq→== (s.prev x) x l.1, if◌then◌else◌) refl

delete-cons :
    (s : Links) (list x y : ℕ) (ys : List ℕ)
    → Distinct (x ∷ y ∷ ys)
    → Linked s x (y ∷ ys) x
    → list_delete s list x ≡ (cleared (bypass s x y) x, if x == list then y else list)
unfolding list_delete
delete-cons s list x y ys d l =
    let tests : (s.next x == x) ≡ false = ground arith in
    let tests' : (x == s.prev x) ≡ false = ground (arith, prev-mem s y ys x l.2) in
    rw (tests, tests', l.0, if◌then◌else◌) refl

-- The outcome of a deletion: the ring holds `ys`, the links of the element are cleared, and only
-- links of old members are written.
pub record Deleted (s : Links) (item : ℕ) (xs ys : List ℕ) (r : Links × ℕ) : Type 0 where
  pub ring : IsRing r.0 r.1 ys
  pub no_next : r.0.next item ≡ 0
  pub no_prev : r.0.prev item ≡ 0
  pub same : SameOutside xs s r.0

-- The same without the list variable, seen from the element.
record Unlinked (s : Links) (list item : ℕ) (rest : List ℕ) (r : Links × ℕ) : Type 0 where
  cycle : IsCycle r.0 rest
  head : r.1 ≡ (if item == list then head_of rest else list)
  no_next : r.0.next item ≡ 0
  no_prev : r.0.prev item ≡ 0
  same : SameOutside (item ∷ rest) s r.0

delete-Unlinked :
    {s : Links} (list x : ℕ) (rest : List ℕ)
    → IsCycle s (x ∷ rest)
    → list ∈ x ∷ rest
    → Unlinked s list x rest (list_delete s list x)
delete-Unlinked {s} list x [] c m = rw (delete-alone s list x c.cycle) (record {
  cycle = record { not_null = refl; distinct = tt; cycle = tt };
  head = ground arith;
  no_next = ground arith;
  no_prev = ground arith;
  same = λ a out. (ground arith, ground arith);
})
delete-Unlinked {s} list x (y ∷ ys) c m =
    let l : Linked s x (y ∷ ys) x = c.cycle in
    let near : s.prev x ∈ y ∷ ys = prev-mem s y ys x l.2 in
    rw (delete-cons s list x y ys c.distinct l) (record {
      cycle = record {
        not_null = ground (arith, c.not_null);
        distinct = c.distinct.1;
        cycle =
            bypass-Linked s y x y ys c.distinct.1 c.distinct.0 c.distinct.1.0
              (ground (arith, c.distinct.0)) l.2;
      };
      head = refl;
      no_next = ground arith;
      no_prev = ground arith;
      same = λ a out. (ground arith, ground arith);
    })

new_head :
    (list x : ℕ) (before after : List ℕ)
    → list ≡ head_of (before ++ x ∷ after)
    → Distinct (before ++ x ∷ after)
    → (if x == list then head_of (after ++ before) else list) ≡ head_of (before ++ after)
new_head list x [] after h d = rw (append-nil after) (ground arith)
new_head list x (b ∷ bs) after h d = ground (arith, d.0, has-append b bs (x ∷ after))

head-mem :
    (list x : ℕ) (before after : List ℕ)
    → list ≡ head_of (before ++ x ∷ after)
    → list ∈ before ++ x ∷ after
head-mem list x [] after h = ground arith
head-mem list x (b ∷ bs) after h = ground arith

delete_split :
    {s : Links} {list : ℕ} (before : List ℕ) (x : ℕ) (after : List ℕ)
    → IsRing s list (before ++ x ∷ after)
    → Deleted s x (before ++ x ∷ after) (before ++ after) (list_delete s list x)
delete_split {s} {list} before x after r =
    let u : Unlinked s list x (after ++ before) (list_delete s list x) =
      delete-Unlinked list x (after ++ before) (IsCycle-rotate before (x ∷ after) (ring-IsCycle r))
        (ground (arith, has-rotate list before (x ∷ after), head-mem list x before after r.head)) in
    let c : IsCycle (list_delete s list x).0 (before ++ after) =
      IsCycle-rotate after before u.cycle in
    record {
      ring = record {
        head = u.head ∙ new_head list x before after r.head r.distinct;
        not_null = c.not_null;
        distinct = c.distinct;
        cycle = c.cycle;
      };
      no_next = u.no_next;
      no_prev = u.no_prev;
      same = λ a out. u.same a (ground (arith, has-rotate a before (x ∷ after)));
    }

-- `list_delete` takes the element out of any ring that has it, wherever it stands, and clears its
-- links.
pub list_delete_lem :
    {s : Links} {list : ℕ} {xs : List ℕ} (item : ℕ)
    → IsRing s list xs
    → item ∈ xs
    → Deleted s item xs (erase item xs) (list_delete s list item)
list_delete_lem {s} {list} {xs} item r m =
    let p : Split item xs = split item xs m in
    rw p.rest (
      subst
        (λ ys. IsRing s list ys → Deleted s item ys (p.before ++ p.after) (list_delete s list item))
        (sym p.whole) (delete_split p.before item p.after) r)

-- Deletion of the element that the list variable points at.
pub list_delete_first :
    {s : Links} {list x : ℕ} {xs : List ℕ}
    → IsRing s list (x ∷ xs)
    → Deleted s x (x ∷ xs) xs (list_delete s list list)
list_delete_first {s} {list} {x} {xs} r =
    subst (λ y. Deleted s x (x ∷ xs) xs (list_delete s list y)) (sym r.head)
      (delete_split [] x xs r)

-- `list_pop_head` gives the first element, and leaves the others in order.
pub list_pop_head_lem :
    {s : Links} {list x : ℕ} {xs : List ℕ}
    → IsRing s list (x ∷ xs)
    → ((list_pop_head s list).0 ≡ x) × Deleted s x (x ∷ xs) xs (list_pop_head s list).1
unfolding list_pop_head
list_pop_head_lem r = (r.head, list_delete_first r)
