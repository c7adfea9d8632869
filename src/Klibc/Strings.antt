-- ===== src/Klibc/Strings.antt =====
-- The functions that read NUL-terminated strings: `strlen`, `strcmp`, `strchrnul`.
use desiros.Base.{
  ℕ, zero, suc, ◌+◌, ◌<◌, ◌≤◌, ◌≡◌, refl, ◌≢◌, ◌⊎◌, inl, inr, arith, Option, some, ℕ_discrete,
  eq→==, ne→==,
}
use desiros.Base.Memory.{Memory}
use desiros.Klibc.{strlen, strlen_loop, strcmp, strchrnul}

-- A string of `n` characters stands at `s`.
pub record CString (m : Memory) (s n : ℕ) : Type 0 where
  pub ends : m (s + n) ≡ 0
  pub goes_on : (i : ℕ) → i < n → m (s + i) ≢ 0

pub tail-CString : {m : Memory} {s n : ℕ} → CString m s (suc n) → CString m (s + 1) n
tail-CString {m} {s} {n} c = record {
  ends = ground (arith, c.ends);
  goes_on = λ i l. ground (arith, c.goes_on (suc i) (omega arith));
}

pub head-CString : {m : Memory} {s n : ℕ} → CString m s (suc n) → m s ≢ 0
head-CString c = ground (arith, c.goes_on 0 (omega arith))

pub empty-CString : {m : Memory} {s : ℕ} → CString m s 0 → m s ≡ 0
empty-CString c = ground (arith, c.ends)

strlen_loop_lem :
    (fuel : ℕ) (m : Memory) (s n : ℕ)
    → CString m s n
    → n < fuel
    → strlen_loop fuel m s ≡ some (s + n)
unfolding strlen_loop
strlen_loop_lem zero m s n c l = ground arith
strlen_loop_lem (suc fuel) m s zero c l = ground (arith, empty-CString c)
strlen_loop_lem (suc fuel) m s (suc n) c l =
    ground (arith, head-CString c, strlen_loop_lem fuel m (s + 1) n (tail-CString c) (omega arith))

-- strlen is the number of characters before the NUL, with fuel for one step more than that.
pub strlen_lem :
    (fuel : ℕ) (m : Memory) (s n : ℕ) → CString m s n → n < fuel → strlen fuel m s ≡ some n
unfolding strlen
strlen_lem fuel m s n c l = rw (strlen, strlen_loop_lem fuel m s n c l) (ground arith)

-- What `strcmp` tells of a string of `n` characters and any other one.
pub data Compared (m : Memory) (a b n : ℕ) (r : Option ℕ) : Type 0 where
  same : ((i : ℕ) → i ≤ n → m (a + i) ≡ m (b + i)) → r ≡ some 0 → Compared m a b n r
  differ : (i : ℕ) → i ≤ n → m (a + i) ≢ m (b + i) → r ≡ some 1 → Compared m a b n r

longer :
    {m : Memory} {a b n : ℕ} {r : Option ℕ}
    → m a ≡ m b
    → Compared m (a + 1) (b + 1) n r
    → Compared m a b (suc n) r
longer {m} {a} {b} {n} e (same h q) = same (each h) q
  where
    each :
        ((i : ℕ) → i ≤ n → m (a + 1 + i) ≡ m (b + 1 + i))
        → (i : ℕ) → i ≤ suc n
        → m (a + i) ≡ m (b + i)
    each h zero l = ground (arith, e)
    each h (suc i) l = ground (arith, h i (omega arith))
longer {m} {a} {b} e (differ i l h q) = differ (suc i) (omega arith) (λ x. h (ground (arith, x))) q

-- strcmp returns 0 when the two strings agree up to the NUL of the second, and 1 when they differ
-- somewhere up to it, with fuel for one step more than the second string's length.
pub strcmp_lem :
    (fuel : ℕ) (m : Memory) (a b n : ℕ)
    → CString m b n
    → n < fuel
    → Compared m a b n (strcmp fuel m a b)
unfolding strcmp
strcmp_lem zero m a b n c l = ground arith
strcmp_lem (suc fuel) m a b zero c l = elim (ℕ_discrete (m a) (m b)) [
  | no ne ↦ differ 0 (omega arith) (ground (arith, ne)) (ground (arith, ne))
  | yes e ↦ same (λ i q. ground (arith, e)) (ground (arith, e, empty-CString c))
]
strcmp_lem (suc fuel) m a b (suc n) c l = elim (ℕ_discrete (m a) (m b)) [
  | no ne ↦ differ 0 (omega arith) (ground (arith, ne)) (ground (arith, ne))
  | yes e ↦
      rw (eq→== (m a) (m b) e, ne→== (m b) 0 (head-CString c))
        (longer e (strcmp_lem fuel m (a + 1) (b + 1) n (tail-CString c) (omega arith)))
]

-- What `strchrnul` returns for the string of `n` characters at `s`: the place of the first `c`, or of the NUL.
pub record Found (m : Memory) (s n c : ℕ) (r : Option ℕ) : Type 0 where
  pub place : ℕ
  pub returned : r ≡ some (s + place)
  pub bounded : place ≤ n
  pub hit : (m (s + place) ≡ c) ⊎ (place ≡ n)
  pub first : (j : ℕ) → j < place → m (s + j) ≢ c

further :
    {m : Memory} {s n c : ℕ} {r : Option ℕ}
    → m s ≢ c
    → Found m (s + 1) n c r
    → Found m s (suc n) c r
further {m} {s} {n} {c} {r} ne f = record {
  place = suc f.place;
  returned = ground (arith, f.returned);
  bounded = omega (arith, f.bounded);
  hit = elim f.hit [ inl e ↦ inl (ground (arith, e)) | inr e ↦ inr (ground (arith, e)) ];
  first = each;
}
  where
    each : (j : ℕ) → j < suc f.place → m (s + j) ≢ c
    each zero q = ground (arith, ne)
    each (suc j) q = λ x. f.first j (omega arith) (ground (arith, x))

-- strchrnul returns the address of the first c of the string, and that of its NUL when there is
-- none, with fuel for one step more than the string's length.
pub strchrnul_lem :
    (fuel : ℕ) (m : Memory) (s n c : ℕ)
    → CString m s n
    → n < fuel
    → Found m s n c (strchrnul fuel m s c)
unfolding strchrnul
strchrnul_lem zero m s n c v l = ground arith
strchrnul_lem (suc fuel) m s zero c v l = record {
  place = 0;
  returned = ground (arith, empty-CString v);
  bounded = omega arith;
  hit = inr refl;
  first = λ j q. ground arith;
}
strchrnul_lem (suc fuel) m s (suc n) c v l = elim (ℕ_discrete (m s) c) [
  | yes e ↦ record {
    place = 0;
    returned = ground (arith, head-CString v, e);
    bounded = omega arith;
    hit = inl (ground (arith, e));
    first = λ j q. ground arith;
  }
  | no ne ↦
      rw (ne→== (m s) 0 (head-CString v), ne→== (m s) c ne)
        (further ne (strchrnul_lem fuel m (s + 1) n c (tail-CString v) (omega arith)))
]
