-- ===== src/Blockdev/Registry.antt =====
-- The list of registered devices: what a lookup finds, and what a new device and a count change.
use desiros.Base.{
  ℕ, ◌≡◌, refl, sym, ap, ◌∙◌, ◌≢◌, ◌⊎◌, inl, inr, true, false, arith, Option, some, none, List, [],
  ◌∷◌, ◌++◌, ◌∈◌, Distinct, Bool-cases, ◌==◌, if◌then◌else◌, Distinct-append, ne→==, has,
  has-append, ℕ_discrete,
}
use desiros.Blockdev.{
  BlockdevInstance, Registered, is_device, find_device, lookup_blockdev_instance, add_instance,
  use_instance,
}

-- The device at `p` is the one of a class and an instance number.
abbrev pub Identified : BlockdevInstance → ℕ → ℕ → Type 0
Identified b class inst = (b.device_class ≡ class) × (b.device_instance ≡ inst)

-- What a lookup in a list may return.
pub data LookedUp (h : ℕ → BlockdevInstance) (ps : List ℕ) (class inst : ℕ) (r : Option ℕ)
    : Type 0 where
  found : (p : ℕ) → r ≡ some p → p ∈ ps → Identified (h p) class inst → LookedUp h ps class inst r
  absent :
      r ≡ none
      → ((p : ℕ) → p ∈ ps → is_device (h p) class inst ≡ false)
      → LookedUp h ps class inst r

find_device_lem :
    (h : ℕ → BlockdevInstance) (ps : List ℕ) (class inst : ℕ)
    → LookedUp h ps class inst (find_device h ps class inst)
unfolding find_device
find_device_lem h [] class inst = absent refl (λ p m. ground arith)
find_device_lem h (p ∷ ps) class inst = elim (Bool-cases (is_device (h p) class inst)) [
  | inl e ↦ found p (rw e refl) (ground arith) (ground (arith, e))
  | inr e ↦ elim (find_device_lem h ps class inst) [
    | found q r m i ↦ found q (rw (e, r) refl) (ground (arith, m)) i
    | absent r f ↦
        absent (rw (e, r) refl)
          (λ q m. elim (ℕ_discrete q p) [ yes s ↦ rw s e | no n ↦ f q (ground arith) ])
  ]
]

find_device-append :
    (h : ℕ → BlockdevInstance) (ps : List ℕ) (p class inst : ℕ)
    → find_device h ps class inst ≡ none
    → find_device h (ps ++ p ∷ []) class inst
      ≡ (if is_device (h p) class inst then some p else none)
unfolding find_device
find_device-append h [] p class inst e = refl
find_device-append h (q ∷ ps) p class inst e = elim (Bool-cases (is_device (h q) class inst)) [
  | inl t ↦ ground (arith, t)
  | inr f ↦ rw f (find_device-append h ps p class inst (ground (arith, f)))
]

find_device-append_other :
    (h : ℕ → BlockdevInstance) (ps : List ℕ) (p class inst : ℕ)
    → is_device (h p) class inst ≡ false
    → find_device h (ps ++ p ∷ []) class inst ≡ find_device h ps class inst
unfolding find_device
find_device-append_other h [] p class inst e = rw e refl
find_device-append_other h (q ∷ ps) p class inst e =
    rw (find_device-append_other h ps p class inst e) refl

-- A lookup reads the identification of the listed devices only.
find_device-same :
    (h h1 : ℕ → BlockdevInstance) (ps : List ℕ) (class inst : ℕ)
    → ((p : ℕ) → p ∈ ps → is_device (h1 p) class inst ≡ is_device (h p) class inst)
    → find_device h1 ps class inst ≡ find_device h ps class inst
unfolding find_device
find_device-same h h1 [] class inst e = refl
find_device-same h h1 (p ∷ ps) class inst e =
    rw (e p (ground arith), find_device-same h h1 ps class inst (λ q m. e q (ground arith))) refl

-- No two listed devices have the same class and instance number, and none is listed twice.
pub record WellRegistered (s : Registered) : Type 0 where
  pub distinct : Distinct s.registered_blockdev_instances
  pub one_each :
      (p q : ℕ)
      → p ∈ s.registered_blockdev_instances
      → q ∈ s.registered_blockdev_instances
      → Identified
          (s.instance_at p)
          (s.instance_at q).device_class
          (s.instance_at q).device_instance
      → p ≡ q

-- Nothing but the new device is found in `t` that is not found in `s`.
pub record Added (s t : Registered) (class inst p : ℕ) : Type 0 where
  pub new : lookup_blockdev_instance t class inst ≡ some p
  pub others :
      (c i : ℕ)
      → (c ≢ class) ⊎ (i ≢ inst)
      → lookup_blockdev_instance t c i ≡ lookup_blockdev_instance s c i
  pub well : WellRegistered t

module _ {s : Registered} (w : WellRegistered s) (p : ℕ) (b : BlockdevInstance)
    (fresh : has p s.registered_blockdev_instances ≡ false) where
  heap : ℕ → BlockdevInstance
  heap = (add_instance s p b).instance_at

  old_place : (q : ℕ) → q ∈ s.registered_blockdev_instances → (q == p) ≡ false
  old_place q m =
      ne→== q p
        (λ e. let z : p ∈ s.registered_blockdev_instances = rw (← e) m in ground (arith, z, fresh))

  kept : (q : ℕ) → q ∈ s.registered_blockdev_instances → heap q ≡ s.instance_at q
  unfolding heap
  kept q m = rw (old_place q m) refl

  placed : heap p ≡ b
  unfolding heap
  placed = let same : (p == p) ≡ true = ground arith in rw same refl

  found_before :
      (c i : ℕ)
      → find_device heap s.registered_blockdev_instances c i
        ≡ find_device s.instance_at s.registered_blockdev_instances c i
  found_before c i =
      find_device-same s.instance_at heap s.registered_blockdev_instances c i
        (λ q m. rw (kept q m) refl)

  module _
      (none_yet : find_device s.instance_at s.registered_blockdev_instances b.device_class
          b.device_instance
        ≡ none) where
    nobody :
        (q : ℕ)
        → q ∈ s.registered_blockdev_instances
        → is_device (s.instance_at q) b.device_class b.device_instance ≡ false
    nobody q m =
        elim (find_device_lem s.instance_at s.registered_blockdev_instances b.device_class
          b.device_instance) [
            | found r e _ _ ↦ let z : none ≡ some r = sym none_yet ∙ e in ground (arith, z)
            | absent _ f ↦ f q m
          ]

    clash :
        (q r : ℕ)
        → q ∈ s.registered_blockdev_instances
        → r ≡ p
        → (heap q).device_class ≡ (heap r).device_class
        → (heap q).device_instance ≡ (heap r).device_instance
        → ◌≡◌ {A = ℕ} 0 1
    clash q r m e c i =
        let c' : (s.instance_at q).device_class ≡ b.device_class =
          ap (λ z. z.device_class) (sym (kept q m))
          ∙ c
          ∙ ap (λ z. (heap z).device_class) e
          ∙ ap (λ z. z.device_class) placed in
        let i' : (s.instance_at q).device_instance ≡ b.device_instance =
          ap (λ z. z.device_instance) (sym (kept q m))
          ∙ i
          ∙ ap (λ z. (heap z).device_instance) e
          ∙ ap (λ z. z.device_instance) placed in
        ground (arith, nobody q m, c', i')

    listed :
        (q : ℕ)
        → q ∈ s.registered_blockdev_instances ++ p ∷ []
        → (q ∈ s.registered_blockdev_instances) ⊎ (q ≡ p)
    listed q m = ground (arith, has-append q s.registered_blockdev_instances (p ∷ []))

    unique :
        (q r : ℕ)
        → q ∈ s.registered_blockdev_instances ++ p ∷ []
        → r ∈ s.registered_blockdev_instances ++ p ∷ []
        → Identified (heap q) (heap r).device_class (heap r).device_instance
        → q ≡ r
    unique q r mq mr i = elim (listed q mq) [
      | inl oq ↦ elim (listed r mr) [
        | inl or ↦ w.one_each q r oq or (rw (sym (kept q oq), sym (kept r or)) i)
        | inr er ↦ ground (arith, clash q r oq er i.0 i.1)
      ]
      | inr eq ↦ elim (listed r mr) [
        | inl or ↦ ground (arith, clash r q or eq (sym i.0) (sym i.1))
        | inr er ↦ eq ∙ sym er
      ]
    ]

    pub add_instance-Added : Added s (add_instance s p b) b.device_class b.device_instance p
    unfolding lookup_blockdev_instance heap
    add_instance-Added = record {
      new =
          find_device-append heap s.registered_blockdev_instances p b.device_class b.device_instance
            (found_before b.device_class b.device_instance ∙ none_yet)
          ∙ rw placed (ground arith);
      others = λ c i o.
          find_device-append_other heap s.registered_blockdev_instances p c i
            (rw placed (ground arith))
          ∙ found_before c i;
      well = record {
        distinct =
            Distinct-append s.registered_blockdev_instances (p ∷ []) w.distinct (ground arith)
              (λ a m. ground (arith, old_place a m));
        one_each = unique;
      };
    }

used-class :
    (s : Registered) (parent q : ℕ)
    → ((use_instance s parent).instance_at q).device_class ≡ (s.instance_at q).device_class
unfolding use_instance
used-class s parent q = elim (ℕ_discrete q parent) [
  | yes e ↦ let same : (parent == parent) ≡ true = ground arith in rw (e, same) refl
  | no n ↦ rw (ne→== q parent n) refl
]

used-instance :
    (s : Registered) (parent q : ℕ)
    → ((use_instance s parent).instance_at q).device_instance ≡ (s.instance_at q).device_instance
unfolding use_instance
used-instance s parent q = elim (ℕ_discrete q parent) [
  | yes e ↦ let same : (parent == parent) ≡ true = ground arith in rw (e, same) refl
  | no n ↦ rw (ne→== q parent n) refl
]

-- The counts are not what a lookup reads.
pub used-found :
    (s : Registered) (parent c i : ℕ)
    → lookup_blockdev_instance (use_instance s parent) c i ≡ lookup_blockdev_instance s c i
unfolding lookup_blockdev_instance use_instance
used-found s parent c i =
    find_device-same s.instance_at (use_instance s parent).instance_at
      s.registered_blockdev_instances c i
      (λ q m. rw (used-class s parent q, used-instance s parent q) refl)

pub used-WellRegistered :
    (s : Registered) (parent : ℕ) → WellRegistered s → WellRegistered (use_instance s parent)
unfolding use_instance
used-WellRegistered s parent w = record {
  distinct = w.distinct;
  one_each = λ p q mp mq i. w.one_each p q mp mq (
    sym (used-class s parent p) ∙ i.0 ∙ used-class s parent q,
    sym (used-instance s parent p) ∙ i.1 ∙ used-instance s parent q,
  );
}
