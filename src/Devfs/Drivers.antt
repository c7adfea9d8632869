-- ===== src/Devfs/Drivers.antt =====
-- Registering drivers and finding them again.
use desiros.Base.{
  ℕ, ◌≡◌, ◌≢◌, eq→==, refl, sym, ap, ◌∙◌, Bool, true, false, Bool-cases, inl, inr, List, [], ◌∷◌,
  ◌++◌, none, some, arith,
}
use desiros.Vfs.{Name, same_name}
use desiros.Devfs.{DriverEntry, DeviceType, find_driver, register_driver}

abbrev pub AllUsed : List DriverEntry → Type 0
AllUsed [] = Unit {0}
AllUsed (d ∷ drivers) = (d.used ≡ true) × AllUsed drivers

-- The driver is registered in the first free entry and no other entry changes: its name is found, with
-- what was registered, and every other name as before. Or there is no free entry, and nothing changes.
pub data Registered (t : DeviceType) (drivers : List DriverEntry) (name : Name) (di dev_id : ℕ)
    : Bool × List DriverEntry → Type 0 where
  registered :
      (before rest after : List DriverEntry) (free : DriverEntry)
      → drivers ≡ before ++ free ∷ rest
      → AllUsed before
      → free.used ≡ false
      → after
        ≡ before
          ++ record { used = true; name = name; device_type = t; di = di; dev_id = dev_id } ∷ rest
      → find_driver after name
        ≡ some (record { used = true; name = name; device_type = t; di = di; dev_id = dev_id })
      → ((n : Name) → same_name name n ≡ false → find_driver after n ≡ find_driver drivers n)
      → Registered t drivers name di dev_id (true, after)
  table_full : AllUsed drivers → Registered t drivers name di dev_id (false, drivers)

some-ne-none : (d : DriverEntry) → some d ≢ none
some-ne-none d e = ground (arith, e)

find_here :
    (d : DriverEntry) (drivers : List DriverEntry) (name : Name)
    → d.used ≡ true
    → same_name d.name name ≡ true
    → find_driver (d ∷ drivers) name ≡ some d
unfolding find_driver
find_here d drivers name u e = rw (u, e) refl

find_behind :
    (d : DriverEntry) (drivers : List DriverEntry) (name : Name)
    → find_driver (d ∷ drivers) name ≡ none
    → find_driver drivers name ≡ none
unfolding find_driver
find_behind d drivers name f = elim (Bool-cases d.used) [
  | inr u ↦ sym (rw u refl) ∙ f
  | inl u ↦ elim (Bool-cases (same_name d.name name)) [
    | inr e ↦ sym (rw (u, e) refl) ∙ f
    | inl e ↦ absurd (some-ne-none d (sym (find_here d drivers name u e) ∙ f))
  ]
]

same_name_self : (name : Name) → same_name name name ≡ true
unfolding same_name
same_name_self [] = refl
same_name_self (x ∷ xs) = rw (eq→== x x refl, same_name_self xs) refl

one_behind :
    (t : DeviceType) (d : DriverEntry) (drivers : List DriverEntry) (name : Name) (di dev_id : ℕ)
    (out : Bool × List DriverEntry)
    → d.used ≡ true
    → find_driver (d ∷ drivers) name ≡ none
    → Registered t drivers name di dev_id out
    → Registered t (d ∷ drivers) name di dev_id (out.0, d ∷ out.1)
unfolding find_driver
one_behind t d drivers name di dev_id _ u f
      (registered before rest after free was used not_used is found others) =
    registered (d ∷ before) rest (d ∷ after) free (ap (◌∷◌ d) was) (u, used) not_used
      (ap (◌∷◌ d) is)
      (elim (Bool-cases (same_name d.name name)) [
        | inl e ↦ absurd (some-ne-none d (sym (find_here d drivers name u e) ∙ f))
        | inr e ↦ rw (u, e) found
      ])
      (λ n ne. rw (u, others n ne) refl)
one_behind t d drivers name di dev_id _ u f (table_full a) = table_full (u, a)

new_here :
    (t : DeviceType) (d : DriverEntry) (drivers : List DriverEntry) (name : Name) (di dev_id : ℕ)
    → d.used ≡ false
    → Registered t (d ∷ drivers) name di dev_id (
      true,
      record { used = true; name = name; device_type = t; di = di; dev_id = dev_id } ∷ drivers,
    )
unfolding find_driver
new_here t d drivers name di dev_id u =
    let new : DriverEntry = record {
      used = true;
      name = name;
      device_type = t;
      di = di;
      dev_id = dev_id;
    } in
    registered [] drivers (new ∷ drivers) d refl tt u refl
      (find_here new drivers name refl (same_name_self name)) (λ n ne. rw (ne, u) refl)

-- Registering a driver whose name is not in the table takes its first free entry, and leaves all
-- others: the name is found with what was registered, and every other name as before. Only when every entry is in use it fails,
-- and changes nothing.
pub register_driver_lem :
    (t : DeviceType) (drivers : List DriverEntry) (name : Name) (di dev_id : ℕ)
    → find_driver drivers name ≡ none
    → Registered t drivers name di dev_id (register_driver t drivers name di dev_id)
unfolding register_driver
register_driver_lem t [] name di dev_id f = table_full tt
register_driver_lem t (d ∷ drivers) name di dev_id f = elim (Bool-cases d.used) [
  | inl u ↦
      simp (register_driver, u)
        (one_behind t d drivers name di dev_id (register_driver t drivers name di dev_id) u f
          (register_driver_lem t drivers name di dev_id (find_behind d drivers name f)))
  | inr u ↦ simp (register_driver, u) (new_here t d drivers name di dev_id u)
]
