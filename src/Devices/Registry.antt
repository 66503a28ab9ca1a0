-- ===== src/Devices/Registry.antt =====
-- The devices as a map from numbers.
use neux_os.Prelude.{
  ℕ, ◌≡◌, ◌≢◌, refl, sym, ap, ◌∙◌, Bool, true, false, Bool-cases, Option-cases, ◌⊎◌, inl, inr, none,
  some, List, [], ◌∷◌, ◌++◌, ◌==◌, ==_ne, ==_refl, if◌then◌else◌, arith,
}
use neux_os.Devices.{Dev, error, value, eexist, dev_lookup, dev_add, unlink, dev_del}

-- No two devices have the same number or the same address.
abbrev pub AllApart : (dno self : ℕ) → List Dev → Type 0
AllApart dno self [] = Unit {0}
AllApart dno self (d ∷ ds) = ((d.dno ≢ dno) × (d.self ≢ self)) × AllApart dno self ds

abbrev pub IsRegistry : List Dev → Type 0
IsRegistry [] = Unit {0}
IsRegistry (d ∷ ds) = AllApart d.dno d.self ds × IsRegistry ds

dev_lookup-none : (dno self : ℕ) (ds : List Dev) → AllApart dno self ds → dev_lookup dno ds ≡ none
unfolding dev_lookup
dev_lookup-none dno self [] apart = refl
dev_lookup-none dno self (d ∷ ds) (here, more) =
    rw (==_ne d.dno dno here.0) (dev_lookup-none dno self ds more)

-- A list with a device at its end.
dev_lookup-append :
    (n : ℕ) (d : Dev) (ds : List Dev)
    → dev_lookup d.dno ds ≡ none
    → dev_lookup n (ds ++ d ∷ []) ≡ (if d.dno == n then some d else dev_lookup n ds)
unfolding dev_lookup
dev_lookup-append n d [] fresh = refl
dev_lookup-append n d (e ∷ ds) fresh = elim (Bool-cases (e.dno == d.dno)) [
  | inl same ↦ absurd (clash (e.dno == d.dno) same fresh)
  | inr other ↦
      let rest = dev_lookup-append n d ds (tail (e.dno == d.dno) other fresh) in
      elim (Bool-cases (e.dno == n)) [
        | inl here ↦
            let ne : (d.dno == n) ≡ false = ground (arith, other, here) in rw (here, ne) refl
        | inr ne ↦ rw ne rest
      ]
]
  where
    clash : (b : Bool) → b ≡ true → (if b then some e else dev_lookup d.dno ds) ≡ none → ⊥
    clash true h f = grind (arith, f)
    clash false h f = grind (arith, h)

    tail :
        (b : Bool)
        → b ≡ false
        → (if b then some e else dev_lookup d.dno ds) ≡ none
        → dev_lookup d.dno ds ≡ none
    tail true h f = absurd (grind (arith, h))
    tail false h f = f

unlink-append :
    (d : Dev) (ds : List Dev) → AllApart d.dno d.self ds → unlink d.self (ds ++ d ∷ []) ≡ ds
unfolding unlink
unlink-append d [] apart = rw (==_refl d.self) refl
unlink-append d (e ∷ ds) (here, more) =
    rw (==_ne e.self d.self here.1) (ap (λ r. e ∷ r) (unlink-append d ds more))

AllApart-append :
    (dno self : ℕ) (d : Dev) (ds : List Dev)
    → AllApart dno self ds
    → (d.dno ≢ dno) × (d.self ≢ self)
    → AllApart dno self (ds ++ d ∷ [])
AllApart-append dno self d [] apart new = (new, tt)
AllApart-append dno self d (e ∷ ds) (here, more) new =
    (here, AllApart-append dno self d ds more new)

IsRegistry-append :
    (d : Dev) (ds : List Dev) → IsRegistry ds → AllApart d.dno d.self ds → IsRegistry (ds ++ d ∷ [])
IsRegistry-append d [] registry apart = (tt, tt)
IsRegistry-append d (e ∷ ds) (first, registry) (here, more) = (
  AllApart-append e.dno e.self d ds first (λ h. here.0 (sym h), λ h. here.1 (sym h)),
  IsRegistry-append d ds registry more,
)

-- No device of the list has the address.
abbrev pub FreshAt : (self : ℕ) → List Dev → Type 0
FreshAt self [] = Unit {0}
FreshAt self (d ∷ ds) = (d.self ≢ self) × FreshAt self ds

FreshAt-apart :
    (dno self : ℕ) (ds : List Dev)
    → dev_lookup dno ds ≡ none
    → FreshAt self ds
    → AllApart dno self ds
unfolding dev_lookup
FreshAt-apart dno self [] missing fresh = tt
FreshAt-apart dno self (d ∷ ds) missing (here, more) = elim (Bool-cases (d.dno == dno)) [
  | inl same ↦ absurd (found (d.dno == dno) same missing)
  | inr other ↦ (
    ((λ e. ground (arith, e, other)), here),
    FreshAt-apart dno self ds (later (d.dno == dno) other missing) more,
  )
]
  where
    found : (b : Bool) → b ≡ true → (if b then some d else dev_lookup dno ds) ≡ none → ⊥
    found true h f = grind (arith, f)
    found false h f = grind (arith, h)

    later :
        (b : Bool)
        → b ≡ false
        → (if b then some d else dev_lookup dno ds) ≡ none
        → dev_lookup dno ds ≡ none
    later true h f = absurd (grind (arith, h))
    later false h f = f

-- In a list of devices with different numbers and addresses, for a device at an address that none of
-- them has: if one of them has its number, dev_add gives -EEXIST and changes nothing. Otherwise the
-- device is found under its number, every other number leads where it did, no two devices have the
-- same number or address, and dev_del of the number gives the device and the old list.
pub dev_add-dev_del :
    (d : Dev) (ds : List Dev)
    → IsRegistry ds
    → FreshAt d.self ds
    → ((e : Dev) × (dev_lookup d.dno ds ≡ some e) × (dev_add d ds ≡ (error eexist, ds)))
      ⊎ ((dev_lookup d.dno ds ≡ none)
          × (dev_add d ds ≡ (value 0, ds ++ d ∷ []))
          × IsRegistry (ds ++ d ∷ [])
          × ((n : ℕ)
              → dev_lookup n (ds ++ d ∷ []) ≡ (if d.dno == n then some d else dev_lookup n ds))
          × (dev_del d.dno (ds ++ d ∷ []) ≡ (some d, ds)))
unfolding dev_add dev_del
dev_add-dev_del d ds registry fresh = elim (Option-cases (dev_lookup d.dno ds)) [
  | inr (e, found) ↦ inl (e, found, rw (dev_add, found) refl)
  | inl missing ↦
      let apart = FreshAt-apart d.dno d.self ds missing fresh in
      let lookups = λ (n : ℕ). dev_lookup-append n d ds missing in
      let here : dev_lookup d.dno (ds ++ d ∷ []) ≡ some d =
        lookups d.dno ∙ rw (==_refl d.dno) refl in
      inr (
        missing,
        rw (dev_add, missing) refl,
        IsRegistry-append d ds registry apart,
        lookups,
        rw (dev_del, here) (ap (λ r. (some d, r)) (unlink-append d ds apart)),
      )
]
