-- ===== src/Recommendations/Slots.antt =====
-- history.ts `versionSlots`: which version has which colour in the charts.
use when_i_off.Prelude.{
  Str, str_eq, str_eq_iff, ℕ, ◌+◌, ◌%◌, ◌≤◌, ◌≡◌, subst, Bool, true, false, ◌&&◌, ◌||◌, List, [],
  ◌∷◌, Option, none, some, if◌then◌else◌, leb, ◌==◌, any, all, count, arith, Bool-cases, inl, inr,
}
use when_i_off.Prelude.Sort.{sort}
use when_i_off.Prelude.Decimal.{is_digit, number_of}

pub data SeriesSlot : Type 0 where
  series_1 series_2 series_3 other : SeriesSlot

abbrev pub slot_eq : SeriesSlot → SeriesSlot → Bool
slot_eq series_1 series_1 = true
slot_eq series_2 series_2 = true
slot_eq series_3 series_3 = true
slot_eq other other = true
slot_eq _ _ = false

-- A version `vN`, with its N.
pub record Numbered : Type 0 where
  pub version : Str
  pub number : ℕ

-- `/^v(\d+)$/i`
pub number_of_version : Str → Option ℕ
number_of_version (v ∷ d ∷ s) =
    if (v == b'v' || v == b'V') && all is_digit (d ∷ s) then some (number_of (d ∷ s)) else none
number_of_version s = none

pub numbered_of : Str → Option ℕ → List Numbered → List Numbered
numbered_of v none rest = rest
numbered_of v (some n) rest = record { version = v; number = n } ∷ rest

pub numbered : List Str → List Numbered
unfolding number_of_version numbered_of
numbered [] = []
numbered (v ∷ versions) = numbered_of v (number_of_version v) (numbered versions)

pub record SlotEntry : Type 0 where
  pub version : Str
  pub slot : SeriesSlot

-- `slots.set(v, slot)`
unfoldable pub set_slot : Str → SeriesSlot → List SlotEntry → List SlotEntry
set_slot v slot [] = record { version = v; slot = slot } ∷ []
set_slot v slot (e ∷ slots) =
    if str_eq e.version v then record e { slot = slot } ∷ slots else e ∷ set_slot v slot slots

-- `slots.has(v)`
abbrev pub has_slot : Str → List SlotEntry → Bool
has_slot v slots = any (λ (e : SlotEntry). str_eq e.version v) slots

abbrev pub wanted : ℕ → SeriesSlot
wanted n = if n % 2 == 1 then series_2 else series_3

pub take_slots : List SlotEntry → List SeriesSlot → List Numbered → List SlotEntry
take_slots slots taken [] = slots
take_slots slots taken (x ∷ xs) =
    let slot = wanted x.number in
    let folded = take_slots (set_slot x.version other slots) taken xs in
    let coloured = take_slots (set_slot x.version slot slots) (slot ∷ taken) xs in
    if any (λ s. slot_eq s slot) taken then folded else coloured

pub fill_slots : List SlotEntry → List Str → List SlotEntry
fill_slots slots [] = slots
fill_slots slots (v ∷ versions) =
    fill_slots (if has_slot v slots then slots else set_slot v other slots) versions

-- `Number(b.n) - Number(a.n)` is not above 0
abbrev pub by_number : Numbered → Numbered → Bool
by_number a b = leb b.number a.number

unfoldable pub version_slots : List Str → List SlotEntry
unfolding take_slots fill_slots set_slot numbered sort
version_slots versions = fill_slots (take_slots [] [] (sort by_number (numbered versions))) versions

abbrev pub one_if : Bool → ℕ
one_if b = if b then 1 else 0

-- how many versions have a slot
abbrev pub users : SeriesSlot → List SlotEntry → ℕ
users s slots = count (λ (e : SlotEntry). slot_eq e.slot s) slots

users-set_slot :
    (s slot : SeriesSlot) (v : Str) (slots : List SlotEntry)
    → users s (set_slot v slot slots) ≤ users s slots + one_if (slot_eq slot s)
unfolding set_slot
users-set_slot s slot v [] = omega arith
users-set_slot s slot v (e ∷ slots) = ground (arith, users-set_slot s slot v slots)

slot_eq→eq : (s t : SeriesSlot) → slot_eq s t ≡ true → s ≡ t
slot_eq→eq series_1 t h = ground arith
slot_eq→eq series_2 t h = ground arith
slot_eq→eq series_3 t h = ground arith
slot_eq→eq other t h = ground arith

next_coloured :
    (s slot : SeriesSlot) (v : Str) (slots : List SlotEntry) (taken : List SeriesSlot)
    → any (λ t. slot_eq t slot) taken ≡ false
    → users s slots ≤ one_if (any (λ t. slot_eq t s) taken)
    → users s (set_slot v slot slots) ≤ one_if (any (λ t. slot_eq t s) (slot ∷ taken))
next_coloured s slot v slots taken e h = elim (Bool-cases (slot_eq slot s)) [
  | inl w ↦
      let free = subst (λ t. any (λ u. slot_eq u t) taken ≡ false) (slot_eq→eq slot s w) e in
      ground (arith, users-set_slot s slot v slots)
  | inr w ↦ ground (arith, users-set_slot s slot v slots)
]

users-take_slots :
    (s : SeriesSlot) (slots : List SlotEntry) (taken : List SeriesSlot) (xs : List Numbered)
    → slot_eq other s ≡ false
    → users s slots ≤ one_if (any (λ t. slot_eq t s) taken)
    → users s (take_slots slots taken xs) ≤ 1
unfolding take_slots
users-take_slots s slots taken [] o h = ground arith
users-take_slots s slots taken (x ∷ xs) o h =
    elim (Bool-cases (any (λ t. slot_eq t (wanted x.number)) taken)) [
      | inl e ↦ rw e (
          users-take_slots s (set_slot x.version other slots) taken xs o
            (let more = rw o at (users-set_slot s other x.version slots) in omega (arith, more, h)))
      | inr e ↦ rw e (
          users-take_slots s (set_slot x.version (wanted x.number) slots) (wanted x.number ∷ taken)
            xs o (next_coloured s (wanted x.number) x.version slots taken e h))
    ]

users-fill_slots :
    (s : SeriesSlot) (slots : List SlotEntry) (versions : List Str)
    → slot_eq other s ≡ false
    → users s (fill_slots slots versions) ≤ users s slots
unfolding fill_slots
users-fill_slots s slots [] o = omega arith
users-fill_slots s slots (v ∷ versions) o = elim (Bool-cases (has_slot v slots)) [
  | inl e ↦ rw e (users-fill_slots s slots versions o)
  | inr e ↦ rw e (
      let more = rw o at (users-set_slot s other v slots) in
      omega (arith, users-fill_slots s (set_slot v other slots) versions o, more))
]

has-set_slot :
    (w v : Str) (slot : SeriesSlot) (slots : List SlotEntry)
    → has_slot w (set_slot v slot slots) ≡ (str_eq v w || has_slot w slots)
unfolding set_slot
has-set_slot w v slot [] = ground arith
has-set_slot w v slot (e ∷ slots) =
    ground (arith, has-set_slot w v slot slots, str_eq_iff e.version v)

has-fill_slots :
    (w : Str) (slots : List SlotEntry) (versions : List Str)
    → (has_slot w slots || any (λ v. str_eq v w) versions) ≡ true
    → has_slot w (fill_slots slots versions) ≡ true
unfolding fill_slots
has-fill_slots w slots [] h = ground arith
has-fill_slots w slots (v ∷ versions) h = elim (Bool-cases (has_slot v slots)) [
  | inl e ↦ rw e (has-fill_slots w slots versions (ground (arith, str_eq_iff v w)))
  | inr e ↦ rw e (
      has-fill_slots w (set_slot v other slots) versions
        (rw (has-set_slot w v other slots) (ground arith)))
]

-- Every version of the charts has a slot, and a slot other than the grey one is that of one version at
-- most.
pub version_slots-users :
    (versions : List Str) (s : SeriesSlot) (w : Str)
    → slot_eq other s ≡ false
    → any (λ v. str_eq v w) versions ≡ true
    → (users s (version_slots versions) ≤ 1) × (has_slot w (version_slots versions) ≡ true)
unfolding version_slots
version_slots-users versions s w o here =
    let coloured = take_slots [] [] (sort by_number (numbered versions)) in
    (
      omega (
        arith,
        users-fill_slots s coloured versions o,
        users-take_slots s [] [] (sort by_number (numbered versions)) o (omega arith),
      ),
      has-fill_slots w coloured versions (ground arith),
    )
