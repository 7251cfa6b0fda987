-- ===== src/Trips.antt =====
-- desktop/src/trips: what its files share. A trip as the API gives it, the attempts of a trip by leg (a
-- `Map`, in the order in which its keys came), a `Set` of leg ids, and seconds between two times.
pub mod Timeline
pub mod Ticket
pub mod Corrections
use when_i_off.Prelude.{
  Str, ℕ, suc, ◌+◌, ◌-◌, ◌/◌, Bool, true, false, ◌≡◌, List, [], ◌∷◌, ◌++◌, Option, none, some,
  if◌then◌else◌, leb, ◌==◌,
}
use when_i_off.Prelude.Int.{ℤ, pos, negsuc, negate, ◌-ℤ◌}
use when_i_off.Prelude.Number.{Number, nan, ratio}
use when_i_off.Api.{AttemptResult, caught, missed, unknown, BoardingAttempt}

pub record CommuteTrip : Type 0 where
  pub left_home_at : Option Str
  pub arrived_destination_at : Option Str
  pub boarding_attempts : List BoardingAttempt

-- `!s` fails: there is a text and it is not empty
abbrev pub truthy : Option Str → Bool
truthy none = false
truthy (some []) = false
truthy (some (c ∷ s)) = true

-- `a.attemptSeq - b.attemptSeq` is not above 0
abbrev pub by_seq : BoardingAttempt → BoardingAttempt → Bool
by_seq a b = leb a.attempt_seq b.attempt_seq

abbrev pub is_caught : BoardingAttempt → Bool
is_caught a = elim a.result [ caught ↦ true | missed ↦ false | unknown ↦ false ]

abbrev pub is_missed : BoardingAttempt → Bool
is_missed a = elim a.result [ caught ↦ false | missed ↦ true | unknown ↦ false ]

-- `Math.round(ms / 1000)`: halves go up
abbrev pub round_seconds : ℤ → ℤ
round_seconds (pos n) = pos ((n + 500) / 1000)
round_seconds (negsuc n) = negate ((n + 500) / 1000)

-- `Math.round((Date.parse(a) - Date.parse(b)) / 1000)`, where `parse` is `Date.parse`, without a value
-- for NaN
unfoldable pub seconds_between : (Str → Option ℤ) → Str → Str → Number
seconds_between parse a b = elim (parse a) [
  | none ↦ nan
  | some x ↦ (elim (parse b) [ none ↦ nan | some y ↦ ratio (round_seconds (x -ℤ y)) 0 ])
]

-- the seconds if both times are there
unfoldable pub seconds_if : (Str → Option ℤ) → Option Str → Option Str → Option Number
unfolding seconds_between
seconds_if parse (some (c ∷ s)) (some (d ∷ t)) = some (seconds_between parse (c ∷ s) (d ∷ t))
seconds_if parse a b = none

-- An entry of `byLeg`.
pub record Entry : Type 0 where
  pub leg_id : ℕ
  pub attempts : List BoardingAttempt

-- `byLeg.set(a.routeLegId, [...(byLeg.get(a.routeLegId) ?? []), a])`
unfoldable pub add_attempt : List Entry → BoardingAttempt → List Entry
add_attempt [] a = record { leg_id = a.route_leg_id; attempts = a ∷ [] } ∷ []
add_attempt (e ∷ es) a =
    if e.leg_id == a.route_leg_id
    then record e { attempts = e.attempts ++ a ∷ [] } ∷ es
    else e ∷ add_attempt es a

unfoldable pub add_attempts : List Entry → List BoardingAttempt → List Entry
unfolding add_attempt
add_attempts es [] = es
add_attempts es (a ∷ attempts) = add_attempts (add_attempt es a) attempts

abbrev pub by_leg : List BoardingAttempt → List Entry
by_leg attempts = add_attempts [] attempts

-- `byLeg.get(id) ?? []`
unfoldable pub attempts_at : ℕ → List Entry → List BoardingAttempt
attempts_at id [] = []
attempts_at id (e ∷ es) = if e.leg_id == id then e.attempts else attempts_at id es

-- `set.add(id)`
unfoldable pub add_id : List ℕ → ℕ → List ℕ
add_id [] id = id ∷ []
add_id (j ∷ set) id = if j == id then j ∷ set else j ∷ add_id set id

unfoldable pub add_ids : List ℕ → List ℕ → List ℕ
unfolding add_id
add_ids set [] = set
add_ids set (id ∷ ids) = add_ids (add_id set id) ids
