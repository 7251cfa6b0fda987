-- ===== src/NextDepartures/Candidates.antt =====
-- The candidates: each once, and of directions just those of the rows that match.
use when_i_off.Prelude.{
  Str, str_eq, str_eq_iff, ℕ, ◌+◌, ◌<◌, ◌≤◌, ◌≡◌, ◌&&◌, ◌||◌, not, List, [], ◌∷◌, ◌++◌, Option,
  none, some, if◌then◌else◌, ltb, leb, ◌==◌, any, count, All, All-append, arith, Bool-cases,
  Option-cases, inl, inr,
}
use when_i_off.Prelude.Decimal.{decimal}
use when_i_off.Csv.Row.{ScheduleRow}
use when_i_off.NextDepartures.{
  KnownTransit, push_new, safe_id, add_stop, stops_of_rows, add_known, stops_of_line,
  stop_candidates, is_row_of, directions_from, direction_candidates,
}

-- Stops that can be offered: above 0 and each once.
abbrev pub AreStops : List ℕ → Type 0
AreStops ids = All (λ id. 0 < id) ids × ((k : ℕ) → count (λ j. j == k) ids ≤ 1)

count_push :
    (k : ℕ) (ids : List ℕ) (id : ℕ)
    → count (λ j. j == k) (ids ++ id ∷ []) ≡ count (λ j. j == k) ids + (if id == k then 1 else 0)
count_push k [] id = omega arith
count_push k (j ∷ ids) id = omega (arith, count_push k ids id)

count-any : (k : ℕ) (ids : List ℕ) → any (λ j. j == k) ids ≡ leb 1 (count (λ j. j == k) ids)
count-any k [] = ground arith
count-any k (j ∷ ids) = ground (arith, count-any k ids)

push_new-AreStops : (ids : List ℕ) (id : ℕ) → 0 < id → AreStops ids → AreStops (push_new ids id)
unfolding push_new
push_new-AreStops ids id h (p, q) = elim (Bool-cases (any (λ j. j == id) ids)) [
  | inl e ↦ rw e (p, q)
  | inr e ↦ rw e (
    All-append (λ j. 0 < j) ids (id ∷ []) p (h, tt),
    λ k. rw (count_push k ids id) (ground (arith, q k, count-any id ids)),
  )
]

safe_id-positive : (s : Str) (id : ℕ) → safe_id s ≡ some id → 0 < id
safe_id-positive [] id h = absurd (cc)
safe_id-positive (c ∷ s) id h = ground arith

add_stop-AreStops : (ids : List ℕ) (s : Str) → AreStops ids → AreStops (add_stop ids (safe_id s))
add_stop-AreStops ids s h = elim (Option-cases (safe_id s)) [
  | inl e ↦ rw e h
  | inr (id, e) ↦ rw e (push_new-AreStops ids id (safe_id-positive s id e) h)
]

stops_of_rows-AreStops :
    (line : ℕ) (ids : List ℕ) (rows : List ScheduleRow)
    → AreStops ids
    → AreStops (stops_of_rows line ids rows)
unfolding stops_of_rows
stops_of_rows-AreStops line ids [] h = h
stops_of_rows-AreStops line ids (r ∷ rows) h = elim (Bool-cases (str_eq r.line_id (decimal line))) [
  | inl e ↦ rw e (
      stops_of_rows-AreStops line (add_stop ids (safe_id r.stop_id)) rows
        (add_stop-AreStops ids r.stop_id h))
  | inr e ↦ rw e (stops_of_rows-AreStops line ids rows h)
]

add_known-AreStops : (ids known : List ℕ) → AreStops ids → AreStops (add_known ids known)
unfolding add_known
add_known-AreStops ids [] h = h
add_known-AreStops ids (id ∷ known) h = elim (Bool-cases (ltb 0 id)) [
  | inl e ↦
      rw e (add_known-AreStops (push_new ids id) known (push_new-AreStops ids id (ground arith) h))
  | inr e ↦ rw e (add_known-AreStops ids known h)
]

candidates-AreStops :
    (line : Option ℕ) (rows : List ScheduleRow) (known : KnownTransit)
    → AreStops (stop_candidates line rows known)
unfolding stop_candidates
candidates-AreStops none rows known = (tt, (λ k. omega arith))
candidates-AreStops (some line) rows known =
    add_known-AreStops (stops_of_rows line [] rows) (stops_of_line line known.stops_by_line)
      (stops_of_rows-AreStops line [] rows (tt, (λ k. omega arith)))

-- The candidates of stops are all above 0, and no stop is among them twice.
pub stop_candidates-distinct :
    (line : Option ℕ) (rows : List ScheduleRow) (known : KnownTransit) (k : ℕ)
    → All (λ id. 0 < id) (stop_candidates line rows known)
      × (count (λ j. j == k) (stop_candidates line rows known) ≤ 1)
stop_candidates-distinct line rows known k =
    let (positive, once) = candidates-AreStops line rows known in (positive, once k)

any-push :
    (d : Str) (out : List Str) (e : Str)
    → any (λ c. str_eq c d) (out ++ e ∷ []) ≡ (any (λ c. str_eq c d) out || str_eq e d)
any-push d [] e = ground arith
any-push d (c ∷ out) e = ground (arith, any-push d out e)

count-push_text :
    (d : Str) (out : List Str) (e : Str)
    → count (λ c. str_eq c d) (out ++ e ∷ [])
      ≡ count (λ c. str_eq c d) out + (if str_eq e d then 1 else 0)
count-push_text d [] e = omega arith
count-push_text d (c ∷ out) e = omega (arith, count-push_text d out e)

count-any_text :
    (d : Str) (out : List Str) → any (λ c. str_eq c d) out ≡ leb 1 (count (λ c. str_eq c d) out)
count-any_text d [] = ground arith
count-any_text d (c ∷ out) = ground (arith, count-any_text d out)

directions_from-any :
    (line : Option ℕ) (stop d : Str) (out : List Str) (rows : List ScheduleRow)
    → any (λ c. str_eq c d) (directions_from line stop out rows) ≡ (
        any (λ c. str_eq c d) out
        || any (λ r. is_row_of line stop r && str_eq r.direction_code d) rows)
unfolding directions_from
directions_from-any line stop d out [] = ground arith
directions_from-any line stop d out (r ∷ rows) =
    elim (Bool-cases (is_row_of line stop r && not (any (λ c. str_eq c r.direction_code) out))) [
      | inl e ↦
          rw
            (
              e,
              directions_from-any line stop d (out ++ r.direction_code ∷ []) rows,
              any-push d out r.direction_code,
            )
            (ground arith)
      | inr e ↦
          rw (e, directions_from-any line stop d out rows)
            (ground (arith, str_eq_iff r.direction_code d))
    ]

directions_from-once :
    (line : Option ℕ) (stop d : Str) (out : List Str) (rows : List ScheduleRow)
    → count (λ c. str_eq c d) out ≤ 1
    → count (λ c. str_eq c d) (directions_from line stop out rows) ≤ 1
unfolding directions_from
directions_from-once line stop d out [] h = h
directions_from-once line stop d out (r ∷ rows) h =
    elim (Bool-cases (is_row_of line stop r && not (any (λ c. str_eq c r.direction_code) out))) [
      | inl e ↦ rw e (
          directions_from-once line stop d (out ++ r.direction_code ∷ []) rows (
            rw (count-push_text d out r.direction_code)
              (ground (arith, str_eq_iff r.direction_code d, count-any_text d out))))
      | inr e ↦ rw e (directions_from-once line stop d out rows h)
    ]

-- A direction is a candidate exactly if a row of the line and the stop has it, and none is one twice.
pub direction_candidates-any :
    (line : Option ℕ) (stop : Str) (rows : List ScheduleRow) (d : Str)
    → (any (λ c. str_eq c d) (direction_candidates line stop rows)
        ≡ any (λ r. is_row_of line stop r && str_eq r.direction_code d) rows)
      × (count (λ c. str_eq c d) (direction_candidates line stop rows) ≤ 1)
unfolding direction_candidates
direction_candidates-any line stop rows d = (
  directions_from-any line stop d [] rows,
  directions_from-once line stop d [] rows (omega arith),
)
