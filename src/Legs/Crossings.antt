-- ===== src/Legs/Crossings.antt =====
-- legRules.ts `toCrossingRequests` and `validateCrossingRequests`: the crossings of a walk.
use when_i_off.Prelude.{
  Str, codes, str_eq, ℕ, ◌+◌, ◌≤◌, ◌≡◌, ◌↔◌, refl, Bool, true, false, ◌||◌, not, List, [], ◌∷◌,
  ◌++◌, map, if◌then◌else◌, any, All, arith,
}
use when_i_off.Prelude.Sort.{sort, IsSorted, sort-of_IsSorted}
use when_i_off.Prelude.Number.{Number, of_ℕ, num_lt, num_lt-of_ℕ, num_eq-IsNat}
use when_i_off.Legs.Validate.{num_eq}

pub record CrossingDraft : Type 0 where
  pub traffic_signal_id : ℕ
  pub approach_dir : Str
  pub signal_kind : Str

pub record SignalCrossingRequest : Type 0 where
  pub traffic_signal_id : ℕ
  pub approach_dir : Str
  pub signal_kind : Str
  pub seq_order : Number

abbrev pub approach_dirs : List Str
approach_dirs =
    codes "nt"
    ∷ codes "et"
    ∷ codes "st"
    ∷ codes "wt"
    ∷ codes "ne"
    ∷ codes "se"
    ∷ codes "sw"
    ∷ codes "nw"
    ∷ []

abbrev pub signal_kinds : List Str
signal_kinds = codes "Bs" ∷ codes "Bc" ∷ codes "Lt" ∷ codes "Pd" ∷ codes "St" ∷ codes "Ut" ∷ []

abbrev pub crossing_of : ℕ → CrossingDraft → SignalCrossingRequest
crossing_of i d = record {
  traffic_signal_id = d.traffic_signal_id;
  approach_dir = d.approach_dir;
  signal_kind = d.signal_kind;
  seq_order = of_ℕ (i + 1);
}

pub crossings_from : ℕ → List CrossingDraft → List SignalCrossingRequest
crossings_from i [] = []
crossings_from i (d ∷ ds) = crossing_of i d ∷ crossings_from (i + 1) ds

unfoldable pub to_crossing_requests : List CrossingDraft → List SignalCrossingRequest
unfolding crossings_from
to_crossing_requests drafts = crossings_from 0 drafts

pub data CrossingError : Type 0 where
  not_contiguous : List Number → CrossingError
  bad_direction bad_kind : Number → CrossingError

-- `list.includes(s)`
pub includes : List Str → Str → Bool
includes list s = any (λ x. str_eq x s) list

pub gap : ℕ → List SignalCrossingRequest → Bool
gap i [] = false
gap i (r ∷ rs) = not (num_eq r.seq_order (of_ℕ (i + 1))) || gap (i + 1) rs

pub crossing_errors : List SignalCrossingRequest → List CrossingError
crossing_errors [] = []
crossing_errors (r ∷ rs) =
    (if includes approach_dirs r.approach_dir then [] else bad_direction r.seq_order ∷ [])
    ++ ((if includes signal_kinds r.signal_kind then [] else bad_kind r.seq_order ∷ [])
        ++ crossing_errors rs)

abbrev pub request_le : SignalCrossingRequest → SignalCrossingRequest → Bool
request_le a b = not (num_lt b.seq_order a.seq_order)

pub ordered_errors : List SignalCrossingRequest → List CrossingError
unfolding gap crossing_errors includes
ordered_errors ordered =
    (if gap 0 ordered
      then not_contiguous (map (λ (r : SignalCrossingRequest). r.seq_order) ordered) ∷ []
      else [])
    ++ crossing_errors ordered

unfoldable pub validate_crossing_requests : List SignalCrossingRequest → List CrossingError
unfolding ordered_errors sort
validate_crossing_requests requests = ordered_errors (sort request_le requests)

-- What a crossing must name: one of the listed directions and kinds.
abbrev pub IsCrossing : CrossingDraft → Type 0
IsCrossing d =
    (includes approach_dirs d.approach_dir ≡ true) × (includes signal_kinds d.signal_kind ≡ true)

later :
    (i j : ℕ) (r : SignalCrossingRequest) (ds : List CrossingDraft)
    → r.seq_order ≡ of_ℕ (i + 1)
    → i ≤ j
    → All (λ q. request_le r q ≡ true) (crossings_from j ds)
unfolding crossings_from
later i j r [] e h = tt
later i j r (d ∷ ds) e h =
    (rw (e, num_lt-of_ℕ (i + 1) (j + 1) (omega arith)), later i (j + 1) r ds e (omega arith))

crossings-IsSorted : (i : ℕ) (ds : List CrossingDraft) → IsSorted request_le (crossings_from i ds)
unfolding crossings_from
crossings-IsSorted i [] = tt
crossings-IsSorted i (d ∷ ds) =
    (later i (i + 1) (crossing_of i d) ds refl (omega arith), crossings-IsSorted (i + 1) ds)

crossings-gap : (i : ℕ) (ds : List CrossingDraft) → gap i (crossings_from i ds) ≡ false
unfolding crossings_from gap
crossings-gap i [] = refl
crossings-gap i (d ∷ ds) =
    rw ((num_eq-IsNat (of_ℕ (i + 1)) (i + 1)).1 (omega arith)) (crossings-gap (i + 1) ds)

crossing_errors_iff :
    (i : ℕ) (ds : List CrossingDraft)
    → (crossing_errors (crossings_from i ds) ≡ []) ↔ All IsCrossing ds
unfolding crossings_from crossing_errors
crossing_errors_iff i [] = ((λ _. tt), (λ _. refl))
crossing_errors_iff i (d ∷ ds) = ground (arith, crossing_errors_iff (i + 1) ds)

validate_lem :
    (requests : List SignalCrossingRequest)
    → validate_crossing_requests requests ≡ ordered_errors (sort request_le requests)
unfolding validate_crossing_requests
validate_lem requests = refl

-- The requests of drafts are without a problem if and only if every draft names a listed direction and
-- kind: the numbers never are the problem.
pub validate_crossing_requests-drafts :
    (drafts : List CrossingDraft)
    → (validate_crossing_requests (to_crossing_requests drafts) ≡ []) ↔ All IsCrossing drafts
unfolding to_crossing_requests ordered_errors
validate_crossing_requests-drafts drafts =
    rw
      (
        validate_lem,
        sort-of_IsSorted request_le _ (crossings-IsSorted 0 drafts),
        crossings-gap 0 drafts,
      )
      (crossing_errors_iff 0 drafts)
