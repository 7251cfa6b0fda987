-- ===== src/Legs/Validate/Correct.antt =====
-- `validateLegRequests` against the rules for a list of requests.
use when_i_off.Prelude.{
  ℕ, ◌+◌, ◌<◌, ◌≡◌, ◌≢◌, ◌↔◌, refl, sym, ◌∙◌, List, [], ◌∷◌, All, All-map, arith, append-eq_nil,
}
use when_i_off.Prelude.Sort.{sort}
use when_i_off.Legs.{RouteLegRequest}
use when_i_off.Legs.Validate.{
  field_errors, flat_errors, kind_errors, request_le, ordered_errors, validate_leg_requests,
}
use when_i_off.Legs.Validate.Ids.{repeated-id_set}
use when_i_off.Legs.Validate.Rules.{
  HasOrder, HasFields, Numbered, HasKind, ids_of, IsValid, flat_errors_iff, field_errors_iff,
  some_gap_iff, ends_not_walk_iff, neighbour_errors_iff, kind_errors_iff, error_if_iff,
}

Numbered→HasOrder : (k : ℕ) (rs : List RouteLegRequest) → 0 < k → Numbered k rs → All HasOrder rs
Numbered→HasOrder k [] h n = tt
Numbered→HasOrder k (r ∷ rs) h (p, n) = ((k, p, h), Numbered→HasOrder (k + 1) rs (omega arith) n)

All-zip :
    (rs : List RouteLegRequest)
    → All HasOrder rs
    → All HasFields rs
    → All (λ r. field_errors r ≡ []) rs
All-zip [] h k = tt
All-zip (r ∷ rs) (p, h) (q, k) = ((field_errors_iff r).1 (p, q), All-zip rs h k)

kinds_iff :
    (rs : List RouteLegRequest)
    → (flat_errors kind_errors rs ≡ []) ↔ All (λ r. HasKind r.leg_type r) rs
unfolding kind_errors
kinds_iff rs =
    let (to, from) = flat_errors_iff kind_errors rs in
    (
      λ h. All-map _ _ rs (λ r. (kind_errors_iff r.leg_type r).0) (to h),
      λ h. from (All-map _ _ rs (λ r. (kind_errors_iff r.leg_type r).1) h),
    )

ordered_errors→ : (rs : List RouteLegRequest) → ordered_errors rs ≡ [] → IsValid rs
unfolding ordered_errors
ordered_errors→ rs h =
    let (fields, h1) = append-eq_nil _ _ h in
    let (gap, h2) = append-eq_nil _ _ h1 in
    let (walks, h3) = append-eq_nil _ _ h2 in
    let (types, h4) = append-eq_nil _ _ h3 in
    let (twice, kinds) = append-eq_nil _ _ h4 in
    let walk_ends = (ends_not_walk_iff rs).0 ((error_if_iff _ _).0 walks) in
    record {
      fields =
          All-map _ _ rs (λ r e. ((field_errors_iff r).0 e).1)
            ((flat_errors_iff field_errors rs).0 fields);
      numbered = (some_gap_iff 0 rs).0 ((error_if_iff _ _).0 gap);
      starts = walk_ends.0;
      ends = walk_ends.1;
      alternates = (neighbour_errors_iff rs).0 types;
      ids = (repeated-id_set (ids_of rs)).0 twice;
      kinds = (kinds_iff rs).0 kinds;
    }

ordered_errors← : (rs : List RouteLegRequest) → IsValid rs → ordered_errors rs ≡ []
unfolding ordered_errors
ordered_errors← rs v = rw (
  (flat_errors_iff field_errors rs).1
      (All-zip rs (Numbered→HasOrder 1 rs (omega arith) v.numbered) v.fields),
  (some_gap_iff 0 rs).1 v.numbered,
  (ends_not_walk_iff rs).1 (v.starts, v.ends),
  (neighbour_errors_iff rs).1 v.alternates,
  (repeated-id_set (ids_of rs)).1 v.ids,
  (kinds_iff rs).1 v.kinds,
)

validate_lem :
    (r : RouteLegRequest) (rs : List RouteLegRequest)
    → validate_leg_requests (r ∷ rs) ≡ ordered_errors (sort request_le (r ∷ rs))
unfolding validate_leg_requests
validate_lem r rs = refl

-- `validateLegRequests` finds no problem in a list of legs if and only if it is not empty and, in the order of
-- its sequence numbers, it keeps these rules: coordinates, distances and times are in range, the numbers are 1,
-- 2, 3 and on, the first and the last leg are walks and no two neighbours are of one type, no id comes twice,
-- and each leg has just the fields of its type, a ride two different stops. The modes of the stops, which a
-- request does not hold, are not among them.
pub validate_leg_requests_iff :
    (requests : List RouteLegRequest)
    → (validate_leg_requests requests ≡ []) ↔ ((requests ≢ []) × IsValid (sort request_le requests))
validate_leg_requests_iff [] =
    (unfold validate_leg_requests in ((λ h. absurd (cc)), λ (h, _). absurd (h refl)))
validate_leg_requests_iff (r ∷ rs) = (
  λ h. ((λ e. (cc)), ordered_errors→ _ (sym (validate_lem r rs) ∙ h)),
  λ (_, v). validate_lem r rs ∙ ordered_errors← _ v,
)
