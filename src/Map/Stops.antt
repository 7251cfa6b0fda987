-- ===== src/Map/Stops.antt =====
-- The markers of stops on the map of a route.
use when_i_off.Prelude.{
  ◌+◌, ◌*◌, ◌≡◌, refl, Bool, true, false, List, [], ◌∷◌, ◌++◌, Option, none, some, count, length,
  arith,
}
use when_i_off.Prelude.Sort.{sort}
use when_i_off.Prelude.Number.{Number}
use when_i_off.Api.{LegType, walk, transit, TransitStop, RouteLeg}
use when_i_off.Legs.{LatLng, leg_le}
use when_i_off.Map.{
  MapLine, walk_line, transit_line, gps_line, walk_overlay, stops_overlay, leg_overlay,
  legs_overlay, route_overlay,
}

abbrev pub is_transit_line : MapLine → Bool
is_transit_line l = elim l.kind [ walk_line ↦ false | transit_line ↦ true | gps_line ↦ false ]

count-append {ℓ} :
    {A : Type ℓ} (p : A → Bool) (xs ys : List A) → count p (xs ++ ys) ≡ count p xs + count p ys
count-append p [] ys = omega arith
count-append p (x ∷ xs) ys = ground (arith, count-append p xs ys)

length-append {ℓ} : {A : Type ℓ} (xs ys : List A) → length (xs ++ ys) ≡ length xs + length ys
length-append [] ys = omega arith
length-append (x ∷ xs) ys = omega (arith, length-append xs ys)

walk_markers :
    (leg : RouteLeg) (a b c d : Option Number)
    → length (walk_overlay leg a b c d).markers
      ≡ 2 * count is_transit_line (walk_overlay leg a b c d).lines
walk_markers leg none b c d = refl
walk_markers leg (some a) none c d = refl
walk_markers leg (some a) (some b) none d = refl
walk_markers leg (some a) (some b) (some c) none = refl
walk_markers leg (some a) (some b) (some c) (some d) = refl

stops_markers :
    (leg : RouteLeg) (b a : Option TransitStop)
    → length (stops_overlay leg b a).markers
      ≡ 2 * count is_transit_line (stops_overlay leg b a).lines
unfolding stops_overlay
stops_markers leg none a = refl
stops_markers leg (some b) none = refl
stops_markers leg (some b) (some a) = refl

leg_markers :
    (t : LegType) (leg : RouteLeg)
    → length (leg_overlay t leg).markers ≡ 2 * count is_transit_line (leg_overlay t leg).lines
leg_markers walk leg = walk_markers leg leg.start_lat leg.start_lng leg.end_lat leg.end_lng
leg_markers transit leg = stops_markers leg leg.board_stop leg.alight_stop

legs_markers :
    (legs : List RouteLeg)
    → length (legs_overlay legs).markers ≡ 2 * count is_transit_line (legs_overlay legs).lines
unfolding legs_overlay
legs_markers [] = refl
legs_markers (leg ∷ legs) =
    let first = leg_overlay leg.leg_type leg in
    let rest = legs_overlay legs in
    omega (
      arith,
      length-append first.markers rest.markers,
      count-append is_transit_line first.lines rest.lines,
      leg_markers leg.leg_type leg,
      legs_markers legs,
    )

-- On the map of a route there are, besides its two ends, two markers of stops for each line of a transit leg.
pub route_overlay_markers :
    (from to : LatLng) (legs : List RouteLeg)
    → length (route_overlay from to legs).markers
      ≡ 2 + 2 * count is_transit_line (route_overlay from to legs).lines
unfolding route_overlay
route_overlay_markers from to legs = omega (arith, legs_markers (sort leg_le legs))
