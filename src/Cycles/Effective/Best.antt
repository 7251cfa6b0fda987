-- ===== src/Cycles/Effective/Best.antt =====
-- The row that is in force: its source has the highest priority among the rows that hold the time, and
-- among those of that source it starts first.
use when_i_off.Prelude.{
  Str, ℕ, ◌≡◌, refl, Bool, true, false, ◌&&◌, ◌||◌, not, List, [], ◌∷◌, Option, none, some,
  if◌then◌else◌, leb, ltb, ◌==◌, filter, filter-All, All, Bool-cases, Option-cases, inl, inr, arith,
}
use when_i_off.Prelude.Sort.{
  sort, insert, IsSorted, sort-IsSorted, All-of_sort, sort-All, sort-perm,
}
use when_i_off.Prelude.Selection.{All-of_filter, filter-Pairs, mem-of_filter, filter-nil}
use when_i_off.Api.{DayType, day_eq_iff}
use mathlib.Core.List.{Mem, mem-cons_self}
use mathlib.Core.List.Perm
use when_i_off.Cycles.{TrafficSignalCycle, priority, seconds_of_day}
use when_i_off.Cycles.Effective.{
  or_zero, cycle_le, sort_cycles, contains, by_source, head?, cycle_of, effective_hit,
  effective_cycle,
}

abbrev start_of : TrafficSignalCycle → ℕ
start_of r = or_zero (seconds_of_day r.time_band_start)

-- `a` is chosen over `b`
abbrev pub better : TrafficSignalCycle → TrafficSignalCycle → Bool
better a b =
    ltb (priority a.source) (priority b.source)
    || ((priority a.source == priority b.source) && leb (start_of a) (start_of b))

insert-head :
    (x : TrafficSignalCycle) (ys : List TrafficSignalCycle)
    → head? (insert by_source x ys)
      ≡ elim (head? ys) [ none ↦ some x | some y ↦ if by_source x y then some x else some y ]
unfolding insert
insert-head x [] = refl
insert-head x (y ∷ ys) = ground arith

-- what the head of a sorted list is, where the list was in order of start
abbrev IsFirst : Option TrafficSignalCycle → List TrafficSignalCycle → Type 0
IsFirst none rs = rs ≡ []
IsFirst (some h) rs = All (λ r. better h r ≡ true) rs

abbrev in_order : TrafficSignalCycle → TrafficSignalCycle → Bool
in_order a b = leb (start_of a) (start_of b)

-- earlier starts and a source as good as the head's
better_than_rest :
    (x h : TrafficSignalCycle) (rs : List TrafficSignalCycle)
    → by_source x h ≡ true
    → All (λ r. in_order x r ≡ true) rs
    → All (λ r. better h r ≡ true) rs
    → All (λ r. better x r ≡ true) rs
better_than_rest x h [] e s b = tt
better_than_rest x h (r ∷ rs) e (s, ss) (b, bs) = (ground arith, better_than_rest x h rs e ss bs)

IsFirst-step :
    (x : TrafficSignalCycle) (o : Option TrafficSignalCycle) (rs : List TrafficSignalCycle)
    → All (λ r. in_order x r ≡ true) rs
    → IsFirst o rs
    → IsFirst
        (elim o [ none ↦ some x | some y ↦ if by_source x y then some x else some y ])
        (x ∷ rs)
IsFirst-step x none rs s b = rw b (ground arith, tt)
IsFirst-step x (some h) rs s b = elim (Bool-cases (by_source x h)) [
  | inl e ↦ rw e (ground arith, better_than_rest x h rs e s b)
  | inr e ↦ rw e (ground arith, b)
]

sort-IsFirst :
    (rs : List TrafficSignalCycle) → IsSorted in_order rs → IsFirst (head? (sort by_source rs)) rs
unfolding sort
sort-IsFirst [] s = refl
sort-IsFirst (x ∷ rs) (s, ss) =
    rw (insert-head x (sort by_source rs))
      (IsFirst-step x (head? (sort by_source rs)) rs s (sort-IsFirst rs ss))

cycle_le_total : (x y : TrafficSignalCycle) → cycle_le x y ≡ false → cycle_le y x ≡ true
cycle_le_total x y h = ground arith

cycle_le_trans :
    (x y z : TrafficSignalCycle) → cycle_le x y ≡ true → cycle_le y z ≡ true → cycle_le x z ≡ true
cycle_le_trans x y z h k = ground arith

-- rows of one day type in the order of `sortCycles` are in order of start
of_one_day :
    (day : DayType) (at : Option ℕ) (rs : List TrafficSignalCycle)
    → All (λ r. contains day at r ≡ true) rs
    → IsSorted cycle_le rs
    → IsSorted in_order rs
of_one_day day at [] c s = tt
of_one_day day at (r ∷ rs) (p, c) (q, s) = (after rs c q, of_one_day day at rs c s)
  where
    after :
        (qs : List TrafficSignalCycle)
        → All (λ r. contains day at r ≡ true) qs
        → All (λ y. cycle_le r y ≡ true) qs
        → All (λ y. in_order r y ≡ true) qs
    after [] c q = tt
    after (y ∷ qs) (own, c) (le, q) =
        (ground (arith, day_eq_iff r.day_type day, day_eq_iff y.day_type day), after qs c q)

head-Mem : (h : TrafficSignalCycle) (rs : List TrafficSignalCycle) → head? rs ≡ some h → Mem h rs
head-Mem h [] e = absurd (cc)
head-Mem h (r ∷ rs) e = let same : r ≡ h = ground arith in rw (← same) mem-cons_self

head-All :
    (P : TrafficSignalCycle → Type 0) (h : TrafficSignalCycle) (rs : List TrafficSignalCycle)
    → head? rs ≡ some h
    → All P rs
    → P h
head-All P h [] e b = absurd (cc)
head-All P h (r ∷ rs) e (p, b) = let same : r ≡ h = ground arith in rw (← same) p

-- What the row in force is: one of the rows, that holds the time, and better than every row that does;
-- and if there is none, no row holds the time.
abbrev pub IsBest :
    DayType → Option ℕ → List TrafficSignalCycle → Option TrafficSignalCycle → Type 0
IsBest day at rows (some h) =
    Mem h rows
    × (contains day at h ≡ true)
    × All (λ r. (not (contains day at r) || better h r) ≡ true) rows
IsBest day at rows none = All (λ r. contains day at r ≡ false) rows

hit-IsBest :
    (rows : List TrafficSignalCycle) (day : DayType) (at : Option ℕ)
    → IsBest day at rows (effective_hit rows day at)
unfolding effective_hit sort_cycles
hit-IsBest rows day at = elim (Option-cases (head? (sort by_source candidates))) [
  | inl e ↦ rw e (none_holds (rw e at first))
  | inr (h, e) ↦ rw e (chosen h e (rw e at first))
]
  where
    candidates : List TrafficSignalCycle
    candidates = filter (contains day at) (sort cycle_le rows)

    first : IsFirst (head? (sort by_source candidates)) candidates
    first = sort-IsFirst candidates (
        of_one_day day at candidates (filter-All (contains day at) (sort cycle_le rows)) (
          filter-Pairs _ (contains day at) (sort cycle_le rows)
            (sort-IsSorted cycle_le cycle_le_total cycle_le_trans rows)))

    none_holds : candidates ≡ [] → All (λ r. contains day at r ≡ false) rows
    none_holds e =
        All-of_sort cycle_le (λ r. contains day at r ≡ false) rows
          (filter-nil (contains day at) (sort cycle_le rows) e)

    chosen :
        (h : TrafficSignalCycle)
        → head? (sort by_source candidates) ≡ some h
        → All (λ r. better h r ≡ true) candidates
        → IsBest day at rows (some h)
    chosen h e b =
        let inside = (Perm.mem_iff (sort-perm by_source candidates)).0 (head-Mem h _ e) in
        let holds_it =
          head-All (λ r. contains day at r ≡ true) h _ e
            (sort-All by_source (λ r. contains day at r ≡ true) candidates
              (filter-All (contains day at) (sort cycle_le rows))) in
        (
          (Perm.mem_iff (sort-perm cycle_le rows)).0 (mem-of_filter (contains day at) _ inside),
          holds_it,
          All-of_sort cycle_le _ rows (All-of_filter (contains day at) (better h) _ b),
        )

-- The cycle in force is that of the best row that holds the time, and the default cycle, with no source,
-- if no row holds it.
pub effective_cycle-IsBest :
    (rows : List TrafficSignalCycle) (day : DayType) (time : Str)
    → (hit : Option TrafficSignalCycle) × IsBest day (seconds_of_day time) rows hit
      × (effective_cycle rows day time ≡ cycle_of hit)
unfolding effective_cycle
effective_cycle-IsBest rows day time =
    (effective_hit rows day (seconds_of_day time), hit-IsBest rows day (seconds_of_day time), refl)
