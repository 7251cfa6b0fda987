-- ===== src/Target/Patch.antt =====
-- What a settings PATCH means: each field that it holds replaces the old one, and the draft results.
use when_i_off.Prelude.{
  Str, str_eq, str_eq_iff, ◌≡◌, refl, ◌∙◌, Bool, true, false, List, [], ◌∷◌, Option, none, some,
  if◌then◌else◌, arith, Bool-cases, inl, inr, sym,
}
use when_i_off.Prelude.JsText.{trim}
use when_i_off.Api.{DayType, day_eq_iff}
use when_i_off.Target.{
  CommuteRoute, RouteSettingsDraft, UpdateCommuteRouteRequest, settings_from_route, settings_body,
  settings_patch, sort_day_types, same_bool, same_days, is_there, has_keys,
}

abbrev pub or_old {ℓ} : {A : Type ℓ} → Option A → A → A
or_old none old = old
or_old (some new) old = new

-- The fields that the server leaves as they are are those that the request does not hold.
abbrev pub apply_body : UpdateCommuteRouteRequest → RouteSettingsDraft → RouteSettingsDraft
apply_body body old = record {
  name = or_old body.name old.name;
  is_active = or_old body.is_active old.is_active;
  time =
      if body.clear_default_target_arrival_time
      then []
      else or_old body.default_target_arrival_time old.time;
  days = or_old body.default_target_day_types old.days;
}

abbrev pub apply_patch : Option UpdateCommuteRouteRequest → RouteSettingsDraft → RouteSettingsDraft
apply_patch none old = old
apply_patch (some body) old = apply_body body old

-- the draft as it is sent: its name trimmed and its days in order
abbrev pub cleaned : RouteSettingsDraft → RouteSettingsDraft
cleaned draft = record draft { name = trim draft.name; days = sort_day_types draft.days }

same_days→eq : (cs ds : List DayType) → same_days cs ds ≡ true → cs ≡ ds
same_days→eq [] [] h = refl
same_days→eq [] (d ∷ ds) h = ground arith
same_days→eq (c ∷ cs) [] h = ground arith
same_days→eq (c ∷ cs) (d ∷ ds) h = ground (arith, same_days→eq cs ds, day_eq_iff c d)

same_bool→eq : (a b : Bool) → same_bool a b ≡ true → a ≡ b
same_bool→eq true b h = ground arith
same_bool→eq false b h = ground arith

name_kept : (old new : Str) → or_old (if str_eq new old then none else some new) old ≡ new
name_kept old new = ground (arith, str_eq_iff new old)

active_kept : (old new : Bool) → or_old (if same_bool new old then none else some new) old ≡ new
active_kept old new = ground (arith, same_bool→eq new old)

days_kept :
    (old new : List DayType) → or_old (if same_days new old then none else some new) old ≡ new
days_kept old new = ground (arith, same_days→eq new old)

time_kept :
    (old new : Str)
    → (if (if str_eq new old then false else str_eq new [])
        then []
        else or_old (if str_eq new old then none else if str_eq new [] then none else some new) old)
      ≡ new
time_kept old new = ground (arith, str_eq_iff new old, str_eq_iff new [])

apply-settings_body :
    (before draft : RouteSettingsDraft)
    → apply_body (settings_body before draft) before ≡ cleaned draft
unfolding settings_body
apply-settings_body before draft =
    rw
      (
        name_kept before.name (trim draft.name),
        active_kept before.is_active draft.is_active,
        time_kept before.time draft.time,
        days_kept before.days (sort_day_types draft.days),
      )
      refl

not_there {ℓ} : {A : Type ℓ} (o : Option A) (old : A) → is_there o ≡ false → or_old o old ≡ old
not_there none old h = refl
not_there (some new) old h = ground arith

no_keys :
    (body : UpdateCommuteRouteRequest) (old : RouteSettingsDraft)
    → has_keys body ≡ false
    → apply_body body old ≡ old
no_keys body old h =
    let clear : body.clear_default_target_arrival_time ≡ false = ground arith in
    rw
      (
        not_there body.name old.name (ground arith),
        not_there body.is_active old.is_active (ground arith),
        clear,
        not_there body.default_target_arrival_time old.time (ground arith),
        not_there body.default_target_day_types old.days (ground arith),
      )
      refl

-- The settings with the patch applied are the draft, its name trimmed and its days in order; and no patch
-- is sent only if they were so before.
pub settings_patch-apply_patch :
    (route : CommuteRoute) (draft : RouteSettingsDraft)
    → apply_patch (settings_patch route draft) (settings_from_route route) ≡ cleaned draft
unfolding settings_patch
settings_patch-apply_patch route draft =
    let before = settings_from_route route in
    elim (Bool-cases (has_keys (settings_body before draft))) [
      | inl e ↦ rw e (apply-settings_body before draft)
      | inr e ↦
          rw e
            (sym (no_keys (settings_body before draft) before e) ∙ apply-settings_body before draft)
    ]
