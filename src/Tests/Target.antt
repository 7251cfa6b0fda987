-- ===== src/Tests/Target.antt =====
-- A route's settings, edited.
use when_i_off.Prelude.{codes, ◌≡◌, refl, true, false, [], ◌∷◌, none, some}
use when_i_off.Prelude.Text.{str_eq}
use when_i_off.Prelude.JsText.{trim}
use when_i_off.Api.{weekday, saturday}
use when_i_off.Target.{
  CommuteRoute, RouteSettingsDraft, settings_from_route, settings_patch, bad_time, validate_target,
}
use when_i_off.Target.Patch.{apply_patch, cleaned, settings_patch-apply_patch}

abbrev pub a_route : CommuteRoute
a_route = record {
  name = codes "home";
  is_active = true;
  default_target_arrival_time = some (codes "09:00:00");
  default_target_day_types = weekday ∷ [];
}

abbrev draft : RouteSettingsDraft
draft = record {
  name = codes " home ";
  is_active = false;
  time = [];
  days = saturday ∷ weekday ∷ [];
}

settings_saved :
    apply_patch (settings_patch a_route draft) (settings_from_route a_route) ≡ cleaned draft
settings_saved = settings_patch-apply_patch a_route draft

nothing_to_send : settings_patch a_route (settings_from_route a_route) ≡ none
unfolding settings_patch str_eq trim
nothing_to_send = refl

no_such_hour :
    validate_target (record { time = codes "24:00"; days = weekday ∷ [] }) ≡ some bad_time
unfolding validate_target str_eq
no_such_hour = refl
