-- ===== src/Trips/Corrections/Changes.antt =====
-- What a patch of the correction forms holds: the fields that changed, and no field that is to be cleared.
use when_i_off.Prelude.{Str, ◌≡◌, ◌≢◌, ◌⊎◌, [], Option, none, some}
use when_i_off.Prelude.JsText.{trim}
use when_i_off.Kst.{DateEngine, kst_input_to_iso, iso_to_kst_input}
use when_i_off.Trips.Corrections.{PatchResult, ok}

abbrev pub or_else {ℓ} : {A : Type ℓ} → Option A → A → A
or_else none old = old
or_else (some new) old = new

abbrev both : Option Str → Option Str → PatchResult (Option Str × Option Str)
both a b = ok (a, b)

module _ (date : DateEngine) where
  -- What a time field of a patch means: a value is the input's time and not the recorded one; and a field
  -- is left out only if the input is the recorded time, or empty as the record is.
  abbrev pub IsChange : Option Str → Str → Option Str → Type 0
  IsChange original input (some iso) =
      (kst_input_to_iso date input ≡ some iso)
      × ((iso_to_kst_input date original ≡ [])
          ⊎ (kst_input_to_iso date (iso_to_kst_input date original) ≢ some iso))
  IsChange original input none =
      ((trim input ≡ []) × (iso_to_kst_input date original ≡ []))
      ⊎ (kst_input_to_iso date input ≡ kst_input_to_iso date (iso_to_kst_input date original))
