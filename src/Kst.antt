-- ===== src/Kst.antt =====
-- desktop/src/kst.ts: clock inputs in Korean time (UTC+9) and UTC texts, over the engine's Date.
use when_i_off.Prelude.{
  Str, codes, str_eq, ℕ, ◌+◌, ◌&&◌, ◌||◌, not, [], ◌∷◌, Option, none, some, if◌then◌else◌, ltb,
  ◌==◌, take, drop, ◌++◌,
}
use when_i_off.Prelude.Int.{ℤ, pos, sub_ℕ, ◌+ℤ◌, ◌-ℤ◌, ◌*ℤ◌}
use when_i_off.Prelude.Number.{Number, nan, ratio}
use when_i_off.Prelude.Decimal.{is_digit, number_of}
use when_i_off.Prelude.JsText.{trim}
use when_i_off.Cycles.{seconds_group}

-- What the engine's Date does, on milliseconds since 1970: `Date.parse` without a value for NaN,
-- `Date.UTC`, `getUTCMonth`, `getUTCDate` and `toISOString`.
pub record DateEngine : Type 0 where
  pub parse : Str → Option ℤ
  pub utc : ℕ → ℤ → ℕ → ℕ → ℕ → ℕ → ℤ
  pub utc_month : ℤ → ℕ
  pub utc_date : ℤ → ℕ
  pub to_iso_string : ℤ → Str

abbrev pub kst_offset_ms : ℤ
kst_offset_ms = pos 32_400_000

-- `s.replace(".000Z", "Z")`: the first occurrence
unfoldable pub drop_millis : Str → Str
drop_millis [] = []
drop_millis (c ∷ s) =
    let rest = c ∷ drop_millis s in
    elim s [
      | a ∷ b ∷ d ∷ z ∷ t ↦
          (if str_eq (c ∷ a ∷ b ∷ d ∷ z ∷ []) (codes ".000Z") then b'Z' ∷ t else rest)
      | _ ↦ rest
    ]

pub record Fields : Type 0 where
  pub year : ℕ
  pub month : ℕ
  pub day : ℕ
  pub hour : ℕ
  pub minute : ℕ
  pub second : ℕ

fields_with : ℕ → ℕ → ℕ → ℕ → ℕ → Option ℕ → Option Fields
fields_with y mo d h mi none = none
fields_with y mo d h mi (some s) =
    some (record { year = y; month = mo; day = d; hour = h; minute = mi; second = s })

-- `LOCAL_INPUT.exec`, its groups as numbers, a missing second as 0
unfoldable pub exec_local_input : Str → Option Fields
unfolding fields_with seconds_group
exec_local_input (a ∷ b ∷ c ∷ d ∷ e ∷ f ∷ g ∷ h ∷ i ∷ j ∷ k ∷ l ∷ m ∷ n ∷ o ∷ p ∷ s) =
    if is_digit a
      && is_digit b
      && is_digit c
      && is_digit d
      && e == b'-'
      && is_digit f
      && is_digit g
      && h == b'-'
      && is_digit i
      && is_digit j
      && k == b'T'
      && is_digit l
      && is_digit m
      && n == b':'
      && is_digit o
      && is_digit p
    then fields_with (number_of (a ∷ b ∷ c ∷ d ∷ [])) (number_of (f ∷ g ∷ []))
        (number_of (i ∷ j ∷ [])) (number_of (l ∷ m ∷ [])) (number_of (o ∷ p ∷ [])) (seconds_group s)
    else none
exec_local_input s = none

module _ (date : DateEngine) where
  iso_of_fields : Option Fields → Option Str
  iso_of_fields none = none
  iso_of_fields (some f) =
      let utc = date.utc f.year (sub_ℕ f.month 1) f.day f.hour f.minute f.second -ℤ kst_offset_ms in
      let check = utc +ℤ kst_offset_ms in
      if not (date.utc_month check + 1 == f.month)
        || not (date.utc_date check == f.day)
        || ltb 23 f.hour
        || ltb 59 f.minute
        || ltb 59 f.second
      then none
      else some (drop_millis (date.to_iso_string utc))

  unfoldable pub kst_input_to_iso : Str → Option Str
  unfolding iso_of_fields exec_local_input drop_millis
  kst_input_to_iso value = iso_of_fields (exec_local_input (trim value))

  input_of_ms : Option ℤ → Str
  input_of_ms none = []
  input_of_ms (some ms) = take 19 (date.to_iso_string (ms +ℤ kst_offset_ms))

  unfoldable pub iso_to_kst_input : Option Str → Str
  unfolding input_of_ms
  iso_to_kst_input none = []
  iso_to_kst_input (some []) = []
  iso_to_kst_input (some (c ∷ s)) = input_of_ms (date.parse (c ∷ s))

  unfoldable pub format_kst_time : Str → Str
  unfolding iso_to_kst_input
  format_kst_time iso = drop 11 (iso_to_kst_input (some iso))

  unfoldable pub kst_date : Str → Str
  unfolding iso_to_kst_input
  kst_date iso = take 10 (iso_to_kst_input (some iso))

  -- `kstToday`, of a time in milliseconds
  unfoldable pub kst_today : ℤ → Str
  kst_today now = take 10 (date.to_iso_string (now +ℤ kst_offset_ms))

  date_of_ms : ℤ → Option ℤ → Option Str
  date_of_ms days none = none
  date_of_ms days (some ms) = some (take 10 (date.to_iso_string (ms +ℤ days *ℤ pos 86_400_000)))

  -- `addDays`; there is none where `toISOString` throws, as it does of NaN
  unfoldable pub add_days : Str → ℤ → Option Str
  unfolding date_of_ms
  add_days day days = date_of_ms days (date.parse (day ++ codes "T00:00:00Z"))

  minutes_of : Option ℤ → Option ℤ → Number
  minutes_of (some t) (some midnight) = ratio (t -ℤ (midnight -ℤ kst_offset_ms)) 59_999
  minutes_of t midnight = nan

  unfoldable pub kst_minutes_of_day : Str → Str → Number
  unfolding minutes_of
  kst_minutes_of_day iso day = minutes_of (date.parse iso) (date.parse (day ++ codes "T00:00:00Z"))
