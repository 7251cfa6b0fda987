-- ===== src/Csv/LocalTime.antt =====
-- csv.ts `ISO_LOCAL_TIME` and `parseLocalTime`: a time of day read as `LocalTime.parse` reads it, and
-- printed as `LocalTime.toString()` prints it.
pub mod Laws
pub mod Canonical
use when_i_off.Prelude.{
  Str, ℕ, zero, suc, ◌%◌, ◌≤◌, ◌<◌, ◌≡◌, Bool, true, false, ◌&&◌, ◌||◌, List, [], ◌∷◌, ◌++◌, Option,
  none, some, if◌then◌else◌, ltb, leb, ◌==◌, all, length, take, arith,
}
use when_i_off.Prelude.Decimal.{is_digit, number_of, pad_start, pad_end, decimal}

-- The groups of the expression; a group that took no part is `none`.
pub record Groups : Type 0 where
  pub hour : Str
  pub minute : Str
  pub second : Option Str
  pub fraction : Option Str

-- `(?:\.([0-9]{0,9}))?$`
exec_fraction : Str → Option (Option Str)
exec_fraction [] = some none
exec_fraction (c ∷ s) =
    if c == b'.' && all is_digit s && leb (length s) 9 then some (some s) else none

with_second : Str → Str → Str → Option (Option Str) → Option Groups
with_second h mi s none = none
with_second h mi s (some f) = some (record { hour = h; minute = mi; second = some s; fraction = f })

-- `(?::([0-9]{2})…)?$`
exec_second : Str → Str → Str → Option Groups
exec_second h mi [] = some (record { hour = h; minute = mi; second = none; fraction = none })
exec_second h mi (c ∷ a ∷ b ∷ s) =
    if c == b':' && is_digit a && is_digit b
    then with_second h mi (a ∷ b ∷ []) (exec_fraction s)
    else none
exec_second h mi (c ∷ s) = none

unfoldable pub exec_local_time : Str → Option Groups
unfolding exec_second with_second exec_fraction
exec_local_time (a ∷ b ∷ c ∷ d ∷ e ∷ s) =
    if is_digit a && is_digit b && c == b':' && is_digit d && is_digit e
    then exec_second (a ∷ b ∷ []) (d ∷ e ∷ []) s
    else none
exec_local_time s = none

-- A time of day by its parts.
pub record Time : Type 0 where
  pub hour : ℕ
  pub minute : ℕ
  pub second : ℕ
  pub nanos : ℕ

abbrev pub number_or_zero : Option Str → ℕ
number_or_zero none = 0
number_or_zero (some s) = number_of s

-- `Number((m[4] ?? "").padEnd(9, "0") || 0)`
abbrev pub nanos_of : Option Str → ℕ
nanos_of none = number_of (pad_end 9 [])
nanos_of (some s) = number_of (pad_end 9 s)

-- the numbers of the groups, with the range check
unfoldable pub time_of : Groups → Option Time
time_of g =
    let h = number_of g.hour in
    let mi = number_of g.minute in
    let sec = number_or_zero g.second in
    if ltb 23 h || ltb 59 mi || ltb 59 sec
    then none
    else some (record { hour = h; minute = mi; second = sec; nanos = nanos_of g.fraction })

abbrev pub pad : ℕ → Str
pad n = pad_start 2 (decimal n)

-- the text after the dot
unfoldable pub fraction_text : ℕ → Str
fraction_text nanos =
    let nine = pad_start 9 (decimal nanos) in
    if nanos % 1_000_000 == 0 then take 3 nine else if nanos % 1000 == 0 then take 6 nine else nine

unfoldable pub format_time : Time → Str
unfolding fraction_text
format_time t =
    pad t.hour
    ++ b':'
      ∷ (pad t.minute
          ++ ((if ltb 0 t.second || ltb 0 t.nanos then b':' ∷ pad t.second else [])
              ++ (if ltb 0 t.nanos then b'.' ∷ fraction_text t.nanos else [])))

pub time_of_groups : Option Groups → Option Time
time_of_groups none = none
time_of_groups (some g) = time_of g

text_of_time : Option Time → Option Str
text_of_time none = none
text_of_time (some t) = some (format_time t)

-- the first half of `parseLocalTime`, up to the numbers
unfoldable pub read_time : Str → Option Time
unfolding exec_local_time time_of time_of_groups
read_time s = time_of_groups (exec_local_time s)

unfoldable pub parse_local_time : Str → Option Str
unfolding read_time text_of_time format_time
parse_local_time s = text_of_time (read_time s)
