-- ===== src/Csv/Unicode.antt =====
-- What csv.ts takes from the JavaScript engine's Unicode tables, as a parameter, and the trimming and
-- splitting of text that it builds on them. `IsUnicode` states what the Unicode standard says of ASCII.
use when_i_off.Prelude.{
  Str, ℕ, ◌<◌, ◌≡◌, Bool, ◌&&◌, ◌||◌, List, [], ◌∷◌, ◌++◌, leb, ◌==◌, if◌then◌else◌,
}
use mathlib.Core.List.{reverse}

pub record Unicode : Type 0 where
  -- `\p{Nd}` on one code unit
  pub is_nd : ℕ → Bool
  -- `[\p{Zs}\p{Zl}\p{Zp}]` on one code unit
  pub is_separator : ℕ → Bool
  -- `String.prototype.toUpperCase` and `toLowerCase`
  pub to_upper_case : Str → Str
  pub to_lower_case : Str → Str

-- The decimal digits and the separators among the ASCII characters.
pub record IsUnicode (u : Unicode) : Type 0 where
  pub nd_ascii : (c : ℕ) → c < 128 → u.is_nd c ≡ (leb 48 c && leb c 57)
  pub separator_ascii : (c : ℕ) → c < 128 → u.is_separator c ≡ (c == 32)

abbrev pub drop_while : (ℕ → Bool) → Str → Str
drop_while p [] = []
drop_while p (c ∷ s) = if p c then drop_while p s else c ∷ s

-- `s.split(sep)` for a separator of one code unit
pub split_on : ℕ → Str → Str → List Str
split_on sep cell [] = cell ∷ []
split_on sep cell (c ∷ s) =
    let next = cell ∷ split_on sep [] s in
    let more = split_on sep (cell ++ c ∷ []) s in if c == sep then next else more

unfoldable pub split : ℕ → Str → List Str
unfolding split_on
split sep s = split_on sep [] s

-- `content.split(/\r\n|\n|\r/)`
pub split_lines_from : Str → Str → List Str
split_lines_from line [] = line ∷ []
split_lines_from line (c ∷ []) =
    if c == 10 || c == 13 then line ∷ [] ∷ [] else (line ++ c ∷ []) ∷ []
split_lines_from line (c ∷ d ∷ s) =
    let after_two = line ∷ split_lines_from [] s in
    let after_one = line ∷ split_lines_from [] (d ∷ s) in
    let more = split_lines_from (line ++ c ∷ []) (d ∷ s) in
    if c == 13 && d == 10 then after_two else if c == 10 || c == 13 then after_one else more

unfoldable pub split_lines : Str → List Str
unfolding split_lines_from
split_lines content = split_lines_from [] content

-- `String.substringBefore(',')`: the whole text if there is no comma
unfoldable pub substring_before_comma : Str → Str
substring_before_comma [] = []
substring_before_comma (c ∷ s) =
    let rest = c ∷ substring_before_comma s in if c == b',' then [] else rest

module _ (u : Unicode) where
  -- the class `WS`
  pub is_space : ℕ → Bool
  is_space c = (leb 9 c && leb c 13) || (leb 0x1c c && leb c 0x1f) || u.is_separator c

  -- `s.replace(TRIM, "")`
  unfoldable pub kt_trim : Str → Str
  unfolding is_space
  kt_trim s = reverse (drop_while is_space (reverse (drop_while is_space s)))
