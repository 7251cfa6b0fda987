-- ===== src/Prelude/JsText.antt =====
-- The text operations of the JavaScript language that the sources call: `trim`, `slice` from the front,
-- `endsWith`, `String(n)`, and the digits of a regular expression.
pub mod Trim
use when_i_off.Prelude.{
  Str, ℕ, Bool, true, false, ◌&&◌, ◌||◌, [], ◌∷◌, if◌then◌else◌, leb, ◌==◌, length, drop, str_eq,
  ◌-◌,
}
use mathlib.Core.List.{reverse}

-- WhiteSpace and LineTerminator of the language: the tab to the carriage return, the space separators,
-- the line and paragraph separators and the byte order mark
unfoldable pub js_space : ℕ → Bool
js_space c =
    (leb 9 c && leb c 13)
    || c == 0x20
    || c == 0xa0
    || c == 0x1680
    || (leb 0x2000 c && leb c 0x200a)
    || c == 0x2028
    || c == 0x2029
    || c == 0x202f
    || c == 0x205f
    || c == 0x3000
    || c == 0xfeff

pub drop_space : Str → Str
drop_space [] = []
drop_space (c ∷ s) = if js_space c then drop_space s else c ∷ s

-- `s.trim()`
unfoldable pub trim : Str → Str
unfolding drop_space js_space
trim s = reverse (drop_space (reverse (drop_space s)))

-- `s.endsWith(t)`
unfoldable pub ends_with : Str → Str → Bool
ends_with s t = leb (length t) (length s) && str_eq (drop (length s - length t) s) t

-- `s.startsWith(t)`
unfoldable pub starts_with : Str → Str → Bool
starts_with s [] = true
starts_with [] (d ∷ t) = false
starts_with (c ∷ s) (d ∷ t) = (c == d) && starts_with s t
