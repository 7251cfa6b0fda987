-- ===== src/Auth.antt =====
-- desktop/src/auth/returnPath.ts: where the login page goes back to.
pub mod Safe
use when_i_off.Prelude.{
  Str, codes, str_eq, ℕ, Bool, true, false, ◌||◌, not, List, [], ◌∷◌, Option, none, some,
  if◌then◌else◌, ◌==◌, ◌++◌,
}
use when_i_off.Prelude.JsText.{starts_with}

-- `from.split(/[?#]/, 1)[0]`
unfoldable pub pathname : Str → Str
pathname [] = []
pathname (c ∷ s) = let rest = c ∷ pathname s in if c == b'?' || c == b'#' then [] else rest

-- `from` is `none` if it is no string.
unfoldable pub safe_return_path : Option Str → Str
unfolding pathname starts_with
safe_return_path none = codes "/"
safe_return_path (some from) =
    if not (starts_with from (codes "/"))
    then codes "/"
    else if starts_with from (codes "//") || starts_with from (codes "/\\")
    then codes "/"
    else if str_eq (pathname from) (codes "/login")
    then codes "/"
    else from

-- `currentPath`
unfoldable pub current_path : Str → Str → Str → Str
current_path path search hash = path ++ (search ++ hash)
