-- ===== src/Auth/Safe.antt =====
-- What the login page may go back to, and that a page of the application comes back as it was.
use when_i_off.Prelude.{
  Str, codes, ◌↔◌, subst, ◌≡◌, refl, Bool, true, false, ◌||◌, not, Option, none, some,
  if◌then◌else◌,
}
use when_i_off.Prelude.JsText.{starts_with}
use when_i_off.Prelude.Text.{str_eq}
use when_i_off.Auth.{pathname, safe_return_path}

-- A path of the application itself, not its login page.
pub record IsSafe (path : Str) : Type 0 where
  pub absolute : starts_with path (codes "/") ≡ true
  pub no_host : starts_with path (codes "//") ≡ false
  pub no_backslash : starts_with path (codes "/\\") ≡ false
  pub no_login : str_eq (pathname path) (codes "/login") ≡ false

home-IsSafe : IsSafe (codes "/")
unfolding starts_with pathname str_eq
home-IsSafe = record { absolute = refl; no_host = refl; no_backslash = refl; no_login = refl }

IsSafe-unless :
    (from : Str) (a b c d : Bool)
    → starts_with from (codes "/") ≡ a
    → starts_with from (codes "//") ≡ b
    → starts_with from (codes "/\\") ≡ c
    → str_eq (pathname from) (codes "/login") ≡ d
    → IsSafe
        (if not a then codes "/" else if b || c then codes "/" else if d then codes "/" else from)
IsSafe-unless from false b c d h k l m = home-IsSafe
IsSafe-unless from true true c d h k l m = home-IsSafe
IsSafe-unless from true false true d h k l m = home-IsSafe
IsSafe-unless from true false false true h k l m = home-IsSafe
IsSafe-unless from true false false false h k l m = record {
  absolute = h;
  no_host = k;
  no_backslash = l;
  no_login = m;
}

-- Whatever the value, the login page goes back to a path of the application that is not the login page.
pub safe_return_path-IsSafe : (from : Option Str) → IsSafe (safe_return_path from)
unfolding safe_return_path
safe_return_path-IsSafe none = home-IsSafe
safe_return_path-IsSafe (some from) = IsSafe-unless from _ _ _ _ refl refl refl refl

-- The login page goes back to a text as it stands if and only if it is such a path.
pub safe_return_path_iff : (from : Str) → (safe_return_path (some from) ≡ from) ↔ IsSafe from
unfolding safe_return_path
safe_return_path_iff from = (
  λ e. subst IsSafe e (safe_return_path-IsSafe (some from)),
  λ safe. rw (safe.absolute, safe.no_host, safe.no_backslash, safe.no_login) refl,
)
