-- ===== src/Tests/Auth.antt =====
-- Where the login page goes back to.
use when_i_off.Prelude.{codes, ◌≡◌, refl, some}
use when_i_off.Prelude.Text.{str_eq}
use when_i_off.Auth.{safe_return_path, current_path}

login_page :
    safe_return_path (some (current_path (codes "/login") (codes "?x") (codes "#"))) ≡ codes "/"
unfolding safe_return_path current_path str_eq
login_page = refl
