-- ===== src/Admin/Session/Laws.antt =====
-- From the guard of the administration to the login and back.
use cdk_system.Base.{◌≡◌, refl, true, false, some, [], ◌∷◌, Text, is_empty}
use cdk_system.Api.{Settled, resolved, rejected, Failure}
use cdk_system.Admin.Session.{
  Login, login_settled, from_of, Layout, me_settled, unmount, to_login, layout_view,
}

-- A visitor whose access is refused at a path is sent to the login with this path, whatever the
-- failure was, and a login that succeeds leads back to the path and ends the loading; an answer that
-- comes when the layout is gone changes nothing.
pub login_settled-me_settled :
    (pathname username : Text) (e : Failure) (l : Layout) (form : Login)
    → is_empty pathname ≡ false
    → l.alive ≡ true
    → (layout_view pathname (me_settled (rejected e) l) ≡ to_login pathname)
      × (login_settled (from_of (some pathname)) (resolved username) form
          ≡ (record form { loading = false }, some pathname))
      × ((answer : Settled Text) → me_settled answer (unmount l) ≡ unmount l)
unfolding layout_view me_settled login_settled from_of unmount
login_settled-me_settled [] username e l form full here = cc
login_settled-me_settled (c ∷ path) username e l form full here = (rw here refl, refl, gone)
  where
    gone : (answer : Settled Text) → me_settled answer (unmount l) ≡ unmount l
    gone (resolved name) = refl
    gone (rejected failure) = refl
