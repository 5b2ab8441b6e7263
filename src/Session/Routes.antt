-- ===== src/Session/Routes.antt =====
-- The routes (frontend/src/App.tsx): redirects end, and where.
use inboxone.Common.{
  ◌≡◌, ◌≢◌, any, refl, arith, Bool, true, false, Option, none, some, List, [], ◌∷◌, if◌then◌else◌,
}
use inboxone.Session.{
  Location, login_path, inbox_path, accounts_path, other_path, LoginStep, resting, signing_in,
  refreshing, Session, is_authenticated, is_loading, Screen, login_screen, blank, page, redirect,
  require_auth, route, screen, go, follow, submit, LoginReply, accepted, api_error, other_error,
  finish_login, keep_data, continue_login, receive_me, open_link, Event, type_password,
  press_sign_in, redirects, asks_status, login_ends, me_ends, clicks_link, step, run,
}

-- what a visitor of a path gets in the end
abbrev pub destination : Location → Location
destination (other_path _) = inbox_path
destination location = location

abbrev pub shown_at : Location → Session → Screen
shown_at login_path s = login_screen
shown_at location s =
    if is_loading s then blank else if is_authenticated s then page location else login_screen

screens :
    (l : Location) (s : Session)
    → s.location ≡ l
    → screen (follow (follow s)) ≡ shown_at (destination l) s
unfolding screen follow route require_auth go
screens login_path s e = rw e
screens inbox_path s e = ground arith
screens accounts_path s e = ground arith
screens (other_path p) s e = ground arith

-- Wherever a visitor comes in, two redirects are enough: then there is none, and the screen is the login form
-- or the page asked for, the inbox if there is no such page; nothing while the status is not known, and the
-- login form in place of the page if the server does not know the visitor.
pub screen-follow : (s : Session) → screen (follow (follow s)) ≡ shown_at (destination s.location) s
screen-follow s = screens s.location s refl

-- the server has said that the visitor is known
abbrev pub grants : Event → Bool
grants (me_ends (some true)) = true
grants _ = false

is_page : Screen → Bool
is_page (page _) = true
is_page _ = false

is_page-require_auth :
    (l : Location) (s : Session) → is_authenticated s ≡ false → is_page (require_auth l s) ≡ false
unfolding require_auth is_page
is_page-require_auth l s h = ground arith

is_page-route :
    (l : Location) (s : Session) → is_authenticated s ≡ false → is_page (route l s) ≡ false
unfolding route is_page
is_page-route login_path s h = refl
is_page-route inbox_path s h = unfold is_page in is_page-require_auth inbox_path s h
is_page-route accounts_path s h = unfold is_page in is_page-require_auth accounts_path s h
is_page-route (other_path p) s h = refl

go-me_data : (v : Screen) (s : Session) → (go v s).me_data ≡ s.me_data
unfolding go
go-me_data login_screen s = refl
go-me_data blank s = refl
go-me_data (page l) s = refl
go-me_data (redirect l) s = refl

open_link-me_data :
    (v : Screen) (l : Location) (s : Session) → (open_link v l s).me_data ≡ s.me_data
unfolding open_link
open_link-me_data login_screen l s = refl
open_link-me_data blank l s = refl
open_link-me_data (page l') l s = refl
open_link-me_data (redirect l') l s = refl

finish_login-me_data : (r : LoginReply) (s : Session) → (finish_login r s).me_data ≡ s.me_data
unfolding finish_login
finish_login-me_data accepted s = refl
finish_login-me_data (api_error m) s = refl
finish_login-me_data other_error s = refl

continue_login-me_data : (p : LoginStep) (s : Session) → (continue_login p s).me_data ≡ s.me_data
unfolding continue_login
continue_login-me_data resting s = refl
continue_login-me_data signing_in s = refl
continue_login-me_data refreshing s = refl

receive_me-unknown :
    (a : Option Bool) (s : Session)
    → grants (me_ends a) ≡ false
    → is_authenticated s ≡ false
    → is_authenticated (receive_me a s) ≡ false
unfolding receive_me keep_data
receive_me-unknown none s h k =
    rw (continue_login-me_data s.login_step (record s { me_asking = false })) k
receive_me-unknown (some true) s h k = cc
receive_me-unknown (some false) s h k =
    rw (continue_login-me_data s.login_step (record s { me_asking = false; me_data = some false }))
      refl

step-unknown :
    (e : Event) (s : Session)
    → grants e ≡ false
    → is_authenticated s ≡ false
    → is_authenticated (step e s) ≡ false
unfolding step follow submit
step-unknown (type_password p) s h k = k
step-unknown press_sign_in s h k = ground arith
step-unknown redirects s h k = rw (go-me_data (screen s) s) k
step-unknown asks_status s h k = k
step-unknown (login_ends r) s h k = ground (arith, finish_login-me_data r s)
step-unknown (me_ends a) s h k = ground (arith, receive_me-unknown a s)
step-unknown (clicks_link l) s h k = rw (open_link-me_data (screen s) l s) k

-- As long as the server does not say that the visitor is known, and has not said so last, no protected page is
-- on the screen, whatever is pressed, typed or answered.
pub run-shut :
    (es : List Event) (s : Session)
    → is_authenticated s ≡ false
    → any grants es ≡ false
    → (l : Location) → screen (run es s) ≢ page l
unfolding run
run-shut [] s h k l e = unfold screen is_page in cc (is_page-route s.location s h)
run-shut (e ∷ es) s h k l same =
    run-shut es (step e s) (step-unknown e s (ground arith) h) (ground arith) l same
