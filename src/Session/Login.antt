-- ===== src/Session/Login.antt =====
-- The login form from the press of its button to the page (frontend/src/pages/LoginPage.tsx and
-- frontend/src/api/useAuth.ts).
use inboxone.Common.{
  ◌≡◌, ◌≢◌, any, refl, arith, String, Bool, true, false, Option, none, some, List, [], ◌∷◌,
  if◌then◌else◌,
}
use inboxone.Session.{
  Location, login_path, inbox_path, resting, signing_in, refreshing, Session, Screen, login_screen,
  page, redirect, require_auth, route, screen, follow, go, is_pending, is_signing_in, submit,
  LoginReply, accepted, api_error, other_error, finish_login, keep_data, continue_login, receive_me,
  open_link, Event, type_password, press_sign_in, redirects, asks_status, login_ends, me_ends,
  clicks_link, step, run,
}

abbrev pub ends_login : Event → Bool
ends_login (login_ends _) = true
ends_login _ = false

abbrev pub ends_me : Event → Bool
ends_me (me_ends _) = true
ends_me _ = false

-- the form while its request is under way, on the login page
record IsSigning (s : Session) : Type 0 where
  at_login : s.location ≡ login_path
  is_signing : s.login_step ≡ signing_in
  no_error : s.login_error ≡ none

screen_login : (s : Session) → s.location ≡ login_path → screen s ≡ login_screen
unfolding screen route
screen_login s e = rw e

step-IsSigning :
    (e : Event) (s : Session) → ends_login e ≡ false → IsSigning s → IsSigning (step e s)
unfolding step follow submit is_pending receive_me keep_data go open_link continue_login
step-IsSigning (type_password p) s h k = ground arith
step-IsSigning press_sign_in s h k = ground arith
step-IsSigning redirects s h k = ground (arith, screen_login s k.at_login)
step-IsSigning asks_status s h k = ground arith
step-IsSigning (login_ends r) s h k = cc
step-IsSigning (me_ends none) s h k = ground arith
step-IsSigning (me_ends (some b)) s h k = ground arith
step-IsSigning (clicks_link l) s h k = ground (arith, screen_login s k.at_login)

run-IsSigning :
    (es : List Event) (s : Session) → any ends_login es ≡ false → IsSigning s → IsSigning (run es s)
unfolding run
run-IsSigning [] s h k = k
run-IsSigning (e ∷ es) s h k =
    run-IsSigning es (step e s) (ground arith) (step-IsSigning e s (ground arith) k)

-- the login has been accepted, and the status is being asked for again
record IsRefreshing (s : Session) : Type 0 where
  is_refreshing : s.login_step ≡ refreshing
  is_asking : s.me_asking ≡ true

go-IsRefreshing : (v : Screen) (s : Session) → IsRefreshing s → IsRefreshing (go v s)
unfolding go
go-IsRefreshing login_screen s k = k
go-IsRefreshing (redirect l) s k = ground arith
go-IsRefreshing _ s k = k

open_link-IsRefreshing :
    (v : Screen) (l : Location) (s : Session) → IsRefreshing s → IsRefreshing (open_link v l s)
unfolding open_link
open_link-IsRefreshing login_screen l s k = k
open_link-IsRefreshing (page l') l s k = ground arith
open_link-IsRefreshing _ l s k = k

step-IsRefreshing :
    (e : Event) (s : Session) → ends_me e ≡ false → IsRefreshing s → IsRefreshing (step e s)
unfolding step follow submit is_pending is_signing_in
step-IsRefreshing (type_password p) s h k = ground arith
step-IsRefreshing press_sign_in s h k = ground arith
step-IsRefreshing redirects s h k = go-IsRefreshing (screen s) s k
step-IsRefreshing asks_status s h k = ground arith
step-IsRefreshing (login_ends r) s h k = simp k.is_refreshing k
step-IsRefreshing (me_ends a) s h k = cc
step-IsRefreshing (clicks_link l) s h k = open_link-IsRefreshing (screen s) l s k

run-IsRefreshing :
    (es : List Event) (s : Session)
    → any ends_me es ≡ false
    → IsRefreshing s
    → IsRefreshing (run es s)
unfolding run
run-IsRefreshing [] s h k = k
run-IsRefreshing (e ∷ es) s h k =
    run-IsRefreshing es (step e s) (ground arith) (step-IsRefreshing e s (ground arith) k)

press-IsSigning :
    (s : Session)
    → s.location ≡ login_path
    → s.login_step ≡ resting
    → IsSigning (step press_sign_in s)
unfolding step submit is_pending
press-IsSigning s h k = ground arith

accept-IsRefreshing : (s : Session) → IsSigning s → IsRefreshing (step (login_ends accepted) s)
unfolding step finish_login is_signing_in
accept-IsRefreshing s h = rw h.is_signing (record { is_refreshing = refl; is_asking = refl })

arrive :
    (b : Bool) (s : Session)
    → IsRefreshing s
    → (screen (step (me_ends (some b)) s) ≡ (if b then page inbox_path else redirect login_path))
      × ((step (me_ends (some b)) s).login_step ≡ resting)
unfolding step receive_me keep_data continue_login screen route require_auth
arrive true s h = rw (h.is_asking, h.is_refreshing) (refl, refl)
arrive false s h = rw (h.is_asking, h.is_refreshing) (refl, refl)

-- A login that the server accepts, whatever is typed, pressed or answered meanwhile: it waits for the status
-- that is asked for anew, and that one decides. If it knows the visitor, the inbox is shown at once; if not,
-- the form again, by a redirect.
pub run-accepted :
    (es fs : List Event) (b : Bool) (s : Session)
    → s.location ≡ login_path
    → s.login_step ≡ resting
    → any ends_login es ≡ false
    → any ends_me fs ≡ false
    → (screen (
          step
            (me_ends (some b))
            (run fs (step (login_ends accepted) (run es (step press_sign_in s)))))
        ≡ (if b then page inbox_path else redirect login_path))
      × ((step
            (me_ends (some b))
            (run fs (step (login_ends accepted) (run es (step press_sign_in s))))).login_step
          ≡ resting)
run-accepted es fs b s h k quiet quiet' =
    let signing = run-IsSigning es _ quiet (press-IsSigning s h k) in
    arrive b _ (run-IsRefreshing fs _ quiet' (accept-IsRefreshing _ signing))

abbrev pub message_of : LoginReply → Option String
message_of accepted = none
message_of (api_error message) = some message
message_of other_error = some "Login failed"

refuse :
    (reply : LoginReply) (s : Session)
    → reply ≢ accepted
    → IsSigning s
    → (screen (step (login_ends reply) s) ≡ login_screen)
      × ((step (login_ends reply) s).login_error ≡ message_of reply)
      × ((submit (step (login_ends reply) s)).0 ≡ some s.password)
unfolding step finish_login screen route submit is_pending is_signing_in
refuse accepted s h k = absurd (h refl)
refuse (api_error m) s h k = rw (k.is_signing, k.at_login) (refl, refl, refl)
refuse other_error s h k = rw (k.is_signing, k.at_login) (refl, refl, refl)

-- A login that the server refuses, whatever happens meanwhile: no error is shown until then; then the form is
-- there with the server's message, or with a plain one if it has none, and a next press sends what has been
-- typed since.
pub run-refused :
    (es : List Event) (reply : LoginReply) (s : Session)
    → s.location ≡ login_path
    → s.login_step ≡ resting
    → any ends_login es ≡ false
    → reply ≢ accepted
    → ((run es (step press_sign_in s)).login_error ≡ none)
      × (screen (step (login_ends reply) (run es (step press_sign_in s))) ≡ login_screen)
      × ((step (login_ends reply) (run es (step press_sign_in s))).login_error ≡ message_of reply)
      × ((submit (step (login_ends reply) (run es (step press_sign_in s)))).0
          ≡ some (run es (step press_sign_in s)).password)
run-refused es reply s h k quiet refused =
    let signing = run-IsSigning es _ quiet (press-IsSigning s h k) in
    let (form, shown, again) = refuse reply _ refused signing in
    (signing.no_error, form, shown, again)
