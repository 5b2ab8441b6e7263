-- ===== src/Session.antt =====
-- Who may see what: the routes of frontend/src/App.tsx, the status of frontend/src/api/useAuth.ts, and the
-- form of frontend/src/pages/LoginPage.tsx.
pub mod Routes
pub mod Login
mod Tests
use inboxone.Common.{
  String, Bool, true, false, not, ◌&&◌, Option, none, some, List, [], ◌∷◌, is_some, or_else,
  if◌then◌else◌,
}

pub data Location : Type 0 where
  login_path inbox_path accounts_path : Location
  other_path : String → Location

-- where the submission of the form stands: not submitted, its request under way, and, once that has
-- succeeded, the status being asked for again
pub data LoginStep : Type 0 where
  resting signing_in refreshing : LoginStep

-- The path in the address bar; the query of the status, with what it has and whether a request of it is under
-- way; and the form.
pub record Session : Type 0 where
  pub location : Location
  pub me_data : Option Bool
  pub me_asking : Bool
  pub password : String
  pub login_error : Option String
  pub login_step : LoginStep

abbrev pub opened : Location → Session
opened location = record {
  location = location;
  me_data = none;
  me_asking = true;
  password = "";
  login_error = none;
  login_step = resting;
}

-- `meQuery.data?.authenticated ?? false`
abbrev pub is_authenticated : Session → Bool
is_authenticated s = or_else s.me_data false

-- `meQuery.isLoading`: a request is under way and there is no data yet
abbrev pub is_loading : Session → Bool
is_loading s = s.me_asking && not (is_some s.me_data)

-- What a route renders. The protected pages come with the status bar, the live updates, the watcher, the
-- indicator and the toasts.
pub data Screen : Type 0 where
  login_screen blank : Screen
  page : Location → Screen
  redirect : Location → Screen

require_auth : Location → Session → Screen
require_auth location s =
    if is_loading s
    then blank
    else if not (is_authenticated s)
    then redirect login_path
    else page location

route : Location → Session → Screen
unfolding require_auth
route login_path s = login_screen
route inbox_path s = require_auth inbox_path s
route accounts_path s = require_auth accounts_path s
route (other_path _) s = redirect inbox_path

unfoldable pub screen : Session → Screen
unfolding route
screen s = route s.location s

go : Screen → Session → Session
go (redirect location) s = record s { location = location }
go _ s = s

-- the redirect that is rendered, if one is
unfoldable pub follow : Session → Session
unfolding go
follow s = go (screen s) s

-- the button of the form is disabled while a login is under way
unfoldable pub is_pending : LoginStep → Bool
is_pending resting = false
is_pending _ = true

-- `handleSubmit` up to its `await`; the password is what the request sends
unfoldable pub submit : Session → Option String × Session
unfolding is_pending
submit s =
    if is_pending s.login_step
    then (none, s)
    else (some s.password, record s { login_error = none; login_step = signing_in })

-- how the request ends: with a status, with an error of the server, or with another exception
pub data LoginReply : Type 0 where
  accepted : LoginReply
  api_error : String → LoginReply
  other_error : LoginReply

finish_login : LoginReply → Session → Session
finish_login accepted s = record s { login_step = refreshing; me_asking = true }
finish_login (api_error message) s = record s { login_step = resting; login_error = some message }
finish_login other_error s = record s { login_step = resting; login_error = some "Login failed" }

-- The answer of the status query, of the last of its requests if one was under way when the login was
-- accepted; `none` if it has failed: what the query has is kept then.
keep_data : Option Bool → Session → Session
keep_data none s = record s { me_asking = false }
keep_data (some authenticated) s = record s { me_asking = false; me_data = some authenticated }

-- a login that has waited for the status goes on to the inbox
continue_login : LoginStep → Session → Session
continue_login refreshing s = record s { login_step = resting; location = inbox_path }
continue_login _ s = s

unfoldable pub receive_me : Option Bool → Session → Session
unfolding keep_data continue_login
receive_me answer s = continue_login s.login_step (keep_data answer s)

-- Links are on the protected pages only.
open_link : Screen → Location → Session → Session
open_link (page _) location s = record s { location = location }
open_link _ location s = s

is_signing_in : LoginStep → Bool
is_signing_in signing_in = true
is_signing_in _ = false

pub data Event : Type 0 where
  type_password : String → Event
  press_sign_in redirects asks_status : Event
  login_ends : LoginReply → Event
  me_ends : Option Bool → Event
  clicks_link : Location → Event

unfoldable pub step : Event → Session → Session
unfolding open_link finish_login is_signing_in
step (type_password password) s = record s { password = password }
step press_sign_in s = (submit s).1
step redirects s = follow s
step asks_status s = record s { me_asking = true }
step (login_ends reply) s = if is_signing_in s.login_step then finish_login reply s else s
step (me_ends answer) s = if s.me_asking then receive_me answer s else s
step (clicks_link location) s = open_link (screen s) location s

unfoldable pub run : List Event → Session → Session
run [] s = s
run (e ∷ es) s = run es (step e s)
