-- ===== src/Session/Tests.antt =====
-- Routes and logins on concrete runs (frontend/src/App.tsx and frontend/src/pages/LoginPage.tsx).
use inboxone.Common.{◌≡◌, ◌≢◌, refl, true, false, some, List, [], ◌∷◌}
use inboxone.Session.{
  login_path, inbox_path, accounts_path, other_path, resting, Session, opened, blank, page, screen,
  follow, submit, is_pending, accepted, api_error, receive_me, Event, type_password, press_sign_in,
  redirects, login_ends, me_ends, clicks_link, step, run,
}
use inboxone.Session.Routes.{shown_at, destination, screen-follow, run-shut}
use inboxone.Session.Login.{run-accepted}

program : Unit {0}
unfolding screen follow submit is_pending receive_me step run
program = tt

screen-follow_example :
    screen (follow (follow (opened (other_path "/old"))))
    ≡ shown_at (destination (opened (other_path "/old")).location) (opened (other_path "/old"))
screen-follow_example = screen-follow (opened (other_path "/old"))

-- a visitor of an unknown path logs in at the second attempt
abbrev visit : List Event
visit =
    redirects
    ∷ me_ends (some false)
    ∷ redirects
    ∷ type_password "a"
    ∷ press_sign_in
    ∷ press_sign_in
    ∷ login_ends (api_error "Wrong password")
    ∷ []

abbrev second_attempt : List Event
second_attempt =
    type_password "b"
    ∷ press_sign_in
    ∷ login_ends accepted
    ∷ redirects
    ∷ me_ends (some true)
    ∷ clicks_link accounts_path
    ∷ []

visits :
    (screen (run (redirects ∷ []) (opened (other_path "/old"))) ≡ blank)
    × ((run visit (opened (other_path "/old"))).login_error ≡ some "Wrong password")
    × (screen (run second_attempt (run visit (opened (other_path "/old")))) ≡ page accounts_path)
unfolding program
visits = (refl, refl, refl)

run-shut_example : screen (run visit (opened inbox_path)) ≢ page inbox_path
run-shut_example = run-shut visit (opened inbox_path) refl refl inbox_path

abbrev at_form : Session
at_form = record (opened login_path) { me_data = some false; me_asking = false; password = "b" }

run-accepted_example :
    (screen (
        step (me_ends (some true)) (
          run
            (redirects ∷ [])
            (step (login_ends accepted) (run (press_sign_in ∷ []) (step press_sign_in at_form)))))
      ≡ page inbox_path)
    × ((step (me_ends (some true)) (
          run (redirects ∷ []) (
            step
              (login_ends accepted)
              (run (press_sign_in ∷ []) (step press_sign_in at_form))))).login_step
        ≡ resting)
run-accepted_example =
    run-accepted (press_sign_in ∷ []) (redirects ∷ []) true at_form refl refl refl refl
