-- ===== src/Linking/Tests.antt =====
-- Linking an account on concrete runs (frontend/src/components/OAuthMicrosoftLinkFlow.tsx).
use inboxone.Common.{◌≡◌, refl, none, some, true, List, [], ◌∷◌, ◌++◌}
use inboxone.Types.{Segment}
use inboxone.Client.Paths.{oauth_start, oauth_reconnect, oauth_poll}
use inboxone.Linking.{
  StartResponse, pending, complete, PollResponse, started, LinkFlow, mounted, linked, code_to_enter,
  view, press_start, start_payload, reconnect_due, poll_due, send_poll, receive_poll, Event,
  set_name, press, poll, reconnects, error, start_ends, poll_ends, step, run,
}
use inboxone.Linking.Protocol.{AreServed, run-Moves, mounted-IsFlow}
use inboxone.Linking.Phases.{done, waiting, phase, Moves, IsFlow}
use inboxone.Linking.Settled.{run-first_poll_failed}

abbrev f1 : Segment
f1 = record { text = "f1"; plain = refl }

abbrev response : StartResponse
response = record {
  flow_id = f1;
  user_code = "ABCD";
  verification_uri = "https://microsoft.com/devicelogin";
  expires_in = 900;
}

abbrev not_yet : PollResponse
not_yet = record { status = pending; error_text = none; account_id = none }

abbrev linked_now : PollResponse
linked_now = record { status = complete; error_text = none; account_id = some 4 }

-- the button is pressed twice, the timer fires while a poll is under way, and later the browser is back online
abbrev asked : List Event
asked = press ∷ set_name "Work" ∷ press ∷ press ∷ start_ends (some response) ∷ poll ∷ poll ∷ []

abbrev linking : List Event
linking =
    asked
    ++ poll_ends (some not_yet)
      ∷ reconnects
      ∷ poll_ends none
      ∷ poll
      ∷ poll_ends (some linked_now)
      ∷ []

program : Unit {0}
unfolding view press_start reconnect_due poll_due send_poll receive_poll step run
program = tt

linking_runs :
    ((run linking (mounted none)).sent
      ≡ oauth_poll f1 ∷ oauth_poll f1 ∷ oauth_poll f1 ∷ oauth_start ∷ [])
    × (view (run asked (mounted none)) ≡ code_to_enter "https://microsoft.com/devicelogin" "ABCD")
    × (view (run linking (mounted none)) ≡ linked "Account linked successfully.")
    × ((run (press ∷ []) (mounted (some 3))).sent ≡ oauth_reconnect 3 ∷ [])
    × (start_payload (mounted (some 3)) ≡ none)
unfolding program start_payload
linking_runs = (refl, refl, refl, refl, refl)

linking_phases :
    (phase (run asked (mounted none)) ≡ waiting response)
    × (phase (run linking (mounted none)) ≡ done)
unfolding program phase
linking_phases = (refl, refl)

served : AreServed (mounted none) linking
unfolding program
served = (tt, (tt, (tt, (tt, (refl, (tt, (tt, (tt, (refl, (tt, (tt, (tt, tt))))))))))))

run-Moves_example :
    Moves (phase (mounted none)) (phase (run linking (mounted none)))
    × IsFlow (run linking (mounted none))
run-Moves_example = run-Moves linking (mounted none) served (mounted-IsFlow none)

abbrev at_end : LinkFlow
at_end = record (mounted none) {
  start = started response;
  flow_id = some f1;
  poll_data = some linked_now;
  polled = true;
  refreshed = 1;
}

abbrev unknown : PollResponse
unknown = record { status = error; error_text = some "Unknown flow id"; account_id = none }

abbrev first_poll : LinkFlow
first_poll = record (mounted none) {
  start = started response;
  flow_id = some f1;
  polling = true;
  polled = true;
}

run-first_poll_failed_example :
    (view (run (poll ∷ press ∷ poll ∷ []) (step (poll_ends none) first_poll))
      ≡ code_to_enter "https://microsoft.com/devicelogin" "ABCD")
    × ((run (poll ∷ press ∷ poll ∷ []) (step (poll_ends none) first_poll)).sent ≡ [])
    × ((step reconnects (step (poll_ends none) first_poll)).sent ≡ oauth_poll f1 ∷ [])
run-first_poll_failed_example =
    run-first_poll_failed (poll ∷ press ∷ poll ∷ []) first_poll response (tt, (tt, (tt, tt))) refl
      refl refl refl refl refl
