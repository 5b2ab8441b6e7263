-- ===== src/Live/Tests.antt =====
-- The event stream on concrete runs (frontend/src/components/LiveUpdates.tsx).
use inboxone.Common.{◌≡◌, refl, true, List, [], ◌∷◌, contains}
use inboxone.Timers.{no_timers, set_timeout, clear_timeout, next_due, earliest, advance}
use inboxone.Activity.{initial, start_refresh, receive_activity}
use inboxone.Live.{
  Live, mounted, dispose, send_presence, do_refresh, connect, on_open, on_error, Event, opens,
  fails, timer, wait, visibility, step, run, run_timer,
}
use inboxone.Live.Phases.{core, IsStreaming, IsLive}
use inboxone.Live.Connection.{run-IsLive, mounted-IsLive}
use inboxone.Live.Reconnection.{run-IsStreaming, IsSilent, dispose-IsSilent}

abbrev page : Live
page = mounted true initial

abbrev broken : List Event
broken = opens 1 ∷ wait 50 ∷ fails 1 ∷ wait 100 ∷ []

program : Unit {0}
unfolding initial mounted send_presence do_refresh connect on_open on_error step run run_timer
    no_timers set_timeout clear_timeout next_due earliest advance start_refresh receive_activity
program = tt

reconnected :
    ((run broken page).open_streams ≡ [])
    × ((run (wait 3000 ∷ timer ∷ []) (run broken page)).open_streams ≡ 2 ∷ [])
    × ((run (wait 2899 ∷ timer ∷ []) (run broken page)).open_streams ≡ [])
unfolding program
reconnected = (refl, refl, refl)

run-IsLive_example : IsLive (core (run broken page))
run-IsLive_example = run-IsLive broken page (mounted-IsLive true initial)

-- the page has been shown, and the first connection fails, and a second one
abbrev shown : Live
shown = run (opens 1 ∷ wait 50 ∷ []) page

abbrev since : List Event
since = visibility true ∷ wait 3000 ∷ timer ∷ fails 2 ∷ []

shown_open : contains 1 shown.open_streams ≡ true
unfolding program
shown_open = refl

run-IsStreaming_example :
    ((step (fails 1) shown).open_streams ≡ [])
    × IsStreaming (core (run (wait 3000 ∷ timer ∷ []) (run since (step (fails 1) shown))))
run-IsStreaming_example =
    run-IsStreaming 1 since shown
      (run-IsLive (opens 1 ∷ wait 50 ∷ []) page (mounted-IsLive true initial)) shown_open
      (tt, (tt, (tt, (tt, tt))))

dispose-IsSilent_example :
    IsSilent (dispose page) (run (wait 5000 ∷ timer ∷ visibility true ∷ []) (dispose page))
dispose-IsSilent_example =
    dispose-IsSilent (wait 5000 ∷ timer ∷ visibility true ∷ []) page (mounted-IsLive true initial)
