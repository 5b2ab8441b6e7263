-- ===== src/Mailbox/Tests.antt =====
-- The selection and the search on concrete events (frontend/src/pages/InboxPage.tsx).
use inboxone.Common.{◌≡◌, refl, some, List, [], ◌∷◌}
use inboxone.Common.Trim.{trim}
use inboxone.Timers.{advance}
use inboxone.Types.{Account}
use inboxone.Ui.{initial_ui}
use inboxone.Mailbox.{
  Mailbox, run_timer, opened_with, Event, choose_folder, type_search, wait, timer, run,
}
use inboxone.Mailbox.Search.{run_timer-advance}

abbrev typing : List (List Account × Event)
typing =
    ([], choose_folder 1 (some 4))
    ∷ ([], type_search " bil")
    ∷ ([], wait 100)
    ∷ ([], type_search " bill ")
    ∷ ([], wait 200)
    ∷ ([], timer)
    ∷ []

abbrev page : Mailbox
page = run typing (opened_with initial_ui)

trims : (trim " bill " ≡ "bill") × (trim " a b " ≡ "a b") × (trim "  " ≡ "")
unfolding trim
trims = (refl, refl, refl)

run_timer-advance_example :
    (run_timer (record page { timers = advance 250 page.timers })).debounced_search
    ≡ trim page.search_query
run_timer-advance_example = run_timer-advance initial_ui typing
