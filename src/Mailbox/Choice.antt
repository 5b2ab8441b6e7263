-- ===== src/Mailbox/Choice.antt =====
-- A folder is selected only with its account (frontend/src/pages/InboxPage.tsx and
-- frontend/src/store/uiStore.ts).
use inboxone.Common.{
  ◌≡◌, refl, arith, ℕ, String, false, not, ◌&&◌, Option, none, some, List, [], ◌∷◌, is_some,
}
use inboxone.Timers.{Timer, next_due}
use inboxone.Types.{Account}
use inboxone.Ui.{set_selected_account_id, set_selected_folder_id, set_selected_message_id}
use inboxone.Mailbox.{
  Mailbox, request, select_account, select_folder, check_folder, forget_folder, click_notification,
  select_message, change_unread_only, press_mark_all_read, change_search, start_search, run_timer,
  run_due, Event, choose_account, choose_folder, load_accounts, open_notification, type_search,
  timer, step, run,
}

-- a folder is selected only with an account
abbrev pub IsChoice : Option ℕ → Option ℕ → Type 0
IsChoice s f = (is_some f && not (is_some s)) ≡ false

abbrev pub ChoiceOf : Mailbox → Type 0
ChoiceOf s = IsChoice s.ui.selected_account_id s.ui.selected_folder_id

forget_keeps :
    (f : Option ℕ) (accounts : List Account) (s : Mailbox)
    → ChoiceOf s
    → ChoiceOf (forget_folder f accounts s)
unfolding forget_folder set_selected_folder_id set_selected_message_id
forget_keeps none accounts s h = h
forget_keeps (some id) accounts s h = ground arith

timer_keeps : (t : Option (Timer String)) (s : Mailbox) → ChoiceOf s → ChoiceOf (run_due t s)
unfolding run_due
timer_keeps none s h = h
timer_keeps (some t) s h = h

step-IsChoice :
    (accounts : List Account) (e : Event) (s : Mailbox) → ChoiceOf s → ChoiceOf (step accounts e s)
unfolding step select_account select_folder request click_notification select_message
    change_unread_only press_mark_all_read change_search start_search check_folder forget_folder
    run_timer run_due next_due set_selected_account_id set_selected_folder_id
    set_selected_message_id
step-IsChoice accounts (choose_account id) s h = refl
step-IsChoice accounts (choose_folder a f) s h = ground arith
step-IsChoice accounts (load_accounts none) s h = h
step-IsChoice accounts (load_accounts (some loaded)) s h =
    forget_keeps s.ui.selected_folder_id loaded s h
step-IsChoice accounts (type_search query) s h = ground arith
step-IsChoice accounts timer s h = timer_keeps (next_due s.timers) s h
step-IsChoice accounts (open_notification message) s h = refl
step-IsChoice accounts _ s h = h

pub run-IsChoice :
    (es : List (List Account × Event)) (s : Mailbox) → ChoiceOf s → ChoiceOf (run es s)
unfolding run
run-IsChoice [] s h = h
run-IsChoice ((accounts, e) ∷ es) s h =
    run-IsChoice es (step accounts e s) (step-IsChoice accounts e s h)
