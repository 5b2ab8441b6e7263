-- ===== src/Mailbox.antt =====
-- The selection and the filters of frontend/src/pages/InboxPage.tsx, with the click on a notification in
-- frontend/src/components/NewMailWatcher.tsx and the rail's choices in
-- frontend/src/components/AccountFilterRail.tsx.
pub mod Search
pub mod Selection
pub mod Choice
pub mod Panes
mod Tests
use inboxone.Common.{
  ℕ, ◌+◌, String, Bool, true, false, not, ◌&&◌, Option, none, some, List, [], ◌∷◌, ◌++◌, ◌==◌,
  ◌=?=◌, if◌then◌else◌, is_some, find?, any, or_text, str_eq, ◌^^◌,
}
use inboxone.Common.Trim.{trim}
use inboxone.Timers.{Timers, Timer, no_timers, set_timeout, clear_timeout, next_due, advance}
use inboxone.Types.{Folder, Account, MessageSummary}
use inboxone.Activity.{WorkDescription}
use inboxone.Client.{work_of}
use inboxone.Client.Paths.{
  Call, trigger_all, trigger_account, trigger_folder, mark_all_read, MessageFilters,
}
use inboxone.Client.Request.{ActivityOption, unspecified, given}
use inboxone.Ui.{
  Ui, initial_ui, set_selected_account_id, set_selected_folder_id, set_selected_message_id,
}

-- The page's state, and the requests that it has made, the last one last. A timer sets the debounced
-- search.
pub record Mailbox : Type 0 where
  pub ui : Ui
  pub search_query : String
  pub debounced_search : String
  pub unread_only : Bool
  pub rail_open : Bool
  pub timers : Timers String
  pub search_timer : ℕ
  pub requests : List (Call × ActivityOption)

unfoldable pub request : Call → ActivityOption → Mailbox → Mailbox
request call activity s = record s { requests = s.requests ++ (call, activity) ∷ [] }

trigger_for : Option ℕ → Call
trigger_for none = trigger_all
trigger_for (some id) = trigger_account id

unfoldable pub select_account : Option ℕ → Mailbox → Mailbox
unfolding request trigger_for set_selected_account_id set_selected_folder_id set_selected_message_id
select_account id s =
    let asked = request (trigger_for id) unspecified s in
    record asked {
      ui =
          set_selected_folder_id none
            (set_selected_account_id id (set_selected_message_id none asked.ui));
    }

unfoldable pub find_folder : Option ℕ → Option Account → Option Folder
find_folder none account = none
find_folder (some id) none = none
find_folder (some id) (some account) = find? (λ item. item.id == id) account.folders

unfoldable pub folder_name : Folder → String
folder_name folder = or_text folder.display_name folder.imap_path

unfoldable pub refresh_label : Option Folder → String
unfolding folder_name
refresh_label none = "Refreshing account…"
refresh_label (some folder) = "Refreshing " ^^ folder_name folder ^^ "…"

trigger_in : ℕ → Option ℕ → Call
trigger_in account_id none = trigger_account account_id
trigger_in account_id (some folder_id) = trigger_folder folder_id

-- the request for a folder, or for the account it is in
unfoldable pub folder_request : List Account → ℕ → Option ℕ → Call × ActivityOption
unfolding trigger_in find_folder refresh_label
folder_request accounts account_id folder_id =
    let folder = find_folder folder_id (find? (λ account. account.id == account_id) accounts) in
    let work = record (work_of (refresh_label folder) "sync") {
      account_id = some account_id;
      folder_id = folder_id;
    } in
    (trigger_in account_id folder_id, given work)

unfoldable pub select_folder : List Account → ℕ → Option ℕ → Mailbox → Mailbox
unfolding request folder_request set_selected_account_id set_selected_folder_id
    set_selected_message_id
select_folder accounts account_id folder_id s =
    let (call, activity) = folder_request accounts account_id folder_id in
    let asked = request call activity s in
    record asked {
      ui =
          set_selected_folder_id folder_id
            (set_selected_account_id (some account_id) (set_selected_message_id none asked.ui));
    }

abbrev pub has_folder : ℕ → List Account → Bool
has_folder id accounts = any (λ account. any (λ folder. folder.id == id) account.folders) accounts

forget_folder : Option ℕ → List Account → Mailbox → Mailbox
unfolding set_selected_folder_id set_selected_message_id
forget_folder none accounts s = s
forget_folder (some id) accounts s =
    if has_folder id accounts
    then s
    else record s { ui = set_selected_message_id none (set_selected_folder_id none s.ui) }

-- the effect on the accounts, once they have been loaded
unfoldable pub check_folder : Option (List Account) → Mailbox → Mailbox
unfolding forget_folder
check_folder none s = s
check_folder (some accounts) s = forget_folder s.ui.selected_folder_id accounts s

-- the click on a notification
unfoldable pub click_notification : MessageSummary → Mailbox → Mailbox
unfolding set_selected_account_id set_selected_folder_id set_selected_message_id
click_notification message s = record s {
  ui = set_selected_message_id (some message.id) (
      set_selected_folder_id (some message.folder_id)
        (set_selected_account_id (some message.account_id) s.ui));
}

unfoldable pub select_message : Option ℕ → Mailbox → Mailbox
unfolding set_selected_message_id
select_message id s = record s { ui = set_selected_message_id id s.ui }

-- the effect on the search, with the cleanup of the one before it
unfoldable pub start_search : Mailbox → Mailbox
unfolding trim set_timeout clear_timeout
start_search s =
    let (handle, timers) =
      set_timeout (trim s.search_query) 250 (clear_timeout s.search_timer s.timers) in
    record s { timers = timers; search_timer = handle }

abbrev pub with_query : String → Mailbox → Mailbox
with_query query s = record s {
  search_query = query;
  ui = record s.ui { selected_message_id = none };
}

unfoldable pub change_search : String → Mailbox → Mailbox
unfolding start_search
change_search query s =
    if str_eq query s.search_query then with_query query s else start_search (with_query query s)

unfoldable pub change_unread_only : Bool → Mailbox → Mailbox
unfolding set_selected_message_id
change_unread_only enabled s = record s {
  unread_only = enabled;
  ui = set_selected_message_id none s.ui;
}

unfoldable pub press_mark_all_read : Mailbox → Mailbox
unfolding request
press_mark_all_read s =
    request (mark_all_read s.ui.selected_account_id s.ui.selected_folder_id) unspecified s

-- the filters of the list that the page asks for
unfoldable pub filters : Mailbox → MessageFilters
filters s = record {
  account_id = s.ui.selected_account_id;
  folder_id = s.ui.selected_folder_id;
  unread_only = s.unread_only;
  search = some s.debounced_search;
}

run_due : Option (Timer String) → Mailbox → Mailbox
unfolding clear_timeout
run_due none s = s
run_due (some t) s = record s {
  debounced_search = t.callback;
  timers = clear_timeout t.handle s.timers;
}

unfoldable pub run_timer : Mailbox → Mailbox
unfolding run_due next_due
run_timer s = run_due (next_due s.timers) s

unfoldable pub first_page : Ui → Mailbox
unfolding no_timers
first_page ui = record {
  ui = ui;
  search_query = "";
  debounced_search = "";
  unread_only = false;
  rail_open = false;
  timers = no_timers;
  search_timer = 0;
  requests = [];
}

-- the page when it has been opened, its effect having run
unfoldable pub opened_with : Ui → Mailbox
unfolding start_search
opened_with ui = start_search (first_page ui)

pub data Event : Type 0 where
  choose_account : Option ℕ → Event
  choose_folder : ℕ → Option ℕ → Event
  load_accounts : Option (List Account) → Event
  open_notification : MessageSummary → Event
  open_message : Option ℕ → Event
  type_search : String → Event
  toggle_unread : Bool → Event
  mark_all : Event
  set_rail : Bool → Event
  wait : ℕ → Event
  timer : Event

-- The rail closes its drawer after a choice.
unfoldable pub step : List Account → Event → Mailbox → Mailbox
step accounts (choose_account id) s = record (select_account id s) { rail_open = false }
step accounts (choose_folder account_id folder_id) s =
    record (select_folder accounts account_id folder_id s) { rail_open = false }
step accounts (load_accounts loaded) s = check_folder loaded s
step accounts (open_notification message) s = click_notification message s
step accounts (open_message id) s = select_message id s
step accounts (type_search query) s = change_search query s
step accounts (toggle_unread enabled) s = change_unread_only enabled s
step accounts mark_all s = press_mark_all_read s
step accounts (set_rail open_) s = record s { rail_open = open_ }
step accounts (wait ms) s = record s { timers = advance ms s.timers }
step accounts timer s = run_timer s

unfoldable pub run : List (List Account × Event) → Mailbox → Mailbox
run [] s = s
run ((accounts, e) ∷ es) s = run es (step accounts e s)
