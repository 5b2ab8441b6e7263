-- ===== src/Accounts.antt =====
-- The page of the accounts: frontend/src/pages/SettingsAccountsPage.tsx, with the rows of the accounts, their
-- folder pickers, and the dialog of Editor.
pub mod Removal
pub mod Rows
mod Tests
use inboxone.Common.{
  ℕ, ◌+◌, String, Bool, true, false, not, ◌&&◌, ◌||◌, Option, none, some, List, [], ◌∷◌, ◌++◌, map,
  is_some, filled, filled?, or_text, or_else, str_eq, ◌^^◌, ◌==◌, ◌=?=◌, if◌then◌else◌,
}
use inboxone.Types.{Folder, Protocol, imap_basic, oauth_microsoft, Account, TestConnectionResult}
use inboxone.Client.Paths.{Call, delete_account, test_connection, update_folders}

-- where the last call of a row's test stands
pub data TestState : Type 0 where
  untested testing test_failed : TestState
  tested : TestConnectionResult → TestState

-- A row: whether its folders are shown and its dialog is open, its test with the account that it was made
-- for, and the requests that it has made, the last one first.
pub record Row : Type 0 where
  pub account : Account
  pub expanded : Bool
  pub confirm_remove : Bool
  pub test : TestState
  pub test_variables : Option ℕ
  pub sent : List Call

abbrev pub row_of : Account → Row
row_of account = record {
  account = account;
  expanded = false;
  confirm_remove = false;
  test = untested;
  test_variables = none;
  sent = [];
}

unfoldable pub press_test : Row → Row
press_test r = record r {
  test = testing;
  test_variables = some r.account.id;
  sent = test_connection r.account.id ∷ r.sent;
}

is_testing : TestState → Bool
is_testing testing = true
is_testing _ = false

-- The answer of the last test, `none` if its request has failed; that of an earlier one is dropped.
unfoldable pub answer_test : Option TestConnectionResult → TestState
answer_test none = test_failed
answer_test (some result) = tested result

unfoldable pub test_ends : Option TestConnectionResult → Row → Row
unfolding is_testing answer_test
test_ends answer r = if is_testing r.test then record r { test = answer_test answer } else r

unfoldable pub press_folders : Row → Row
press_folders r = record r { expanded = not r.expanded }

unfoldable pub press_remove : Row → Row
press_remove r = record r { confirm_remove = true }

-- The buttons of the ConfirmDialog, which are there while it is open: both close it.
unfoldable pub cancel_remove : Row → Row
cancel_remove r = record r { confirm_remove = false }

unfoldable pub confirm : Row → Row
confirm r =
    if r.confirm_remove
    then record r { confirm_remove = false; sent = delete_account r.account.id ∷ r.sent }
    else r

pub data RowEvent : Type 0 where
  tests folders removes cancels confirms : RowEvent
  test_answers : Option TestConnectionResult → RowEvent
  loads : Account → RowEvent

-- the account of a row as it is loaded anew; its id is the row's key
reload : Account → Row → Row
reload account r = if account.id == r.account.id then record r { account = account } else r

unfoldable pub row_step : RowEvent → Row → Row
unfolding reload
row_step tests r = press_test r
row_step folders r = press_folders r
row_step removes r = press_remove r
row_step cancels r = cancel_remove r
row_step confirms r = confirm r
row_step (test_answers answer) r = test_ends answer r
row_step (loads account) r = reload account r

unfoldable pub row_run : List RowEvent → Row → Row
row_run [] r = r
row_run (e ∷ es) r = row_run es (row_step e r)

-- What a row shows of its account.
server_line : Protocol → Option String → String
server_line oauth_microsoft host = "Outlook / Microsoft 365"
server_line imap_basic host = or_else host ""

-- the text of the last synchronisation, and whether it is an error's
sync_badge : Option String → Option (String × Bool)
sync_badge none = none
sync_badge (some status) =
    if not (filled status)
    then none
    else if str_eq status "error"
    then some ("sync error", true)
    else some ("synced", false)

-- a line of a test: its text, and whether it is shown as good
unfoldable pub ok_line : String → Bool → Option String → String × Bool
ok_line name is_ok error = (name ^^ ": " ^^ (if is_ok then "OK" else or_else error ""), is_ok)

unfoldable pub smtp_lines : Option Bool → Option String → List (String × Bool)
unfolding ok_line
smtp_lines none error = []
smtp_lines (some is_ok) error = ok_line "SMTP" is_ok error ∷ []

unfoldable pub test_lines : TestState → List (String × Bool)
unfolding ok_line smtp_lines
test_lines (tested result) =
    ok_line "IMAP" result.imap_ok result.imap_error ∷ smtp_lines result.smtp_ok result.smtp_error
test_lines _ = []

pub record RowView : Type 0 where
  pub name : String
  pub server : String
  pub badge : Option (String × Bool)
  pub lines : List (String × Bool)
  pub shows_folders : Bool

unfoldable pub row_view : Row → RowView
unfolding server_line sync_badge test_lines
row_view r = record {
  name = r.account.name;
  server = server_line r.account.protocol r.account.imap_host;
  badge = sync_badge r.account.last_sync_status;
  lines = if r.test_variables =?= some r.account.id then test_lines r.test else [];
  shows_folders = r.expanded;
}

-- The folder picker: the query of the folders, and the request that a checkbox makes.
pub data FoldersQuery : Type 0 where
  loading failed : FoldersQuery
  loaded : List Folder → FoldersQuery

-- what it shows: a button to try again, a notice, or the boxes with their labels, none of which can be pressed
-- while a choice is being saved
pub data PickerView : Type 0 where
  retry_loading loading_notice : PickerView
  boxes : (no_folders disabled : Bool) → List (String × Bool) → PickerView

folder_label : Folder → String
folder_label f = or_text f.display_name f.imap_path

unfoldable pub picker_view : Bool → FoldersQuery → PickerView
unfolding folder_label
picker_view is_pending failed = retry_loading
picker_view is_pending loading = loading_notice
picker_view is_pending (loaded []) = boxes true is_pending []
picker_view is_pending (loaded (f ∷ fs)) =
    boxes false is_pending (map (λ g. (folder_label g, g.is_inbox)) (f ∷ fs))
