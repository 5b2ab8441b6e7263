-- ===== src/Editor.antt =====
-- The account editor and the folder choices: frontend/src/components/AccountEditorModal.tsx, with the page
-- that opens it, frontend/src/pages/SettingsAccountsPage.tsx.
pub mod Saving
pub mod Folders
pub mod Dialog
mod Tests
use inboxone.Common.{
  ℕ, String, Bool, true, false, not, ◌&&◌, ◌||◌, Option, none, some, List, [], ◌∷◌, map, is_some,
  or_else, filled, str_eq, if◌then◌else◌, truthy?,
}
use inboxone.Types.{Folder, Protocol, imap_basic, oauth_microsoft, Account, AccountCreateBasic}
use inboxone.Client.Paths.{Call, create_account, update_account, update_folders}

pub record Form : Type 0 where
  pub name : String
  pub color : String
  pub imap_host : String
  pub imap_port : ℕ
  pub imap_use_tls : Bool
  pub imap_username : String
  pub imap_password : String
  pub smtp_host : String
  pub smtp_port : ℕ
  pub smtp_use_tls : Bool
  pub smtp_username : String
  pub smtp_password : String
  pub is_active : Bool

abbrev pub empty_form : Form
empty_form = record {
  name = "";
  color = "#4F46E5";
  imap_host = "";
  imap_port = 993;
  imap_use_tls = true;
  imap_username = "";
  imap_password = "";
  smtp_host = "";
  smtp_port = 587;
  smtp_use_tls = true;
  smtp_username = "";
  smtp_password = "";
  is_active = true;
}

pub data EditorTab : Type 0 where
  basic microsoft : EditorTab

-- The state of the page and of the dialog: whether it is open, for which account, and what is filled in.
-- A request that creates and one that updates are under way each on their own.
pub record Editor : Type 0 where
  pub modal_open : Bool
  pub editing_account : Option Account
  pub tab : EditorTab
  pub form : Form
  pub created_id : Option ℕ
  pub creating : Bool
  pub updating : Bool

form_of : Account → Form
form_of account = record {
  name = account.name;
  color = account.color;
  imap_host = or_else account.imap_host "";
  imap_port = or_else account.imap_port 993;
  imap_use_tls = account.imap_use_tls;
  imap_username = or_else account.imap_username "";
  imap_password = "";
  smtp_host = or_else account.smtp_host "";
  smtp_port = or_else account.smtp_port 587;
  smtp_use_tls = account.smtp_use_tls;
  smtp_username = or_else account.smtp_username "";
  smtp_password = "";
  is_active = account.is_active;
}

unfoldable pub form_for : Option Account → Form
unfolding form_of
form_for none = empty_form
form_for (some account) = form_of account

-- the effect when the dialog is opened or its account changes
unfoldable pub load : Editor → Editor
unfolding form_for
load s =
    if not s.modal_open
    then s
    else record s { form = form_for s.editing_account; tab = basic; created_id = none }

unfoldable pub open_create : Editor → Editor
unfolding load
open_create s = load (record s { editing_account = none; modal_open = true })

unfoldable pub open_edit : Account → Editor → Editor
unfolding load
open_edit account s = load (record s { editing_account = some account; modal_open = true })

-- `handleModalOpenChange(false)`
unfoldable pub close_modal : Editor → Editor
close_modal s = record s { modal_open = false; editing_account = none }

-- The body of a request to change an account; a field that is left out is `none`.
pub record AccountUpdate : Type 0 where
  pub name : String
  pub color : String
  pub imap_host : Option String
  pub imap_port : Option ℕ
  pub imap_use_tls : Option Bool
  pub imap_username : Option String
  pub imap_password : Option String
  pub smtp_host : Option String
  pub smtp_port : Option ℕ
  pub smtp_use_tls : Option Bool
  pub smtp_username : Option String
  pub smtp_password : Option String
  pub is_active : Bool

-- What a press of the button that saves asks of the server.
pub data SaveRequest : Type 0 where
  create_request : AccountCreateBasic → SaveRequest
  update_request : ℕ → AccountUpdate → SaveRequest

if_filled : String → Option String
if_filled text = if filled text then some text else none

unfoldable pub handle_create : Form → SaveRequest
handle_create form = create_request (record {
  name = form.name;
  color = form.color;
  imap_host = form.imap_host;
  imap_port = form.imap_port;
  imap_use_tls = form.imap_use_tls;
  imap_username = form.imap_username;
  imap_password = form.imap_password;
  smtp_host = form.smtp_host;
  smtp_port = form.smtp_port;
  smtp_use_tls = form.smtp_use_tls;
  smtp_username = form.smtp_username;
  smtp_password = form.smtp_password;
  sync_interval_seconds = none;
})

handle_update_basic : Account → Form → SaveRequest
unfolding if_filled
handle_update_basic account form = update_request account.id (record {
  name = form.name;
  color = form.color;
  imap_host = some form.imap_host;
  imap_port = some form.imap_port;
  imap_use_tls = some form.imap_use_tls;
  imap_username = some form.imap_username;
  imap_password = if_filled form.imap_password;
  smtp_host = some form.smtp_host;
  smtp_port = some form.smtp_port;
  smtp_use_tls = some form.smtp_use_tls;
  smtp_username = some form.smtp_username;
  smtp_password = if_filled form.smtp_password;
  is_active = form.is_active;
})

handle_update_oauth_meta : Account → Form → SaveRequest
handle_update_oauth_meta account form = update_request account.id (record {
  name = form.name;
  color = form.color;
  imap_host = none;
  imap_port = none;
  imap_use_tls = none;
  imap_username = none;
  imap_password = none;
  smtp_host = none;
  smtp_port = none;
  smtp_use_tls = none;
  smtp_username = none;
  smtp_password = none;
  is_active = form.is_active;
})

-- Which of its views the dialog shows.
pub data EditorView : Type 0 where
  created oauth_edit oauth_create basic_edit basic_create : EditorView

edit_view : Protocol → EditorView
edit_view imap_basic = basic_edit
edit_view oauth_microsoft = oauth_edit

create_view : EditorTab → EditorView
create_view basic = basic_create
create_view microsoft = oauth_create

account_view : Option Account → EditorTab → EditorView
unfolding edit_view create_view
account_view none tab = create_view tab
account_view (some account) tab = edit_view account.protocol

unfoldable pub view : Editor → EditorView
unfolding account_view
view s = if truthy? s.created_id then created else account_view s.editing_account s.tab

-- the save button of a view: what it asks for, unless it is disabled
save_create : Editor → Option SaveRequest
unfolding handle_create
save_create s =
    if s.creating || not (filled s.form.name) || not (filled s.form.imap_host)
    then none
    else some (handle_create s.form)

save_basic : Option Account → Editor → Option SaveRequest
unfolding handle_update_basic
save_basic none s = none
save_basic (some account) s =
    if s.updating || not (filled s.form.name) || not (filled s.form.imap_host)
    then none
    else some (handle_update_basic account s.form)

save_oauth : Option Account → Editor → Option SaveRequest
unfolding handle_update_oauth_meta
save_oauth none s = none
save_oauth (some account) s =
    if s.updating || not (filled s.form.name)
    then none
    else some (handle_update_oauth_meta account s.form)

save_in : EditorView → Editor → Option SaveRequest
unfolding save_create save_basic save_oauth
save_in created s = none
save_in oauth_create s = none
save_in oauth_edit s = save_oauth s.editing_account s
save_in basic_edit s = save_basic s.editing_account s
save_in basic_create s = save_create s

unfoldable pub press_save : Editor → Option SaveRequest
unfolding save_in view
press_save s = save_in (view s) s

-- a request to create has succeeded, and one to update
unfoldable pub finish_create : ℕ → Editor → Editor
finish_create id s = record s { created_id = some id; creating = false }

unfoldable pub finish_update : Editor → Editor
unfolding close_modal
finish_update s = close_modal (record s { updating = false })

-- The folder choices: the body of the request that a checkbox makes.
pub record FolderChoice : Type 0 where
  pub imap_path : String
  pub is_inbox : Bool

unfoldable pub toggle : String → Bool → List Folder → List FolderChoice
toggle path enabled folders =
    map
      (λ f. record {
        imap_path = f.imap_path;
        is_inbox = if str_eq f.imap_path path then enabled else f.is_inbox;
      })
      folders
