-- ===== src/Editor/Dialog/Fields.antt =====
-- What the dialog of the account editor shows (frontend/src/components/AccountEditorModal.tsx).
pub mod Saved
use inboxone.Common.{
  ℕ, ◌≡◌, refl, ap, arith, String, Bool, true, false, not, ◌&&◌, ◌||◌, Option, none, some, List, [],
  ◌∷◌, ◌++◌, is_some, filled, truthy?, if◌then◌else◌, or_else, ◌^^◌, All,
}
use inboxone.Types.{Account, Protocol, imap_basic, oauth_microsoft}
use inboxone.Editor.{
  Form, EditorTab, Editor, SaveRequest, EditorView, created, oauth_edit, oauth_create, basic_edit,
  basic_create, view, account_view, edit_view, create_view, press_save, save_in, save_create,
  save_basic, save_oauth, handle_create, handle_update_basic, handle_update_oauth_meta,
}
use inboxone.Editor.Dialog.{
  FieldKey, key_name, key_color, key_is_active, key_imap_host, key_imap_port, key_imap_use_tls,
  key_imap_username, key_imap_password, key_smtp_host, key_smtp_port, key_smtp_use_tls,
  key_smtp_username, key_smtp_password, ValueOf, field_value, Dialog, dialog_saving, has_error,
}

-- the rows of a form: an input for a key, under its label, or a heading
pub data InputType : Type 0 where
  text_input color_input number_input checkbox_input : InputType
  password_input : Option String → InputType

pub data Row : Type 0 where
  heading : String → Row
  field : String → InputType → FieldKey → Row

name_rows : List Row
name_rows = field "Name" text_input key_name ∷ field "Color" color_input key_color ∷ []

active_row : List Row
active_row =
    field "Active (uncheck to pause syncing without removing the account)" checkbox_input
      key_is_active
    ∷ []

-- the input for a password, of a new account or of one that has one
password : Bool → InputType
password is_edit =
    password_input (if is_edit then some "Leave blank to keep the current password" else none)

server_rows : Bool → List Row
unfolding password
server_rows is_edit =
    heading "IMAP (receiving)"
    ∷ field "Host" text_input key_imap_host
    ∷ field "Port" number_input key_imap_port
    ∷ field "Use TLS" checkbox_input key_imap_use_tls
    ∷ field "Username" text_input key_imap_username
    ∷ field "Password" (password is_edit) key_imap_password
    ∷ heading "SMTP (sending)"
    ∷ field "Host" text_input key_smtp_host
    ∷ field "Port" number_input key_smtp_port
    ∷ field "Use TLS" checkbox_input key_smtp_use_tls
    ∷ field "Username" text_input key_smtp_username
    ∷ field "Password" (password is_edit) key_smtp_password
    ∷ []

unfoldable pub rows : EditorView → List Row
unfolding name_rows active_row server_rows
rows created = []
rows oauth_create = []
rows oauth_edit = name_rows ++ active_row
rows basic_create = name_rows ++ server_rows false
rows basic_edit = name_rows ++ server_rows true ++ active_row

-- the button that saves
pub record SaveButton : Type 0 where
  pub label : String
  pub disabled : Bool

save_label : Bool → Bool → String
save_label saving is_edit =
    if saving then "Saving..." else if is_edit then "Save changes" else "Save account"

basic_button : Bool → Bool → Form → SaveButton
unfolding save_label
basic_button saving is_edit form = record {
  label = save_label saving is_edit;
  disabled = saving || not (filled form.name) || not (filled form.imap_host);
}

save_button : EditorView → Bool → Bool → Form → Option SaveButton
unfolding basic_button save_label
save_button created saving is_edit form = none
save_button oauth_create saving is_edit form = none
save_button oauth_edit saving is_edit form =
    some (record { label = save_label saving true; disabled = saving || not (filled form.name) })
save_button basic_create saving is_edit form = some (basic_button saving is_edit form)
save_button basic_edit saving is_edit form = some (basic_button saving is_edit form)

error_text : EditorView → Bool → Option String
error_text created is_edit = none
error_text oauth_create is_edit = none
error_text oauth_edit is_edit = some "Failed to save changes - check the details and try again."
error_text _ is_edit = some (
    "Failed to save "
    ^^ (if is_edit then "changes" else "account")
    ^^ " - check the details and try again.")

-- the flow that links a Microsoft account, in the dialog: a new one, or the account of an id again
pub data Flow : Type 0 where
  links : Flow
  reconnects : String → ℕ → Flow

connected_as : Account → String
connected_as account =
    "Connected as "
    ^^ or_else account.imap_username "unknown"
    ^^ ". If sign-in has expired or been revoked, reconnect below."

reconnect_flow : Option Account → Option Flow
unfolding connected_as
reconnect_flow none = none
reconnect_flow (some account) = some (reconnects (connected_as account) account.id)

flow_in : EditorView → Option Account → Option Flow
unfolding reconnect_flow
flow_in oauth_create account = some links
flow_in oauth_edit account = reconnect_flow account
flow_in _ account = none

pub record Shown : Type 0 where
  pub title : String
  pub added : Bool
  pub tabs : Bool
  pub inputs : List Row
  pub error : Option String
  pub flow : Option Flow
  pub save : Option SaveButton

unfoldable pub shown_in : EditorView → Dialog → Shown
unfolding rows save_button error_text flow_in dialog_saving has_error
shown_in v d =
    let is_edit = is_some d.editor.editing_account in
    record {
      title = if is_edit then "Edit account" else "Add account";
      added = truthy? d.editor.created_id;
      tabs = not (truthy? d.editor.created_id) && not is_edit;
      inputs = rows v;
      error = if has_error d then error_text v is_edit else none;
      flow = flow_in v d.editor.editing_account;
      save = save_button v (dialog_saving d) is_edit d.editor.form;
    }

unfoldable pub shown : Dialog → Option Shown
unfolding shown_in
shown d = if d.editor.modal_open then some (shown_in (view d.editor) d) else none
