-- ===== src/Editor/Dialog.antt =====
-- The dialog of the account editor over time: what is typed, the two requests that save, and the page that opens
-- it (frontend/src/components/AccountEditorModal.tsx and frontend/src/pages/SettingsAccountsPage.tsx).
pub mod Late
pub mod Fields
use inboxone.Common.{
  ℕ, String, Bool, true, false, not, ◌&&◌, ◌||◌, Option, none, some, List, [], ◌∷◌, is_some,
  truthy?, if◌then◌else◌,
}
use inboxone.Types.{Account}
use inboxone.Editor.{
  Form, EditorTab, basic, Editor, empty_form, load, open_create, open_edit, close_modal,
  SaveRequest, create_request, update_request, press_save, finish_create, finish_update,
}

-- the keys of the form, and what each of them holds; a port is what `Number` makes of its field
pub data FieldKey : Type 0 where
  key_name key_color key_is_active : FieldKey
  key_imap_host key_imap_port key_imap_use_tls key_imap_username key_imap_password : FieldKey
  key_smtp_host key_smtp_port key_smtp_use_tls key_smtp_username key_smtp_password : FieldKey

abbrev pub ValueOf : FieldKey → Type 0
ValueOf key_imap_port = ℕ
ValueOf key_smtp_port = ℕ
ValueOf key_imap_use_tls = Bool
ValueOf key_smtp_use_tls = Bool
ValueOf key_is_active = Bool
ValueOf _ = String

unfoldable pub field_value : (key : FieldKey) → Form → ValueOf key
field_value key_name form = form.name
field_value key_color form = form.color
field_value key_imap_host form = form.imap_host
field_value key_imap_port form = form.imap_port
field_value key_imap_use_tls form = form.imap_use_tls
field_value key_imap_username form = form.imap_username
field_value key_imap_password form = form.imap_password
field_value key_smtp_host form = form.smtp_host
field_value key_smtp_port form = form.smtp_port
field_value key_smtp_use_tls form = form.smtp_use_tls
field_value key_smtp_username form = form.smtp_username
field_value key_smtp_password form = form.smtp_password
field_value key_is_active form = form.is_active

-- `update(key, value)`
abbrev pub FieldUpdate : Type 0
FieldUpdate = (key : FieldKey) × ValueOf key

unfoldable pub update : FieldUpdate → Form → Form
update (key_name, value) form = record form { name = value }
update (key_color, value) form = record form { color = value }
update (key_imap_host, value) form = record form { imap_host = value }
update (key_imap_port, value) form = record form { imap_port = value }
update (key_imap_use_tls, value) form = record form { imap_use_tls = value }
update (key_imap_username, value) form = record form { imap_username = value }
update (key_imap_password, value) form = record form { imap_password = value }
update (key_smtp_host, value) form = record form { smtp_host = value }
update (key_smtp_port, value) form = record form { smtp_port = value }
update (key_smtp_use_tls, value) form = record form { smtp_use_tls = value }
update (key_smtp_username, value) form = record form { smtp_username = value }
update (key_smtp_password, value) form = record form { smtp_password = value }
update (key_is_active, value) form = record form { is_active = value }

-- The dialog is part of the page, open or not: so are its two mutations, each with the error of its last call.
-- `sent` are the requests that it has made, the last one first.
pub record Dialog : Type 0 where
  pub editor : Editor
  pub create_error : Bool
  pub update_error : Bool
  pub sent : List SaveRequest

abbrev pub closed_dialog : Dialog
closed_dialog = record {
  editor = record {
    modal_open = false;
    editing_account = none;
    tab = basic;
    form = empty_form;
    created_id = none;
    creating = false;
    updating = false;
  };
  create_error = false;
  update_error = false;
  sent = [];
}

-- `isSaving` and `hasError`
unfoldable pub dialog_saving : Dialog → Bool
dialog_saving d = if is_some d.editor.editing_account then d.editor.updating else d.editor.creating

unfoldable pub has_error : Dialog → Bool
has_error d = if is_some d.editor.editing_account then d.update_error else d.create_error

start_save : Option SaveRequest → Dialog → Dialog
start_save none d = d
start_save (some (create_request account)) d = record d {
  editor = record d.editor { creating = true };
  create_error = false;
  sent = create_request account ∷ d.sent;
}
start_save (some (update_request id payload)) d = record d {
  editor = record d.editor { updating = true };
  update_error = false;
  sent = update_request id payload ∷ d.sent;
}

-- the answer to a request that creates, with the new account's id, `none` if it has failed
answer_create : Option ℕ → Dialog → Dialog
unfolding finish_create
answer_create none d = record d {
  editor = record d.editor { creating = false };
  create_error = true;
}
answer_create (some id) d = record d { editor = finish_create id d.editor }

answer_update : Bool → Dialog → Dialog
unfolding finish_update
answer_update false d = record d {
  editor = record d.editor { updating = false };
  update_error = true;
}
answer_update true d = record d { editor = finish_update d.editor }

pub data DialogEvent : Type 0 where
  opens_create closes saves : DialogEvent
  opens_edit : Account → DialogEvent
  picks : EditorTab → DialogEvent
  updates : FieldUpdate → DialogEvent
  create_ends : Option ℕ → DialogEvent
  update_ends : Bool → DialogEvent

-- The page behind an open dialog cannot be used.
open_with : (Editor → Editor) → Dialog → Dialog
open_with f d = if d.editor.modal_open then d else record d { editor = f d.editor }

edit_form : FieldUpdate → Editor → Editor
unfolding update
edit_form u s = record s { form = update u s.form }

unfoldable pub dialog_step : DialogEvent → Dialog → Dialog
unfolding open_with edit_form start_save answer_create answer_update
dialog_step opens_create d = open_with open_create d
dialog_step (opens_edit account) d = open_with (open_edit account) d
dialog_step closes d = record d { editor = close_modal d.editor }
dialog_step (picks tab) d = record d { editor = record d.editor { tab = tab } }
dialog_step (updates u) d = record d { editor = edit_form u d.editor }
dialog_step saves d = start_save (press_save d.editor) d
dialog_step (create_ends answer) d = if d.editor.creating then answer_create answer d else d
dialog_step (update_ends succeeded) d = if d.editor.updating then answer_update succeeded d else d

unfoldable pub dialog_run : List DialogEvent → Dialog → Dialog
dialog_run [] d = d
dialog_run (e ∷ es) d = dialog_run es (dialog_step e d)
