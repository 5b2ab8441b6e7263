-- ===== src/Editor/Tests.antt =====
-- The account editor on a concrete account (frontend/src/components/AccountEditorModal.tsx).
use inboxone.Common.{◌≡◌, refl, String, Bool, true, false, none, some, List, [], ◌∷◌}
use inboxone.Types.{Folder, imap_basic, Account}
use inboxone.Editor.{
  create_request, Editor, empty_form, basic, basic_edit, microsoft, load, open_create, open_edit,
  close_modal, update_request, press_save, form_for, view, created, oauth_create, finish_create,
}
use inboxone.Editor.Saving.{IsSound, press_save-IsSound, unchanged, press_save-open_edit}
use inboxone.Editor.Dialog.{
  FieldUpdate, key_name, key_imap_host, field_value, update, Dialog, closed_dialog, dialog_saving,
  has_error, opens_create, opens_edit, closes, saves, create_ends, update_ends, dialog_step,
  dialog_run,
}
use inboxone.Editor.Dialog.Fields.{Shown, shown, shown_in, rows}
use inboxone.Editor.Dialog.Fields.Saved.{press_save-alike}
use inboxone.Editor.Dialog.Late.{
  changed, typing, typed_account, run-update_ends, run-create_ends, run-saves,
}

abbrev folder_of : String → Bool → Folder
folder_of path inbox = record {
  id = 1;
  imap_path = path;
  display_name = none;
  is_inbox = inbox;
  history_complete = true;
  last_synced_at = none;
  unread_count = 0;
}

abbrev account : Account
account = record {
  id = 3;
  name = "Work";
  color = "#4F46E5";
  protocol = imap_basic;
  is_active = true;
  imap_host = some "imap.x.org";
  imap_port = none;
  imap_use_tls = true;
  imap_username = some "ada";
  smtp_host = none;
  smtp_port = none;
  smtp_use_tls = true;
  smtp_username = none;
  oauth_client_id = none;
  oauth_tenant = none;
  sync_interval_seconds = none;
  last_sync_at = none;
  last_sync_status = none;
  last_sync_error = none;
  folders = [];
}

abbrev closed : Editor
closed = record {
  modal_open = false;
  editing_account = none;
  tab = basic;
  form = record empty_form { imap_password = "left over" };
  created_id = none;
  creating = false;
  updating = false;
}

program : Unit {0}
unfolding load open_create open_edit close_modal press_save view finish_create
program = tt

views :
    (view (record (open_create closed) { tab = microsoft }) ≡ oauth_create)
    × (view (finish_create 4 (open_create closed)) ≡ created)
    × (press_save (open_create closed) ≡ none)
unfolding program
views = (refl, refl, refl)

press_save-IsSound_example : IsSound (press_save (open_edit account closed))
press_save-IsSound_example = press_save-IsSound (open_edit account closed)

abbrev hosted : Account
hosted = record account {
  imap_port = some 143;
  smtp_host = some "smtp.x.org";
  smtp_port = some 25;
  smtp_username = some "ada";
}

press_save-open_edit_example :
    press_save (open_edit hosted closed) ≡ some (update_request 3 (unchanged hosted))
press_save-open_edit_example =
    press_save-open_edit hosted "imap.x.org" "ada" "smtp.x.org" "ada" 143 25 closed refl refl refl
      refl refl refl refl refl refl refl

abbrev folders : List Folder
folders = folder_of "INBOX" true ∷ folder_of "Lists" false ∷ []

abbrev busy : Dialog
busy = record closed_dialog { editor = record closed { updating = true } }

abbrev renaming : List FieldUpdate
renaming = (key_name, "Private") ∷ (key_imap_host, "imap.y.org") ∷ []

run-update_ends_example :
    let t =
      dialog_run (typing renaming) (dialog_step (opens_edit account) (dialog_step closes busy)) in
    (t.editor.modal_open ≡ true)
    × (t.editor.editing_account ≡ some account)
    × (t.editor.form ≡ changed renaming (form_for (some account)))
    × ((dialog_step (update_ends true) t).editor.modal_open ≡ false)
    × ((dialog_step (update_ends true) t).editor.editing_account ≡ none)
run-update_ends_example = run-update_ends renaming account busy refl

abbrev adding : Dialog
adding = record closed_dialog { editor = record closed { creating = true } }

run-create_ends_example :
    let t =
      dialog_run (typing renaming) (dialog_step (opens_edit account) (dialog_step closes adding)) in
    (t.editor.modal_open ≡ true)
    × (t.editor.form ≡ changed renaming (form_for (some account)))
    × ((dialog_step (create_ends (some 4)) t).editor.editing_account ≡ some account)
    × (view (dialog_step (create_ends (some 4)) t).editor ≡ created)
    × (dialog_step saves (dialog_step (create_ends (some 4)) t)
        ≡ dialog_step (create_ends (some 4)) t)
run-create_ends_example = run-create_ends renaming account 4 adding refl refl

run-saves_example :
    let t =
      dialog_step saves (dialog_run (typing renaming) (dialog_step opens_create closed_dialog)) in
    (t.sent ≡ create_request (typed_account renaming) ∷ [])
    × (dialog_saving t ≡ true)
    × (has_error (dialog_step (create_ends none) t) ≡ true)
    × ((dialog_step saves (dialog_step (create_ends none) t)).sent
        ≡ create_request (typed_account renaming) ∷ t.sent)
    × (view (dialog_step (create_ends (some 4)) t).editor ≡ created)
unfolding update
run-saves_example = run-saves renaming 4 closed_dialog refl refl refl refl refl

abbrev offered : Shown
offered = record {
  title = "Edit account";
  added = false;
  tabs = false;
  inputs = rows basic_edit;
  error = some "Failed to save changes - check the details and try again.";
  flow = none;
  save = some (record { label = "Save changes"; disabled = false });
}

shown_failed :
    shown (
      dialog_step
        (update_ends false)
        (record busy { editor = record (open_edit account closed) { updating = true } }))
    ≡ some offered
unfolding program shown shown_in dialog_step has_error dialog_saving rows
shown_failed = refl

press_save-alike_example :
    press_save (record (open_create closed) { form = changed renaming empty_form })
    ≡ press_save (record (open_create closed) {
      form = record (changed renaming empty_form) { is_active = false };
    })
unfolding rows view open_create update field_value
press_save-alike_example =
    press_save-alike (changed renaming empty_form)
      (record (changed renaming empty_form) { is_active = false }) (open_create closed)
      (
        refl,
        (refl, (refl, (refl, (refl, (refl, (refl, (refl, (refl, (refl, (refl, (refl, tt))))))))))),
      )
