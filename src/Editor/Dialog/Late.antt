-- ===== src/Editor/Dialog/Late.antt =====
-- Saving with the dialog of the account editor, and answers that come late
-- (frontend/src/components/AccountEditorModal.tsx).
use inboxone.Common.{
  ◌≡◌, refl, ap, ◌∙◌, true, false, none, some, List, [], ◌∷◌, map, filled, String, truthy, ℕ,
}
use inboxone.Types.{Account, AccountCreateBasic}
use inboxone.Editor.{
  Form, basic, empty_form, form_for, load, open_create, open_edit, close_modal, create_request,
  handle_create, save_create, save_in, view, account_view, create_view, created, press_save,
  finish_create, finish_update,
}
use inboxone.Editor.Dialog.{
  FieldKey, ValueOf, field_value, key_name, key_color, key_imap_host, key_imap_port,
  key_imap_use_tls, key_imap_username, key_imap_password, key_smtp_host, key_smtp_port,
  key_smtp_use_tls, key_smtp_username, key_smtp_password, key_is_active, FieldUpdate, update,
  Dialog, has_error, dialog_saving, start_save, answer_create, answer_update, DialogEvent,
  opens_create, opens_edit, closes, saves, updates, create_ends, update_ends, open_with, edit_form,
  dialog_step, dialog_run,
}

-- what a form is once fields of it have been changed
abbrev pub changed : List FieldUpdate → Form → Form
changed [] form = form
changed (u ∷ us) form = changed us (update u form)

abbrev pub typing : List FieldUpdate → List DialogEvent
typing us = map updates us

run-typing :
    (us : List FieldUpdate) (d : Dialog)
    → dialog_run (typing us) d
      ≡ record d { editor = record d.editor { form = changed us d.editor.form } }
unfolding dialog_run dialog_step edit_form
run-typing [] d = refl
run-typing (u ∷ us) d = run-typing us (dialog_step (updates u) d)

-- An account is opened while a change to another one is being saved, whose dialog has been closed meanwhile, and
-- edited: when the earlier change has been saved, the dialog is closed, and the edits with it.
pub run-update_ends :
    (us : List FieldUpdate) (account : Account) (d : Dialog)
    → d.editor.updating ≡ true
    → let t = dialog_run (typing us) (dialog_step (opens_edit account) (dialog_step closes d)) in
      (t.editor.modal_open ≡ true)
      × (t.editor.editing_account ≡ some account)
      × (t.editor.form ≡ changed us (form_for (some account)))
      × ((dialog_step (update_ends true) t).editor.modal_open ≡ false)
      × ((dialog_step (update_ends true) t).editor.editing_account ≡ none)
unfolding dialog_step open_with answer_update finish_update open_edit load close_modal
run-update_ends us account d busy =
    rw (run-typing us (dialog_step (opens_edit account) (dialog_step closes d)), busy)
      (refl, refl, refl, refl, refl)

-- An account is opened while a new one is being created, whose dialog has been closed meanwhile, and edited: when the new account is there, the dialog of the other one shows that an account has been added instead of
-- the form, and saving does nothing.
pub run-create_ends :
    (us : List FieldUpdate) (account : Account) (id : ℕ) (d : Dialog)
    → d.editor.creating ≡ true
    → truthy id ≡ true
    → let t = dialog_run (typing us) (dialog_step (opens_edit account) (dialog_step closes d)) in
      (t.editor.modal_open ≡ true)
      × (t.editor.form ≡ changed us (form_for (some account)))
      × ((dialog_step (create_ends (some id)) t).editor.editing_account ≡ some account)
      × (view (dialog_step (create_ends (some id)) t).editor ≡ created)
      × (dialog_step saves (dialog_step (create_ends (some id)) t)
          ≡ dialog_step (create_ends (some id)) t)
unfolding dialog_step open_with answer_create finish_create open_edit load close_modal view
    press_save start_save
run-create_ends us account id d busy real =
    rw (run-typing us (dialog_step (opens_edit account) (dialog_step closes d)), busy)
      (refl, refl, refl, simp real, simp real)

-- A change that could not be saved: the error of it is shown in the dialog of the next account that is opened,
-- although nothing has been asked for that one.
pub step-has_error :
    (account : Account) (d : Dialog)
    → d.editor.updating ≡ true
    → let t =
        dialog_step (opens_edit account) (dialog_step closes (dialog_step (update_ends false) d)) in
      (t.editor.editing_account ≡ some account)
      × (t.editor.form ≡ form_for (some account))
      × (t.sent ≡ d.sent)
      × (has_error t ≡ true)
unfolding dialog_step open_with answer_update open_edit load close_modal has_error
step-has_error account d busy = rw busy (refl, refl, refl, refl)

-- what a field holds after a change of one, and of several: the value of the last change of its key
abbrev pub overwritten : (key : FieldKey) → FieldUpdate → ValueOf key → ValueOf key
overwritten key_name (key_name, value) old = value
overwritten key_color (key_color, value) old = value
overwritten key_imap_host (key_imap_host, value) old = value
overwritten key_imap_port (key_imap_port, value) old = value
overwritten key_imap_use_tls (key_imap_use_tls, value) old = value
overwritten key_imap_username (key_imap_username, value) old = value
overwritten key_imap_password (key_imap_password, value) old = value
overwritten key_smtp_host (key_smtp_host, value) old = value
overwritten key_smtp_port (key_smtp_port, value) old = value
overwritten key_smtp_use_tls (key_smtp_use_tls, value) old = value
overwritten key_smtp_username (key_smtp_username, value) old = value
overwritten key_smtp_password (key_smtp_password, value) old = value
overwritten key_is_active (key_is_active, value) old = value
overwritten _ _ old = old

abbrev pub last_typed : (key : FieldKey) → List FieldUpdate → ValueOf key → ValueOf key
last_typed key [] old = old
last_typed key (u ∷ us) old = last_typed key us (overwritten key u old)

-- the new account as it is typed in, on top of what the form offers
abbrev pub typed_account : List FieldUpdate → AccountCreateBasic
typed_account us = record {
  name = last_typed key_name us "";
  color = last_typed key_color us "#4F46E5";
  imap_host = last_typed key_imap_host us "";
  imap_port = last_typed key_imap_port us 993;
  imap_use_tls = last_typed key_imap_use_tls us true;
  imap_username = last_typed key_imap_username us "";
  imap_password = last_typed key_imap_password us "";
  smtp_host = last_typed key_smtp_host us "";
  smtp_port = last_typed key_smtp_port us 587;
  smtp_use_tls = last_typed key_smtp_use_tls us true;
  smtp_username = last_typed key_smtp_username us "";
  smtp_password = last_typed key_smtp_password us "";
  sync_interval_seconds = none;
}

field_value-update :
    (key : FieldKey) (u : FieldUpdate) (form : Form)
    → field_value key (update u form) ≡ overwritten key u (field_value key form)
unfolding field_value update
field_value-update key_name (key_name, value) form = refl
field_value-update key_color (key_color, value) form = refl
field_value-update key_imap_host (key_imap_host, value) form = refl
field_value-update key_imap_port (key_imap_port, value) form = refl
field_value-update key_imap_use_tls (key_imap_use_tls, value) form = refl
field_value-update key_imap_username (key_imap_username, value) form = refl
field_value-update key_imap_password (key_imap_password, value) form = refl
field_value-update key_smtp_host (key_smtp_host, value) form = refl
field_value-update key_smtp_port (key_smtp_port, value) form = refl
field_value-update key_smtp_use_tls (key_smtp_use_tls, value) form = refl
field_value-update key_smtp_username (key_smtp_username, value) form = refl
field_value-update key_smtp_password (key_smtp_password, value) form = refl
field_value-update key_is_active (key_is_active, value) form = refl
field_value-update _ _ form = refl

field_value-changed :
    (key : FieldKey) (us : List FieldUpdate) (form : Form)
    → field_value key (changed us form) ≡ last_typed key us (field_value key form)
field_value-changed key [] form = refl
field_value-changed key (u ∷ us) form =
    field_value-changed key us (update u form)
    ∙ ap (last_typed key us) (field_value-update key u form)

handle_create-last_typed :
    (us : List FieldUpdate)
    → handle_create (changed us empty_form) ≡ create_request (typed_account us)
unfolding handle_create field_value
handle_create-last_typed us = rw (
  field_value-changed key_name us empty_form,
  field_value-changed key_color us empty_form,
  field_value-changed key_imap_host us empty_form,
  field_value-changed key_imap_port us empty_form,
  field_value-changed key_imap_use_tls us empty_form,
  field_value-changed key_imap_username us empty_form,
  field_value-changed key_imap_password us empty_form,
  field_value-changed key_smtp_host us empty_form,
  field_value-changed key_smtp_port us empty_form,
  field_value-changed key_smtp_use_tls us empty_form,
  field_value-changed key_smtp_username us empty_form,
  field_value-changed key_smtp_password us empty_form,
)

-- the dialog for a new account with a form, and once that has been asked for
abbrev ready : Form → Dialog → Dialog
ready form d = record d {
  editor = record d.editor {
    modal_open = true;
    editing_account = none;
    tab = basic;
    form = form;
    created_id = none;
  };
}

abbrev asked : Form → Dialog → Dialog
asked form d = record d {
  editor = record (ready form d).editor { creating = true };
  create_error = false;
  sent = handle_create form ∷ d.sent;
}

opens_ready :
    (d : Dialog) → d.editor.modal_open ≡ false → dialog_step opens_create d ≡ ready empty_form d
unfolding dialog_step open_with open_create load
opens_ready d shut = simp shut

save_ready :
    (form : Form) (d : Dialog)
    → d.editor.creating ≡ false
    → filled form.name ≡ true
    → filled form.imap_host ≡ true
    → dialog_step saves (ready form d) ≡ asked form d
unfolding dialog_step start_save press_save save_in save_create view account_view create_view
    handle_create
save_ready form d idle named hosted = simp (idle, named, hosted)

-- the answers to the request, and a next press after a refusal
answers :
    (form : Form) (id : ℕ) (d : Dialog)
    → d.editor.creating ≡ false
    → filled form.name ≡ true
    → filled form.imap_host ≡ true
    → truthy id ≡ true
    → (dialog_saving (asked form d) ≡ true)
      × (has_error (dialog_step (create_ends none) (asked form d)) ≡ true)
      × ((dialog_step saves (dialog_step (create_ends none) (asked form d))).sent
          ≡ handle_create form ∷ (asked form d).sent)
      × (view (dialog_step (create_ends (some id)) (asked form d)).editor ≡ created)
unfolding dialog_step answer_create start_save finish_create has_error dialog_saving press_save
    save_in save_create view account_view create_view handle_create
answers form id d idle named hosted real = (refl, refl, simp (named, hosted), simp real)

-- In a dialog that is opened for a new account, while none is being created, with a name and a server among what
-- is typed: the account is asked for by one request, each field as it was typed last or, if it was not, as the form
-- offers it; if that fails, the error is shown and a next press makes the same request; if it succeeds, the dialog
-- says so.
pub run-saves :
    (us : List FieldUpdate) (id : ℕ) (d : Dialog)
    → d.editor.modal_open ≡ false
    → d.editor.creating ≡ false
    → filled (last_typed key_name us "") ≡ true
    → filled (last_typed key_imap_host us "") ≡ true
    → truthy id ≡ true
    → let t = dialog_step saves (dialog_run (typing us) (dialog_step opens_create d)) in
      (t.sent ≡ create_request (typed_account us) ∷ d.sent)
      × (dialog_saving t ≡ true)
      × (has_error (dialog_step (create_ends none) t) ≡ true)
      × ((dialog_step saves (dialog_step (create_ends none) t)).sent
          ≡ create_request (typed_account us) ∷ t.sent)
      × (view (dialog_step (create_ends (some id)) t).editor ≡ created)
run-saves us id d shut idle typed_name typed_host real =
    let form = changed us empty_form in
    let request = handle_create-last_typed us in
    let named : filled form.name ≡ true =
      unfold field_value in
      ap (λ (t : String). filled t) (field_value-changed key_name us empty_form) ∙ typed_name in
    let hosted : filled form.imap_host ≡ true =
      unfold field_value in
      ap (λ (t : String). filled t) (field_value-changed key_imap_host us empty_form)
      ∙ typed_host in
    let start = opens_ready d shut in
    let filled_in = ap (dialog_run (typing us)) start ∙ run-typing us (ready empty_form d) in
    let save = ap (dialog_step saves) filled_in ∙ save_ready form d idle named hosted in
    let (busy, failed, again, done) = answers form id d idle named hosted real in
    rw save (
      ap (λ r. r ∷ d.sent) request,
      busy,
      failed,
      again ∙ ap (λ r. r ∷ (asked form d).sent) request,
      done,
    )
