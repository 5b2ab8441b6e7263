-- ===== src/Editor/Dialog/Fields/Saved.antt =====
-- What the dialog of the account editor saves is what it shows (frontend/src/components/AccountEditorModal.tsx).
use inboxone.Common.{
  ◌≡◌, refl, Bool, true, false, not, Option, none, some, List, [], ◌∷◌, is_some, truthy?,
  if◌then◌else◌, All, Bool-cases, inl, inr,
}
use inboxone.Types.{Account, Protocol, imap_basic, oauth_microsoft}
use inboxone.Editor.{
  Form, EditorTab, basic, microsoft, Editor, EditorView, created, oauth_edit, oauth_create,
  basic_edit, basic_create, view, account_view, edit_view, create_view, press_save, save_in,
  save_create, save_basic, save_oauth, handle_create, if_filled, handle_update_basic,
  handle_update_oauth_meta,
}
use inboxone.Editor.Dialog.{FieldKey, field_value, Dialog, dialog_saving}
use inboxone.Editor.Dialog.Fields.{
  Row, heading, field, rows, name_rows, active_row, server_rows, SaveButton, save_button,
  basic_button, shown_in,
}

-- the keys of some rows
abbrev pub keys : List Row → List FieldKey
keys [] = []
keys (heading _ ∷ rows) = keys rows
keys (field _ _ key ∷ rows) = key ∷ keys rows

-- two forms hold the same under some keys
abbrev pub AreAlike : Form → Form → List FieldKey → Type 0
AreAlike f g = All (λ key. field_value key f ≡ field_value key g)

abbrev with_form : Form → Editor → Editor
with_form form s = record s { form = form }

save_oauth-alike :
    (o : Option Account) (f g : Form) (s : Editor)
    → AreAlike f g (keys (rows oauth_edit))
    → save_oauth o (with_form f s) ≡ save_oauth o (with_form g s)
unfolding save_oauth handle_update_oauth_meta rows name_rows active_row field_value
save_oauth-alike none f g s h = refl
save_oauth-alike (some account) f g s h = rw (h.0, h.1.0, h.1.1.0) refl

save_basic-alike :
    (o : Option Account) (f g : Form) (s : Editor)
    → AreAlike f g (keys (rows basic_edit))
    → save_basic o (with_form f s) ≡ save_basic o (with_form g s)
unfolding save_basic handle_update_basic if_filled rows name_rows active_row server_rows field_value
save_basic-alike none f g s h = refl
save_basic-alike (some account) f g s h =
    rw
      (
        h.0, h.1.0, h.1.1.0, h.1.1.1.0, h.1.1.1.1.0, h.1.1.1.1.1.0, h.1.1.1.1.1.1.0,
        h.1.1.1.1.1.1.1.0, h.1.1.1.1.1.1.1.1.0, h.1.1.1.1.1.1.1.1.1.0, h.1.1.1.1.1.1.1.1.1.1.0,
        h.1.1.1.1.1.1.1.1.1.1.1.0, h.1.1.1.1.1.1.1.1.1.1.1.1.0,
      )
      refl

save_create-alike :
    (f g : Form) (s : Editor)
    → AreAlike f g (keys (rows basic_create))
    → save_create (with_form f s) ≡ save_create (with_form g s)
unfolding save_create handle_create rows name_rows server_rows field_value
save_create-alike f g s h =
    rw
      (
        h.0, h.1.0, h.1.1.0, h.1.1.1.0, h.1.1.1.1.0, h.1.1.1.1.1.0, h.1.1.1.1.1.1.0,
        h.1.1.1.1.1.1.1.0, h.1.1.1.1.1.1.1.1.0, h.1.1.1.1.1.1.1.1.1.0, h.1.1.1.1.1.1.1.1.1.1.0,
        h.1.1.1.1.1.1.1.1.1.1.1.0,
      )
      refl

save_in-alike :
    (v : EditorView) (f g : Form) (s : Editor)
    → AreAlike f g (keys (rows v))
    → save_in v (with_form f s) ≡ save_in v (with_form g s)
unfolding save_in
save_in-alike created f g s h = refl
save_in-alike oauth_create f g s h = refl
save_in-alike oauth_edit f g s h = save_oauth-alike s.editing_account f g s h
save_in-alike basic_edit f g s h = save_basic-alike s.editing_account f g s h
save_in-alike basic_create f g s h = save_create-alike f g s h

-- What a press of the button asks for depends on the fields that the dialog shows, and on no others: two forms
-- that hold the same in these make the same request.
pub press_save-alike :
    (f g : Form) (s : Editor)
    → AreAlike f g (keys (rows (view s)))
    → press_save (record s { form = f }) ≡ press_save (record s { form = g })
unfolding press_save view
press_save-alike f g s h = save_in-alike (view s) f g s h

abbrev pub is_enabled : Option SaveButton → Bool
is_enabled none = false
is_enabled (some button) = not button.disabled

is_some-unless : {A : Type 0} (b : Bool) (a : A) → is_some (if b then none else some a) ≡ not b
is_some-unless false a = refl
is_some-unless true a = refl

protocol-enabled :
    (p : Protocol) (account : Account) (s : Editor)
    → is_some (save_in (edit_view p) (record s { editing_account = some account }))
      ≡ is_enabled (save_button (edit_view p) s.updating true s.form)
unfolding edit_view save_in save_oauth save_basic save_button basic_button
protocol-enabled imap_basic account s = is_some-unless _ _
protocol-enabled oauth_microsoft account s = is_some-unless _ _

tab-enabled :
    (tab : EditorTab) (s : Editor)
    → is_some (save_in (create_view tab) (record s { editing_account = none }))
      ≡ is_enabled (save_button (create_view tab) s.creating false s.form)
unfolding create_view save_in save_create save_button basic_button
tab-enabled basic s = is_some-unless _ _
tab-enabled microsoft s = refl

account-enabled :
    (o : Option Account) (s : Editor)
    → is_some (save_in (account_view o s.tab) (record s { editing_account = o }))
      ≡ is_enabled (
          save_button
            (account_view o s.tab)
            (if is_some o then s.updating else s.creating)
            (is_some o)
            s.form)
unfolding account_view
account-enabled none s = tab-enabled s.tab s
account-enabled (some account) s = protocol-enabled account.protocol account s

-- The button of an open dialog is enabled exactly if a press of it asks for something.
pub press_save-enabled :
    (d : Dialog) → is_some (press_save d.editor) ≡ is_enabled (shown_in (view d.editor) d).save
unfolding press_save view shown_in dialog_saving save_in save_button
press_save-enabled d = elim (Bool-cases (truthy? d.editor.created_id)) [
  | inl added ↦ simp added refl
  | inr other ↦ simp other (account-enabled d.editor.editing_account d.editor)
]
