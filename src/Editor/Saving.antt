-- ===== src/Editor/Saving.antt =====
-- What the account editor asks the server to save (frontend/src/components/AccountEditorModal.tsx).
use inboxone.Common.{
  ℕ, ◌≡◌, ◌≢◌, refl, ap, String, Bool, true, false, not, ◌||◌, Option, none, some, arith, filled,
  filled?, is_some, if◌then◌else◌,
}
use inboxone.Types.{imap_basic, Account}
use inboxone.Editor.{
  Editor, form_of, form_for, load, open_edit, AccountUpdate, SaveRequest, create_request,
  update_request, if_filled, handle_create, handle_update_basic, handle_update_oauth_meta,
  EditorView, created, oauth_edit, oauth_create, basic_edit, basic_create, edit_view, account_view,
  view, save_create, save_basic, save_oauth, save_in, press_save,
}

-- a request has the fields that it needs, and changes no password to a blank one
abbrev pub IsSound : Option SaveRequest → Type 0
IsSound none = Unit
IsSound (some (create_request a)) = (filled a.name ≡ true) × (filled a.imap_host ≡ true)
IsSound (some (update_request id u)) =
    (filled u.name ≡ true)
    × (u.imap_password ≢ some "")
    × (u.smtp_password ≢ some "")
    × (u.imap_host ≢ some "")

some-ne : (text : String) → filled text ≡ true → ◌≢◌ {A = Option String} (some text) (some "")
some-ne text full same = cc (full, ap filled? same)

if_filled-ne : (text : String) → if_filled text ≢ some ""
unfolding if_filled
if_filled-ne String.[] same = cc (ap is_some same)
if_filled-ne (String.◌∷◌ c s) same = some-ne (String.◌∷◌ c s) refl same

none-ne : ◌≢◌ {A = Option String} none (some "")
none-ne same = cc (ap is_some same)

||_last : (a b : Bool) → (a || not b) ≡ false → (a ≡ false) × (b ≡ true)
||_last a b h = (ground arith, ground arith)

if-IsSound :
    (b : Bool) (r : SaveRequest)
    → (b ≡ false → IsSound (some r))
    → IsSound (if b then none else some r)
if-IsSound true r h = tt
if-IsSound false r h = h refl

save_create-IsSound : (s : Editor) → IsSound (save_create s)
unfolding save_create
save_create-IsSound s =
    if-IsSound (s.creating || not (filled s.form.name) || not (filled s.form.imap_host)) _ (
      unfold handle_create in
      λ h.
        let (rest, host) =
          ||_last (s.creating || not (filled s.form.name)) (filled s.form.imap_host) h in
        ((||_last s.creating (filled s.form.name) rest).1, host))

save_basic-IsSound : (account : Option Account) (s : Editor) → IsSound (save_basic account s)
unfolding save_basic
save_basic-IsSound none s = tt
save_basic-IsSound (some account) s =
    if-IsSound (s.updating || not (filled s.form.name) || not (filled s.form.imap_host)) _ (
      unfold handle_update_basic in
      λ h.
        let (rest, host) =
          ||_last (s.updating || not (filled s.form.name)) (filled s.form.imap_host) h in
        (
          (||_last s.updating (filled s.form.name) rest).1,
          if_filled-ne s.form.imap_password,
          if_filled-ne s.form.smtp_password,
          some-ne s.form.imap_host host,
        ))

save_oauth-IsSound : (account : Option Account) (s : Editor) → IsSound (save_oauth account s)
unfolding save_oauth
save_oauth-IsSound none s = tt
save_oauth-IsSound (some account) s = if-IsSound (s.updating || not (filled s.form.name)) _ (
    unfold handle_update_oauth_meta in
    λ h. ((||_last s.updating (filled s.form.name) h).1, none-ne, none-ne, none-ne))

save_in-IsSound : (v : EditorView) (s : Editor) → IsSound (save_in v s)
unfolding save_in
save_in-IsSound created s = tt
save_in-IsSound oauth_create s = tt
save_in-IsSound oauth_edit s = save_oauth-IsSound s.editing_account s
save_in-IsSound basic_edit s = save_basic-IsSound s.editing_account s
save_in-IsSound basic_create s = save_create-IsSound s

-- Whatever has been filled in: a new account is asked for with a name and a server, and a change to one
-- has a name, and neither clears its server nor replaces a password by a blank one.
pub press_save-IsSound : (s : Editor) → IsSound (press_save s)
unfolding press_save
press_save-IsSound s = save_in-IsSound (view s) s

-- the account as it is, with no password
abbrev pub unchanged : Account → AccountUpdate
unchanged account = record {
  name = account.name;
  color = account.color;
  imap_host = account.imap_host;
  imap_port = account.imap_port;
  imap_use_tls = some account.imap_use_tls;
  imap_username = account.imap_username;
  imap_password = none;
  smtp_host = account.smtp_host;
  smtp_port = account.smtp_port;
  smtp_use_tls = some account.smtp_use_tls;
  smtp_username = account.smtp_username;
  smtp_password = none;
  is_active = account.is_active;
}

-- An account with servers, ports and usernames of its own that is opened and saved as it is is sent as it is,
-- without its passwords, whatever was filled in before for another one.
pub press_save-open_edit :
    (account : Account) (host username smtp_host smtp_username : String) (port smtp_port : ℕ)
    (s : Editor)
    → account.protocol ≡ imap_basic
    → account.imap_host ≡ some host
    → account.imap_port ≡ some port
    → account.imap_username ≡ some username
    → account.smtp_host ≡ some smtp_host
    → account.smtp_port ≡ some smtp_port
    → account.smtp_username ≡ some smtp_username
    → filled host ≡ true
    → filled account.name ≡ true
    → s.updating ≡ false
    → press_save (open_edit account s) ≡ some (update_request account.id (unchanged account))
unfolding press_save open_edit load form_for form_of view account_view edit_view save_in save_basic
    handle_update_basic if_filled
press_save-open_edit account host username smtp_host smtp_username port smtp_port s basic hosted at
      user sender sends_at sender_user reachable named idle =
    rw (basic, idle, named, hosted, at, user, sender, sends_at, sender_user, reachable) refl
