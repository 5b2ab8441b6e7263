-- ===== src/Compose.antt =====
-- frontend/src/components/ComposeModal.tsx: the dialog in which a reply or a forward is written and sent,
-- with its ConfirmDialog.tsx in the same folder, and the requests that send it in
-- frontend/src/api/useMessages.ts. The editor is a parameter where it takes HTML in.
pub mod Addresses
pub mod Sending
pub mod Drafts
mod Tests
use inboxone.Common.{
  ℕ, zero, suc, String, Bool, true, false, not, ◌&&◌, ◌||◌, Option, none, some, List, [], ◌∷◌, map,
  filter, filled, filled?, truthy?, if◌then◌else◌, is_some, or_else, join, ◌^^◌,
}
use inboxone.Common.Split.{split}
use inboxone.Common.Trim.{trim}
use inboxone.Client.Paths.{Call, reply, forward}
use inboxone.Ui.{ComposeMode, reply_mode, forward_mode, ComposeState, Ui, close_compose}

unfoldable pub parse_addrs : String → List String
unfolding split trim
parse_addrs raw = filter filled (map trim (split b',' raw))

-- The state of the dialog; `ui` is the store that says which message it is for. `editor` is the HTML of the
-- editor once there is one. A reply and a forward are under way each on their own.
pub record ComposeModal : Type 0 where
  pub ui : Ui
  pub account_id : Option ℕ
  pub to : String
  pub cc : String
  pub subject : String
  pub send_error : Option String
  pub send_warning : Option String
  pub confirm_discard : Bool
  pub dirty : Bool
  pub editor : Option String
  pub reply_pending : Bool
  pub forward_pending : Bool

unfoldable pub pending : ComposeMode → ComposeModal → Bool
pending reply_mode s = s.reply_pending
pending forward_mode s = s.forward_pending

unfoldable pub set_pending : ComposeMode → Bool → ComposeModal → ComposeModal
set_pending reply_mode b s = record s { reply_pending = b }
set_pending forward_mode b s = record s { forward_pending = b }

abbrev pub is_pending : ComposeModal → Bool
is_pending s = pending s.ui.compose.mode s

set_content : (String → String) → String → Option String → Option String
set_content parsed content none = none
set_content parsed content (some _) = some (parsed content)

-- the effect when the dialog opens; `parsed` is the HTML that the editor has for some content
unfoldable pub open_draft : (String → String) → ComposeModal → ComposeModal
unfolding set_content
open_draft parsed s = if not s.ui.compose.open_ then s else record s {
  account_id = s.ui.compose.default_account_id;
  to = join ", " s.ui.compose.default_to;
  cc = "";
  subject = s.ui.compose.default_subject;
  send_error = none;
  send_warning = none;
  confirm_discard = false;
  editor = set_content parsed ("<p></p>" ^^ s.ui.compose.quoted_html) s.editor;
  dirty = false;
}

unfoldable pub request_close : ComposeModal → ComposeModal
unfolding close_compose
request_close s =
    if s.dirty then record s { confirm_discard = true } else record s { ui = close_compose s.ui }

-- The body of a request to reply or to forward.
pub record SendRequest : Type 0 where
  pub call : Call
  pub account_id : Option ℕ
  pub to : List String
  pub cc : List String
  pub bcc : List String
  pub subject : String
  pub body_html : String

call_for : ComposeMode → ℕ → Call
call_for reply_mode id = reply id
call_for forward_mode id = forward id

pub request_for : ℕ → String → ComposeModal → SendRequest
unfolding call_for parse_addrs
request_for id html s = record {
  call = call_for s.ui.compose.mode id;
  account_id = s.account_id;
  to = parse_addrs s.to;
  cc = parse_addrs s.cc;
  bcc = [];
  subject = s.subject;
  body_html = html;
}

abbrev pub has_recipient : List String → Bool
has_recipient [] = false
has_recipient (_ ∷ _) = true

send_from : ℕ → String → ComposeModal → Option SendRequest × ComposeModal
unfolding request_for set_pending
send_from id html s =
    if filled? s.send_warning || is_pending s
    then (none, s)
    else if not (has_recipient (parse_addrs s.to))
    then (none, record s { send_error = some "Add at least one recipient." })
    else (
      some (request_for id html s),
      set_pending s.ui.compose.mode true (record s { send_error = none }),
    )

send_with : Option ℕ → Option String → ComposeModal → Option SendRequest × ComposeModal
unfolding send_from
send_with none editor s = (none, s)
send_with (some zero) editor s = (none, s)
send_with (some (suc n)) none s = (none, s)
send_with (some (suc n)) (some html) s = send_from (suc n) html s

-- `handleSend` up to its `await`: the request, if one is made
unfoldable pub start_send : ComposeModal → Option SendRequest × ComposeModal
unfolding send_with
start_send s = send_with s.ui.compose.source_message_id s.editor s

-- How the request ends: sent, with the server's warning, or an error.
pub data SendOutcome : Type 0 where
  sent : Option String → SendOutcome
  api_error : String → SendOutcome
  other_error : SendOutcome

-- the rest of `handleSend`, for the mode in which it was called
after_sent : Option String → ComposeModal → ComposeModal
unfolding close_compose
after_sent warning s =
    if filled? warning
    then record s { send_warning = warning }
    else record s { ui = close_compose s.ui }

unfoldable pub finish_send : ComposeMode → SendOutcome → ComposeModal → ComposeModal
unfolding set_pending after_sent
finish_send mode (sent warning) s =
    after_sent warning (record (set_pending mode false s) { dirty = false })
finish_send mode (api_error message) s = record (set_pending mode false s) {
  send_error = some message;
}
finish_send mode other_error s = record (set_pending mode false s) {
  send_error = some "Failed to send - try again.";
}

-- The changes that the fields and the editor make.
pub data Edit : Type 0 where
  edit_account : ℕ → Edit
  edit_to edit_cc edit_subject edit_body : String → Edit

typed : String → Option String → Option String
typed html none = none
typed html (some _) = some html

unfoldable pub edit : Edit → ComposeModal → ComposeModal
unfolding typed
edit (edit_account id) s = record s { account_id = some id; dirty = true }
edit (edit_to text) s = record s { to = text; dirty = true }
edit (edit_cc text) s = record s { cc = text; dirty = true }
edit (edit_subject text) s = record s { subject = text; dirty = true }
edit (edit_body html) s = record s { editor = typed html s.editor; dirty = true }

-- The buttons of the ConfirmDialog: both close it, and the one that confirms closes the draft as well.
unfoldable pub keep_editing : ComposeModal → ComposeModal
keep_editing s = record s { confirm_discard = false }

unfoldable pub discard : ComposeModal → ComposeModal
unfolding close_compose
discard s = record s { confirm_discard = false; ui = close_compose s.ui }

-- What the dialog shows.
pub record ComposeView : Type 0 where
  pub title : String
  pub sending : Bool
  pub warning : Option String
  pub error : Option String
  pub close_label : String
  pub send_button : Option (String × Bool)

mode_title : ComposeMode → String
mode_title reply_mode = "Reply"
mode_title forward_mode = "Forward message"

send_label : Bool → String
send_label busy = if busy then "Sending..." else "Send"

unfoldable pub view : ComposeModal → Option ComposeView
unfolding mode_title send_label
view s =
    if not s.ui.compose.open_
    then none
    else some (record {
      title = if filled? s.send_warning then "Message sent" else mode_title s.ui.compose.mode;
      sending = is_pending s;
      warning = if filled? s.send_warning then s.send_warning else none;
      error = s.send_error;
      close_label = if filled? s.send_warning then "Close" else "Cancel";
      send_button =
          if filled? s.send_warning then none else some (send_label (is_pending s), is_pending s);
    })
