-- ===== src/Compose/Drafts.antt =====
-- The draft of the dialog (frontend/src/components/ComposeModal.tsx): what it is opened with, and how it is
-- given up.
use inboxone.Common.{
  ℕ, suc, ◌≡◌, refl, sym, ap, ◌∙◌, String, Bool, true, false, none, some, List, [], ◌∷◌, All, ◌^^◌,
}
use inboxone.Ui.{
  ComposeMode, reply_mode, forward_mode, ComposeParams, Ui, initial_compose, open_reply,
  open_forward, close_compose,
}
use inboxone.Client.Paths.{Call, reply, forward}
use inboxone.Compose.{
  parse_addrs, ComposeModal, pending, set_pending, set_content, open_draft, request_close,
  SendRequest, call_for, request_for, has_recipient, send_from, send_with, start_send, sent,
  after_sent, finish_send, Edit, edit_account, edit_to, edit_cc, edit_subject, edit_body, edit,
  keep_editing, discard,
}
use inboxone.Compose.Sending.{IsReady, asked, start_send_ready, pending-set_pending}
use inboxone.Compose.Addresses.{IsAddress, parse_addrs-join}

-- what the dialog is opened with, on a reply and on a forward
abbrev pub draft_of :
    (ComposeParams → Ui → Ui) → (String → String) → ComposeParams → ComposeModal → ComposeModal
draft_of open_ parsed params s = open_draft parsed (record s { ui = open_ params s.ui })

abbrev pub default_request : Call → String → ComposeParams → SendRequest
default_request call html params = record {
  call = call;
  account_id = some params.default_account_id;
  to = params.default_to;
  cc = [];
  bcc = [];
  subject = params.default_subject;
  body_html = html;
}

no_cc : parse_addrs "" ≡ []
no_cc = parse_addrs-join [] tt

pub start_send-open_reply :
    (parsed : String → String) (params : ComposeParams) (n : ℕ) (old : String) (s : ComposeModal)
    → params.source_message_id ≡ suc n
    → s.editor ≡ some old
    → s.reply_pending ≡ false
    → All IsAddress params.default_to
    → has_recipient params.default_to ≡ true
    → (start_send (draft_of open_reply parsed params s)).0
      ≡ some (default_request (reply (suc n)) (parsed ("<p></p>" ^^ params.quoted_html)) params)
unfolding start_send open_draft open_reply set_content send_with send_from request_for call_for
    pending
start_send-open_reply parsed params n old s source editor replied addresses some_to =
    let to = parse_addrs-join params.default_to addresses in
    rw (source, editor, replied, to, some_to, no_cc) refl

-- a forward to nobody yet, and what the first press of Send makes of it
pub start_send-open_forward :
    (parsed : String → String) (params : ComposeParams) (n : ℕ) (old address : String)
    (s : ComposeModal)
    → params.source_message_id ≡ suc n
    → s.editor ≡ some old
    → s.forward_pending ≡ false
    → params.default_to ≡ []
    → IsAddress address
    → let d = draft_of open_forward parsed params s in
      let html = parsed ("<p></p>" ^^ params.quoted_html) in
      (start_send d ≡ (none, record d { send_error = some "Add at least one recipient." }))
      × ((start_send (edit (edit_to address) (start_send d).1)).0
          ≡ some (record (default_request (forward (suc n)) html params) { to = address ∷ [] }))
unfolding start_send open_draft open_forward set_content send_with send_from request_for call_for
    pending edit
start_send-open_forward parsed params n old address s source editor forwarded nobody valid =
    let to = parse_addrs-join (address ∷ []) (valid, tt) in
    (
      rw (source, editor, forwarded, nobody, no_cc) refl,
      rw (source, editor, forwarded, nobody, no_cc, to) refl,
    )

-- the edits that are made one after the other
abbrev pub edits : List Edit → ComposeModal → ComposeModal
edits [] s = s
edits (e ∷ es) s = edits es (edit e s)

edit-dirty : (e : Edit) (s : ComposeModal) → (edit e s).dirty ≡ true
unfolding edit
edit-dirty (edit_account id) s = refl
edit-dirty (edit_to text) s = refl
edit-dirty (edit_cc text) s = refl
edit-dirty (edit_subject text) s = refl
edit-dirty (edit_body html) s = refl

edit-confirm : (e : Edit) (s : ComposeModal) → (edit e s).confirm_discard ≡ s.confirm_discard
unfolding edit
edit-confirm (edit_account id) s = refl
edit-confirm (edit_to text) s = refl
edit-confirm (edit_cc text) s = refl
edit-confirm (edit_subject text) s = refl
edit-confirm (edit_body html) s = refl

edit-ui : (e : Edit) (s : ComposeModal) → (edit e s).ui ≡ s.ui
unfolding edit
edit-ui (edit_account id) s = refl
edit-ui (edit_to text) s = refl
edit-ui (edit_cc text) s = refl
edit-ui (edit_subject text) s = refl
edit-ui (edit_body html) s = refl

set_pending-confirm :
    (m : ComposeMode) (b : Bool) (s : ComposeModal)
    → (set_pending m b s).confirm_discard ≡ s.confirm_discard
unfolding set_pending
set_pending-confirm reply_mode b s = refl
set_pending-confirm forward_mode b s = refl

draft-fields :
    (parsed : String → String) (params : ComposeParams) (s : ComposeModal)
    → let draft = draft_of open_reply parsed params s in
      (draft.ui.compose.source_message_id ≡ some params.source_message_id)
      × (draft.ui.compose.open_ ≡ true)
      × (draft.confirm_discard ≡ false)
unfolding open_draft open_reply
draft-fields parsed params s = (refl, refl, refl)

edit-pending : (m : ComposeMode) (e : Edit) (s : ComposeModal) → pending m (edit e s) ≡ pending m s
unfolding pending edit
edit-pending reply_mode (edit_account id) s = refl
edit-pending reply_mode (edit_to text) s = refl
edit-pending reply_mode (edit_cc text) s = refl
edit-pending reply_mode (edit_subject text) s = refl
edit-pending reply_mode (edit_body html) s = refl
edit-pending forward_mode (edit_account id) s = refl
edit-pending forward_mode (edit_to text) s = refl
edit-pending forward_mode (edit_cc text) s = refl
edit-pending forward_mode (edit_subject text) s = refl
edit-pending forward_mode (edit_body html) s = refl

draft-pending :
    (m : ComposeMode) (parsed : String → String) (params : ComposeParams) (s : ComposeModal)
    → pending m (draft_of open_reply parsed params (discard s)) ≡ pending m s
unfolding pending open_draft open_reply discard
draft-pending reply_mode parsed params s = refl
draft-pending forward_mode parsed params s = refl

asked-pending : (s : ComposeModal) → pending s.ui.compose.mode (asked s) ≡ true
asked-pending s = pending-set_pending s.ui.compose.mode true (record s { send_error = none })

edits-dirty : (es : List Edit) (s : ComposeModal) → s.dirty ≡ true → (edits es s).dirty ≡ true
edits-dirty [] s h = h
edits-dirty (e ∷ es) s h = edits-dirty es (edit e s) (edit-dirty e s)

edits-confirm :
    (es : List Edit) (s : ComposeModal) → (edits es s).confirm_discard ≡ s.confirm_discard
edits-confirm [] s = refl
edits-confirm (e ∷ es) s = edits-confirm es (edit e s) ∙ edit-confirm e s

request_close_dirty :
    (s : ComposeModal) → s.dirty ≡ true → request_close s ≡ record s { confirm_discard = true }
unfolding request_close
request_close_dirty s h = rw h

-- An attempt to close a draft that has been edited only asks; to keep editing then is to have the draft
-- as it was.
pub keep_editing-request_close :
    (e : Edit) (es : List Edit) (s : ComposeModal)
    → s.confirm_discard ≡ false
    → let t = edits (e ∷ es) s in
      (request_close t ≡ record t { confirm_discard = true }) × (keep_editing (request_close t) ≡ t)
unfolding keep_editing
keep_editing-request_close e es s h =
    let t = edits (e ∷ es) s in
    let asks = request_close_dirty t (edits-dirty es (edit e s) (edit-dirty e s)) in
    (
      asks,
      rw asks (ap (λ b. record t { confirm_discard = b }) (sym (edits-confirm (e ∷ es) s ∙ h))),
    )

-- A message is sent, and its dialog is given up while the request is under way; then a reply to another one is
-- begun and edited, which an attempt to close only asks about. That the earlier message has been sent closes the
-- edited draft, unasked.
pub finish_send-draft :
    (parsed : String → String) (params : ComposeParams) (id : ℕ) (html : String) (e : Edit)
    (s : ComposeModal)
    → IsReady id html s
    → let given_up = discard (start_send s).1 in
      let draft = edit e (draft_of open_reply parsed params given_up) in
      let closed = finish_send s.ui.compose.mode (sent none) draft in
      ((start_send s).0 ≡ some (request_for (suc id) html s))
      × (given_up.ui.compose.open_ ≡ false)
      × (pending s.ui.compose.mode draft ≡ true)
      × (draft.ui.compose.open_ ≡ true)
      × (draft.ui.compose.source_message_id ≡ some params.source_message_id)
      × (request_close draft ≡ record draft { confirm_discard = true })
      × (closed.ui.compose ≡ initial_compose)
      × (closed.confirm_discard ≡ false)
unfolding finish_send after_sent close_compose
finish_send-draft parsed params id html e s h =
    let request = start_send_ready id html s h in
    let given_up = discard (start_send s).1 in
    let d = draft_of open_reply parsed params given_up in
    let (source, opened, calm) = draft-fields parsed params given_up in
    (
      ap (λ r. r.0) request,
      unfold discard in refl,
      edit-pending s.ui.compose.mode e d
          ∙ draft-pending s.ui.compose.mode parsed params (start_send s).1
          ∙ ap (λ r. pending s.ui.compose.mode r.1) request
          ∙ asked-pending s,
      ap (λ (u : Ui). u.compose.open_) (edit-ui e d) ∙ opened,
      ap (λ (u : Ui). u.compose.source_message_id) (edit-ui e d) ∙ source,
      request_close_dirty (edit e d) (edit-dirty e d),
      refl,
      set_pending-confirm s.ui.compose.mode false (edit e d) ∙ edit-confirm e d ∙ calm,
    )
