-- ===== src/Compose/Tests.antt =====
-- The dialog on concrete drafts (frontend/src/components/ComposeModal.tsx).
use inboxone.Common.{◌≡◌, refl, String, true, false, none, some, [], ◌∷◌, arith}
use inboxone.Common.Split.{split}
use inboxone.Common.Trim.{is_space, trim}
use inboxone.Ui.{
  reply_mode, ComposeParams, initial_ui, initial_compose, open_reply, open_forward, close_compose,
}
use inboxone.Compose.{
  parse_addrs, ComposeModal, pending, set_pending, request_for, open_draft, request_close,
  start_send, sent, finish_send, edit_body, edit, keep_editing, discard,
}
use inboxone.Compose.Addresses.{IsAddress}
use inboxone.Compose.Sending.{IsReady}
use inboxone.Compose.Drafts.{draft_of, finish_send-draft}

abbrev ada : String
ada = "ada@x.org"

ada-IsAddress : IsAddress ada
unfolding trim
ada-IsAddress = record { stands = refl; free = ground arith; tight = refl }

abbrev params : ComposeParams
params = record {
  source_message_id = 7;
  default_account_id = 1;
  default_to = ada ∷ [];
  default_subject = "Re: Tea";
  quoted_html = "<p>Tea?</p>";
}

abbrev empty_modal : ComposeModal
empty_modal = record {
  ui = initial_ui;
  account_id = none;
  to = "";
  cc = "";
  subject = "";
  send_error = none;
  send_warning = none;
  confirm_discard = false;
  dirty = false;
  editor = some "";
  reply_pending = false;
  forward_pending = false;
}

abbrev plain : String → String
plain html = html

abbrev opened_draft : ComposeModal
opened_draft = draft_of open_reply plain params empty_modal

program : Unit {0}
unfolding parse_addrs split trim is_space open_draft open_reply open_forward start_send finish_send
    close_compose pending set_pending request_close keep_editing discard edit
program = tt

addresses : parse_addrs " ada@x.org,, bob@x.org " ≡ "ada@x.org" ∷ "bob@x.org" ∷ []
unfolding program
addresses = refl

without_recipient :
    ((start_send (record opened_draft { to = " , " })).1).send_error
    ≡ some "Add at least one recipient."
unfolding program
without_recipient = refl

opened_draft-IsReady : IsReady 6 "<p></p><p>Tea?</p>" opened_draft
unfolding program
opened_draft-IsReady = record { source = refl; written = refl; able = refl; addressed = refl }

finish_send-draft_example :
    let given_up = discard (start_send opened_draft).1 in
    let draft = edit (edit_body "<p>Yes</p>") (draft_of open_reply plain params given_up) in
    let closed = finish_send reply_mode (sent none) draft in
    ((start_send opened_draft).0 ≡ some (request_for 7 "<p></p><p>Tea?</p>" opened_draft))
    × (given_up.ui.compose.open_ ≡ false)
    × (pending reply_mode draft ≡ true)
    × (draft.ui.compose.open_ ≡ true)
    × (draft.ui.compose.source_message_id ≡ some params.source_message_id)
    × (request_close draft ≡ record draft { confirm_discard = true })
    × (closed.ui.compose ≡ initial_compose)
    × (closed.confirm_discard ≡ false)
unfolding open_draft open_reply
finish_send-draft_example =
    finish_send-draft plain params 6 "<p></p><p>Tea?</p>" (edit_body "<p>Yes</p>") opened_draft
      opened_draft-IsReady
