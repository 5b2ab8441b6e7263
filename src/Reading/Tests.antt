-- ===== src/Reading/Tests.antt =====
-- The reading pane on concrete messages (frontend/src/components/MessageReadingPane.tsx).
use inboxone.Common.{
  List, length, ◌≡◌, ◌≢◌, refl, String, true, false, none, some, [], ◌∷◌, arith, ◌^^◌,
}
use inboxone.Common.Split.{IsFree}
use inboxone.Common.Trim.{trim}
use inboxone.Types.{MessageDetail, Segment, AttachmentMeta}
use inboxone.Client.Paths.{download}
use inboxone.Client.{strip}
use inboxone.Ui.{initial_ui}
use inboxone.Compose.{ComposeModal, open_draft, start_send, edit_to, edit}
use inboxone.Compose.Addresses.{IsAddress}
use inboxone.Reading.{
  escape_html, src_doc, starts_like, reply_subject, forward_subject, press_reply, press_forward,
  quoted_body, forwarded_body, MessageQuery, pane, failure, loading, nothing_selected,
}
use inboxone.Reading.Escaping.{framed, escape_each, escape_html-eq, quoted_body-raw}
use inboxone.Reading.Attachments.{
  no_attachments, click_attachment, arrives, throws, end_download, Event, clicks, ends, waits, step,
  run,
}
use inboxone.Reading.Attachments.Released.{drain, run-revoked}
use inboxone.Reading.Answering.{
  reply_request, start_send-press_reply, forward_request, start_send-press_forward,
}

abbrev detail : MessageDetail
detail = record {
  id = 7;
  account_id = 1;
  account_name = "Work";
  account_color = "#4F46E5";
  folder_id = 4;
  subject = some "Tea";
  from_name = none;
  from_addr = some "ada@x.org";
  to_addrs = "me@x.org" ∷ [];
  cc_addrs = [];
  date_sent = none;
  text_body = some "a <b c";
  html_body = none;
  attachments = [];
  message_id_header = none;
  references = none;
}

abbrev plain : String → String
plain html = html

abbrev modal : ComposeModal
modal = record {
  ui = initial_ui;
  account_id = none;
  to = "";
  cc = "";
  subject = "";
  send_error = none;
  send_warning = none;
  confirm_discard = false;
  dirty = false;
  editor = some "";
  reply_pending = false;
  forward_pending = false;
}

subjects :
    (reply_subject (some "Tea") ≡ "Re: Tea")
    × (reply_subject (some "Re: Tea") ≡ "Re: Tea")
    × (reply_subject (some "RE: Tea") ≡ "Re: RE: Tea")
    × (forward_subject (some "FWD: Tea") ≡ "FWD: Tea")
    × (forward_subject none ≡ "Fwd: ")
unfolding reply_subject forward_subject strip starts_like
subjects = (refl, refl, refl, refl, refl)

abbrev waiting : MessageQuery
waiting = record { detail = none; is_loading = true; error = none }

panes :
    (pane plain none waiting ≡ nothing_selected)
    × (pane plain (some 7) waiting ≡ loading)
    × (pane plain (some 7) (record waiting { error = some none })
        ≡ failure "Could not load this message.")
unfolding pane
panes = (refl, refl, refl)

escape_html-eq_example : escape_html "a & <b>" ≡ escape_each "a & <b>"
escape_html-eq_example = escape_html-eq "a & <b>"

not-IsFree : ¬ IsFree b'<' "a <b c"
not-IsFree (_, (_, (c, _))) = c refl

quoted_body-raw_example :
    (src_doc (some detail)
      ≡ framed (
          "<pre style=\"white-space:pre-wrap;font-family:inherit;\">"
          ^^ escape_each "a <b c"
          ^^ "</pre>"))
    × (forwarded_body detail ≡ "<pre>" ^^ escape_each "a <b c" ^^ "</pre>")
    × (quoted_body detail ≡ "<pre>" ^^ "a <b c" ^^ "</pre>")
    × (quoted_body detail ≢ forwarded_body detail)
quoted_body-raw_example = quoted_body-raw detail "a <b c" refl refl not-IsFree

ada-IsAddress : IsAddress "ada@x.org"
unfolding trim
ada-IsAddress = record { stands = refl; free = ground arith; tight = refl }

bob-IsAddress : IsAddress "bob@x.org"
unfolding trim
bob-IsAddress = record { stands = refl; free = ground arith; tight = refl }

start_send-press_reply_example :
    (start_send (open_draft plain (record modal { ui = press_reply plain detail modal.ui }))).0
    ≡ some (reply_request plain plain 7 "ada@x.org" detail)
start_send-press_reply_example =
    start_send-press_reply plain plain detail "ada@x.org" "" 6 modal refl refl ada-IsAddress refl
      refl refl

start_send-press_forward_example :
    let d = open_draft plain (record modal { ui = press_forward plain detail modal.ui }) in
    (start_send d ≡ (none, record d { send_error = some "Add at least one recipient." }))
    × ((start_send (edit (edit_to "bob@x.org") (start_send d).1)).0
        ≡ some (forward_request plain plain 7 "bob@x.org" detail))
start_send-press_forward_example =
    start_send-press_forward plain plain detail "bob@x.org" "" 6 modal refl bob-IsAddress refl refl

abbrev part_2 : Segment
part_2 = record { text = "2"; plain = refl }

abbrev picture : AttachmentMeta
picture = record {
  part_index = part_2;
  filename = none;
  content_type = "image/png";
  size = none;
  content_id = none;
}

abbrev downloading : List Event
downloading =
    clicks 7 picture ∷ clicks 7 picture ∷ ends 2 arrives ∷ ends 1 (throws none) ∷ waits 10 ∷ []

downloaded :
    let s = run downloading no_attachments in
    (s.saved ≡ ("attachment", 1) ∷ [])
    × (s.object_urls ≡ 1 ∷ [])
    × (s.toasts ≡ "Could not download attachment" ∷ [])
    × (s.requests ≡ download 7 part_2 ∷ download 7 part_2 ∷ [])
unfolding run step click_attachment end_download no_attachments
downloaded = (refl, refl, refl, refl)

run-revoked_example :
    let s = step (waits 1000) (run downloading no_attachments) in
    (drain (length s.timers.active) s).object_urls ≡ []
run-revoked_example = run-revoked downloading
