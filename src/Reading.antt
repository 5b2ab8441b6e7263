-- ===== src/Reading.antt =====
-- frontend/src/components/MessageReadingPane.tsx: how the open message is shown, and what a reply and a
-- forward of it start with. `locale` is the browser's `new Date(s).toLocaleString()`.
pub mod Escaping
pub mod Answering
pub mod Attachments
mod Tests
use Prim.Native.Char.{Char, code}
use Prim.Native.String
use inboxone.Common.{
  ℕ, String, Bool, true, false, not, ◌&&◌, ◌||◌, Option, none, some, List, [], ◌∷◌, map, leb, ◌==◌,
  ◌+◌, if◌then◌else◌, is_some, or_else, filled?, or_text, join, ◌^^◌,
}
use inboxone.Common.Decimal.{show}
use inboxone.Types.{AttachmentMeta, MessageDetail}
use inboxone.Client.{strip}
use inboxone.Client.Paths.{Call, download}
use inboxone.Ui.{ComposeParams, Ui, open_reply, open_forward}

-- `text.replace(/c/g, by)` for one character
unfoldable pub replace : ℕ → String → String → String
replace c by String.[] = String.[]
replace c by (String.◌∷◌ d s) =
    let rest = replace c by s in if code d == c then by ^^ rest else String.◌∷◌ d rest

unfoldable pub escape_html : String → String
unfolding replace
escape_html text = replace b'>' "&gt;" (replace b'<' "&lt;" (replace b'&' "&amp;" text))

date_text : (String → String) → Option String → String
date_text locale none = ""
date_text locale (some String.[]) = ""
date_text locale (some (String.◌∷◌ c s)) = locale (String.◌∷◌ c s)

sender : Option String → Option String → String → String
sender from_name from_addr unknown = or_text from_name (or_text from_addr unknown)

pub quoted_body : MessageDetail → String
quoted_body detail = or_else detail.html_body ("<pre>" ^^ or_else detail.text_body "" ^^ "</pre>")

unfoldable pub build_quoted_html : (String → String) → MessageDetail → String
unfolding date_text sender quoted_body
build_quoted_html locale detail =
    "<p>On "
    ^^ date_text locale detail.date_sent
    ^^ ", "
    ^^ sender detail.from_name detail.from_addr "them"
    ^^ " wrote:</p><blockquote style=\"border-left:2px solid #ccc;padding-left:10px;margin-left:0;color:#555;\">"
    ^^ quoted_body detail
    ^^ "</blockquote>"

forward_from : MessageDetail → String
forward_from detail =
    if filled? detail.from_name
    then or_else detail.from_name "" ^^ " <" ^^ or_else detail.from_addr "" ^^ ">"
    else or_else detail.from_addr ""

pub forwarded_body : MessageDetail → String
unfolding escape_html
forwarded_body detail =
    or_else detail.html_body ("<pre>" ^^ escape_html (or_else detail.text_body "") ^^ "</pre>")

unfoldable pub build_forwarded_html : (String → String) → MessageDetail → String
unfolding date_text forward_from forwarded_body escape_html
build_forwarded_html locale detail =
    "<p><br></p><p>---------- Forwarded message ---------</p><p><strong>From:</strong> "
    ^^ escape_html (forward_from detail)
    ^^ "<br><strong>Date:</strong> "
    ^^ escape_html (date_text locale detail.date_sent)
    ^^ "<br><strong>Subject:</strong> "
    ^^ escape_html (or_else detail.subject "")
    ^^ "<br><strong>To:</strong> "
    ^^ escape_html (join ", " detail.to_addrs)
    ^^ "</p>"
    ^^ forwarded_body detail

shown_body : MessageDetail → String
unfolding escape_html
shown_body detail = or_else detail.html_body (
    "<pre style=\"white-space:pre-wrap;font-family:inherit;\">"
    ^^ escape_html (or_else detail.text_body "")
    ^^ "</pre>")

-- the document of the frame
unfoldable pub src_doc : Option MessageDetail → String
unfolding shown_body
src_doc none = ""
src_doc (some detail) =
    "<html><head><meta name=\"color-scheme\" content=\"light\"><base target=\"_blank\"></head><body style=\"margin:0;padding:12px;background:#fff;color:#111;font-family:system-ui,sans-serif;font-size:14px;\">"
    ^^ shown_body detail
    ^^ "</body></html>"

unfoldable pub reply_subject : Option String → String
unfolding strip
reply_subject none = "Re: "
reply_subject (some subject) = if is_some (strip "Re:" subject) then subject else "Re: " ^^ subject

-- the ASCII letter in lower case
abbrev pub lower : ℕ → ℕ
lower c = if leb 65 c && leb c 90 then c + 32 else c

-- the text begins with a prefix, whatever the case of its letters
unfoldable pub starts_like : String → String → Bool
starts_like String.[] s = true
starts_like (String.◌∷◌ c p) String.[] = false
starts_like (String.◌∷◌ c p) (String.◌∷◌ d s) =
    let rest = starts_like p s in if lower (code c) == lower (code d) then rest else false

unfoldable pub forward_subject : Option String → String
unfolding starts_like
forward_subject subject =
    let text = or_else subject "" in if starts_like "Fwd:" text then text else "Fwd: " ^^ text

reply_to : Option String → List String
reply_to none = []
reply_to (some String.[]) = []
reply_to (some (String.◌∷◌ c s)) = String.◌∷◌ c s ∷ []

-- what the buttons open the compose dialog with
unfoldable pub reply_params : (String → String) → MessageDetail → ComposeParams
unfolding reply_to reply_subject build_quoted_html
reply_params locale detail = record {
  source_message_id = detail.id;
  default_account_id = detail.account_id;
  default_to = reply_to detail.from_addr;
  default_subject = reply_subject detail.subject;
  quoted_html = build_quoted_html locale detail;
}

unfoldable pub forward_params : (String → String) → MessageDetail → ComposeParams
unfolding forward_subject build_forwarded_html
forward_params locale detail = record {
  source_message_id = detail.id;
  default_account_id = detail.account_id;
  default_to = [];
  default_subject = forward_subject detail.subject;
  quoted_html = build_forwarded_html locale detail;
}

unfoldable pub press_reply : (String → String) → MessageDetail → Ui → Ui
unfolding open_reply reply_params
press_reply locale detail ui = open_reply (reply_params locale detail) ui

unfoldable pub press_forward : (String → String) → MessageDetail → Ui → Ui
unfolding open_forward forward_params
press_forward locale detail ui = open_forward (forward_params locale detail) ui

-- The query of the message: its data, whether it is loading, and the error's message where it failed.
pub record MessageQuery : Type 0 where
  pub detail : Option MessageDetail
  pub is_loading : Bool
  pub error : Option (Option String)

-- What the pane shows.
pub record MessageView : Type 0 where
  pub subject : String
  pub account : String
  pub from : String
  pub date : String
  pub to : String
  pub document : String
  pub attachments : List (Call × String)

pub data Pane : Type 0 where
  nothing_selected loading : Pane
  failure : String → Pane
  message : MessageView → Pane

attachment_link : ℕ → AttachmentMeta → Call × String
attachment_link id a = (download id a.part_index, or_text a.filename "attachment")

message_view : (String → String) → MessageDetail → MessageView
unfolding date_text src_doc attachment_link
message_view locale detail = record {
  subject = or_text detail.subject "(no subject)";
  account = detail.account_name;
  from = or_else detail.from_name "" ^^ " <" ^^ or_else detail.from_addr "" ^^ ">";
  date = date_text locale detail.date_sent;
  to = "To: " ^^ join ", " detail.to_addrs;
  document = src_doc (some detail);
  attachments = map (attachment_link detail.id) detail.attachments;
}

loaded_pane : (String → String) → Bool → Option MessageDetail → Pane
unfolding message_view
loaded_pane locale true detail = loading
loaded_pane locale false none = loading
loaded_pane locale false (some detail) = message (message_view locale detail)

query_pane : (String → String) → Option (Option String) → MessageQuery → Pane
unfolding loaded_pane
query_pane locale none query = loaded_pane locale query.is_loading query.detail
query_pane locale (some text) query = failure (or_else text "Could not load this message.")

unfoldable pub pane : (String → String) → Option ℕ → MessageQuery → Pane
unfolding query_pane
pane locale none query = nothing_selected
pane locale (some id) query = query_pane locale query.error query
