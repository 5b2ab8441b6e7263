-- ===== src/Types.antt =====
-- frontend/src/api/types.ts: what the server sends and takes. `null` and a missing field are `none`.
use Prim.Native.Char.{code}
use inboxone.Common.{ℕ, ◌≡◌, String, Bool, true, not, ◌&&◌, ◌||◌, Option, List, leb, ◌==◌, str_eq}

-- a letter or a digit of ASCII, `-`, `_`, `.` or `~`
abbrev is_unreserved : ℕ → Bool
is_unreserved c =
    leb 48 c && leb c 57
    || leb 65 c && leb c 90
    || leb 97 c && leb c 122
    || c == b'-'
    || c == b'_'
    || c == b'.'
    || c == b'~'

abbrev all_unreserved : String → Bool
all_unreserved String.[] = true
all_unreserved (String.◌∷◌ c s) = is_unreserved (code c) && all_unreserved s

abbrev pub is_segment : String → Bool
is_segment text = all_unreserved text && not (str_eq text ".") && not (str_eq text "..")

-- A text of the server that stands in a path as it is: no character of it is escaped or ends the path, and it is no
-- step in it. The server's part numbers and the ids of its flows are such.
pub record Segment : Type 0 where
  pub text : String
  pub plain : is_segment text ≡ true

pub record Folder : Type 0 where
  pub id : ℕ
  pub imap_path : String
  pub display_name : Option String
  pub is_inbox : Bool
  pub history_complete : Bool
  pub last_synced_at : Option String
  pub unread_count : ℕ

pub data Protocol : Type 0 where
  imap_basic oauth_microsoft : Protocol

pub record Account : Type 0 where
  pub id : ℕ
  pub name : String
  pub color : String
  pub protocol : Protocol
  pub is_active : Bool
  pub imap_host : Option String
  pub imap_port : Option ℕ
  pub imap_use_tls : Bool
  pub imap_username : Option String
  pub smtp_host : Option String
  pub smtp_port : Option ℕ
  pub smtp_use_tls : Bool
  pub smtp_username : Option String
  pub oauth_client_id : Option String
  pub oauth_tenant : Option String
  pub sync_interval_seconds : Option ℕ
  pub last_sync_at : Option String
  pub last_sync_status : Option String
  pub last_sync_error : Option String
  pub folders : List Folder

pub record AccountCreateBasic : Type 0 where
  pub name : String
  pub color : String
  pub imap_host : String
  pub imap_port : ℕ
  pub imap_use_tls : Bool
  pub imap_username : String
  pub imap_password : String
  pub smtp_host : String
  pub smtp_port : ℕ
  pub smtp_use_tls : Bool
  pub smtp_username : String
  pub smtp_password : String
  pub sync_interval_seconds : Option ℕ

-- `smtp_ok` is `none` where there is nothing to test.
pub record TestConnectionResult : Type 0 where
  pub imap_ok : Bool
  pub imap_error : Option String
  pub smtp_ok : Option Bool
  pub smtp_error : Option String

pub record MessageSummary : Type 0 where
  pub id : ℕ
  pub account_id : ℕ
  pub account_color : String
  pub account_name : String
  pub folder_id : ℕ
  pub subject : Option String
  pub from_name : Option String
  pub from_addr : Option String
  pub to_addrs : List String
  pub cc_addrs : List String
  pub date_sent : Option String
  pub is_seen : Bool
  pub is_flagged : Bool
  pub is_answered : Bool
  pub has_attachments : Bool
  pub snippet : Option String

pub record MessageListPage : Type 0 where
  pub items : List MessageSummary
  pub next_cursor : Option String

pub record AttachmentMeta : Type 0 where
  pub part_index : Segment
  pub filename : Option String
  pub content_type : String
  pub size : Option ℕ
  pub content_id : Option String

pub record MessageDetail : Type 0 where
  pub id : ℕ
  pub account_id : ℕ
  pub account_name : String
  pub account_color : String
  pub folder_id : ℕ
  pub subject : Option String
  pub from_name : Option String
  pub from_addr : Option String
  pub to_addrs : List String
  pub cc_addrs : List String
  pub date_sent : Option String
  pub text_body : Option String
  pub html_body : Option String
  pub attachments : List AttachmentMeta
  pub message_id_header : Option String
  pub references : Option String
