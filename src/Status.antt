-- ===== src/Status.antt =====
-- What the footer and the dialog say of the connections: frontend/src/components/StatusBar.tsx and
-- frontend/src/components/ConnectionStatus.tsx, with the types of frontend/src/api/liveSync.ts.
pub mod Health
pub mod Dates
pub mod Foreground
pub mod Named
pub mod Shown
pub mod Latest
pub mod Panel
mod Tests
use Prim.Native.Char.{code}
use Prim.Native.String
use inboxone.Common.{
  ℕ, ◌-◌, ◌/◌, ◌%◌, String, Bool, true, false, not, ◌&&◌, ◌||◌, Option, none, some, List, [], ◌∷◌,
  ◌++◌, map, length, is_some, or_else, or_text, filled, filled?, str_eq, ◌^^◌, ◌==◌, if◌then◌else◌,
}
use inboxone.Common.Decimal.{show, is_digit}
use inboxone.Activity.{
  WorkItem, WorkState, queued, running, AccountName, activity_label, visible_work,
}
use inboxone.Client.Paths.{Call, trigger_all, retry}

pub record FolderConnection : Type 0 where
  pub folder_id : ℕ
  pub name : String
  pub is_inbox : Bool
  pub state : String
  pub mode : String
  pub health : String
  pub last_success : Option String
  pub error : Option String
  pub error_at : Option String
  pub sync_error : Option String
  pub sync_error_at : Option String
  pub next_retry : Option String

pub record AccountConnection : Type 0 where
  pub account_id : ℕ
  pub name : String
  pub color : String
  pub health : String
  pub error : Option String
  pub error_at : Option String
  pub folders : List FolderConnection

pub record Connections : Type 0 where
  pub health : String
  pub refresh_seconds : ℕ
  pub accounts : List AccountConnection

-- `query.data?.health`
health_text : Option Connections → Option String
health_text none = none
health_text (some data_) = some data_.health

is_text : Option String → String → Bool
is_text none text = false
is_text (some s) text = str_eq s text

-- the health that is shown, by whether the events of the server arrive
unfoldable pub health : Bool → Option Connections → String
unfolding health_text is_text
health connected data_ =
    let text = health_text data_ in
    if is_text text "neutral"
    then "neutral"
    else if is_text text "red"
    then "red"
    else if not connected
    then "yellow"
    else or_else text "yellow"

unfoldable pub label : String → String
label health =
    if str_eq health "neutral"
    then "No active accounts"
    else if str_eq health "green"
    then "Connected"
    else if str_eq health "red"
    then "Connection error"
    else "Connecting or polling"

-- `colors[health]`
unfoldable pub color : String → Option String
color health =
    if str_eq health "green"
    then some "bg-green-500"
    else if str_eq health "yellow"
    then some "bg-yellow-500"
    else if str_eq health "red"
    then some "bg-red-500"
    else if str_eq health "neutral"
    then some "bg-gray-400"
    else none

-- `/Z$|[+-]\d\d:\d\d$/.test(value)`: the text that is left at some place is one of these
is_sign : ℕ → Bool
is_sign c = c == b'+' || c == b'-'

unfoldable pub offset_here : String → Bool
unfolding is_sign is_digit
offset_here (String.◌∷◌ c String.[]) = code c == b'Z'
offset_here
      (String.◌∷◌ s
        (String.◌∷◌ a (String.◌∷◌ b (String.◌∷◌ c (String.◌∷◌ d (String.◌∷◌ e String.[])))))) =
    is_sign (code s) && is_digit a && is_digit b && (code c == b':') && is_digit d && is_digit e
offset_here _ = false

unfoldable pub has_offset : String → Bool
unfolding offset_here
has_offset String.[] = false
has_offset (String.◌∷◌ c s) = offset_here (String.◌∷◌ c s) || has_offset s

-- the timestamp that is read: one with no offset is in UTC
unfoldable pub with_offset : String → String
with_offset value = if has_offset value then value else value ^^ "Z"

-- `to_locale` is what `new Date(value).toLocaleString()` makes of a timestamp
unfoldable pub date : (String → String) → Option String → String
unfolding with_offset
date to_locale none = "Never"
date to_locale (some value) = if filled value then to_locale (with_offset value) else "Never"

-- `${minutes} ${minutes === 1 ? "minute" : "minutes"}`; `show_fraction` is the text of a fraction of a minute
interval_text : (ℕ → String) → ℕ → String
interval_text show_fraction seconds =
    (if seconds % 60 == 0 then show (seconds / 60) else show_fraction seconds)
    ^^ " "
    ^^ (if seconds == 60 then "minute" else "minutes")

refresh_seconds_of : Option Connections → ℕ
refresh_seconds_of none = 900
refresh_seconds_of (some data_) = data_.refresh_seconds

unfoldable pub interval_label : (ℕ → String) → Option Connections → String
unfolding interval_text refresh_seconds_of
interval_label show_fraction data_ = interval_text show_fraction (refresh_seconds_of data_)

mode_text : String → String → String
mode_text mode interval =
    if str_eq mode "idle"
    then "IMAP IDLE"
    else if str_eq mode "polling"
    then interval ^^ " polling fallback"
    else "Scheduled refresh"

-- `a || b`
first_filled : Option String → Option String → Option String
first_filled a b = if filled? a then a else b

error_line : (String → String) → Option String → Option String → Option String
unfolding date
error_line to_locale none at = none
error_line to_locale (some text) at =
    if filled text then some (text ^^ " · " ^^ date to_locale at) else none

retry_line : (String → String) → Option String → Option String
unfolding date
retry_line to_locale at =
    if filled? at then some ("Next connection attempt: " ^^ date to_locale at) else none

pub record FolderLines : Type 0 where
  pub title : String
  pub last_sync : String
  pub error : Option String
  pub next : Option String

unfoldable pub folder_lines : (String → String) → String → FolderConnection → FolderLines
unfolding mode_text first_filled error_line retry_line date
folder_lines to_locale interval folder = record {
  title = folder.name ^^ " · " ^^ folder.state ^^ " · " ^^ mode_text folder.mode interval;
  last_sync = "Last successful sync: " ^^ date to_locale folder.last_success;
  error =
      error_line to_locale (first_filled folder.sync_error folder.error)
        (first_filled folder.sync_error_at folder.error_at);
  next = retry_line to_locale folder.next_retry;
}

account_error : (String → String) → AccountConnection → Option String
unfolding error_line
account_error to_locale account = error_line to_locale account.error account.error_at

-- the names by which the work of an account is labelled
unfoldable pub names_of : Option Connections → List AccountName
names_of none = []
names_of (some data_) =
    map (λ a. record { account_id = a.account_id; name = a.name }) data_.accounts

is_queued : Option WorkState → Bool
is_queued (some queued) = true
is_queued _ = false

-- the list of ongoing activity in the dialog
unfoldable pub ongoing : List WorkItem → Option Connections → List String
unfolding names_of is_queued
ongoing work data_ =
    map
      (λ item.
        activity_label item (names_of data_)
        ^^ (if is_queued item.work.state then " (queued)" else ""))
      work

-- The footer: the label of the first work, and how many more there are, if there are any; the label of the
-- connection is hidden then.
pub record Footer : Type 0 where
  pub work_label : Option String
  pub more : Option ℕ
  pub shows_label : Bool

footer_of : List WorkItem → List AccountName → Footer
footer_of [] names = record { work_label = none; more = none; shows_label = true }
footer_of (item ∷ []) names = record {
  work_label = some (activity_label item names);
  more = none;
  shows_label = false;
}
footer_of (item ∷ other ∷ items) names = record {
  work_label = some (activity_label item names);
  more = some (length (item ∷ other ∷ items) - 1);
  shows_label = false;
}

unfoldable pub footer : List WorkItem → List WorkItem → Option Connections → Footer
unfolding footer_of names_of
footer local server data_ = footer_of (visible_work local server) (names_of data_)

-- The buttons, each disabled while its own request is under way: what they ask of the server.
unfoldable pub press_refresh_all : Bool → Option Call
press_refresh_all is_pending = if is_pending then none else some trigger_all

unfoldable pub press_retry : Bool → ℕ → Option Call
press_retry is_pending account_id = if is_pending then none else some (retry account_id)

-- the toast after a refused refresh, by the message of the error if it is an `Error`
unfoldable pub refused_text : Option String → String
refused_text message = or_else message "Could not request refresh"
