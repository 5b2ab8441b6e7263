-- ===== src/Rows.antt =====
-- The list of messages: frontend/src/components/MessageList.tsx, with the row that
-- frontend/src/components/MessageListItem.tsx is. `format_date` is the browser's rendering of a date.
pub mod Keyboard
pub mod TabStop
mod Tests
use inboxone.Common.{
  ℕ, zero, suc, ◌+◌, ◌-◌, min, String, Bool, true, false, not, ◌&&◌, ◌||◌, Option, none, some, List,
  [], ◌∷◌, map, length, any, filled, ◌==◌, ◌=?=◌, if◌then◌else◌, or_text, or_else, ◌^^◌,
}
use inboxone.Types.{MessageSummary}

unfoldable pub has_unread : List MessageSummary → Bool
has_unread messages = any (λ m. not m.is_seen) messages

first_id : List MessageSummary → Option ℕ
first_id [] = none
first_id (m ∷ _) = some m.id

-- the row that is the tab stop of the list
unfoldable pub tabbable_id : Option ℕ → List MessageSummary → Option ℕ
unfolding first_id
tabbable_id selected_id messages =
    if any (λ m. some m.id =?= selected_id) messages then selected_id else first_id messages

-- The focus: outside the rows, or on a button of a row. A row has three buttons, which mark it, open it and
-- delete it, in this order.
pub data Focus : Type 0 where
  elsewhere : Focus
  on_button : ℕ → ℕ → Focus

abbrev pub button_count : ℕ
button_count = 3

abbrev pub open_button : ℕ
open_button = 1

pub data Key : Type 0 where
  arrow_down arrow_up home end_key arrow_right arrow_left other_key : Key

row_of : Focus → Option ℕ
row_of elsewhere = none
row_of (on_button row button) = some row

-- the row to go to, of `count` rows, for the keys that change the row
next_row : Key → Option ℕ → ℕ → ℕ
next_row home current count = 0
next_row end_key current count = count - 1
next_row key none count = 0
next_row arrow_down (some i) count = min (i + 1) (count - 1)
next_row _ (some i) count = i - 1

focus_row : Key → ℕ → Focus → Focus
unfolding next_row row_of
focus_row key zero focus = focus
focus_row key (suc n) focus = on_button (next_row key (row_of focus) (suc n)) open_button

next_button : Key → ℕ → ℕ
next_button arrow_right i = min (i + 1) (button_count - 1)
next_button _ i = i - 1

focus_button : Key → Focus → Focus
unfolding next_button
focus_button key elsewhere = elsewhere
focus_button key (on_button row button) = on_button row (next_button key button)

-- `handleListKeyDown`, for a list of `count` rows
unfoldable pub key_down : Key → ℕ → Focus → Focus
unfolding focus_row focus_button
key_down arrow_down count focus = focus_row arrow_down count focus
key_down arrow_up count focus = focus_row arrow_up count focus
key_down home count focus = focus_row home count focus
key_down end_key count focus = focus_row end_key count focus
key_down arrow_right count focus = focus_button arrow_right focus
key_down arrow_left count focus = focus_button arrow_left focus
key_down other_key count focus = focus

-- What a row shows, and what its buttons do.
pub record RowView : Type 0 where
  pub id : ℕ
  pub selected : Bool
  pub tabbable : Bool
  pub mark_label : String
  pub marks_as_seen : Bool
  pub read_aloud : String
  pub sender : String
  pub date : String
  pub subject : String
  pub snippet : String
  pub has_paperclip : Bool

unfoldable pub row_view : (Option String → String) → Option ℕ → Option ℕ → MessageSummary → RowView
row_view format_date selected_id tabbable m = record {
  id = m.id;
  selected = some m.id =?= selected_id;
  tabbable = some m.id =?= tabbable;
  mark_label = if m.is_seen then "Mark as unread" else "Mark as read";
  marks_as_seen = not m.is_seen;
  read_aloud =
      (if m.is_seen then "" else "Unread. ")
      ^^ ("Account " ^^ m.account_name ^^ ".")
      ^^ (if m.has_attachments then " Has attachments." else "");
  sender = or_text m.from_name (or_text m.from_addr "(unknown sender)");
  date = format_date m.date_sent;
  subject = or_text m.subject "(no subject)";
  snippet = or_else m.snippet "";
  has_paperclip = m.has_attachments;
}

-- What the list shows, and whether the button that marks all as read is disabled.
pub data ListBody : Type 0 where
  loading : ListBody
  empty : String → ListBody
  rows : List RowView → ListBody

pub list_rows : (Option String → String) → Option ℕ → List MessageSummary → List RowView
unfolding row_view tabbable_id
list_rows format_date selected_id messages =
    map (row_view format_date selected_id (tabbable_id selected_id messages)) messages

loaded_body : (Option String → String) → Option ℕ → String → Bool → List MessageSummary → ListBody
unfolding list_rows
loaded_body format_date selected_id search unread_only [] = empty (
    if filled search || unread_only
    then "No messages match these filters."
    else "No messages yet - accounts sync automatically in the background.")
loaded_body format_date selected_id search unread_only (m ∷ ms) =
    rows (list_rows format_date selected_id (m ∷ ms))

unfoldable pub list_body :
    (Option String → String) → Option ℕ → String → Bool → Bool → List MessageSummary → ListBody
unfolding loaded_body
list_body format_date selected_id search unread_only is_loading messages =
    if is_loading then loading else loaded_body format_date selected_id search unread_only messages

unfoldable pub mark_all_disabled : List MessageSummary → Bool → Bool
unfolding has_unread
mark_all_disabled messages pending = not (has_unread messages) || pending
