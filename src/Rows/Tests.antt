-- ===== src/Rows/Tests.antt =====
-- The list of messages on concrete messages (frontend/src/components/MessageList.tsx).
use inboxone.Common.{
  ℕ, ◌+◌, ◌-◌, min, ◌≡◌, refl, String, true, false, List, [], ◌∷◌, Option, none, some, arith,
}
use inboxone.Types.{MessageSummary}
use inboxone.Rows.{
  on_button, open_button, arrow_down, arrow_up, home, end_key, key_down, list_body, empty, loading,
  mark_all_disabled,
}
use inboxone.Rows.Keyboard.{presses, times, presses-times}
use inboxone.Rows.TabStop.{AreDistinct}

abbrev message_of : ℕ → MessageSummary
message_of id = record {
  id = id;
  account_id = 1;
  account_color = "#4F46E5";
  account_name = "Work";
  folder_id = 4;
  subject = none;
  from_name = none;
  from_addr = some "ada@x.org";
  to_addrs = [];
  cc_addrs = [];
  date_sent = none;
  is_seen = true;
  is_flagged = false;
  is_answered = false;
  has_attachments = false;
  snippet = none;
}

abbrev undated : Option String → String
undated date = ""

bodies :
    (list_body undated none "" true false [] ≡ empty "No messages match these filters.")
    × (list_body undated none "" false true [] ≡ loading)
    × (mark_all_disabled (message_of 1 ∷ []) false ≡ true)
unfolding list_body mark_all_disabled
bodies = (refl, refl, refl)

presses-times_example :
    (presses (times 2 arrow_down) 4 (on_button 1 0) ≡ on_button (min (1 + 2) 3) open_button)
    × (presses (times 2 arrow_up) 4 (on_button 1 0) ≡ on_button (1 - 2) open_button)
    × (presses (times 4 arrow_down) 4 (on_button 1 0) ≡ key_down end_key 4 (on_button 1 0))
    × (presses (times 4 arrow_up) 4 (on_button 1 0) ≡ key_down home 4 (on_button 1 0))
presses-times_example = presses-times 1 3 1 0 (omega arith)

abbrev two : List MessageSummary
two = message_of 1 ∷ message_of 2 ∷ []

two-AreDistinct : AreDistinct two
two-AreDistinct = ((ground arith, tt), (tt, tt))
