-- ===== src/Rail/Tests.antt =====
-- The rail on a concrete account (frontend/src/components/AccountFilterRail.tsx).
use inboxone.Common.{◌≡◌, ◌≤◌, refl, arith, ℕ, true, false, none, some, String, List, [], ◌∷◌, map}
use inboxone.Types.{Folder, imap_basic, Account}
use inboxone.Ui.{initial_ui}
use inboxone.Inboxes.{inbox_unread_count, total_unread, unread_badge, inbox_folders}
use inboxone.Mailbox.{first_page, Event, choose_account, choose_folder, run}
use inboxone.Mailbox.Choice.{ChoiceOf}
use inboxone.Rail.{
  Expanded, AccountEntry, is_expanded, toggle_expanded, folder_entry, account_entry, rail_view,
}
use inboxone.Rail.Unfolding.{toggles}
use inboxone.Rail.Highlight.{highlights, occurrences, account_ids, shown_ids, run-highlights}

abbrev folder_of : ℕ → String → Folder
folder_of id path = record {
  id = id;
  imap_path = path;
  display_name = none;
  is_inbox = true;
  history_complete = true;
  last_synced_at = none;
  unread_count = id;
}

abbrev account : Account
account = record {
  id = 3;
  name = "Work";
  color = "#4F46E5";
  protocol = imap_basic;
  is_active = true;
  imap_host = some "imap.x.org";
  imap_port = none;
  imap_use_tls = true;
  imap_username = some "ada";
  smtp_host = none;
  smtp_port = none;
  smtp_use_tls = true;
  smtp_username = none;
  oauth_client_id = none;
  oauth_tenant = none;
  sync_interval_seconds = none;
  last_sync_at = none;
  last_sync_status = none;
  last_sync_error = none;
  folders = folder_of 5 "INBOX" ∷ folder_of 6 "Sent" ∷ [];
}

abbrev accounts_ : List Account
accounts_ = account ∷ record account { id = 4; name = "Home"; folders = [] } ∷ []

abbrev unfolded : Expanded
unfolded = (3, true) ∷ []

shown :
    (map (λ (a : AccountEntry). a.button_label) (rail_view none none unfolded accounts_).accounts
      ≡ "Collapse folders for Work" ∷ "Expand folders for Home" ∷ [])
    × ((rail_view none none unfolded accounts_).all_badge ≡ some 11)
    × (highlights (rail_view (some 3) (some 6) unfolded accounts_) ≡ 1)
    × (highlights (rail_view (some 3) (some 6) [] accounts_) ≡ 0)
    × (is_expanded 3 (toggles (3 ∷ 4 ∷ 3 ∷ []) []) ≡ false)
unfolding rail_view account_entry folder_entry is_expanded toggle_expanded toggles unread_badge
    total_unread inbox_unread_count inbox_folders
shown = (refl, refl, refl, refl, refl)

abbrev choosing : List (List Account × Event)
choosing = (accounts_, choose_account (some 4)) ∷ (accounts_, choose_folder 3 (some 6)) ∷ []

first-ChoiceOf : ChoiceOf (first_page initial_ui)
unfolding first_page
first-ChoiceOf = refl

distinct_accounts : (id : ℕ) → occurrences id (account_ids accounts_) ≤ 1
distinct_accounts id = ground arith

distinct_folders : (id : ℕ) → occurrences id (shown_ids unfolded accounts_) ≤ 1
unfolding is_expanded
distinct_folders id = ground arith

run-highlights_example :
    highlights (
      rail_view
        (run choosing (first_page initial_ui)).ui.selected_account_id
        (run choosing (first_page initial_ui)).ui.selected_folder_id
        unfolded
        accounts_)
    ≤ 1
run-highlights_example =
    run-highlights choosing (first_page initial_ui) unfolded accounts_ first-ChoiceOf
      distinct_accounts distinct_folders
