-- ===== src/Inboxes/Tests.antt =====
-- Unread counts and the tab (frontend/src/api/inboxes.ts,
-- frontend/src/components/TabUnreadIndicator.tsx) on concrete accounts.
use inboxone.Common.{ℕ, ◌≡◌, refl, Bool, true, false, none, some, List, [], ◌∷◌}
use inboxone.Common.Decimal.{show}
use inboxone.Types.{Folder, Account, imap_basic}
use inboxone.Inboxes.{
  inbox_folders, inbox_unread_count, total_unread, unread_badge, title, badge, badged, mounted,
  update, base_loaded,
}
use inboxone.Inboxes.Indicator.{refresh, follow, stale_badge}

program : Unit {0}
unfolding inbox_folders inbox_unread_count total_unread unread_badge title badge mounted update
    base_loaded refresh follow show
program = tt

abbrev pub folder_of : ℕ → Bool → ℕ → Folder
folder_of id inbox unread = record {
  id = id;
  imap_path = "INBOX";
  display_name = none;
  is_inbox = inbox;
  history_complete = true;
  last_synced_at = none;
  unread_count = unread;
}

abbrev pub account_of : ℕ → List Folder → Account
account_of id folders = record {
  id = id;
  name = "Work";
  color = "#4F46E5";
  protocol = imap_basic;
  is_active = true;
  imap_host = some "imap.example.org";
  imap_port = some 993;
  imap_use_tls = true;
  imap_username = some "me";
  smtp_host = none;
  smtp_port = none;
  smtp_use_tls = true;
  smtp_username = none;
  oauth_client_id = none;
  oauth_tenant = none;
  sync_interval_seconds = none;
  last_sync_at = none;
  last_sync_status = none;
  last_sync_error = none;
  folders = folders;
}

abbrev two_accounts : List Account
two_accounts =
    account_of 1 (folder_of 10 true 4 ∷ folder_of 11 false 50 ∷ [])
    ∷ account_of 2 (folder_of 20 true 3 ∷ [])
    ∷ []

counted :
    (total_unread two_accounts ≡ 7)
    × (title 7 ≡ "(7) inboxone")
    × ((badge 123).label ≡ "99+")
    × ((badge 42).radius ≡ 18)
unfolding program
counted = (refl, refl, refl, refl)

stale_badge_example :
    let (t, asked) = update two_accounts mounted in
    let late = base_loaded 7 (update [] t).0 in
    (asked ≡ some 7)
    × (late.document_title ≡ "inboxone")
    × (late.icon ≡ badged (badge 7))
    × ((update [] late).0 ≡ late)
unfolding program
stale_badge_example = stale_badge two_accounts [] [] mounted 6 refl refl refl (λ e. cc)
