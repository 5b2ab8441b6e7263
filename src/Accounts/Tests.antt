-- ===== src/Accounts/Tests.antt =====
-- The rows of the accounts on concrete runs (frontend/src/pages/SettingsAccountsPage.tsx).
use inboxone.Common.{◌≡◌, refl, true, false, none, some, List, [], ◌∷◌}
use inboxone.Types.{imap_basic, Account, TestConnectionResult}
use inboxone.Client.Paths.{delete_account, test_connection}
use inboxone.Accounts.{
  row_of, press_test, test_ends, press_folders, press_remove, cancel_remove, confirm, RowEvent,
  tests, folders, removes, cancels, confirms, test_answers, row_step, row_run, row_view, test_lines,
  ok_line, smtp_lines, answer_test, failed, loaded, picker_view, retry_loading, boxes,
}
use inboxone.Accounts.Removal.{removals, all_removals, confirmed, row_run-removals}

abbrev account : Account
account = record {
  id = 3;
  name = "Work";
  color = "#4F46E5";
  protocol = imap_basic;
  is_active = true;
  imap_host = some "imap.x.org";
  imap_port = none;
  imap_use_tls = true;
  imap_username = some "ada";
  smtp_host = none;
  smtp_port = none;
  smtp_use_tls = true;
  smtp_username = none;
  oauth_client_id = none;
  oauth_tenant = none;
  sync_interval_seconds = none;
  last_sync_at = none;
  last_sync_status = none;
  last_sync_error = none;
  folders = [];
}

abbrev result : TestConnectionResult
result = record {
  imap_ok = true;
  imap_error = none;
  smtp_ok = some false;
  smtp_error = some "refused";
}

-- asked, cancelled, confirmed too late, asked and confirmed twice
abbrev removing : List RowEvent
removing = removes ∷ cancels ∷ confirms ∷ removes ∷ tests ∷ confirms ∷ confirms ∷ []

program : Unit {0}
unfolding press_test test_ends press_folders press_remove cancel_remove confirm row_step row_run
    row_view test_lines ok_line smtp_lines answer_test picker_view
program = tt

rows :
    ((row_run removing (row_of account)).sent ≡ delete_account 3 ∷ test_connection 3 ∷ [])
    × ((row_view (row_run (tests ∷ test_answers (some result) ∷ []) (row_of account))).lines
        ≡ ("IMAP: OK", true) ∷ ("SMTP: refused", false) ∷ [])
    × ((row_view (row_run (folders ∷ folders ∷ []) (row_of account))).shows_folders ≡ false)
    × (picker_view true (loaded []) ≡ boxes true true [])
    × (picker_view true failed ≡ retry_loading)
unfolding program
rows = (refl, refl, refl, refl, refl)

row_run-removals_example :
    (all_removals (row_run removing (row_of account)).sent ≡ confirmed false removing)
    × (removals 3 (row_run removing (row_of account)).sent ≡ confirmed false removing)
row_run-removals_example = row_run-removals removing account
