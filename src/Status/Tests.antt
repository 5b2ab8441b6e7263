-- ===== src/Status/Tests.antt =====
-- The footer and the dialog of the connections on concrete data (frontend/src/components/StatusBar.tsx and
-- frontend/src/components/ConnectionStatus.tsx).
use inboxone.Common.{
  length, Bool, head?, ◌^^◌, ◌≡◌, refl, List, All, ◌+◌, true, false, none, some, [], ◌∷◌,
}
use inboxone.Common.Decimal.{show, is_digit}
use inboxone.Activity.{WorkItem, queued, activity_label, visible_work, insert, sort, same_work}
use inboxone.Activity.{initial, local_id}
use inboxone.Activity.Local.{Action, begin, receive, start, run}
use inboxone.Client.{work_of}
use inboxone.Client.Paths.{MessageFilters, get_message, url_of, method_of}
use inboxone.Client.Describe.{about_message, describe_calls}
use inboxone.Client.Hooks.{list_work, ask_page}
use inboxone.Client.Request.{unspecified, work_for, begin_request}
use inboxone.Status.{
  FolderConnection, Connections, health, label, color, offset_here, has_offset, with_offset, date,
  interval_label, folder_lines, names_of, ongoing, footer,
}
use inboxone.Status.Panel.{Mutation, PanelState, panel, counted, mark, panel-footer}
use inboxone.Status.Shown.{request-shown}
use inboxone.Mailbox.{folder_request}
use inboxone.Types.{Account, Folder, imap_basic}
use inboxone.Status.Named.{IsOfProgram, page, folder, work_of_request, named, begin_request-footer}

abbrev reading : WorkItem
reading = record { id = "local-1"; work = work_of "Opening message…" "message" }

abbrev listing : WorkItem
listing = record {
  id = "local-2";
  work = record (work_of "Loading messages…" "list") { priority = some 25 };
}

abbrev background : WorkItem
background = record {
  id = "background";
  work = record (work_of "Syncing another account…" "sync") {
    account_id = some 9;
    state = some queued;
  };
}

abbrev all_well : Connections
all_well = record {
  health = "green";
  refresh_seconds = 60;
  accounts =
      record {
        account_id = 1;
        name = "Work";
        color = "#fff";
        health = "green";
        error = none;
        error_at = none;
        folders = [];
      }
      ∷ [];
}

abbrev inbox : FolderConnection
inbox = record {
  folder_id = 1;
  name = "Inbox";
  is_inbox = true;
  state = "polling";
  mode = "polling";
  health = "yellow";
  last_success = some "2026-01-01T00:00:00";
  error = some "timeout";
  error_at = some "2026-01-01T00:00:00+01:00";
  sync_error = some "";
  sync_error_at = none;
  next_retry = none;
}

program : Unit {0}
unfolding health label color offset_here has_offset with_offset date interval_label folder_lines
    names_of ongoing footer activity_label visible_work insert sort same_work show is_digit
program = tt

footers :
    ((footer (reading ∷ listing ∷ []) (background ∷ []) (some all_well)).work_label
      ≡ some "Opening message…")
    × ((footer (reading ∷ listing ∷ []) (background ∷ []) (some all_well)).more ≡ some 2)
    × ((footer [] (background ∷ []) (some all_well)).work_label
        ≡ some "Account #9 · Syncing another account…")
    × ((footer [] [] (some all_well)).shows_label ≡ true)
    × (ongoing (background ∷ []) none ≡ "Account #9 · Syncing another account… (queued)" ∷ [])
unfolding program
footers = (refl, refl, refl, refl, refl)

lines :
    ((folder_lines (λ s. s) (interval_label show (some all_well)) inbox).title
      ≡ "Inbox · polling · 1 minute polling fallback")
    × ((folder_lines (λ s. s) "" inbox).last_sync ≡ "Last successful sync: 2026-01-01T00:00:00Z")
    × ((folder_lines (λ s. s) "" inbox).error ≡ some "timeout · 2026-01-01T00:00:00+01:00")
    × (label (health false (some all_well)) ≡ "Connecting or polling")
    × (color (health true (some all_well)) ≡ some "bg-green-500")
unfolding program
lines = (refl, refl, refl, refl, refl)

abbrev everything : MessageFilters
everything = record { account_id = none; folder_id = none; unread_only = false; search = some "" }

-- the list is loading, and the server has work of its own
abbrev before : List Action
before = begin (list_work everything none false) ∷ receive (background ∷ []) ∷ start ∷ []

before-IsOfProgram : All IsOfProgram before
unfolding work_for ask_page list_work
before-IsOfProgram =
    ((ask_page everything none false, page everything none false, refl), (tt, (tt, tt)))

begin_request-footer_example :
    let s = run before initial in
    let c = get_message 7 in
    let (pending, t) = begin_request unspecified (url_of c) (method_of c) s in
    (footer t.local t.server none).work_label
    ≡ named (local_id (s.sequence + 1)) (about_message "Opening message…" "message" 7) none
begin_request-footer_example =
    begin_request-footer before before-IsOfProgram none (get_message 7) unspecified
      (about_message "Opening message…" "message" 7)
      (unfold work_for in describe_calls (get_message 7)) refl

abbrev drafts : Folder
drafts = record {
  id = 5;
  imap_path = "INBOX/Drafts";
  display_name = some "Drafts";
  is_inbox = false;
  history_complete = true;
  last_synced_at = none;
  unread_count = 0;
}

abbrev work : Account
work = record {
  id = 3;
  name = "Work";
  color = "#4F46E5";
  protocol = imap_basic;
  is_active = true;
  imap_host = some "imap.x.org";
  imap_port = some 993;
  imap_use_tls = true;
  imap_username = some "ada";
  smtp_host = none;
  smtp_port = none;
  smtp_use_tls = true;
  smtp_username = none;
  oauth_client_id = none;
  oauth_tenant = none;
  sync_interval_seconds = none;
  last_sync_at = none;
  last_sync_status = none;
  last_sync_error = none;
  folders = drafts ∷ [];
}

request-shown_example :
    work_of_request (folder_request (work ∷ []) 3 (some 5))
    ≡ some
        (record (work_of "Refreshing Drafts…" "sync") { account_id = some 3; folder_id = some 5 })
request-shown_example =
    request-shown (folder_request (work ∷ []) 3 (some 5)) (folder (work ∷ []) 3 (some 5))

abbrev idle_mutation : Mutation
idle_mutation = record { is_pending = false; is_error = false }

abbrev shown_state : PanelState
shown_state = record {
  local = reading ∷ [];
  server = background ∷ [];
  connected = false;
  connections = some all_well;
  load_failed = false;
  retry = idle_mutation;
  refresh = idle_mutation;
}

panels :
    let p = panel (λ s. s) show shown_state in
    (p.trigger ≡ "Connection status: Connecting or polling")
    × (p.work ≡ "Opening message…" ∷ "Account #9 · Syncing another account… (queued)" ∷ [])
    × (p.description ≡ "Connecting or polling. Scheduled refreshes run every 1 minute.")
unfolding program panel
panels = (refl, refl, refl)

panel-footer_example :
    let listed = (panel (λ s. s) show shown_state).work in
    (length listed ≡ counted (footer (reading ∷ []) (background ∷ []) (some all_well)))
    × ((queued : Bool) × (head? listed ≡ some ("Opening message…" ^^ mark queued)))
panel-footer_example =
    panel-footer (λ s. s) show shown_state "Opening message…" (unfold program in refl)
