-- ===== src/Watcher/Tests.antt =====
-- The new-mail watcher (frontend/src/components/NewMailWatcher.tsx) on concrete responses.
use inboxone.Common.{
  ◌↔◌, ℕ, ◌≡◌, refl, ◌⊎◌, inl, inr, Bool, true, false, not, ◌&&◌, Option, none, some, List, [], ◌∷◌,
  map, arith, if◌then◌else◌, filter, contains, str_eq, ◌==◌, String,
}
use inboxone.Common.Decimal.{show}
use inboxone.Common.Split.{split, numbers}
use inboxone.Types.{Folder, Account, imap_basic, MessageSummary}
use inboxone.Inboxes.{inbox_folders}
use inboxone.Watcher.{
  sort, membership, mounted, granted, is_granted, Notification, notify_new_message, in_inboxes,
  effect,
}
use inboxone.Watcher.Membership.{is_inbox_id}
use inboxone.Watcher.Inventory.{AreAlike, inbox_ids, membership_iff}
use inboxone.Watcher.Notify.{was_there, effect-effect}

program : Unit {0}
unfolding sort membership mounted notify_new_message in_inboxes effect inbox_folders numbers split
    show
program = tt

abbrev folder_of : ℕ → Bool → Folder
folder_of id inbox = record {
  id = id;
  imap_path = "INBOX";
  display_name = none;
  is_inbox = inbox;
  history_complete = true;
  last_synced_at = none;
  unread_count = 1;
}

abbrev accounts : List Account
accounts =
    record {
      id = 1;
      name = "Work";
      color = "#4F46E5";
      protocol = imap_basic;
      is_active = true;
      imap_host = none;
      imap_port = none;
      imap_use_tls = true;
      imap_username = none;
      smtp_host = none;
      smtp_port = none;
      smtp_use_tls = true;
      smtp_username = none;
      oauth_client_id = none;
      oauth_tenant = none;
      sync_interval_seconds = none;
      last_sync_at = none;
      last_sync_status = none;
      last_sync_error = none;
      folders = folder_of 30 true ∷ folder_of 4 false ∷ folder_of 12 true ∷ [];
    }
    ∷ []

abbrev message_of : ℕ → ℕ → MessageSummary
message_of id folder = record {
  id = id;
  account_id = 1;
  account_color = "#4F46E5";
  account_name = "Work";
  folder_id = folder;
  subject = none;
  from_name = some "Ada";
  from_addr = none;
  to_addrs = [];
  cc_addrs = [];
  date_sent = none;
  is_seen = false;
  is_flagged = false;
  is_answered = false;
  has_attachments = false;
  snippet = none;
}

abbrev first : List MessageSummary
first = message_of 1 30 ∷ []

abbrev second : List MessageSummary
second = message_of 3 4 ∷ message_of 2 12 ∷ message_of 1 30 ∷ []

text : membership (some accounts) ≡ "12,30"
unfolding program
text = refl

shown_texts :
    map
      (λ (n : Notification). n.body)
      (effect
        (some second)
        true
        granted
        "12,30"
        (effect (some first) true granted "12,30" (mounted (some accounts))).0).1
    ≡ "From Ada · Work" ∷ []
unfolding program inboxone.Common.Decimal.number
shown_texts = refl

effect-effect_example :
    let inboxes = membership (some accounts) in
    let after = (effect (some first) true granted inboxes (mounted (some accounts))).0 in
    (effect (some second) true granted inboxes after).1 ≡ (
      if true && is_granted granted
      then map notify_new_message (
          filter (λ m. is_inbox_id m.folder_id accounts && not (was_there accounts first m)) second)
      else [])
effect-effect_example =
    effect-effect accounts first second true true granted granted (mounted (some accounts))

abbrev others : List Account
others =
    map (λ (a : Account). record a { folders = folder_of 12 true ∷ folder_of 30 true ∷ [] })
      accounts

membership_iff_example :
    (membership (some accounts) ≡ membership (some others))
    ↔ AreAlike (inbox_ids accounts) (inbox_ids others)
membership_iff_example = membership_iff accounts others
