-- ===== src/Rail.antt =====
-- The rail of accounts and folders, frontend/src/components/AccountFilterRail.tsx: which accounts are unfolded,
-- and what is shown of them. Its choices are in Mailbox, its counts in Inboxes.
pub mod Unfolding
pub mod Highlight
mod Tests
use inboxone.Common.{
  ℕ, String, Bool, true, false, not, ◌&&◌, Option, none, some, List, [], ◌∷◌, map, or_text, is_some,
  ◌^^◌, ◌==◌, ◌=?=◌, if◌then◌else◌,
}
use inboxone.Types.{Folder, Account}
use inboxone.Inboxes.{inbox_unread_count, total_unread, unread_badge}

-- `expanded`: a record from ids to truth values, the last entry of an id first
abbrev pub Expanded : Type 0
Expanded = List (ℕ × Bool)

-- `!!expanded[id]`
unfoldable pub is_expanded : ℕ → Expanded → Bool
is_expanded id [] = false
is_expanded id ((other, b) ∷ e) = if other == id then b else is_expanded id e

-- `{ ...e, [id]: !e[id] }`
unfoldable pub toggle_expanded : ℕ → Expanded → Expanded
unfolding is_expanded
toggle_expanded id e = (id, not (is_expanded id e)) ∷ e

pub record FolderEntry : Type 0 where
  pub folder_id : ℕ
  pub label : String
  pub is_selected : Bool
  pub shows_inbox : Bool
  pub badge : Option ℕ

-- `folders` is `none` where they are folded away; an empty list is shown as a notice
pub record AccountEntry : Type 0 where
  pub account_id : ℕ
  pub is_selected : Bool
  pub button_label : String
  pub badge : Option ℕ
  pub folders : Option (List FolderEntry)

pub record RailView : Type 0 where
  pub all_selected : Bool
  pub all_badge : Option ℕ
  pub accounts : List AccountEntry

unfoldable pub folder_entry : Option ℕ → Folder → FolderEntry
folder_entry selected_folder_id folder = record {
  folder_id = folder.id;
  label = or_text folder.display_name folder.imap_path;
  is_selected = selected_folder_id =?= some folder.id;
  shows_inbox = folder.is_inbox;
  badge = unread_badge folder.unread_count;
}

expand_label : Bool → String → String
expand_label is_expanded name =
    (if is_expanded then "Collapse" else "Expand") ^^ " folders for " ^^ name

unfoldable pub account_entry : Option ℕ → Option ℕ → Expanded → Account → AccountEntry
unfolding folder_entry expand_label
account_entry selected_account_id selected_folder_id expanded account = record {
  account_id = account.id;
  is_selected = selected_account_id =?= some account.id && not (is_some selected_folder_id);
  button_label = expand_label (is_expanded account.id expanded) account.name;
  badge = unread_badge (inbox_unread_count account);
  folders =
      if is_expanded account.id expanded
      then some (map (folder_entry selected_folder_id) account.folders)
      else none;
}

unfoldable pub rail_view : Option ℕ → Option ℕ → Expanded → List Account → RailView
unfolding account_entry
rail_view selected_account_id selected_folder_id expanded accounts = record {
  all_selected = not (is_some selected_account_id);
  all_badge = unread_badge (total_unread accounts);
  accounts = map (account_entry selected_account_id selected_folder_id expanded) accounts;
}
