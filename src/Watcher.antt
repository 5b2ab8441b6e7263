-- ===== src/Watcher.antt =====
-- frontend/src/components/NewMailWatcher.tsx: which of the recent unread messages it notifies of.
pub mod Membership
pub mod Inventory
pub mod Notify
mod Tests
use inboxone.Common.{
  ℕ, String, Bool, true, false, not, ◌&&◌, Option, none, some, List, [], ◌∷◌, map, flat_map, leb,
  ◌==◌, if◌then◌else◌, filter, contains, or_text, str_eq, join, ◌^^◌,
}
use inboxone.Common.Decimal.{show}
use inboxone.Common.Split.{numbers}
use inboxone.Types.{Folder, Account, MessageSummary}
use inboxone.Inboxes.{inbox_folders}

-- `sort((a, b) => a - b)`
abbrev insert : ℕ → List ℕ → List ℕ
insert a [] = a ∷ []
insert a (b ∷ xs) = if leb a b then a ∷ b ∷ xs else b ∷ insert a xs

unfoldable pub sort : List ℕ → List ℕ
sort [] = []
sort (a ∷ xs) = insert a (sort xs)

-- `membership`: the ids of the inbox folders, which no accounts leave empty
unfoldable pub membership : Option (List Account) → String
membership none = ""
membership (some accounts) =
    join "," (map show (sort (map (λ folder. folder.id) (flat_map inbox_folders accounts))))

-- The two refs of the component.
pub record Watcher : Type 0 where
  pub previous_membership : String
  pub seen_ids : Option (List ℕ)

unfoldable pub mounted : Option (List Account) → Watcher
mounted accounts = record { previous_membership = membership accounts; seen_ids = none }

-- `Notification.permission`, where the browser has notifications
pub data Permission : Type 0 where
  unsupported denied default granted : Permission

abbrev pub is_granted : Permission → Bool
is_granted granted = true
is_granted _ = false

-- what `notifyNewMessage` shows, and what a click on it opens
pub record Notification : Type 0 where
  pub title : String
  pub body : String
  pub tag : String
  pub message : MessageSummary

unfoldable pub notify_new_message : MessageSummary → Notification
notify_new_message message = record {
  title = or_text message.subject "(no subject)";
  body =
      "From "
      ^^ or_text message.from_name (or_text message.from_addr "Unknown sender")
      ^^ " · "
      ^^ message.account_name;
  tag = "message-" ^^ show message.id;
  message = message;
}

-- the messages that count, which are those in a folder that is an inbox now
unfoldable pub in_inboxes : String → List MessageSummary → List MessageSummary
in_inboxes inboxes items = filter (λ message. contains message.folder_id (numbers inboxes)) items

ids_of : List MessageSummary → List ℕ
ids_of messages = map (λ m. m.id) messages

unseen : List ℕ → List MessageSummary → List MessageSummary
unseen seen messages = filter (λ m. not (contains m.id seen)) messages

-- the last part of the effect, with the ids that were seen before
compare_with : Option (List ℕ) → Bool → List MessageSummary → List Notification
unfolding unseen
compare_with none can_notify messages = []
compare_with (some seen) can_notify messages =
    if can_notify then map notify_new_message (unseen seen messages) else []

reset : String → Watcher → Watcher
reset inboxes w =
    if str_eq w.previous_membership inboxes
    then w
    else record { previous_membership = inboxes; seen_ids = none }

-- the effect, from the reset on
observe : Option (List MessageSummary) → Bool → String → Watcher → Watcher × List Notification
unfolding compare_with ids_of
observe none can_notify inboxes w = (w, [])
observe (some items) can_notify inboxes w =
    let messages = in_inboxes inboxes items in
    (record w { seen_ids = some (ids_of messages) }, compare_with w.seen_ids can_notify messages)

-- One run of the effect: the response at hand, if there is one, the setting, the browser's permission and
-- the membership. The result has the notifications in the order in which they are shown.
unfoldable pub effect :
    Option (List MessageSummary)
    → Bool
    → Permission
    → String
    → Watcher
    → Watcher × List Notification
unfolding observe reset
effect response enabled permission inboxes w =
    observe response (enabled && is_granted permission) inboxes (reset inboxes w)
