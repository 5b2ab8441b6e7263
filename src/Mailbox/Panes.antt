-- ===== src/Mailbox/Panes.antt =====
-- Which pane a narrow window shows, and the toast of a refresh that has been refused
-- (frontend/src/pages/InboxPage.tsx).
use inboxone.Common.{
  ℕ, ◌≡◌, refl, String, Bool, true, false, not, Option, none, List, is_some, or_else, str_eq,
  Bool-cases, inl, inr,
}
use inboxone.Types.{Account}
use inboxone.Timers.{Timers}
use inboxone.Toasts.{ToastStore, show}
use inboxone.Ui.{set_selected_account_id, set_selected_folder_id, set_selected_message_id}
use inboxone.Mailbox.{
  Mailbox, request, select_account, select_folder, select_message, change_search,
  change_unread_only, start_search, Event, choose_account, choose_folder, open_message, type_search,
  toggle_unread, step,
}

-- the classes `hidden lg:block` of the two panes
unfoldable pub list_hidden : Mailbox → Bool
list_hidden s = is_some s.ui.selected_message_id

unfoldable pub message_hidden : Mailbox → Bool
message_hidden s = not (is_some s.ui.selected_message_id)

-- `toast(err instanceof Error ? err.message : …)`
unfoldable pub refuse_refresh :
    {A C : Type 0} → (ℕ → C) → Option String → ToastStore A → Timers C → ToastStore A × Timers C
unfolding show
refuse_refresh expire message store timers =
    show expire
      (record {
        message = or_else message "Could not request refresh";
        action_label = none;
        on_action = none;
        duration = none;
      })
      store timers

-- the events after which the list is to be seen again
abbrev pub leaves_message : Event → Bool
leaves_message (choose_account _) = true
leaves_message (choose_folder _ _) = true
leaves_message (open_message none) = true
leaves_message (type_search _) = true
leaves_message (toggle_unread _) = true
leaves_message _ = false

change_search-message :
    (query : String) (s : Mailbox) → (change_search query s).ui.selected_message_id ≡ none
unfolding change_search start_search
change_search-message query s = elim (Bool-cases (str_eq query s.search_query)) [
  | inl same ↦ simp same refl
  | inr other ↦ simp other refl
]

-- A narrow window goes back from the message to the list with the choice of an account or a
-- folder, with the way back, and with a change of the search or the filter.
pub step-panes :
    (accounts : List Account) (e : Event) (s : Mailbox)
    → leaves_message e ≡ true
    → let t = step accounts e s in (list_hidden t ≡ false) × (message_hidden t ≡ true)
unfolding list_hidden message_hidden step select_account select_folder request select_message
    change_unread_only set_selected_account_id set_selected_folder_id set_selected_message_id
step-panes accounts (choose_account id) s leaves = (refl, refl)
step-panes accounts (choose_folder a f) s leaves = (refl, refl)
step-panes accounts (open_message none) s leaves = (refl, refl)
step-panes accounts (type_search query) s leaves = rw (change_search-message query s) (refl, refl)
step-panes accounts (toggle_unread enabled) s leaves = (refl, refl)
step-panes accounts _ s leaves = cc
