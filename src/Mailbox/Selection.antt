-- ===== src/Mailbox/Selection.antt =====
-- What is selected on the inbox page (frontend/src/pages/InboxPage.tsx), and what is asked of the server
-- for it.
use mathlib.Core.List
use inboxone.Common.{
  ℕ, ◌≡◌, refl, sym, ap, ◌⊎◌, inl, inr, true, false, not, ◌||◌, Option, none, some, List, [], ◌∷◌,
  ◌++◌, is_some, Bool-cases, Option-cases, str_eq,
}
use inboxone.Timers.{next_due}
use inboxone.Types.{Account}
use inboxone.Ui.{Ui, set_selected_account_id, set_selected_folder_id, set_selected_message_id}
use inboxone.Client.Request.{unspecified}
use inboxone.Client.Paths.{
  Call, MessageFilters, build_query, id_entry, text_entry, bare, mark_all_read, url_of,
}
use inboxone.Mailbox.{
  Mailbox, has_folder, request, select_account, select_folder, forget_folder, check_folder,
  click_notification, select_message, start_search, change_search, change_unread_only,
  press_mark_all_read, filters, run_due, run_timer, Event, choose_account, choose_folder,
  load_accounts, open_notification, type_search, toggle_unread, timer, step, run,
}

-- the folder that is selected is one of the accounts'
abbrev pub IsThere : Option ℕ → List Account → Type 0
IsThere folder_id accounts =
    (folder_id ≡ none) ⊎ ((id : ℕ) × (folder_id ≡ some id) × (has_folder id accounts ≡ true))

forget_folder-IsThere :
    (id : Option ℕ) (accounts : List Account) (s : Mailbox)
    → s.ui.selected_folder_id ≡ id
    → let t = forget_folder id accounts s in
      IsThere t.ui.selected_folder_id accounts
      × ((t ≡ s) ⊎ (t.ui ≡ record s.ui { selected_folder_id = none; selected_message_id = none }))
unfolding forget_folder set_selected_folder_id set_selected_message_id
forget_folder-IsThere none accounts s e = (inl e, inl refl)
forget_folder-IsThere (some id) accounts s e = elim (Bool-cases (has_folder id accounts)) [
  | inl there ↦ rw there (inr (id, e, there), inl refl)
  | inr gone ↦ rw gone (inl refl, inr refl)
]

check_folder-stays :
    (accounts : List Account) (s : Mailbox)
    → IsThere s.ui.selected_folder_id accounts
    → check_folder (some accounts) s ≡ s
unfolding check_folder forget_folder
check_folder-stays accounts s (inl none_selected) = rw none_selected
check_folder-stays accounts s (inr (id, selected, there)) = rw (selected, there)

-- Once accounts have been loaded, the selected folder is one of theirs or none is selected: a folder that
-- has vanished takes the open message along, all else stays as it was, and the effect that runs again for
-- the same accounts changes nothing.
pub check_folder-IsThere :
    (accounts : List Account) (s : Mailbox)
    → let t = check_folder (some accounts) s in
      IsThere t.ui.selected_folder_id accounts
      × ((t ≡ s) ⊎ (t.ui ≡ record s.ui { selected_folder_id = none; selected_message_id = none }))
      × (check_folder (some accounts) t ≡ t)
unfolding check_folder
check_folder-IsThere accounts s =
    let (there, change) = forget_folder-IsThere s.ui.selected_folder_id accounts s refl in
    (there, change, check_folder-stays accounts (check_folder (some accounts) s) there)

-- a folder is selected only in an account
abbrev pub IsPlaced : Ui → Type 0
IsPlaced ui = (not (is_some ui.selected_folder_id) || is_some ui.selected_account_id) ≡ true

step-IsPlaced :
    (accounts : List Account) (e : Event) (s : Mailbox)
    → IsPlaced s.ui
    → IsPlaced (step accounts e s).ui
unfolding step select_account select_folder request click_notification select_message
    change_unread_only press_mark_all_read change_search start_search run_timer run_due check_folder
    set_selected_account_id set_selected_folder_id set_selected_message_id
step-IsPlaced accounts (choose_folder a none) s h = refl
step-IsPlaced accounts (choose_folder a (some f)) s h = refl
step-IsPlaced accounts (load_accounts none) s h = h
step-IsPlaced accounts (load_accounts (some loaded)) s h =
    elim (forget_folder-IsThere s.ui.selected_folder_id loaded s refl).1 [
      | inl same ↦ rw same h
      | inr gone ↦ rw gone refl
    ]
step-IsPlaced accounts (type_search query) s h = elim (Bool-cases (str_eq query s.search_query)) [
  | inl same ↦ rw same h
  | inr other ↦ rw other h
]
step-IsPlaced accounts timer s h = elim (Option-cases (next_due s.timers)) [
  | inl nothing ↦ rw nothing h
  | inr (t, due) ↦ rw due h
]
step-IsPlaced accounts (open_notification message) s h = refl
step-IsPlaced accounts (choose_account id) s h = refl
step-IsPlaced accounts _ s h = h

-- Whatever happens on the page, a folder is selected only together with an account.
pub run-IsPlaced :
    (es : List (List Account × Event)) (s : Mailbox) → IsPlaced s.ui → IsPlaced (run es s).ui
unfolding run
run-IsPlaced [] s h = h
run-IsPlaced ((accounts, e) ∷ es) s h =
    run-IsPlaced es (step accounts e s) (step-IsPlaced accounts e s h)

-- the event is the user's own choice or new accounts: no notification's click, and no timer
abbrev pub IsDirect : Event → Type 0
IsDirect (open_notification message) = ⊥
IsDirect timer = ⊥
IsDirect _ = Unit

-- No choice leaves a message open that the list may no longer hold: the list is asked for as before, or
-- no message is open.
pub step-filters :
    (accounts : List Account) (e : Event) (s : Mailbox)
    → IsDirect e
    → let t = step accounts e s in (filters t ≡ filters s) ⊎ (t.ui.selected_message_id ≡ none)
unfolding step select_account select_folder request click_notification select_message
    change_unread_only press_mark_all_read change_search start_search check_folder
    set_selected_account_id set_selected_folder_id set_selected_message_id filters
step-filters accounts (choose_account id) s h = inr refl
step-filters accounts (choose_folder a f) s h = inr refl
step-filters accounts (load_accounts none) s h = inl refl
step-filters accounts (load_accounts (some loaded)) s h =
    elim (forget_folder-IsThere s.ui.selected_folder_id loaded s refl).1 [
      | inl same ↦ inl (rw same)
      | inr gone ↦ inr (rw gone)
    ]
step-filters accounts (type_search query) s h =
    inr (elim (Bool-cases (str_eq query s.search_query)) [
      | inl same ↦ rw same
      | inr other ↦ rw other
    ])
step-filters accounts (toggle_unread enabled) s h = inr refl
step-filters accounts (open_notification message) s h = absurd h
step-filters accounts timer s h = absurd h
step-filters accounts _ s h = inl refl

-- the filters that say where, but not which messages
abbrev pub place_of : MessageFilters → MessageFilters
place_of f = record f { unread_only = false; search = none }

-- the call of the button that marks all as read
abbrev pub marking : Mailbox → Call
marking s = mark_all_read s.ui.selected_account_id s.ui.selected_folder_id

-- To mark all as read makes one request, whose query is that of the list for the account and the folder
-- that the list shows, without the search and the choice of unread messages.
pub press_mark_all_read-filters :
    (s : Mailbox)
    → ((press_mark_all_read s).requests ≡ s.requests ++ (marking s, unspecified) ∷ [])
      × ((url_of (marking s)).search_params ≡ build_query (place_of (filters s)) none)
unfolding press_mark_all_read request filters url_of build_query text_entry bare
press_mark_all_read-filters s = (
  refl,
  ap (λ xs. id_entry "account_id" s.ui.selected_account_id ++ xs) (sym (List.append-nil _)),
)
