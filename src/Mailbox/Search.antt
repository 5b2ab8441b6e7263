-- ===== src/Mailbox/Search.antt =====
-- The debounced search of frontend/src/pages/InboxPage.tsx.
use inboxone.Common.{
  ℕ, ◌+◌, ◌≤◌, ◌≡◌, refl, ◌⊎◌, inl, inr, String, true, Option, none, some, List, [], ◌∷◌, arith,
  leb, ==_refl, if◌then◌else◌, Bool-cases, str_eq, str_eq_iff,
}
use inboxone.Common.Trim.{trim}
use inboxone.Timers.{Timers, Timer, no_timers, set_timeout, clear_timeout, advance}
use inboxone.Timers.Due.{next_due-nil, next_due-one}
use inboxone.Types.{Account}
use inboxone.Ui.{Ui}
use inboxone.Mailbox.{
  Mailbox, with_query, has_folder, first_page, request, select_account, select_folder,
  forget_folder, check_folder, click_notification, select_message, start_search, change_search,
  change_unread_only, press_mark_all_read, run_due, run_timer, opened_with, Event, load_accounts,
  type_search, wait, timer, step, run,
}

-- The debounced search is that of the query, or one timer is set that will make it so, within 250
-- milliseconds.
abbrev pub Tracks : Timers String → ℕ → String → String → Type 0
Tracks timers search_timer query debounced =
    ((timers.active ≡ []) × (debounced ≡ trim query))
    ⊎ ((due : ℕ) × (timers.active
          ≡ record { handle = search_timer; due = due; callback = trim query } ∷ [])
        × (due ≤ timers.now + 250))

abbrev pub IsTracked : Mailbox → Type 0
IsTracked s = Tracks s.timers s.search_timer s.search_query s.debounced_search

cleared :
    (s : Mailbox) (query : String)
    → Tracks s.timers s.search_timer query s.debounced_search
    → (clear_timeout s.search_timer s.timers).active ≡ []
unfolding clear_timeout
cleared s query (inl (none_set, same)) = rw none_set
cleared s query (inr (due, set, soon)) = rw set (ground (arith, ==_refl s.search_timer))

start_search-IsTracked :
    (s : Mailbox) (query : String)
    → Tracks s.timers s.search_timer query s.debounced_search
    → IsTracked (start_search s)
unfolding start_search set_timeout
start_search-IsTracked s query h =
    inr (s.timers.now + 250, rw (cleared s query h) refl, unfold clear_timeout in omega arith)

change_search-IsTracked :
    (query : String) (s : Mailbox) → IsTracked s → IsTracked (change_search query s)
unfolding change_search
change_search-IsTracked query s h = elim (Bool-cases (str_eq query s.search_query)) [
  | inl same ↦ let e = (str_eq_iff query s.search_query).0 same in rw (same, e) h
  | inr other ↦ rw other (start_search-IsTracked (with_query query s) s.search_query h)
]

run_timer-nil : (s : Mailbox) → s.timers.active ≡ [] → run_timer s ≡ s
unfolding run_timer run_due
run_timer-nil s h = rw (next_due-nil s.timers h)

run_timer-one :
    (s : Mailbox) (u : Timer String)
    → s.timers.active ≡ u ∷ []
    → run_timer s ≡ (
        if leb u.due s.timers.now
        then record s { debounced_search = u.callback; timers = clear_timeout u.handle s.timers }
        else s)
unfolding run_timer run_due
run_timer-one s u h = elim (Bool-cases (leb u.due s.timers.now)) [
  | inl now ↦ rw (next_due-one s.timers u h, now)
  | inr later ↦ rw (next_due-one s.timers u h, later)
]

run_timer-IsTracked : (s : Mailbox) → IsTracked s → IsTracked (run_timer s)
run_timer-IsTracked s (inl (none_set, same)) = rw (run_timer-nil s none_set) (inl (none_set, same))
run_timer-IsTracked s (inr (due, set, soon)) = elim (Bool-cases (leb due s.timers.now)) [
  | inl now ↦
      rw (run_timer-one s _ set, now) (inl (cleared s s.search_query (inr (due, set, soon)), refl))
  | inr later ↦ rw (run_timer-one s _ set, later) (inr (due, set, soon))
]

forget_folder-IsTracked :
    (id : Option ℕ) (accounts : List Account) (s : Mailbox)
    → IsTracked s
    → IsTracked (forget_folder id accounts s)
unfolding forget_folder
forget_folder-IsTracked none accounts s h = h
forget_folder-IsTracked (some id) accounts s h = elim (Bool-cases (has_folder id accounts)) [
  | inl there ↦ rw there h
  | inr gone ↦ rw gone h
]

check_folder-IsTracked :
    (loaded : Option (List Account)) (s : Mailbox) → IsTracked s → IsTracked (check_folder loaded s)
unfolding check_folder
check_folder-IsTracked none s h = h
check_folder-IsTracked (some accounts) s h =
    forget_folder-IsTracked s.ui.selected_folder_id accounts s h

step-IsTracked :
    (accounts : List Account) (e : Event) (s : Mailbox)
    → IsTracked s
    → IsTracked (step accounts e s)
unfolding step select_account select_folder request click_notification select_message
    change_unread_only press_mark_all_read advance
step-IsTracked accounts (load_accounts loaded) s h = check_folder-IsTracked loaded s h
step-IsTracked accounts (type_search query) s h = change_search-IsTracked query s h
step-IsTracked accounts (wait ms) s (inl h) = inl h
step-IsTracked accounts (wait ms) s (inr (due, set, soon)) = inr (due, set, omega arith)
step-IsTracked accounts timer s h = run_timer-IsTracked s h
step-IsTracked accounts _ s h = h

run-IsTracked :
    (es : List (List Account × Event)) (s : Mailbox) → IsTracked s → IsTracked (run es s)
unfolding run
run-IsTracked [] s h = h
run-IsTracked ((accounts, e) ∷ es) s h =
    run-IsTracked es (step accounts e s) (step-IsTracked accounts e s h)

opened-IsTracked : (ui : Ui) → IsTracked (opened_with ui)
unfolding opened_with
opened-IsTracked ui =
    start_search-IsTracked (first_page ui) "" (unfold first_page no_timers trim in inl (refl, refl))

abbrev later : Mailbox → Mailbox
later s = record s { timers = record s.timers { now = s.timers.now + 250 } }

-- Whatever happens on the page, however fast the query is typed: once it has been left alone for 250
-- milliseconds and the timer that is due has run, the list is asked for with the query as it stands,
-- without the space round it.
pub run_timer-advance :
    (ui : Ui) (es : List (List Account × Event))
    → let s = run es (opened_with ui) in
      (run_timer (record s { timers = advance 250 s.timers })).debounced_search
      ≡ trim s.search_query
unfolding advance
run_timer-advance ui es = elim (run-IsTracked es (opened_with ui) (opened-IsTracked ui)) [
  | inl (none_set, same) ↦ rw (run_timer-nil (later (run es (opened_with ui))) none_set) same
  | inr (due, set, soon) ↦
      let now : leb due ((run es (opened_with ui)).timers.now + 250) ≡ true = ground arith in
      rw (run_timer-one (later (run es (opened_with ui))) _ set, now) refl
]
