-- ===== src/Deletion.antt =====
-- The deletion of messages in frontend/src/pages/InboxPage.tsx: a deleted message is hidden, and the
-- request to delete it is sent after a grace period, in which a toast offers to undo it.
mod Frame
pub mod Invariant
mod Timed
mod Offered
mod Earlier
mod Returned
mod Operations
pub mod Undone
mod Hidden
pub mod Steps
pub mod Undo
pub mod Again
mod Tests
use inboxone.Common.{
  ℕ, String, Bool, true, false, not, Option, none, some, List, [], ◌∷◌, ◌++◌, ◌==◌, ◌=?=◌,
  if◌then◌else◌, is_some, filter, map, ◌+◌, ◌&&◌, find?, contains, add, delete,
}
use inboxone.Timers.{Timers, Timer, no_timers, set_timeout, clear_timeout, next_due, advance}
use inboxone.Toasts
use inboxone.Toasts.{Toast, ToastOptions, ToastStore, no_toasts, dismiss, has_button}

-- `UNDO_WINDOW_MS` and `DELETE_COMMIT_MS`
abbrev pub undo_window_ms : ℕ
undo_window_ms = 5000

abbrev pub delete_commit_ms : ℕ
delete_commit_ms = 5300

-- What a timer runs: a toast goes, or a message is deleted on the server, for this visit of the page or for an
-- earlier one.
pub data Callback : Type 0 where
  expire : ℕ → Callback
  commit : ℕ → Callback
  commit_before : (visit id : ℕ) → Callback

-- What the action of a toast undoes: the deletion of a message, in this visit or in an earlier one.
pub data UndoAction : Type 0 where
  here : ℕ → UndoAction
  before : (visit id : ℕ) → UndoAction

-- an entry of the map of timers of an earlier visit
pub record Left : Type 0 where
  pub visit : ℕ
  pub id : ℕ
  pub handle : ℕ

-- The state. The page is left for the settings and opened anew, with a state of its own each time, while the toasts
-- and the timers that have been set stay, and what they run works on the state of the visit that has set them.
-- `delete_timers` is the map from a message to the handle of its timer, and `in_flight` are the requests under way,
-- both of this visit; `left_timers` and `left_flights` are those of the earlier ones.
pub record Page : Type 0 where
  pub mounted : Bool
  pub visit : ℕ
  pub selected_message_id : Option ℕ
  pub pending_delete_ids : List ℕ
  pub delete_timers : List (ℕ × ℕ)
  pub toasts : ToastStore UndoAction
  pub timers : Timers Callback
  pub in_flight : List ℕ
  pub left_timers : List Left
  pub left_flights : List (ℕ × ℕ)

unfoldable pub opened : Page
unfolding no_timers
opened = record {
  mounted = true;
  visit = 0;
  selected_message_id = none;
  pending_delete_ids = [];
  delete_timers = [];
  toasts = no_toasts;
  timers = no_timers;
  in_flight = [];
  left_timers = [];
  left_flights = [];
}

-- `map.get(id)`
abbrev pub get : ℕ → List (ℕ × ℕ) → Option ℕ
get id [] = none
get id ((k, v) ∷ m) = if k == id then some v else get id m

-- `map.delete(id)`
abbrev pub remove : ℕ → List (ℕ × ℕ) → List (ℕ × ℕ)
remove id [] = []
remove id ((k, v) ∷ m) = if k == id then remove id m else (k, v) ∷ remove id m

-- the same on the map of an earlier visit
abbrev pub is_left : ℕ → ℕ → Left → Bool
is_left visit id l = l.visit == visit && l.id == id

abbrev pub get_left : ℕ → ℕ → List Left → Option ℕ
get_left visit id [] = none
get_left visit id (l ∷ ls) = if is_left visit id l then some l.handle else get_left visit id ls

abbrev pub remove_left : ℕ → ℕ → List Left → List Left
remove_left visit id ls = filter (λ l. not (is_left visit id l)) ls

-- one request for the message is no longer under way
abbrev pub land : ℕ → List ℕ → List ℕ
land id [] = []
land id (k ∷ ids) = if k == id then ids else k ∷ land id ids

abbrev pub land_left : ℕ → ℕ → List (ℕ × ℕ) → List (ℕ × ℕ)
land_left visit id [] = []
land_left visit id ((v, k) ∷ ids) =
    if v == visit && k == id then ids else (v, k) ∷ land_left visit id ids

-- the messages that the list shows, of those that have been loaded
unfoldable pub visible : Page → List ℕ → List ℕ
visible p loaded = filter (λ m. not (contains m p.pending_delete_ids)) loaded

unfoldable pub remove_pending : ℕ → Page → Page
remove_pending id p = record p { pending_delete_ids = delete id p.pending_delete_ids }

-- `toast(message, …)`
unfoldable pub toast : ToastOptions UndoAction → Page → Page
toast opts p =
    let (store, timers) = Toasts.show expire opts p.toasts p.timers in
    record p { toasts = store; timers = timers }

abbrev pub undo_toast : ℕ → ToastOptions UndoAction
undo_toast id = record {
  message = "Message deleted";
  action_label = some "Undo";
  on_action = some (here id);
  duration = some undo_window_ms;
}

unfoldable pub schedule : ℕ → Page → Page
schedule id p =
    let (handle, timers) = set_timeout (commit id) delete_commit_ms p.timers in
    record p { timers = timers; delete_timers = (id, handle) ∷ p.delete_timers }

unfoldable pub hide : ℕ → Page → Page
hide id p = record p {
  pending_delete_ids = add id p.pending_delete_ids;
  selected_message_id = if p.selected_message_id =?= some id then none else p.selected_message_id;
}

unfoldable pub handle_delete : ℕ → Page → Page
handle_delete id p =
    if is_some (get id p.delete_timers) then p else toast (undo_toast id) (schedule id (hide id p))

clear : Option ℕ → Timers Callback → Timers Callback
clear none timers = timers
clear (some handle) timers = clear_timeout handle timers

unfoldable pub undo_delete : ℕ → Page → Page
unfolding clear
undo_delete id p = remove_pending id (record p {
  timers = clear (get id p.delete_timers) p.timers;
  delete_timers = remove id p.delete_timers;
})

-- `undoDelete` of an earlier visit, whose page is gone: what it hid is no longer there to be shown
unfoldable pub undo_before : ℕ → ℕ → Page → Page
unfolding clear
undo_before visit id p = record p {
  timers = clear (get_left visit id p.left_timers) p.timers;
  left_timers = remove_left visit id p.left_timers;
}

-- `commitDelete` up to its `await`
unfoldable pub commit_delete : ℕ → Page → Page
commit_delete id p = record p {
  delete_timers = remove id p.delete_timers;
  in_flight = id ∷ p.in_flight;
}

unfoldable pub commit_left : ℕ → ℕ → Page → Page
commit_left visit id p = record p {
  left_timers = remove_left visit id p.left_timers;
  left_flights = (visit, id) ∷ p.left_flights;
}

-- the rest of `commitDelete`: the request has succeeded, or failed with an `ApiError` or otherwise
pub data Outcome : Type 0 where
  deleted : Outcome
  api_error : String → Outcome
  other_error : Outcome

abbrev failure_toast : String → ToastOptions UndoAction
failure_toast text = record {
  message = text;
  action_label = none;
  on_action = none;
  duration = none;
}

report : Outcome → Page → Page
report deleted p = p
report (api_error text) p = toast (failure_toast text) p
report other_error p = toast (failure_toast "Failed to delete message") p

unfoldable pub settle : ℕ → Outcome → Page → Page
unfolding report
settle id outcome p =
    remove_pending id (report outcome (record p { in_flight = land id p.in_flight }))

unfoldable pub settle_before : ℕ → ℕ → Outcome → Page → Page
unfolding report
settle_before visit id outcome p =
    report outcome (record p { left_flights = land_left visit id p.left_flights })

-- the click on the action of a toast, in Toaster.tsx
act : Toast UndoAction → Option UndoAction → Page → Page
act t none p = p
act t (some (here id)) p =
    let undone = undo_delete id p in record undone { toasts = dismiss t.id undone.toasts }
act t (some (before visit id)) p =
    let undone = undo_before visit id p in record undone { toasts = dismiss t.id undone.toasts }

pub press : Option (Toast UndoAction) → Page → Page
press none p = p
press (some t) p = if has_button t then act t t.on_action p else p

unfoldable pub click : ℕ → Page → Page
unfolding press act
click toast_id p = press (find? (λ t. t.id == toast_id) p.toasts.toasts) p

-- the timer that runs next is taken from the set, and runs
dispatch : Callback → Page → Page
dispatch (expire toast_id) p = record p { toasts = dismiss toast_id p.toasts }
dispatch (commit id) p = commit_delete id p
dispatch (commit_before visit id) p = commit_left visit id p

run_due : Option (Timer Callback) → Page → Page
run_due none p = p
run_due (some t) p = dispatch t.callback (record p { timers = clear_timeout t.handle p.timers })

unfoldable pub run_timer : Page → Page
unfolding run_due dispatch
run_timer p = run_due (next_due p.timers) p

-- The page is left, and opened anew: what this visit has set becomes that of an earlier one.
unfoldable pub leave : Page → Page
leave p = record p { mounted = false }

abbrev pub keep_action : ℕ → Option UndoAction → Option UndoAction
keep_action visit none = none
keep_action visit (some (here id)) = some (before visit id)
keep_action visit (some (before v id)) = some (before v id)

abbrev pub keep_toast : ℕ → Toast UndoAction → Toast UndoAction
keep_toast visit t = record t { on_action = keep_action visit t.on_action }

abbrev pub keep_callback : ℕ → Callback → Callback
keep_callback visit (expire k) = expire k
keep_callback visit (commit id) = commit_before visit id
keep_callback visit (commit_before v id) = commit_before v id

abbrev pub keep_timer : ℕ → Timer Callback → Timer Callback
keep_timer visit t = record t { callback = keep_callback visit t.callback }

abbrev pub keep_entry : ℕ → ℕ × ℕ → Left
keep_entry visit (id, handle) = record { visit = visit; id = id; handle = handle }

unfoldable pub return_ : Page → Page
return_ p = record p {
  mounted = true;
  visit = p.visit + 1;
  pending_delete_ids = [];
  delete_timers = [];
  toasts = record p.toasts { toasts = map (keep_toast p.visit) p.toasts.toasts };
  timers = record p.timers { active = map (keep_timer p.visit) p.timers.active };
  in_flight = [];
  left_timers = map (keep_entry p.visit) p.delete_timers ++ p.left_timers;
  left_flights = map (λ id. (p.visit, id)) p.in_flight ++ p.left_flights;
}

pub data Event : Type 0 where
  press_delete : ℕ → Event
  click_action : ℕ → Event
  close_toast : ℕ → Event
  wait : ℕ → Event
  timer : Event
  answer : ℕ → Outcome → Event
  answer_before : (visit id : ℕ) → Outcome → Event
  select : Option ℕ → Event
  leaves returns : Event

unfoldable pub step : Event → Page → Page
step (press_delete id) p = if p.mounted then handle_delete id p else p
step (click_action toast_id) p = click toast_id p
step (close_toast toast_id) p = record p { toasts = dismiss toast_id p.toasts }
step (wait ms) p = record p { timers = advance ms p.timers }
step timer p = run_timer p
step (answer id outcome) p = settle id outcome p
step (answer_before visit id outcome) p = settle_before visit id outcome p
step (select id) p = if p.mounted then record p { selected_message_id = id } else p
step leaves p = leave p
step returns p = if p.mounted then p else return_ p

unfoldable pub run : List Event → Page → Page
run [] p = p
run (e ∷ es) p = run es (step e p)
