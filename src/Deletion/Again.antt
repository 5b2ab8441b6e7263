-- ===== src/Deletion/Again.antt =====
-- A message that is deleted again, while the request to delete it is under way or after the page has been left
-- (frontend/src/pages/InboxPage.tsx).
use inboxone.Common.{
  ℕ, ◌≡◌, refl, ◌∙◌, ◌≢◌, inl, inr, true, false, none, some, List, [], ◌∷◌, arith, ◌==◌, ==_refl,
  map, contains, contains-add, contains-delete, Bool-cases, All,
}
use inboxone.Timers.{Timer, find_timer, set_timeout, clear_timeout}
use inboxone.Timers.Laws.{find_timer-set_timeout_old, find_timer-clear_timeout, find_timer_below}
use inboxone.Toasts
use inboxone.Toasts.{Toast, dismiss}
use inboxone.Deletion.{
  Page, Callback, expire, commit, commit_before, UndoAction, here, get, keep_toast, keep_timer,
  visible, remove_pending, toast, schedule, hide, handle_delete, clear, undo_delete, act, press,
  click, leave, return_, press_delete, click_action, leaves, returns, step, run,
}
use inboxone.Deletion.Invariant.{IsValid}
use inboxone.Deletion.Undo.{Undoes, find-last, contains-filter}

-- A message that is deleted again while the request to delete it is under way is offered to be undone all the same.
-- A click on the offer shows the message again, although the request is under way as before.
pub handle_delete_in_flight :
    (p : Page) (id : ℕ)
    → get id p.delete_timers ≡ none
    → contains id p.in_flight ≡ true
    → All (λ (u : Toast UndoAction). u.id ≢ p.toasts.next_id) p.toasts.toasts
    → let q = handle_delete id p in
      Undoes q p.toasts.next_id id
      × (contains id q.pending_delete_ids ≡ true)
      × (contains id (click p.toasts.next_id q).pending_delete_ids ≡ false)
      × (contains id (click p.toasts.next_id q).in_flight ≡ true)
unfolding handle_delete hide schedule toast Toasts.show click press act undo_delete remove_pending
handle_delete_in_flight p id absent flying fresh =
    let found = find-last p.toasts.next_id p.toasts.toasts _ fresh refl in
    rw absent (
      (_, found, refl, refl),
      contains-add id id p.pending_delete_ids ∙ ground (arith, ==_refl id),
      rw found (contains-delete id id _ ∙ ground (arith, ==_refl id)),
      rw found flying,
    )

find_timer-keep_timer-some :
    (visit h : ℕ) (ts : List (Timer Callback)) (t : Timer Callback)
    → find_timer h ts ≡ some t
    → find_timer h (map (keep_timer visit) ts) ≡ some (keep_timer visit t)
find_timer-keep_timer-some visit h [] t e = cc
find_timer-keep_timer-some visit h (u ∷ ts) t e = elim (Bool-cases (u.handle == h)) [
  | inl same ↦ let mine : u ≡ t = ground arith in rw (same, mine) refl
  | inr other ↦ rw other (find_timer-keep_timer-some visit h ts t (ground arith))
]

fresh-keep_toast :
    (visit k : ℕ) (ts : List (Toast UndoAction))
    → All (λ (u : Toast UndoAction). u.id ≢ k) ts
    → All (λ (u : Toast UndoAction). u.id ≢ k) (map (keep_toast visit) ts)
fresh-keep_toast visit k [] v = tt
fresh-keep_toast visit k (t ∷ ts) v = (v.0, fresh-keep_toast visit k ts v.1)

abbrev undo_offer : ℕ → ℕ → Toast UndoAction
undo_offer k id = record {
  id = k;
  message = "Message deleted";
  action_label = some "Undo";
  on_action = some (here id);
  duration = 5000;
}

-- a timer of the visit before stays set, whatever is set and cleared after it
still_set :
    (p : Page) (id h : ℕ) (t : Timer Callback) (c c' : Callback) (d d' : ℕ)
    → IsValid p
    → find_timer h p.timers.active ≡ some t
    → let q = return_ (leave p) in
      let s = (set_timeout c' d' (set_timeout c d q.timers).1).1 in
      find_timer h (clear_timeout p.timers.next_handle s).active ≡ some (keep_timer p.visit t)
unfolding return_ leave
still_set p id h t c c' d d' v found =
    let q = return_ (leave p) in
    let first = (set_timeout c d q.timers).1 in
    let differ : h ≢ p.timers.next_handle = λ same.
      let gone =
        find_timer_below p.timers.next_handle p.timers.active v.timed.handled h (omega arith) in
      cc in
    find_timer-clear_timeout h p.timers.next_handle _ differ
    ∙ find_timer-set_timeout_old c' d' h first _ (
        find_timer-set_timeout_old c d h q.timers _
          (find_timer-keep_timer-some p.visit h p.timers.active t found))

-- The page is left and opened anew while the deletion of a message is scheduled. The list shows the message again,
-- although its timer is still set; and if the message is deleted once more, the offer to undo that does not undo the
-- first deletion: after a click on it the message is shown, and the first timer, which deletes it, is still set.
pub returns-press_delete :
    (p : Page) (id h : ℕ) (loaded : List ℕ)
    → IsValid p
    → get id p.delete_timers ≡ some h
    → All (λ (u : Toast UndoAction). u.id ≢ p.toasts.next_id) p.toasts.toasts
    → let q = run (leaves ∷ returns ∷ []) p in
      let r = run (press_delete id ∷ click_action p.toasts.next_id ∷ []) q in
      (t : Timer Callback) × (find_timer h r.timers.active ≡ some t)
      × (t.callback ≡ commit_before p.visit id)
      × (contains id (visible q loaded) ≡ contains id loaded)
      × (contains id (visible r loaded) ≡ contains id loaded)
unfolding run step leave return_ handle_delete hide schedule toast Toasts.show set_timeout click
    press act undo_delete remove_pending clear visible
returns-press_delete p id h loaded v mapped fresh =
    let (t, found, runs) = v.timed.scheduled h id mapped in
    let q = return_ (leave p) in
    let shown =
      find-last p.toasts.next_id (map (keep_toast p.visit) p.toasts.toasts)
        (undo_offer p.toasts.next_id id)
        (fresh-keep_toast p.visit p.toasts.next_id p.toasts.toasts fresh) refl in
    rw shown (
      keep_timer p.visit t,
      rw (==_refl id) (still_set p id h t (commit id) (expire p.toasts.next_id) 5300 5000 v found),
      rw runs refl,
      contains-filter id [] loaded ∙ ground arith,
      contains-filter id _ loaded ∙ ground (arith, contains-delete id id (id ∷ []), ==_refl id),
    )
