-- ===== src/Deletion/Tests.antt =====
-- The deletion of messages on concrete runs of the inbox page (frontend/src/pages/InboxPage.tsx).
use inboxone.Common.{
  ◌≡◌, refl, ◌≢◌, true, false, ◌&&◌, ◌||◌, not, some, List, [], ◌∷◌, ◌++◌, is_some, contains, arith,
  ◌==◌, All-find,
}
use inboxone.Timers.{
  Timer, no_timers, set_timeout, clear_timeout, find_timer, earliest, next_due, advance,
}
use inboxone.Toasts
use inboxone.Toasts.{dismiss}
use inboxone.Deletion.{
  Callback, commit_before, get, Event, press_delete, click_action, wait, timer, leaves, returns,
  answer_before, api_error, visible, remove_pending, toast, schedule, hide, handle_delete,
  undo_delete, undo_before, commit_delete, commit_left, settle, settle_before, click, run_timer,
  leave, return_, step, run, opened,
}
use inboxone.Deletion.Invariant.{AreAllowed, IsValid}
use inboxone.Deletion.Steps.{run-IsValid}
use inboxone.Deletion.Operations.{opened-IsValid}
use inboxone.Deletion.Undo.{reached, IsNotLeft, IsSpared, click-IsSpared, contains-visible}
use inboxone.Deletion.Again.{returns-press_delete}

program : Unit {0}
unfolding no_timers set_timeout clear_timeout earliest next_due advance Toasts.show dismiss
    remove_pending toast schedule hide handle_delete undo_delete undo_before commit_delete
    commit_left settle settle_before leave return_ click run_timer step run opened visible
program = tt

-- a message is deleted, and five seconds pass without the toast's timer having run
abbrev waiting : List Event
waiting = press_delete 7 ∷ wait 4999 ∷ []

abbrev committed : List Event
committed = press_delete 7 ∷ wait 5300 ∷ timer ∷ timer ∷ []

committed_run :
    ((reached committed).in_flight ≡ 7 ∷ [])
    × ((reached committed).toasts.toasts ≡ [])
    × ((reached committed).delete_timers ≡ [])
    × (visible (reached committed) (6 ∷ 7 ∷ 8 ∷ []) ≡ 6 ∷ 8 ∷ [])
unfolding program
committed_run = (refl, refl, refl, refl)

too_early : (reached (press_delete 7 ∷ wait 5299 ∷ timer ∷ timer ∷ [])).in_flight ≡ []
unfolding program
too_early = refl

-- a message is deleted, the page is left and opened anew, and another one is deleted
abbrev returned : List Event
returned = press_delete 7 ∷ leaves ∷ returns ∷ press_delete 8 ∷ wait 4999 ∷ []

returned-IsNotLeft : IsNotLeft 8 (reached returned)
unfolding program
returned-IsNotLeft = record {
  untimed = λ h visit t found.
      All-find (λ (u : Timer Callback). u.callback ≢ commit_before visit 8) (λ u. u.handle == h)
        (reached returned).timers.active t
        ((λ e. absurd (ground arith)), ((λ e. cc), ((λ e. cc), ((λ e. cc), tt)))) found;
  grounded = refl;
}

click-IsSpared_example :
    (contains 8 (reached returned).in_flight ≡ false) × IsSpared 8 (click 2 (reached returned))
unfolding program
click-IsSpared_example =
    click-IsSpared returned 2 8 (refl, (tt, (tt, (refl, (tt, tt))))) returned-IsNotLeft
      (_, refl, refl, refl)

-- a request of an earlier visit fails, and its message and the toasts of that visit are still there
returned_run :
    let p = reached (returned ++ wait 301 ∷ timer ∷ timer ∷ timer ∷ []) in
    (p.left_flights ≡ (0, 7) ∷ [])
    × (p.in_flight ≡ [])
    × (get 8 p.delete_timers ≡ some 3)
    × (visible p (7 ∷ 8 ∷ []) ≡ 7 ∷ [])
    × ((step (answer_before 0 7 (api_error "Gone")) p).left_flights ≡ [])
    × ((click 1 (reached returned)).left_timers ≡ [])
unfolding program
returned_run = (refl, refl, refl, refl, refl, refl)

waiting-AreAllowed : AreAllowed opened waiting
unfolding program
waiting-AreAllowed = (refl, (tt, tt))

committed-AreAllowed : AreAllowed opened committed
unfolding program
committed-AreAllowed = (refl, (tt, (tt, (tt, tt))))

contains-visible_example : contains 7 (visible (reached committed) (7 ∷ [])) ≡ (
    contains 7 (7 ∷ [])
    && not (
        is_some (get 7 (reached committed).delete_timers)
        || contains 7 (reached committed).in_flight))
contains-visible_example = contains-visible committed (7 ∷ []) 7 committed-AreAllowed

waiting-IsValid : IsValid (reached waiting)
waiting-IsValid = run-IsValid waiting opened waiting-AreAllowed opened-IsValid

returns-press_delete_example :
    let q = run (leaves ∷ returns ∷ []) (reached waiting) in
    let r = run (press_delete 7 ∷ click_action 2 ∷ []) q in
    (t : Timer Callback) × (find_timer 1 r.timers.active ≡ some t)
    × (t.callback ≡ commit_before 0 7)
    × (contains 7 (visible q (7 ∷ [])) ≡ true)
    × (contains 7 (visible r (7 ∷ [])) ≡ true)
unfolding program
returns-press_delete_example =
    returns-press_delete (reached waiting) 7 1 (7 ∷ []) waiting-IsValid refl
      ((λ e. absurd (ground arith)), tt)
