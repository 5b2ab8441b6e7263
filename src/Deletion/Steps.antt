-- ===== src/Deletion/Steps.antt =====
-- Every event of the inbox page (frontend/src/pages/InboxPage.tsx) keeps the invariant.
use inboxone.Common.{
  ℕ, ◌≡◌, refl, true, false, Option, none, some, List, [], ◌∷◌, arith, Bool, if◌then◌else◌,
}
use inboxone.Timers.{Timer, advance, clear_timeout, next_due, find_timer}
use inboxone.Timers.Laws.{next_due_lem}
use inboxone.Toasts.{dismiss}
use inboxone.Deletion.{
  Page, Callback, expire, commit, Event, press_delete, click_action, close_toast, wait, timer,
  answer, answer_before, select, leaves, returns, commit_before, commit_left, leave, return_,
  handle_delete, commit_delete, click, dispatch, run_due, run_timer, step, run,
}
use inboxone.Deletion.Invariant.{IsValid, IsAllowed, AreAllowed}
use inboxone.Deletion.Timed.{remove-IsTimed, expired-IsTimed, advance-IsTimed}
use inboxone.Deletion.Undone.{committed-IsOffered, expired-IsOffered}
use inboxone.Deletion.Earlier.{
  clear-IsFitting, advance-IsFitting, remove-IsFitting, remove_left-IsFitting, cleared-IsTimed,
  cleared-IsOffered,
}
use inboxone.Deletion.Hidden.{commit-IsHidden}
use inboxone.Deletion.Returned.{returned-IsTimed, returned-IsFitting, returned-IsOffered}
use inboxone.Deletion.Operations.{
  handle_delete-IsValid, dismiss-IsValid, press-IsValid, settle-IsValid, settle_before-IsValid,
}

foreign_callback :
    (ts : List (Timer Callback)) (t u : Timer Callback) (visit id : ℕ)
    → find_timer t.handle ts ≡ some t
    → find_timer t.handle ts ≡ some u
    → t.callback ≡ commit_before visit id
    → u.callback ≡ commit_before visit id
foreign_callback ts t u visit id e e' runs = let same : u ≡ t = ground arith in rw same runs

returned-IsValid : (p : Page) → IsValid p → IsValid (return_ p)
unfolding return_
returned-IsValid p v = record {
  timed = returned-IsTimed p.visit p.delete_timers p.left_timers p.timers v.timed;
  offered = returned-IsOffered p.visit _ p.toasts.toasts;
  concealed = record { hidden = λ id. refl; apart = λ h id e. refl; single = tt };
  fitting = returned-IsFitting p.visit p.delete_timers p.left_timers p.timers v.fitting;
}

dispatch-IsValid :
    (p : Page) (t : Timer Callback) (c : Callback)
    → t.callback ≡ c
    → next_due p.timers ≡ some t
    → IsValid p
    → IsValid (dispatch c (record p { timers = clear_timeout t.handle p.timers }))
unfolding dispatch commit_delete commit_left dismiss
dispatch-IsValid p t (expire k) runs e v =
    let (taken, _, first) = next_due_lem p.timers t v.timed.handled e in
    record {
      timed = expired-IsTimed _ _ t k taken runs v.timed;
      offered = expired-IsOffered _ p.timers _ t taken first k runs v.offered;
      concealed = v.concealed;
      fitting = clear-IsFitting _ _ p.timers t.handle v.fitting;
    }
dispatch-IsValid p t (commit id) runs e v =
    let (taken, _, first) = next_due_lem p.timers t v.timed.handled e in
    let mapped = v.timed.owned t.handle id t taken runs in
    record {
      timed = remove-IsTimed _ _ id t.handle mapped v.timed;
      offered = committed-IsOffered _ p.timers _ t taken first id runs v.timed v.offered;
      concealed = commit-IsHidden _ _ _ v.concealed id t.handle mapped;
      fitting = clear-IsFitting _ _ p.timers t.handle (remove-IsFitting _ _ p.timers id v.fitting);
    }
dispatch-IsValid p t (commit_before visit id) runs e v =
    let (taken, _, first) = next_due_lem p.timers t v.timed.handled e in
    let foreign = λ (u : Timer Callback) (found : find_timer t.handle p.timers.active ≡ some u).
      foreign_callback p.timers.active t u visit id taken found runs in
    record {
      timed = cleared-IsTimed _ p.timers t.handle visit id foreign v.timed;
      offered = cleared-IsOffered _ p.timers t.handle visit id foreign p.toasts.toasts v.offered;
      concealed = v.concealed;
      fitting =
          clear-IsFitting _ _ p.timers t.handle
            (remove_left-IsFitting _ _ p.timers visit id v.fitting);
    }

run_due-IsValid :
    (p : Page) (o : Option (Timer Callback))
    → next_due p.timers ≡ o
    → IsValid p
    → IsValid (run_due o p)
unfolding run_due
run_due-IsValid p none e v = v
run_due-IsValid p (some t) e v = dispatch-IsValid p t t.callback refl e v

if-IsValid : (b : Bool) (p q : Page) → IsValid p → IsValid q → IsValid (if b then q else p)
if-IsValid true p q v w = w
if-IsValid false p q v w = v

-- Every event keeps the invariant, as long as no message is deleted again while the request to delete
-- it is under way.
pub step-IsValid : (p : Page) (e : Event) → IsAllowed p e → IsValid p → IsValid (step e p)
unfolding step click run_timer advance leave
step-IsValid p (press_delete id) a v =
    if-IsValid p.mounted p (handle_delete id p) v (handle_delete-IsValid p id a v)
step-IsValid p (click_action toast_id) a v = press-IsValid p toast_id _ refl v
step-IsValid p (close_toast toast_id) a v = dismiss-IsValid p toast_id v
step-IsValid p (wait ms) a v = record {
  timed = advance-IsTimed _ _ ms v.timed;
  offered = v.offered;
  concealed = v.concealed;
  fitting = advance-IsFitting _ _ p.timers ms v.fitting;
}
step-IsValid p timer a v = run_due-IsValid p _ refl v
step-IsValid p (answer id outcome) a v = settle-IsValid p id outcome a v
step-IsValid p (answer_before visit id outcome) a v = settle_before-IsValid p visit id outcome v
step-IsValid p (select id) a v =
    if-IsValid p.mounted p _ v (record {
      timed = v.timed;
      offered = v.offered;
      concealed = v.concealed;
      fitting = v.fitting;
    })
step-IsValid p leaves a v = record {
  timed = v.timed;
  offered = v.offered;
  concealed = v.concealed;
  fitting = v.fitting;
}
step-IsValid p returns a v = if-IsValid p.mounted (return_ p) p (returned-IsValid p v) v

pub run-IsValid : (es : List Event) (p : Page) → AreAllowed p es → IsValid p → IsValid (run es p)
unfolding run
run-IsValid [] p a v = v
run-IsValid (e ∷ es) p a v = run-IsValid es (step e p) a.1 (step-IsValid p e a.0 v)
