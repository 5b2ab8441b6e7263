-- ===== src/Deletion/Operations.antt =====
-- Every operation of the inbox page (frontend/src/pages/InboxPage.tsx) keeps the invariant.
use inboxone.Common.{
  All-find, ℕ, ◌≡◌, refl, inl, inr, true, false, Option, none, some, List, [], ◌∷◌, arith, ◌==◌,
  find?, Bool-cases, Option-cases, contains,
}
use inboxone.Timers.{Timer, set_timeout, find_timer}
use inboxone.Timers.Laws.{set_timeout-IsHandled}
use inboxone.Toasts
use inboxone.Toasts.{Toast, ToastOptions, dismiss, has_button}
use inboxone.Deletion.{
  Page, Callback, UndoAction, here, expire, commit, get, before, get_left, undo_before,
  settle_before, Outcome, deleted, api_error, other_error, remove_pending, toast, schedule, hide,
  handle_delete, clear, undo_delete, report, settle, act, press, opened,
}
use inboxone.Deletion.Invariant.{Offer, Offers, IsValid}
use inboxone.Deletion.Timed.{expire-IsTimed, schedule-IsTimed, remove-IsTimed}
use inboxone.Deletion.Offered.{filter-IsOffered, plain-IsOffered, undoable-IsOffered}
use inboxone.Deletion.Undone.{undone-IsOffered}
use inboxone.Deletion.Earlier.{
  set-IsFitting, schedule-IsFitting, clear-IsFitting, remove-IsFitting, remove_left-IsFitting,
  get_left-Fits, cleared-IsTimed, cleared-IsOffered,
}
use inboxone.Deletion.Hidden.{schedule-IsHidden, undo-IsHidden, settle-IsHidden}

pub opened-IsValid : IsValid opened
unfolding opened
opened-IsValid = record {
  timed = record {
    handled = tt;
    owned = λ h id t e. absurd (ground arith);
    scheduled = λ h id e. absurd (ground arith);
  };
  offered = record { offers = tt; distinct = tt };
  concealed = record { hidden = λ id. refl; apart = λ h id e. refl; single = tt };
  fitting = record { mine = tt; theirs = tt };
}

pub handle_delete-IsValid :
    (p : Page) (id : ℕ) → contains id p.in_flight ≡ false → IsValid p → IsValid (handle_delete id p)
unfolding handle_delete hide schedule toast Toasts.show set_timeout
handle_delete-IsValid p id grounded v = elim (Option-cases (get id p.delete_timers)) [
  | inr (h, there) ↦ rw there v
  | inl absent ↦ rw absent (record {
    timed =
        expire-IsTimed _ _ _ 5000
          (schedule-IsTimed p.delete_timers p.timers id 5300 absent v.timed);
    offered =
        undoable-IsOffered p.delete_timers p.timers p.toasts.toasts _ id 5300 5000 absent refl
          (omega arith) v.timed.handled v.offered;
    concealed = schedule-IsHidden _ _ _ v.concealed id _ grounded;
    fitting =
        set-IsFitting _ _ (set_timeout (commit id) 5300 p.timers).1 (expire p.toasts.next_id) 5000
          (set_timeout-IsHandled (commit id) 5300 p.timers v.timed.handled)
          (schedule-IsFitting _ _ p.timers id 5300 v.timed.handled v.fitting);
  })
]

find-id :
    (k : ℕ) (ts : List (Toast UndoAction)) (t : Toast UndoAction)
    → find? (λ u. u.id == k) ts ≡ some t
    → t.id ≡ k
find-id k [] t e = cc
find-id k (u ∷ ts) t e = ground (arith, find-id k ts t)

-- the offer of a toast that is on display
pub shown-Offer :
    (p : Page) (t : Toast UndoAction) (toast_id id : ℕ)
    → find? (λ u. u.id == toast_id) p.toasts.toasts ≡ some t
    → t.on_action ≡ some (here id)
    → IsValid p
    → Offer p.delete_timers p.timers.active t.id id
shown-Offer p t toast_id id found offered v =
    All-find (Offers p.delete_timers p.timers.active) _ p.toasts.toasts t v.offered.offers found id
      offered

undo_toast-IsValid :
    (p : Page) (t : Toast UndoAction) (toast_id id : ℕ)
    → find? (λ u. u.id == toast_id) p.toasts.toasts ≡ some t
    → t.on_action ≡ some (here id)
    → IsValid p
    → IsValid (act t (some (here id)) p)
unfolding act undo_delete remove_pending dismiss
undo_toast-IsValid p t toast_id id found offered v =
    let o = shown-Offer p t toast_id id found offered v in
    rw (find-id toast_id p.toasts.toasts t found, o.mapped, clear)
      (record {
        timed = remove-IsTimed p.delete_timers p.timers id o.handle o.mapped v.timed;
        offered =
            undone-IsOffered p.delete_timers p.timers p.toasts.toasts t toast_id id o.handle found
              offered o.mapped v.timed v.offered;
        concealed = undo-IsHidden _ _ _ v.concealed id o.handle o.mapped;
        fitting =
            clear-IsFitting _ _ p.timers o.handle (remove-IsFitting _ _ p.timers id v.fitting);
      })

pub dismiss-IsValid :
    (p : Page) (k : ℕ) → IsValid p → IsValid (record p { toasts = dismiss k p.toasts })
unfolding dismiss
dismiss-IsValid p k v = record {
  timed = v.timed;
  offered = filter-IsOffered _ _ _ _ v.offered;
  concealed = v.concealed;
  fitting = v.fitting;
}

plain_toast-IsValid :
    (p : Page) (opts : ToastOptions UndoAction)
    → opts.on_action ≡ none
    → IsValid p
    → IsValid (toast opts p)
unfolding toast Toasts.show
plain_toast-IsValid p opts plain v = record {
  timed = expire-IsTimed _ _ _ _ v.timed;
  offered = plain-IsOffered p.delete_timers p.timers p.toasts.toasts _ _ _ plain v.offered;
  concealed = v.concealed;
  fitting = set-IsFitting _ _ p.timers _ _ v.timed.handled v.fitting;
}

undo_before-IsValid : (p : Page) (visit id : ℕ) → IsValid p → IsValid (undo_before visit id p)
unfolding undo_before
undo_before-IsValid p visit id v = elim (Option-cases (get_left visit id p.left_timers)) [
  | inl absent ↦
      rw (absent, clear)
        (record {
          timed = v.timed;
          offered = v.offered;
          concealed = v.concealed;
          fitting = remove_left-IsFitting _ _ p.timers visit id v.fitting;
        })
  | inr (h, there) ↦
      let foreign = λ (t : Timer Callback) (found : find_timer h p.timers.active ≡ some t).
        get_left-Fits p.timers visit id h p.left_timers v.fitting.theirs there t found in
      rw (there, clear)
        (record {
          timed = cleared-IsTimed _ p.timers h visit id foreign v.timed;
          offered = cleared-IsOffered _ p.timers h visit id foreign p.toasts.toasts v.offered;
          concealed = v.concealed;
          fitting =
              clear-IsFitting _ _ p.timers h
                (remove_left-IsFitting _ _ p.timers visit id v.fitting);
        })
]

act-IsValid :
    (p : Page) (t : Toast UndoAction) (toast_id : ℕ) (o : Option UndoAction)
    → find? (λ u. u.id == toast_id) p.toasts.toasts ≡ some t
    → t.on_action ≡ o
    → IsValid p
    → IsValid (act t o p)
act-IsValid p t toast_id none found e v = unfold act in v
act-IsValid p t toast_id (some (here id)) found e v = undo_toast-IsValid p t toast_id id found e v
act-IsValid p t toast_id (some (before visit id)) found e v =
    unfold act in dismiss-IsValid _ t.id (undo_before-IsValid p visit id v)

pub press-IsValid :
    (p : Page) (toast_id : ℕ) (o : Option (Toast UndoAction))
    → find? (λ u. u.id == toast_id) p.toasts.toasts ≡ o
    → IsValid p
    → IsValid (press o p)
unfolding press
press-IsValid p toast_id none e v = v
press-IsValid p toast_id (some t) e v = elim (Bool-cases (has_button t)) [
  | inl shown ↦ rw shown (act-IsValid p t toast_id t.on_action e refl v)
  | inr bare ↦ rw bare v
]

report-IsValid : (p : Page) (outcome : Outcome) → IsValid p → IsValid (report outcome p)
unfolding report
report-IsValid p deleted v = v
report-IsValid p (api_error text) v = plain_toast-IsValid p _ refl v
report-IsValid p other_error v = plain_toast-IsValid p _ refl v

remove_pending-report :
    (id : ℕ) (outcome : Outcome) (p : Page)
    → remove_pending id (report outcome p) ≡ report outcome (remove_pending id p)
unfolding remove_pending report toast
remove_pending-report id deleted p = refl
remove_pending-report id (api_error text) p = refl
remove_pending-report id other_error p = refl

pub settle-IsValid :
    (p : Page) (id : ℕ) (outcome : Outcome)
    → contains id p.in_flight ≡ true
    → IsValid p
    → IsValid (settle id outcome p)
unfolding settle remove_pending
settle-IsValid p id outcome flying v = rw (remove_pending-report id outcome) (
    report-IsValid _ outcome (record {
      timed = v.timed;
      offered = v.offered;
      concealed = settle-IsHidden _ _ _ v.concealed id flying;
      fitting = v.fitting;
    }))

pub settle_before-IsValid :
    (p : Page) (visit id : ℕ) (outcome : Outcome)
    → IsValid p
    → IsValid (settle_before visit id outcome p)
unfolding settle_before
settle_before-IsValid p visit id outcome v =
    report-IsValid _ outcome (record {
      timed = v.timed;
      offered = v.offered;
      concealed = v.concealed;
      fitting = v.fitting;
    })
