-- ===== src/Deletion/Undo.antt =====
-- What the undo of a deletion promises (frontend/src/pages/InboxPage.tsx).
use inboxone.Common.{
  Bool, ℕ, ◌≡◌, refl, ◌∙◌, ◌≢◌, inl, inr, true, false, not, ◌&&◌, ◌||◌, none, some, List, [], ◌∷◌,
  ◌++◌, arith, ◌==◌, ==_refl, if◌then◌else◌, is_some, filter, find?, contains, delete,
  contains-delete, String, Bool-cases, All,
}
use inboxone.Timers.{Timer, find_timer, set_timeout}
use inboxone.Timers.Laws.{clear_timeout_inv}
use inboxone.Toasts
use inboxone.Toasts.{Toast, dismiss, has_button}
use inboxone.Deletion.{
  Page, Callback, UndoAction, here, commit, commit_before, get, Event, api_error, visible,
  remove_pending, toast, schedule, hide, handle_delete, clear, undo_delete, report, settle, act,
  press, click, run, opened,
}
use inboxone.Deletion.Invariant.{IsValid, AreAllowed}
use inboxone.Deletion.Frame.{get-remove_self}
use inboxone.Deletion.Steps.{run-IsValid}
use inboxone.Deletion.Operations.{opened-IsValid, shown-Offer}

-- the page after some events
abbrev pub reached : List Event → Page
reached es = run es opened

-- the toast on display with an id, if its action is to undo a deletion that was made in this visit of the page
abbrev pub Undoes : Page → ℕ → ℕ → Type 0
Undoes p toast_id id =
    (t : Toast UndoAction) × (find? (λ u. u.id == toast_id) p.toasts.toasts ≡ some t)
    × (has_button t ≡ true)
    × (t.on_action ≡ some (here id))

-- a request of an earlier visit for the message is under way
abbrev pub is_flying : ℕ → List (ℕ × ℕ) → Bool
is_flying id [] = false
is_flying id ((v, k) ∷ flights) = k == id || is_flying id flights

-- no timer is set and no request is under way for a message whose deletion an earlier visit has begun
pub record IsNotLeft (id : ℕ) (p : Page) : Type 0 where
  pub untimed :
      (h visit : ℕ) (t : Timer Callback)
      → find_timer h p.timers.active ≡ some t
      → t.callback ≢ commit_before visit id
  pub grounded : is_flying id p.left_flights ≡ false

-- no timer, no entry and no request is left that could delete a message, and it is not hidden
pub record IsSpared (id : ℕ) (p : Page) : Type 0 where
  pub unscheduled : get id p.delete_timers ≡ none
  pub untimed :
      (h : ℕ) (t : Timer Callback) → find_timer h p.timers.active ≡ some t → t.callback ≢ commit id
  pub grounded : contains id p.in_flight ≡ false
  pub not_left : IsNotLeft id p
  pub shown : contains id p.pending_delete_ids ≡ false

undo-IsSpared :
    (p : Page) (t : Toast UndoAction) (toast_id id : ℕ)
    → find? (λ u. u.id == toast_id) p.toasts.toasts ≡ some t
    → t.on_action ≡ some (here id)
    → IsValid p
    → IsNotLeft id p
    → IsSpared id (act t (some (here id)) p)
unfolding act undo_delete remove_pending
undo-IsSpared p t toast_id id found offered v unleft =
    let o = shown-Offer p t toast_id id found offered v in
    rw (o.mapped, clear)
      (record {
        unscheduled = get-remove_self id p.delete_timers;
        untimed = λ h u set runs.
            let (differ, old) = clear_timeout_inv h o.handle p.timers u set in
            let mine = v.timed.owned h id u old runs in
            let mapped = o.mapped in differ (ground arith);
        grounded = v.concealed.apart o.handle id o.mapped;
        not_left = record {
          untimed = λ h visit u set.
              unleft.untimed h visit u (clear_timeout_inv h o.handle p.timers u set).1;
          grounded = unleft.grounded;
        };
        shown = contains-delete id id p.pending_delete_ids ∙ ground (arith, ==_refl id);
      })

-- After any events, those of leaving the page and opening it anew among them, as long as no message is deleted again
-- while the request of the same visit to delete it is under way: while a toast offers to undo a deletion that was made
-- in this visit, no request of this visit to delete that message is under way; and if no earlier visit of the page has
-- the message's deletion scheduled or under way, a click on the offer leaves no timer, no entry and no request that
-- could delete it, and the message is no longer hidden.
pub click-IsSpared :
    (es : List Event) (toast_id id : ℕ)
    → AreAllowed opened es
    → IsNotLeft id (reached es)
    → Undoes (reached es) toast_id id
    → (contains id (reached es).in_flight ≡ false) × IsSpared id (click toast_id (reached es))
unfolding click press
click-IsSpared es toast_id id allowed unleft (t, found, button, offered) =
    let v = run-IsValid es opened allowed opened-IsValid in
    let o = shown-Offer (reached es) t toast_id id found offered v in
    (
      v.concealed.apart o.handle id o.mapped,
      rw (found, button, offered) (undo-IsSpared (reached es) t toast_id id found offered v unleft),
    )

pub contains-filter :
    (a : ℕ) (ps ls : List ℕ)
    → contains a (filter (λ m. not (contains m ps)) ls) ≡ (contains a ls && not (contains a ps))
contains-filter a ps [] = refl
contains-filter a ps (l ∷ ls) = elim (Bool-cases (l == a)) [
  | inl same ↦
      let e : l ≡ a = ground arith in rw e (ground (arith, contains-filter a ps ls, ==_refl a))
  | inr other ↦ ground (arith, contains-filter a ps ls)
]

-- After any events, those of leaving the page and opening it anew among them, as long as no message is deleted again
-- while the request of the same visit to delete it is under way: the list shows a message that has been loaded unless
-- this visit has its deletion scheduled or under way.
pub contains-visible :
    (es : List Event) (loaded : List ℕ) (id : ℕ)
    → AreAllowed opened es
    → contains id (visible (reached es) loaded) ≡ (
        contains id loaded
        && not (is_some (get id (reached es).delete_timers) || contains id (reached es).in_flight))
unfolding visible
contains-visible es loaded id allowed =
    let v = run-IsValid es opened allowed opened-IsValid in
    rw (← v.concealed.hidden id) (contains-filter id (reached es).pending_delete_ids loaded)

get-handle_delete : (id : ℕ) (p : Page) → is_some (get id (handle_delete id p).delete_timers) ≡ true
unfolding handle_delete hide schedule toast Toasts.show set_timeout
get-handle_delete id p = ground (arith, ==_refl id)

handle_delete_scheduled :
    (id : ℕ) (p : Page) → is_some (get id p.delete_timers) ≡ true → handle_delete id p ≡ p
unfolding handle_delete
handle_delete_scheduled id p h = rw h

-- To delete a message whose deletion is scheduled changes nothing: a second press sets no second timer
-- and shows no second toast.
pub handle_delete_idem :
    (id : ℕ) (p : Page) → handle_delete id (handle_delete id p) ≡ handle_delete id p
handle_delete_idem id p = handle_delete_scheduled id (handle_delete id p) (get-handle_delete id p)

-- what a toast that is shown last says
abbrev pub last_text : List (Toast UndoAction) → String
last_text [] = ""
last_text (t ∷ []) = t.message
last_text (t ∷ u ∷ ts) = last_text (u ∷ ts)

last_text-concat :
    (ts : List (Toast UndoAction)) (t : Toast UndoAction) → last_text (ts ++ t ∷ []) ≡ t.message
last_text-concat [] t = refl
last_text-concat (u ∷ []) t = refl
last_text-concat (u ∷ w ∷ ts) t = last_text-concat (w ∷ ts) t

-- When the server refuses to delete a message, the list shows the message again as far as it has been
-- loaded, and a toast says what the server said; no other message is hidden or shown.
pub settle-api_error :
    (p : Page) (id m : ℕ) (text : String) (loaded : List ℕ)
    → let q = settle id (api_error text) p in
      (last_text q.toasts.toasts ≡ text)
      × (contains m (visible q loaded)
          ≡ (if m == id then contains m loaded else contains m (visible p loaded)))
unfolding settle report remove_pending toast Toasts.show visible
settle-api_error p id m text loaded = (
  last_text-concat p.toasts.toasts _,
  contains-filter m (delete id p.pending_delete_ids) loaded
      ∙ ground (
        arith,
        contains-delete m id p.pending_delete_ids,
        contains-filter m p.pending_delete_ids loaded,
      ),
)

pub find-last :
    (k : ℕ) (ts : List (Toast UndoAction)) (t : Toast UndoAction)
    → All (λ u. u.id ≢ k) ts
    → t.id ≡ k
    → find? (λ u. u.id == k) (ts ++ t ∷ []) ≡ some t
find-last k [] t d e = ground arith
find-last k (u ∷ ts) t d e = ground (arith, find-last k ts t d.1 e)
