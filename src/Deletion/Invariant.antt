-- ===== src/Deletion/Invariant.antt =====
-- What holds of the inbox page (frontend/src/pages/InboxPage.tsx) between two events, as far as the
-- deletion of messages goes.
use inboxone.Common.{
  ℕ, ◌<◌, ◌≡◌, ◌≢◌, true, false, ◌||◌, some, List, [], ◌∷◌, is_some, contains, All,
}
use inboxone.Timers.{Timer, Timers, find_timer}
use inboxone.Timers.Laws.{IsHandled}
use inboxone.Toasts.{Toast}
use inboxone.Deletion.{
  Page, Callback, expire, commit, commit_before, UndoAction, here, Left, get, Event, press_delete,
  answer, step,
}

-- A message's timer is set exactly as long as the map has the message.
pub record IsTimed (m : List (ℕ × ℕ)) (s : Timers Callback) : Type 0 where
  pub handled : IsHandled s
  pub owned :
      (h id : ℕ) (t : Timer Callback)
      → find_timer h s.active ≡ some t
      → t.callback ≡ commit id
      → get id m ≡ some h
  pub scheduled :
      (h id : ℕ)
      → get id m ≡ some h
      → (t : Timer Callback) × (find_timer h s.active ≡ some t) × (t.callback ≡ commit id)

-- A toast that offers to undo the deletion of a message: the deletion is scheduled, and the toast
-- goes before its time comes.
pub record Offer (m : List (ℕ × ℕ)) (ts : List (Timer Callback)) (toast_id id : ℕ) : Type 0 where
  pub handle : ℕ
  pub timer : Timer Callback
  pub own_handle : ℕ
  pub own_timer : Timer Callback
  pub mapped : get id m ≡ some handle
  pub set : find_timer handle ts ≡ some timer
  pub commits : timer.callback ≡ commit id
  pub own_set : find_timer own_handle ts ≡ some own_timer
  pub expires : own_timer.callback ≡ expire toast_id
  pub order : own_timer.due < timer.due

abbrev pub Offers : List (ℕ × ℕ) → List (Timer Callback) → Toast UndoAction → Type 0
Offers m ts t = (id : ℕ) → t.on_action ≡ some (here id) → Offer m ts t.id id

-- the toasts do not offer the same
abbrev pub DoDiffer : Toast UndoAction → Toast UndoAction → Type 0
DoDiffer t u = (id : ℕ) → t.on_action ≡ some (here id) → u.on_action ≢ some (here id)

abbrev pub AreDistinct : List (Toast UndoAction) → Type 0
AreDistinct [] = Unit
AreDistinct (t ∷ ts) = All (DoDiffer t) ts × AreDistinct ts

pub record IsOffered (m : List (ℕ × ℕ)) (ts : List (Timer Callback))
    (toasts : List (Toast UndoAction)) : Type 0 where
  pub offers : All (Offers m ts) toasts
  pub distinct : AreDistinct toasts

-- A message is under way once at most.
abbrev pub AreSingle : List ℕ → Type 0
AreSingle [] = Unit
AreSingle (id ∷ ids) = (contains id ids ≡ false) × AreSingle ids

-- A message is hidden exactly while its deletion is scheduled or under way, never both.
pub record IsHidden (m : List (ℕ × ℕ)) (pending flights : List ℕ) : Type 0 where
  pub hidden : (id : ℕ) → contains id pending ≡ (is_some (get id m) || contains id flights)
  pub apart : (h id : ℕ) → get id m ≡ some h → contains id flights ≡ false
  pub single : AreSingle flights

-- A handle is that of a timer that has been set to run something, if it still is set.
abbrev pub Fits : Timers Callback → ℕ → Callback → Type 0
Fits s h c =
    (h < s.next_handle) × ((t : Timer Callback) → find_timer h s.active ≡ some t → t.callback ≡ c)

-- The maps of this visit and of the earlier ones have the handles of what they say.
pub record IsFitting (m : List (ℕ × ℕ)) (left : List Left) (s : Timers Callback) : Type 0 where
  pub mine : All (λ e. Fits s e.1 (commit e.0)) m
  pub theirs : All (λ l. Fits s l.handle (commit_before l.visit l.id)) left

pub record IsValid (p : Page) : Type 0 where
  pub timed : IsTimed p.delete_timers p.timers
  pub offered : IsOffered p.delete_timers p.timers.active p.toasts.toasts
  pub concealed : IsHidden p.delete_timers p.pending_delete_ids p.in_flight
  pub fitting : IsFitting p.delete_timers p.left_timers p.timers

-- A message is not deleted again while the request to delete it is under way, and only a request
-- that is under way is answered.
abbrev pub IsAllowed : Page → Event → Type 0
IsAllowed p (press_delete id) = contains id p.in_flight ≡ false
IsAllowed p (answer id outcome) = contains id p.in_flight ≡ true
IsAllowed p _ = Unit

abbrev pub AreAllowed : Page → List Event → Type 0
AreAllowed p [] = Unit
AreAllowed p (e ∷ es) = IsAllowed p e × AreAllowed (step e p) es
