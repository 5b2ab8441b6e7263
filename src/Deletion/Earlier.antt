-- ===== src/Deletion/Earlier.antt =====
-- What earlier visits of the inbox page have left (frontend/src/pages/InboxPage.tsx) under each change.
use inboxone.Common.{
  ℕ, ◌≡◌, refl, ◌∙◌, ◌≢◌, inl, inr, some, List, [], ◌∷◌, arith, All, All-filter, All-map_weaken,
  true, Bool-cases,
}
use inboxone.Timers.{Timer, Timers, find_timer, set_timeout, clear_timeout, advance}
use inboxone.Timers.Laws.{
  IsHandled, clear_timeout-IsHandled, find_timer-set_timeout, set_timeout_cases, clear_timeout_inv,
  find_timer-clear_timeout,
}
use inboxone.Toasts.{Toast}
use inboxone.Deletion.{
  Callback, commit, commit_before, UndoAction, Left, remove, get_left, remove_left, is_left,
}
use inboxone.Deletion.Invariant.{IsTimed, Offers, IsOffered, Fits, IsFitting}
use inboxone.Deletion.Frame.{Offer-keep}

Fits-set :
    (c c' : Callback) (d h : ℕ) (s : Timers Callback)
    → IsHandled s
    → Fits s h c
    → Fits (set_timeout c' d s).1 h c
unfolding set_timeout
Fits-set c c' d h s v (below, runs) = (
  omega arith,
  λ t found. elim (set_timeout_cases c' d h s t v (unfold set_timeout in found)) [
    | inl (new, _) ↦ absurd (omega arith)
    | inr old ↦ runs t old
  ],
)

Fits-new :
    (c : Callback) (d : ℕ) (s : Timers Callback)
    → IsHandled s
    → Fits (set_timeout c d s).1 s.next_handle c
unfolding set_timeout
Fits-new c d s v =
    (omega arith, λ t found. let set = find_timer-set_timeout c d s v in ground arith)

Fits-clear :
    (c : Callback) (k h : ℕ) (s : Timers Callback) → Fits s h c → Fits (clear_timeout k s) h c
unfolding clear_timeout
Fits-clear c k h s (below, runs) =
    (below, λ t found. runs t (clear_timeout_inv h k s t (unfold clear_timeout in found)).1)

module _ (m : List (ℕ × ℕ)) (left : List Left) (s s' : Timers Callback) where
  IsFitting-change :
      ((c : Callback) (h : ℕ) → Fits s h c → Fits s' h c) → IsFitting m left s → IsFitting m left s'
  IsFitting-change f v = record {
    mine =
        All-map_weaken (λ e. Fits s e.1 (commit e.0)) (λ e. Fits s' e.1 (commit e.0))
          (λ e fits. f _ e.1 fits) m v.mine;
    theirs =
        All-map_weaken (λ l. Fits s l.handle (commit_before l.visit l.id))
          (λ l. Fits s' l.handle (commit_before l.visit l.id)) (λ l fits. f _ l.handle fits) left
          v.theirs;
  }

pub set-IsFitting :
    (m : List (ℕ × ℕ)) (left : List Left) (s : Timers Callback) (c : Callback) (d : ℕ)
    → IsHandled s
    → IsFitting m left s
    → IsFitting m left (set_timeout c d s).1
set-IsFitting m left s c d h =
    IsFitting-change m left s (set_timeout c d s).1 (λ c' k. Fits-set c' c d k s h)

pub schedule-IsFitting :
    (m : List (ℕ × ℕ)) (left : List Left) (s : Timers Callback) (id d : ℕ)
    → IsHandled s
    → IsFitting m left s
    → IsFitting ((id, s.next_handle) ∷ m) left (set_timeout (commit id) d s).1
schedule-IsFitting m left s id d h v =
    let kept = set-IsFitting m left s (commit id) d h v in
    record { mine = (Fits-new (commit id) d s h, kept.mine); theirs = kept.theirs }

pub clear-IsFitting :
    (m : List (ℕ × ℕ)) (left : List Left) (s : Timers Callback) (k : ℕ)
    → IsFitting m left s
    → IsFitting m left (clear_timeout k s)
clear-IsFitting m left s k =
    IsFitting-change m left s (clear_timeout k s) (λ c h. Fits-clear c k h s)

pub advance-IsFitting :
    (m : List (ℕ × ℕ)) (left : List Left) (s : Timers Callback) (ms : ℕ)
    → IsFitting m left s
    → IsFitting m left (advance ms s)
unfolding advance
advance-IsFitting m left s ms v = record { mine = v.mine; theirs = v.theirs }

All-remove {κ} : (P : ℕ × ℕ → Type κ) (id : ℕ) (m : List (ℕ × ℕ)) → All P m → All P (remove id m)
All-remove P id [] h = tt
All-remove P id ((k, v) ∷ m) h = ground (arith, All-remove P id m h.1)

pub remove-IsFitting :
    (m : List (ℕ × ℕ)) (left : List Left) (s : Timers Callback) (id : ℕ)
    → IsFitting m left s
    → IsFitting (remove id m) left s
remove-IsFitting m left s id v = record {
  mine = All-remove (λ e. Fits s e.1 (commit e.0)) id m v.mine;
  theirs = v.theirs;
}

pub remove_left-IsFitting :
    (m : List (ℕ × ℕ)) (left : List Left) (s : Timers Callback) (visit id : ℕ)
    → IsFitting m left s
    → IsFitting m (remove_left visit id left) s
remove_left-IsFitting m left s visit id v = record {
  mine = v.mine;
  theirs = All-filter (λ l. Fits s l.handle (commit_before l.visit l.id)) _ left v.theirs;
}

keys :
    (l : Left) (visit id : ℕ)
    → is_left visit id l ≡ true
    → commit_before l.visit l.id ≡ commit_before visit id
keys l visit id h = ground arith

-- the handle on the map of an earlier visit is not that of a timer of this one, nor of a toast
pub get_left-Fits :
    (s : Timers Callback) (visit id h : ℕ) (left : List Left)
    → All (λ l. Fits s l.handle (commit_before l.visit l.id)) left
    → get_left visit id left ≡ some h
    → (t : Timer Callback) → find_timer h s.active ≡ some t
    → t.callback ≡ commit_before visit id
get_left-Fits s visit id h [] v e t found = cc
get_left-Fits s visit id h (l ∷ left) v e t found = elim (Bool-cases (is_left visit id l)) [
  | inl mine ↦
      let same : l.handle ≡ h = ground arith in
      let runs = v.0.1 t (rw same found) in runs ∙ keys l visit id mine
  | inr other ↦ get_left-Fits s visit id h left v.1 (ground arith) t found
]

-- a timer of an earlier visit goes, in which this visit and its toasts have no part
module _ (m : List (ℕ × ℕ)) (s : Timers Callback) (k visit id : ℕ)
    (foreign : (t : Timer Callback)
      → find_timer k s.active ≡ some t
      → t.callback ≡ commit_before visit id) where
  kept :
      (h : ℕ) (t : Timer Callback)
      → find_timer h s.active ≡ some t
      → t.callback ≢ commit_before visit id
      → find_timer h (clear_timeout k s).active ≡ find_timer h s.active
  kept h t found own = find_timer-clear_timeout h k s (λ same. own (foreign t (rw (← same) found)))

  pub cleared-IsTimed : IsTimed m s → IsTimed m (clear_timeout k s)
  cleared-IsTimed v = record {
    handled = clear_timeout-IsHandled k s v.handled;
    owned = λ h j u found commits. v.owned h j u (clear_timeout_inv h k s u found).1 commits;
    scheduled = λ h j mapped.
        let (u, found, commits) = v.scheduled h j mapped in
        (u, kept h u found (λ e. cc) ∙ found, commits);
  }

  pub cleared-IsOffered :
      (toasts : List (Toast UndoAction))
      → IsOffered m s.active toasts
      → IsOffered m (clear_timeout k s).active toasts
  cleared-IsOffered toasts v = record {
    offers =
        All-map_weaken (Offers m s.active) (Offers m (clear_timeout k s).active)
          (λ u offer j e.
            let o = offer j e in
            Offer-keep m m s.active (clear_timeout k s).active u.id j o refl
              (kept o.handle o.timer o.set (λ same. let c = o.commits in cc))
              (kept o.own_handle o.own_timer o.own_set (λ same. let c = o.expires in cc)))
          toasts v.offers;
    distinct = v.distinct;
  }
