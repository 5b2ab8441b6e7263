-- ===== src/Deletion/Offered.antt =====
-- The offers to undo a deletion (frontend/src/pages/InboxPage.tsx, shown by
-- frontend/src/components/Toaster.tsx) under each change.
use inboxone.Common.{
  ℕ, ◌+◌, ◌≤◌, ◌≡◌, refl, sym, ◌∙◌, Bool, none, some, List, [], ◌∷◌, ◌++◌, arith, ==_refl, filter,
  All-filter, All-map_weaken, All-concat,
}
use inboxone.Timers.{Timer, Timers, find_timer, set_timeout}
use inboxone.Timers.Laws.{
  IsHandled, set_timeout-IsHandled, find_timer-set_timeout, find_timer-set_timeout_old,
}
use inboxone.Toasts.{Toast}
use inboxone.Deletion.{Callback, UndoAction, here, expire, commit, get}
use inboxone.Deletion.Invariant.{Offer, Offers, DoDiffer, IsOffered}
use inboxone.Deletion.Frame.{AreDistinct-filter, AreDistinct-concat, Offer-keep}

module _ (m : List (ℕ × ℕ)) (ts : List (Timer Callback)) (toasts : List (Toast UndoAction)) where
  pub filter-IsOffered :
      (p : Toast UndoAction → Bool) → IsOffered m ts toasts → IsOffered m ts (filter p toasts)
  filter-IsOffered p v = record {
    offers = All-filter (Offers m ts) p toasts v.offers;
    distinct = AreDistinct-filter p toasts v.distinct;
  }

-- an offer among more timers
Offer-more :
    (m m' : List (ℕ × ℕ)) (ts ts' : List (Timer Callback)) (toast_id id : ℕ)
    → ((h : ℕ) → get id m ≡ some h → get id m' ≡ some h)
    → ((h : ℕ) (t : Timer Callback) → find_timer h ts ≡ some t → find_timer h ts' ≡ some t)
    → Offer m ts toast_id id
    → Offer m' ts' toast_id id
Offer-more m m' ts ts' toast_id id more set o =
    Offer-keep m m' ts ts' toast_id id o (more o.handle o.mapped ∙ sym o.mapped)
      (set o.handle o.timer o.set ∙ sym o.set)
      (set o.own_handle o.own_timer o.own_set ∙ sym o.own_set)

-- a toast with no action is shown
pub plain-IsOffered :
    (m : List (ℕ × ℕ)) (s : Timers Callback) (toasts : List (Toast UndoAction))
    (t : Toast UndoAction) (c : Callback) (d : ℕ)
    → t.on_action ≡ none
    → IsOffered m s.active toasts
    → IsOffered m (set_timeout c d s).1.active (toasts ++ t ∷ [])
plain-IsOffered m s toasts t c d plain v = record {
  offers =
      All-concat (Offers m (set_timeout c d s).1.active) toasts t
        (All-map_weaken (Offers m s.active) (Offers m (set_timeout c d s).1.active)
          (λ u offer id e.
            Offer-more m m s.active _ u.id id (λ h g. g)
              (λ h w found. find_timer-set_timeout_old c d h s w found) (offer id e))
          toasts v.offers)
        (λ id e. cc);
  distinct = AreDistinct-concat toasts t v.distinct (
      All-map_weaken (Offers m s.active) (λ u. DoDiffer u t) (λ u offer id e f. cc) toasts
        v.offers);
}

-- a deletion is scheduled, and a toast offers to undo it
pub undoable-IsOffered :
    (m : List (ℕ × ℕ)) (s : Timers Callback) (toasts : List (Toast UndoAction))
    (t : Toast UndoAction) (id d d' : ℕ)
    → get id m ≡ none
    → t.on_action ≡ some (here id)
    → d' + 1 ≤ d
    → IsHandled s
    → IsOffered m s.active toasts
    → IsOffered
        ((id, s.next_handle) ∷ m)
        (set_timeout (expire t.id) d' (set_timeout (commit id) d s).1).1.active
        (toasts ++ t ∷ [])
unfolding set_timeout
undoable-IsOffered m s toasts t id d d' absent offered shorter handled v =
    let m' : List (ℕ × ℕ) = (id, s.next_handle) ∷ m in
    let s₁ = (set_timeout (commit id) d s).1 in
    let s₂ = (set_timeout (expire t.id) d' s₁).1 in
    let later = λ (h : ℕ) (w : Timer Callback) (found : find_timer h s.active ≡ some w).
      find_timer-set_timeout_old (expire t.id) d' h s₁ w
        (find_timer-set_timeout_old (commit id) d h s w found) in
    record {
      offers =
          All-concat (Offers m' s₂.active) toasts t
            (All-map_weaken (Offers m s.active) (Offers m' s₂.active)
              (λ u offer j e.
                Offer-more m m' s.active s₂.active u.id j (λ h g. ground arith) later (offer j e))
              toasts v.offers)
            (λ j e.
              let same : id ≡ j = ground arith in
              rw (← same) (record {
                handle = s.next_handle;
                timer = record { handle = s.next_handle; due = s.now + d; callback = commit id };
                own_handle = s₁.next_handle;
                own_timer = record {
                  handle = s₁.next_handle;
                  due = s.now + d';
                  callback = expire t.id;
                };
                mapped = ground (arith, ==_refl id);
                set =
                    find_timer-set_timeout_old (expire t.id) d' s.next_handle s₁ _
                      (find_timer-set_timeout (commit id) d s handled);
                commits = refl;
                own_set =
                    find_timer-set_timeout (expire t.id) d' s₁
                      (set_timeout-IsHandled (commit id) d s handled);
                expires = refl;
                order = omega arith;
              }));
      distinct = AreDistinct-concat toasts t v.distinct (
          All-map_weaken (Offers m s.active) (λ u. DoDiffer u t)
            (λ u offer j e f.
              let same : j ≡ id = ground arith in
              let o = offer j e in
              let there : get id m ≡ some o.handle = rw (← same) o.mapped in cc)
            toasts v.offers);
    }
