-- ===== src/Deletion/Returned.antt =====
-- The page is left and opened anew (frontend/src/pages/InboxPage.tsx): all that has been set is of an earlier visit.
use inboxone.Common.{
  ℕ, ◌≡◌, refl, sym, ap, ◌∙◌, ◌≢◌, inl, inr, Option, none, some, List, [], ◌∷◌, ◌++◌, arith, map,
  All, All-map_weaken, Bool-cases, ◌==◌,
}
use inboxone.Timers.{Timer, Timers, find_timer}
use inboxone.Timers.Laws.{AreHandled}
use inboxone.Toasts.{Toast}
use inboxone.Deletion.{
  Callback, expire, commit, commit_before, UndoAction, here, before, Left, keep_action, keep_toast,
  keep_callback, keep_timer, keep_entry,
}
use inboxone.Deletion.Invariant.{IsTimed, Offers, DoDiffer, AreDistinct, IsOffered, Fits, IsFitting}

find_timer-keep_timer :
    (visit h : ℕ) (ts : List (Timer Callback)) (t : Timer Callback)
    → find_timer h (map (keep_timer visit) ts) ≡ some t
    → (u : Timer Callback) × (find_timer h ts ≡ some u) × (t ≡ keep_timer visit u)
find_timer-keep_timer visit h [] t e = cc
find_timer-keep_timer visit h (u ∷ ts) t e = elim (Bool-cases (u.handle == h)) [
  | inl same ↦ (u, rw same refl, ground arith)
  | inr other ↦
      let (w, found, kept_) = find_timer-keep_timer visit h ts t (ground arith) in
      (w, rw other found, kept_)
]

All-keep_timer :
    (visit h : ℕ) (ts : List (Timer Callback))
    → All (λ (u : Timer Callback). u.handle ≢ h) ts
    → All (λ (u : Timer Callback). u.handle ≢ h) (map (keep_timer visit) ts)
All-keep_timer visit h [] v = tt
All-keep_timer visit h (t ∷ ts) v = (v.0, All-keep_timer visit h ts v.1)

AreHandled-keep_timer :
    (visit next : ℕ) (ts : List (Timer Callback))
    → AreHandled next ts
    → AreHandled next (map (keep_timer visit) ts)
AreHandled-keep_timer visit next [] v = tt
AreHandled-keep_timer visit next (t ∷ ts) v =
    (v.0, All-keep_timer visit t.handle ts v.1, AreHandled-keep_timer visit next ts v.2)

keep_callback-ne : (visit id : ℕ) (c : Callback) → keep_callback visit c ≢ commit id
keep_callback-ne visit id (expire k) e = cc
keep_callback-ne visit id (commit j) e = cc
keep_callback-ne visit id (commit_before v j) e = cc

keep_action-ne : (visit id : ℕ) (a : Option UndoAction) → keep_action visit a ≢ some (here id)
keep_action-ne visit id none e = cc
keep_action-ne visit id (some (here j)) e = absurd (ground arith)
keep_action-ne visit id (some (before v j)) e = absurd (ground arith)

module _ (visit : ℕ) (m : List (ℕ × ℕ)) (left : List Left) (s : Timers Callback) where
  pub returned-IsTimed :
      IsTimed m s → IsTimed [] (record s { active = map (keep_timer visit) s.active })
  returned-IsTimed v = record {
    handled = AreHandled-keep_timer visit s.next_handle s.active v.handled;
    owned = λ h id t found commits.
        let (u, old, same) = find_timer-keep_timer visit h s.active t found in
        absurd (
          keep_callback-ne visit id u.callback
            (sym (ap (λ (w : Timer Callback). w.callback) same) ∙ commits));
    scheduled = λ h id mapped. cc;
  }

  Fits-keep :
      (c : Callback) (h : ℕ)
      → Fits s h c
      → Fits (record s { active = map (keep_timer visit) s.active }) h (keep_callback visit c)
  Fits-keep c h (below, runs) = (
    below,
    λ t found.
        let (u, old, same) = find_timer-keep_timer visit h s.active t found in
        ap (λ (w : Timer Callback). w.callback) same ∙ ap (keep_callback visit) (runs u old),
  )

  entries-Fits :
      (m' : List (ℕ × ℕ))
      → All (λ e. Fits s e.1 (commit e.0)) m'
      → All (λ l. Fits s l.handle (commit_before l.visit l.id)) left
      → All
          (λ l.
            Fits
              (record s { active = map (keep_timer visit) s.active })
              l.handle
              (commit_before l.visit l.id))
          (map (keep_entry visit) m' ++ left)
  entries-Fits [] mine theirs =
      All-map_weaken (λ l. Fits s l.handle (commit_before l.visit l.id))
        (λ l.
          Fits (record s { active = map (keep_timer visit) s.active }) l.handle
            (commit_before l.visit l.id))
        (λ l fits. Fits-keep (commit_before l.visit l.id) l.handle fits) left theirs
  entries-Fits ((id, h) ∷ m') mine theirs =
      (Fits-keep (commit id) h mine.0, entries-Fits m' mine.1 theirs)

  pub returned-IsFitting :
      IsFitting m left s
      → IsFitting []
          (map (keep_entry visit) m ++ left)
          (record s { active = map (keep_timer visit) s.active })
  returned-IsFitting v = record { mine = tt; theirs = entries-Fits m v.mine v.theirs }

returned-Offers :
    (visit : ℕ) (ts : List (Timer Callback)) (toasts : List (Toast UndoAction))
    → All (Offers [] ts) (map (keep_toast visit) toasts)
returned-Offers visit ts [] = tt
returned-Offers visit ts (t ∷ toasts) =
    (λ id e. absurd (keep_action-ne visit id t.on_action e), returned-Offers visit ts toasts)

returned-DoDiffer :
    (visit : ℕ) (t : Toast UndoAction) (toasts : List (Toast UndoAction))
    → All (DoDiffer (keep_toast visit t)) (map (keep_toast visit) toasts)
returned-DoDiffer visit t [] = tt
returned-DoDiffer visit t (u ∷ toasts) =
    (λ id e. absurd (keep_action-ne visit id t.on_action e), returned-DoDiffer visit t toasts)

returned-AreDistinct :
    (visit : ℕ) (toasts : List (Toast UndoAction)) → AreDistinct (map (keep_toast visit) toasts)
returned-AreDistinct visit [] = tt
returned-AreDistinct visit (t ∷ toasts) =
    (returned-DoDiffer visit t toasts, returned-AreDistinct visit toasts)

pub returned-IsOffered :
    (visit : ℕ) (ts : List (Timer Callback)) (toasts : List (Toast UndoAction))
    → IsOffered [] ts (map (keep_toast visit) toasts)
returned-IsOffered visit ts toasts = record {
  offers = returned-Offers visit ts toasts;
  distinct = returned-AreDistinct visit toasts;
}
