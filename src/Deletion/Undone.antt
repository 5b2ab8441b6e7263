-- ===== src/Deletion/Undone.antt =====
-- The offers to undo that remain once one of them is taken or its timer has run (frontend/src/pages/InboxPage.tsx).
use inboxone.Common.{
  All-find, ℕ, ◌≤◌, ◌<◌, ◌≡◌, refl, sym, ◌∙◌, ◌≢◌, inl, inr, not, some, List, [], ◌∷◌, arith, ◌==◌,
  filter, find?, All, All-filter, All-filter_with, All-map_weaken, Bool-cases,
}
use inboxone.Timers.{Timer, Timers, find_timer, clear_timeout}
use inboxone.Timers.Laws.{find_timer-clear_timeout}
use inboxone.Toasts.{Toast}
use inboxone.Deletion.{Callback, UndoAction, here, expire, commit, get, remove}
use inboxone.Deletion.Invariant.{IsTimed, Offer, Offers, DoDiffer, AreDistinct, IsOffered}
use inboxone.Deletion.Frame.{get-remove_ne, AreDistinct-filter, Offer-keep, handles_differ}

-- the other toasts offer other messages
others_differ :
    (k id : ℕ) (ts : List (Toast UndoAction)) (t : Toast UndoAction)
    → AreDistinct ts
    → find? (λ u. u.id == k) ts ≡ some t
    → t.on_action ≡ some (here id)
    → All (λ u. u.on_action ≢ some (here id)) (filter (λ u. not (u.id == k)) ts)
others_differ k id [] t d e offered = tt
others_differ k id (u ∷ ts) t d e offered = elim (Bool-cases (u.id == k)) [
  | inl found_here ↦
      let same : u ≡ t = ground arith in
      let mine : u.on_action ≡ some (here id) = rw same offered in
      rw found_here (
        All-filter (λ w. w.on_action ≢ some (here id)) _ ts
          (All-map_weaken (DoDiffer u) (λ w. w.on_action ≢ some (here id))
            (λ w differ. differ id mine) ts d.0))
  | inr there ↦
      let found : find? (λ w. w.id == k) ts ≡ some t = ground arith in
      rw there (
        (λ mine. All-find (DoDiffer u) _ ts t d.0 found id mine offered),
        others_differ k id ts t d.1 found offered,
      )
]

All-both {κ μ} :
    (P : Toast UndoAction → Type κ) (Q : Toast UndoAction → Type μ) (ts : List (Toast UndoAction))
    → All P ts
    → All Q ts
    → All (λ t. P t × Q t) ts
All-both P Q [] h k = tt
All-both P Q (t ∷ ts) h k = ((h.0, k.0), All-both P Q ts h.1 k.1)

module _ (m : List (ℕ × ℕ)) (s : Timers Callback) (toasts : List (Toast UndoAction)) where
  -- one message's timer goes, and its entry of the map
  Offer-without :
      (id k j toast_id : ℕ) (w : Timer Callback)
      → find_timer k s.active ≡ some w
      → w.callback ≡ commit id
      → j ≢ id
      → Offer m s.active toast_id j
      → Offer (remove id m) (clear_timeout k s).active toast_id j
  Offer-without id k j toast_id w found runs other o =
      Offer-keep m (remove id m) s.active (clear_timeout k s).active toast_id j o
        (get-remove_ne j id m other)
        (find_timer-clear_timeout o.handle k s (
          handles_differ s.active o.handle k o.timer w o.set found (λ e.
            other (let same : commit j ≡ commit id = sym o.commits ∙ e ∙ runs in ground arith))))
        (find_timer-clear_timeout o.own_handle k s (
          handles_differ s.active o.own_handle k o.own_timer w o.own_set found
            (λ e. let c = o.expires in cc)))

  -- the deletion that a toast offers to undo is undone, and the toast goes
  pub undone-IsOffered :
      (t : Toast UndoAction) (toast_id id k : ℕ)
      → find? (λ u. u.id == toast_id) toasts ≡ some t
      → t.on_action ≡ some (here id)
      → get id m ≡ some k
      → IsTimed m s
      → IsOffered m s.active toasts
      → IsOffered
          (remove id m)
          (clear_timeout k s).active
          (filter (λ u. not (u.id == toast_id)) toasts)
  undone-IsOffered t toast_id id k found offered mapped timed v =
      let (w, set, runs) = timed.scheduled k id mapped in
      record {
        offers =
            All-map_weaken (λ u. (u.on_action ≢ some (here id)) × Offers m s.active u)
              (Offers (remove id m) (clear_timeout k s).active)
              (λ u h j e.
                Offer-without id k j u.id w set runs (λ same. h.0 (rw (← same) e)) (h.1 j e))
              _
              (All-both (λ u. u.on_action ≢ some (here id)) (Offers m s.active) _
                (others_differ toast_id id toasts t v.distinct found offered)
                (All-filter (Offers m s.active) _ toasts v.offers));
        distinct = AreDistinct-filter _ toasts v.distinct;
      }

  module _ (t : Timer Callback) (taken : find_timer t.handle s.active ≡ some t)
      (first : (h : ℕ) (u : Timer Callback) → find_timer h s.active ≡ some u → t.due ≤ u.due) where
    -- no toast offers to undo the deletion whose time has come
    not_offered :
        (id toast_id : ℕ) → t.callback ≡ commit id → IsTimed m s → Offer m s.active toast_id id → ⊥
    not_offered id toast_id runs timed o =
        let mine = timed.owned t.handle id t taken runs in
        let same : o.handle ≡ t.handle = let e = o.mapped in ground arith in
        let there : find_timer t.handle s.active ≡ some o.timer = rw (← same) o.set in
        let equal : o.timer ≡ t = ground arith in
        let soon = first o.own_handle o.own_timer o.own_set in
        let late : o.own_timer.due < t.due = rw (← equal) o.order in absurd (omega arith)

    -- a deletion whose time has come is no longer scheduled
    pub committed-IsOffered :
        (id : ℕ)
        → t.callback ≡ commit id
        → IsTimed m s
        → IsOffered m s.active toasts
        → IsOffered (remove id m) (clear_timeout t.handle s).active toasts
    committed-IsOffered id runs timed v = record {
      offers =
          All-map_weaken (Offers m s.active)
            (Offers (remove id m) (clear_timeout t.handle s).active)
            (λ u offer j e.
              let o = offer j e in
              Offer-without id t.handle j u.id t taken runs
                (λ same. not_offered id u.id runs timed (rw (← same) o)) o)
            toasts v.offers;
      distinct = v.distinct;
    }

    -- a toast whose time has come goes
    pub expired-IsOffered :
        (toast_id : ℕ)
        → t.callback ≡ expire toast_id
        → IsOffered m s.active toasts
        → IsOffered m
            (clear_timeout t.handle s).active
            (filter (λ u. not (u.id == toast_id)) toasts)
    expired-IsOffered toast_id runs v = record {
      offers =
          All-filter_with (Offers m s.active) (Offers m (clear_timeout t.handle s).active)
            (λ u. not (u.id == toast_id))
            (λ u passed offer j e.
              let o = offer j e in
              Offer-keep m m s.active (clear_timeout t.handle s).active u.id j o refl
                (find_timer-clear_timeout o.handle t.handle s (
                  handles_differ s.active o.handle t.handle o.timer t o.set taken
                    (λ same. let c = o.commits in cc)))
                (find_timer-clear_timeout o.own_handle t.handle s (
                  handles_differ s.active o.own_handle t.handle o.own_timer t o.own_set taken
                    (λ same.
                      let c : expire u.id ≡ expire toast_id = sym o.expires ∙ same ∙ runs in
                      absurd (ground arith)))))
            toasts v.offers;
      distinct = AreDistinct-filter _ toasts v.distinct;
    }
