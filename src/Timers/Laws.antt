-- ===== src/Timers/Laws.antt =====
-- What holds of timers whose handles differ.
use native.Mathlib.Decide.{ℕ_discrete}
use inboxone.Common.{
  ℕ, ◌+◌, ◌≤◌, ◌<◌, ◌≡◌, refl, sym, ◌∙◌, ◌≢◌, ◌⊎◌, inl, inr, Bool, not, Option, none, some, List,
  [], ◌∷◌, ◌++◌, arith, ◌==◌, ==_refl, filter, All, All-filter,
}
use inboxone.Timers.{
  Timer, Timers, set_timeout, clear_timeout, find_timer, earlier, earliest, due_only, next_due,
}

module _ {C : Type 0} where
  -- the handles lie below `next` and differ
  abbrev pub AreHandled : ℕ → List (Timer C) → Type 0
  AreHandled next [] = Unit
  AreHandled next (t ∷ ts) =
      (t.handle < next) × All (λ u. u.handle ≢ t.handle) ts × AreHandled next ts

  find_timer-filter :
      (h k : ℕ) (ts : List (Timer C))
      → h ≢ k
      → find_timer h (filter (λ t. not (t.handle == k)) ts) ≡ find_timer h ts
  find_timer-filter h k [] e = refl
  find_timer-filter h k (t ∷ ts) e = ground (arith, find_timer-filter h k ts e)

  pub find_timer-append :
      (h : ℕ) (ts us : List (Timer C)) (t : Timer C)
      → find_timer h ts ≡ some t
      → find_timer h (ts ++ us) ≡ some t
  find_timer-append h [] us t e = cc
  find_timer-append h (u ∷ ts) us t e = ground (arith, find_timer-append h ts us t)

  pub find_timer_below :
      (next : ℕ) (ts : List (Timer C))
      → AreHandled next ts
      → (h : ℕ) → next ≤ h
      → find_timer h ts ≡ none
  find_timer_below next [] v h le = refl
  find_timer_below next (t ∷ ts) v h le = ground (arith, find_timer_below next ts v.2 h le)

  find_timer_last :
      (h : ℕ) (ts : List (Timer C)) (t : Timer C)
      → find_timer h ts ≡ none
      → t.handle ≡ h
      → find_timer h (ts ++ t ∷ []) ≡ some t
  find_timer_last h [] t e p = ground arith
  find_timer_last h (u ∷ ts) t e p = ground (arith, find_timer_last h ts t)

  find_timer_other :
      (h : ℕ) (ts : List (Timer C)) (t u : Timer C)
      → find_timer h (ts ++ t ∷ []) ≡ some u
      → t.handle ≢ h
      → find_timer h ts ≡ some u
  find_timer_other h [] t u e p = ground arith
  find_timer_other h (v ∷ ts) t u e p = ground (arith, find_timer_other h ts t u)

  earliest-le :
      (h : ℕ) (ts : List (Timer C)) (t u : Timer C)
      → earliest ts ≡ some t
      → find_timer h ts ≡ some u
      → t.due ≤ u.due
  unfolding earliest
  earliest-le h [] t u e f = cc
  earliest-le h (v ∷ []) t u e f = ground arith
  earliest-le h (v ∷ w ∷ ts) t u e f =
      ground (arith, earliest-le h (w ∷ ts) (earlier w (earliest ts)) u refl)

  find_timer_of_ne :
      (ts : List (Timer C)) (t u : Timer C)
      → All (λ w. w.handle ≢ t.handle) ts
      → find_timer u.handle ts ≡ some u
      → u.handle ≢ t.handle
  find_timer_of_ne [] t u d e = cc
  find_timer_of_ne (w ∷ ts) t u d e = ground (arith, find_timer_of_ne ts t u d.1)

  earliest-find :
      (next : ℕ) (ts : List (Timer C)) (t : Timer C)
      → AreHandled next ts
      → earliest ts ≡ some t
      → find_timer t.handle ts ≡ some t
  unfolding earliest
  earliest-find next [] t v e = cc
  earliest-find next (u ∷ []) t v e = ground (arith, ==_refl u.handle)
  earliest-find next (u ∷ w ∷ ts) t v e =
      let first = earlier w (earliest ts) in
      let ih = earliest-find next (w ∷ ts) first v.2 refl in
      ground (arith, ih, find_timer_of_ne (w ∷ ts) u first v.1, ==_refl u.handle)

  AreHandled-filter :
      (next : ℕ) (p : Timer C → Bool) (ts : List (Timer C))
      → AreHandled next ts
      → AreHandled next (filter p ts)
  AreHandled-filter next p [] v = tt
  AreHandled-filter next p (t ∷ ts) v =
      ground
        (arith, All-filter (λ u. u.handle ≢ t.handle) p ts v.1, AreHandled-filter next p ts v.2)

  All-ne-concat :
      (k : ℕ) (ts : List (Timer C)) (t : Timer C)
      → All (λ u. u.handle ≢ k) ts
      → t.handle ≢ k
      → All (λ u. u.handle ≢ k) (ts ++ t ∷ [])
  All-ne-concat k [] t d p = (p, tt)
  All-ne-concat k (u ∷ ts) t d p = (d.0, All-ne-concat k ts t d.1 p)

  AreHandled-concat :
      (next : ℕ) (ts : List (Timer C)) (t : Timer C)
      → AreHandled next ts
      → t.handle ≡ next
      → AreHandled (next + 1) (ts ++ t ∷ [])
  AreHandled-concat next [] t v e = (omega arith, tt, tt)
  AreHandled-concat next (u ∷ ts) t v e = (
    omega arith,
    All-ne-concat u.handle ts t v.1 (omega arith),
    AreHandled-concat next ts t v.2 e,
  )

  abbrev pub IsHandled : Timers C → Type 0
  IsHandled s = AreHandled s.next_handle s.active

  pub set_timeout-IsHandled :
      (c : C) (d : ℕ) (s : Timers C) → IsHandled s → IsHandled (set_timeout c d s).1
  unfolding set_timeout
  set_timeout-IsHandled c d s v = AreHandled-concat s.next_handle s.active _ v refl

  pub clear_timeout-IsHandled : (h : ℕ) (s : Timers C) → IsHandled s → IsHandled (clear_timeout h s)
  unfolding clear_timeout
  clear_timeout-IsHandled h s v = AreHandled-filter s.next_handle _ s.active v

  pub find_timer-set_timeout :
      (c : C) (d : ℕ) (s : Timers C)
      → IsHandled s
      → find_timer s.next_handle (set_timeout c d s).1.active
        ≡ some (record { handle = s.next_handle; due = s.now + d; callback = c })
  unfolding set_timeout
  find_timer-set_timeout c d s v =
      find_timer_last s.next_handle s.active _
        (find_timer_below s.next_handle s.active v s.next_handle (omega arith)) refl

  pub find_timer-set_timeout_old :
      (c : C) (d h : ℕ) (s : Timers C) (t : Timer C)
      → find_timer h s.active ≡ some t
      → find_timer h (set_timeout c d s).1.active ≡ some t
  unfolding set_timeout
  find_timer-set_timeout_old c d h s t e = find_timer-append h s.active _ t e

  pub find_timer-set_timeout_inv :
      (c : C) (d h : ℕ) (s : Timers C) (t : Timer C)
      → h ≢ s.next_handle
      → find_timer h (set_timeout c d s).1.active ≡ some t
      → find_timer h s.active ≡ some t
  unfolding set_timeout
  find_timer-set_timeout_inv c d h s t e f = find_timer_other h s.active _ t f (λ p. e (sym p))

  pub find_timer-clear_timeout :
      (h k : ℕ) (s : Timers C)
      → h ≢ k
      → find_timer h (clear_timeout k s).active ≡ find_timer h s.active
  unfolding clear_timeout
  find_timer-clear_timeout h k s e = find_timer-filter h k s.active e

  find_timer-filter_self :
      (h : ℕ) (ts : List (Timer C)) → find_timer h (filter (λ t. not (t.handle == h)) ts) ≡ none
  find_timer-filter_self h [] = refl
  find_timer-filter_self h (t ∷ ts) = ground (arith, find_timer-filter_self h ts)

  pub find_timer-clear_timeout_self :
      (h : ℕ) (s : Timers C) → find_timer h (clear_timeout h s).active ≡ none
  unfolding clear_timeout
  find_timer-clear_timeout_self h s = find_timer-filter_self h s.active

  due_only_lem :
      (now : ℕ) (o : Option (Timer C)) (t : Timer C)
      → due_only now o ≡ some t
      → (o ≡ some t) × (t.due ≤ now)
  unfolding due_only
  due_only_lem now none t e = cc
  due_only_lem now (some u) t e = ground arith

  -- The timer that runs next is one that is set, its time has come, and no other is due earlier.
  pub next_due_lem :
      (s : Timers C) (t : Timer C)
      → IsHandled s
      → next_due s ≡ some t
      → (find_timer t.handle s.active ≡ some t)
        × (t.due ≤ s.now)
        × ((h : ℕ) (u : Timer C) → find_timer h s.active ≡ some u → t.due ≤ u.due)
  unfolding next_due
  next_due_lem s t v e =
      let (found, come) = due_only_lem s.now (earliest s.active) t e in
      (
        earliest-find s.next_handle s.active t v found,
        come,
        λ h u. earliest-le h s.active t u found,
      )

  set_timeout_last :
      (h : ℕ) (ts : List (Timer C)) (u t : Timer C)
      → find_timer h ts ≡ none
      → find_timer h (ts ++ u ∷ []) ≡ some t
      → u ≡ t
  set_timeout_last h [] u t e f = ground arith
  set_timeout_last h (v ∷ ts) u t e f = ground (arith, set_timeout_last h ts u t)

  -- A timer that is found after another one is set is the new one, or was set before.
  pub set_timeout_cases :
      (c : C) (d h : ℕ) (s : Timers C) (t : Timer C)
      → IsHandled s
      → find_timer h (set_timeout c d s).1.active ≡ some t
      → ((h ≡ s.next_handle) × (t.callback ≡ c)) ⊎ (find_timer h s.active ≡ some t)
  unfolding set_timeout
  set_timeout_cases c d h s t v e = elim (ℕ_discrete h s.next_handle) [
    | yes new ↦
        let absent = find_timer_below s.next_handle s.active v h (omega arith) in
        inl (new, cc (set_timeout_last h s.active _ t absent e))
    | no old ↦ inr (find_timer-set_timeout_inv c d h s t old e)
  ]

  -- The timer that is taken to run is no longer found, and the others are.
  pub clear_timeout_inv :
      (h k : ℕ) (s : Timers C) (t : Timer C)
      → find_timer h (clear_timeout k s).active ≡ some t
      → (h ≢ k) × (find_timer h s.active ≡ some t)
  clear_timeout_inv h k s t e = elim (ℕ_discrete h k) [
    | yes same ↦
        let gone : find_timer h (clear_timeout k s).active ≡ none =
          rw same (find_timer-clear_timeout_self k s) in
        cc
    | no other ↦ (other, sym (find_timer-clear_timeout h k s other) ∙ e)
  ]
