-- ===== src/Timers/Due.antt =====
-- When a timer is due, and when there is none.
use inboxone.Common.{
  ℕ, ◌≤◌, ◌≡◌, refl, Option, none, some, List, [], ◌∷◌, arith, leb, if◌then◌else◌, ==_refl, All,
}
use inboxone.Timers.{Timer, Timers, clear_timeout, earlier, earliest, due_only, next_due}

module _ {C : Type 0} where
  pub next_due-nil : (t : Timers C) → t.active ≡ [] → next_due t ≡ none
  unfolding next_due earliest
  next_due-nil t h = rw h

  pub next_due-one :
      (t : Timers C) (u : Timer C)
      → t.active ≡ u ∷ []
      → next_due t ≡ (if leb u.due t.now then some u else none)
  unfolding next_due earliest
  next_due-one t u h = rw h

  pub clear_timeout-nil : (h : ℕ) (t : Timers C) → t.active ≡ [] → (clear_timeout h t).active ≡ []
  unfolding clear_timeout
  clear_timeout-nil h t e = rw e

  pub clear_timeout-one :
      (t : Timers C) (u : Timer C) → t.active ≡ u ∷ [] → (clear_timeout u.handle t).active ≡ []
  unfolding clear_timeout
  clear_timeout-one t u e = rw e (ground (arith, ==_refl u.handle))

  earlier-due :
      (now : ℕ) (t : Timer C) (o : Option (Timer C)) → t.due ≤ now → (earlier t o).due ≤ now
  earlier-due now t none h = h
  earlier-due now t (some u) h = ground (arith, h)

  due_only-some : (now : ℕ) (t : Timer C) → t.due ≤ now → due_only now (some t) ≡ some t
  unfolding due_only
  due_only-some now t h = ground (arith, h)

  earliest-none :
      (now : ℕ) (ts : List (Timer C))
      → All (λ u. u.due ≤ now) ts
      → due_only now (earliest ts) ≡ none
      → ts ≡ []
  unfolding earliest
  earliest-none now [] h e = refl
  earliest-none now (u ∷ ts) h e =
      let first =
        due_only-some now (earlier u (earliest ts)) (earlier-due now u (earliest ts) h.0) in
      cc

  -- If all timers are due and none is to run, then there is none.
  pub next_due-none :
      (t : Timers C) → All (λ u. u.due ≤ t.now) t.active → next_due t ≡ none → t.active ≡ []
  unfolding next_due
  next_due-none t h e = earliest-none t.now t.active h e
