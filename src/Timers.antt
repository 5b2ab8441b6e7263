-- ===== src/Timers.antt =====
-- `window.setTimeout` and `window.clearTimeout`, which the stores and pages of frontend/src call. A
-- timer runs no earlier than it is due, and the timers that are due run in the order of their
-- due times. `C` is the type of what a timer runs.
pub mod Laws
pub mod Due
use inboxone.Common.{
  ℕ, ◌+◌, Bool, not, true, false, Option, none, some, List, [], ◌∷◌, ◌++◌, ltb, leb, ◌==◌,
  if◌then◌else◌, filter, find?,
}

pub record Timer (C : Type 0) : Type 0 where
  pub handle : ℕ
  pub due : ℕ
  pub callback : C

-- The time in milliseconds, the next handle, and the timers that have been set and not cleared.
pub record Timers (C : Type 0) : Type 0 where
  pub now : ℕ
  pub next_handle : ℕ
  pub active : List (Timer C)

module _ {C : Type 0} where
  unfoldable pub no_timers : Timers C
  no_timers = record { now = 0; next_handle = 1; active = [] }

  unfoldable pub set_timeout : C → ℕ → Timers C → ℕ × Timers C
  set_timeout callback delay s = (
    s.next_handle,
    record s {
      next_handle = s.next_handle + 1;
      active =
          s.active
          ++ record { handle = s.next_handle; due = s.now + delay; callback = callback } ∷ [];
    },
  )

  unfoldable pub clear_timeout : ℕ → Timers C → Timers C
  clear_timeout h s = record s { active = filter (λ t. not (t.handle == h)) s.active }

  -- the timer with this handle
  abbrev pub find_timer : ℕ → List (Timer C) → Option (Timer C)
  find_timer h = find? (λ t. t.handle == h)

  abbrev earlier : Timer C → Option (Timer C) → Timer C
  earlier t none = t
  earlier t (some u) = if ltb u.due t.due then u else t

  -- the timer that is due first
  unfoldable pub earliest : List (Timer C) → Option (Timer C)
  earliest [] = none
  earliest (t ∷ ts) = some (earlier t (earliest ts))

  due_only : ℕ → Option (Timer C) → Option (Timer C)
  due_only now none = none
  due_only now (some t) = if leb t.due now then some t else none

  -- the timer that runs next, if its time has come
  unfoldable pub next_due : Timers C → Option (Timer C)
  unfolding due_only
  next_due s = due_only s.now (earliest s.active)

  unfoldable pub advance : ℕ → Timers C → Timers C
  advance ms s = record s { now = s.now + ms }
