-- ===== src/Toasts.antt =====
-- frontend/src/store/toastStore.ts and the clicks of frontend/src/components/Toaster.tsx. `A` is the
-- type of what the action of a toast does, `C` that of what a timer runs.
use inboxone.Common.{
  ℕ, ◌+◌, String, Bool, not, Option, List, [], ◌∷◌, ◌++◌, ◌==◌, or_else, filled?, is_some, ◌&&◌,
  filter,
}
use inboxone.Timers.{Timers, set_timeout}

pub record Toast (A : Type 0) : Type 0 where
  pub id : ℕ
  pub message : String
  pub action_label : Option String
  pub on_action : Option A
  pub duration : ℕ

-- the argument of `show`
pub record ToastOptions (A : Type 0) : Type 0 where
  pub message : String
  pub action_label : Option String
  pub on_action : Option A
  pub duration : Option ℕ

-- The store, and the module's counter.
pub record ToastStore (A : Type 0) : Type 0 where
  pub toasts : List (Toast A)
  pub next_id : ℕ

module _ {A : Type 0} where
  abbrev pub no_toasts : ToastStore A
  no_toasts = record { toasts = []; next_id = 1 }

  abbrev toast_of : ToastOptions A → ℕ → Toast A
  toast_of opts id = record {
    id = id;
    message = opts.message;
    action_label = opts.action_label;
    on_action = opts.on_action;
    duration = or_else opts.duration 5000;
  }

  -- `dismiss`, which is also what the timer of a toast does
  unfoldable pub dismiss : ℕ → ToastStore A → ToastStore A
  dismiss id s = record s { toasts = filter (λ t. not (t.id == id)) s.toasts }

  -- the button with the action is on display
  abbrev pub has_button : Toast A → Bool
  has_button t = filled? t.action_label && is_some t.on_action

  -- `show`; `expire` makes the callback that dismisses the toast again
  unfoldable pub show :
      {C : Type 0} → (ℕ → C) → ToastOptions A → ToastStore A → Timers C → ToastStore A × Timers C
  show expire opts s timers = (
    record s { toasts = s.toasts ++ toast_of opts s.next_id ∷ []; next_id = s.next_id + 1 },
    (set_timeout (expire s.next_id) (or_else opts.duration 5000) timers).1,
  )
