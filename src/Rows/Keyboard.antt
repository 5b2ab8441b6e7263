-- ===== src/Rows/Keyboard.antt =====
-- The keyboard in the list of messages (frontend/src/components/MessageList.tsx).
use inboxone.Common.{
  ℕ, zero, suc, ◌+◌, ◌-◌, ◌≤◌, ◌<◌, min, ◌≡◌, refl, ap, ◌∙◌, List, [], ◌∷◌, arith,
}
use inboxone.Rows.{
  Focus, elsewhere, on_button, button_count, open_button, Key, arrow_down, arrow_up, home, end_key,
  arrow_right, arrow_left, other_key, row_of, next_row, focus_row, next_button, focus_button,
  key_down,
}

-- the focus is outside, or on a button that there is
abbrev pub IsWithin : ℕ → Focus → Type 0
IsWithin count elsewhere = Unit
IsWithin count (on_button row button) = (row < count) × (button < button_count)

-- the keys are pressed one after the other
abbrev pub presses : List Key → ℕ → Focus → Focus
presses [] count focus = focus
presses (k ∷ ks) count focus = presses ks count (key_down k count focus)

key_down-IsWithin :
    (k : Key) (count : ℕ) (focus : Focus)
    → IsWithin count focus
    → IsWithin count (key_down k count focus)
unfolding key_down focus_row next_row row_of focus_button next_button
key_down-IsWithin arrow_down zero f h = h
key_down-IsWithin arrow_up zero f h = h
key_down-IsWithin home zero f h = h
key_down-IsWithin end_key zero f h = h
key_down-IsWithin arrow_down (suc n) elsewhere h = (omega arith, omega arith)
key_down-IsWithin arrow_down (suc n) (on_button r b) h = (omega arith, omega arith)
key_down-IsWithin arrow_up (suc n) elsewhere h = (omega arith, omega arith)
key_down-IsWithin arrow_up (suc n) (on_button r b) (h, k) = (omega arith, omega arith)
key_down-IsWithin home (suc n) f h = (omega arith, omega arith)
key_down-IsWithin end_key (suc n) f h = (omega arith, omega arith)
key_down-IsWithin arrow_right count elsewhere h = tt
key_down-IsWithin arrow_right count (on_button r b) (h, k) = (h, omega arith)
key_down-IsWithin arrow_left count elsewhere h = tt
key_down-IsWithin arrow_left count (on_button r b) (h, k) = (h, omega arith)
key_down-IsWithin other_key count f h = h

-- Whatever keys are pressed, the focus is on a button of a row that there is: no index leaves the list or
-- the row.
pub presses-IsWithin :
    (ks : List Key) (count : ℕ) (focus : Focus)
    → IsWithin count focus
    → IsWithin count (presses ks count focus)
presses-IsWithin [] count focus h = h
presses-IsWithin (k ∷ ks) count focus h =
    presses-IsWithin ks count (key_down k count focus) (key_down-IsWithin k count focus h)

-- the same key, some times
abbrev pub times : ℕ → Key → List Key
times zero k = []
times (suc n) k = k ∷ times n k

presses-down :
    (d n row button : ℕ)
    → row ≤ n
    → presses (times (suc d) arrow_down) (suc n) (on_button row button)
      ≡ on_button (min (row + suc d) n) open_button
unfolding key_down focus_row next_row row_of
presses-down zero n row button h = ap (λ r. on_button r open_button) (omega arith)
presses-down (suc d) n row button h =
    ap (λ r. presses (times (suc d) arrow_down) (suc n) (on_button r open_button))
      (let e : min (row + 1) (suc n - 1) ≡ min (row + 1) n = omega arith in e)
    ∙ presses-down d n (min (row + 1) n) open_button (omega arith)
    ∙ ap (λ r. on_button r open_button) (omega arith)

presses-up :
    (d n row button : ℕ)
    → presses (times (suc d) arrow_up) (suc n) (on_button row button)
      ≡ on_button (row - suc d) open_button
unfolding key_down focus_row next_row row_of
presses-up zero n row button = refl
presses-up (suc d) n row button =
    presses-up d n (row - 1) open_button ∙ ap (λ r. on_button r open_button) (omega arith)

-- From any row, so many presses of a vertical arrow move the focus so many rows, and stop at the last and
-- at the first: from the first row, all rows are reached, and Home and End are what enough presses do.
pub presses-times :
    (d n row button : ℕ)
    → row ≤ n
    → let from = on_button row button in
      (presses (times (suc d) arrow_down) (suc n) from
        ≡ on_button (min (row + suc d) n) open_button)
      × (presses (times (suc d) arrow_up) (suc n) from ≡ on_button (row - suc d) open_button)
      × (presses (times (suc n) arrow_down) (suc n) from ≡ key_down end_key (suc n) from)
      × (presses (times (suc n) arrow_up) (suc n) from ≡ key_down home (suc n) from)
presses-times d n row button h = (
  presses-down d n row button h,
  presses-up d n row button,
  presses-down n n row button h
      ∙ unfold key_down focus_row next_row in ap (λ r. on_button r open_button) (omega arith),
  presses-up n n row button
      ∙ unfold key_down focus_row next_row in ap (λ r. on_button r open_button) (omega arith),
)
