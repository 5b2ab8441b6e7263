-- ===== src/Settings/Interval.antt =====
-- What is saved of the interval, and what is shown of it then
-- (frontend/src/components/RefreshSettings.tsx).
use inboxone.Common.{
  ◌≡◌, ◌≤◌, refl, sym, ap, ◌∙◌, arith, ℕ, ◌*◌, ◌/◌, ◌%◌, String, Bool, true, false, ◌&&◌, Option,
  none, some, List, [], ◌∷◌, filled, is_some, if◌then◌else◌, Bool-cases, inl, inr, All,
}
use text.Mathlib.TextLemmas.{append-nil}
use inboxone.Common.Decimal.{show, StartsDigit-show}
use inboxone.Common.Numeral.{to_natural, to_natural-show}
use inboxone.Settings.{
  idle, saving, RefreshForm, minutes_text, value, value_of, in_range, valid, is_saving,
  field_disabled, button_disabled, mutate, on_submit, press_save, save_answered, save_ends,
  load_ends, type_minutes, Event, types, submits, saves, loads, step, run,
}

-- a whole number of minutes, from one minute to a day
abbrev pub IsInterval : ℕ → Type 0
IsInterval seconds = (seconds % 60 ≡ 0) × (60 ≤ seconds) × (seconds ≤ 86400)

mutate-All :
    (n : Option ℕ) (s : RefreshForm)
    → in_range n ≡ true
    → All IsInterval s.sent
    → All IsInterval (mutate n s).sent
unfolding mutate in_range
mutate-All none s h k = k
mutate-All (some n) s h k = ((ground arith, ground arith, ground arith), k)

submit-All :
    (show_fraction : ℕ → String) (s : RefreshForm)
    → All IsInterval s.sent
    → All IsInterval (on_submit show_fraction s).sent
unfolding on_submit valid
submit-All show_fraction s k =
    let text = value show_fraction s in
    elim (Bool-cases (filled text && in_range (to_natural text))) [
      | inl good ↦ rw good (mutate-All (to_natural text) s (ground arith) k)
      | inr bad ↦ rw bad k
    ]

if-All :
    (b : Bool) (s t : RefreshForm)
    → All IsInterval s.sent
    → All IsInterval t.sent
    → All IsInterval (if b then s else t).sent
if-All true s t h k = h
if-All false s t h k = k

save_answered-All :
    (answer : Option ℕ) (s : RefreshForm)
    → All IsInterval s.sent
    → All IsInterval (save_answered answer s).sent
unfolding save_answered
save_answered-All none s k = k
save_answered-All (some n) s k = k

module _ (show_fraction : ℕ → String) where
  step-All :
      (e : Event) (s : RefreshForm)
      → All IsInterval s.sent
      → All IsInterval (step show_fraction e s).sent
  unfolding step press_save type_minutes save_ends load_ends
  step-All (types text) s k = if-All _ s (record s { minutes = some text; save = idle }) k k
  step-All submits s k = if-All _ s (on_submit show_fraction s) k (submit-All show_fraction s k)
  step-All (saves answer) s k = if-All _ (save_answered answer s) s (save_answered-All answer s k) k
  step-All (loads none) s k = k
  step-All (loads (some n)) s k = k

  -- Whatever is typed and pressed, and whatever the server answers: every interval that it is asked to save is
  -- a whole number of minutes, from one minute to a day.
  pub run-All :
      (es : List Event) (s : RefreshForm)
      → All IsInterval s.sent
      → All IsInterval (run show_fraction es s).sent
  unfolding run
  run-All [] s k = k
  run-All (e ∷ es) s k = run-All es (step show_fraction e s) (step-All e s k)

filled-show : (n : ℕ) → filled (show n) ≡ true
filled-show n =
    let (c, t, e, d) = StartsDigit-show n "" in ap filled (sym (append-nil (show n)) ∙ e)

valid-show : (n : ℕ) → 1 ≤ n → n ≤ 1440 → valid (show n) ≡ true
unfolding valid in_range
valid-show n h k = rw (filled-show n, to_natural-show n) (ground arith)

minutes_text-times :
    (show_fraction : ℕ → String) (n : ℕ) → minutes_text show_fraction (n * 60) ≡ show n
unfolding minutes_text
minutes_text-times show_fraction n =
    let whole : n * 60 % 60 ≡ 0 = omega arith in
    let minutes : n * 60 / 60 ≡ n = omega arith in rw (whole, minutes)

type_minutes_lem :
    (text : String) (s : RefreshForm)
    → s.load_failed ≡ false
    → field_disabled s ≡ false
    → type_minutes text s ≡ record s { minutes = some text; save = idle }
unfolding type_minutes
type_minutes_lem text s h k = simp (h, k)

field_loaded : (s : RefreshForm) → field_disabled s ≡ false → is_some s.settings ≡ true
unfolding field_disabled
field_loaded s h = ground arith

press_save_lem :
    (show_fraction : ℕ → String) (n : ℕ) (s : RefreshForm)
    → 1 ≤ n
    → n ≤ 1440
    → s.load_failed ≡ false
    → is_some s.settings ≡ true
    → press_save show_fraction (record s { minutes = some (show n); save = idle })
      ≡ record s { minutes = some (show n); save = saving; sent = n * 60 ∷ s.sent }
unfolding press_save on_submit button_disabled value mutate value_of is_saving
press_save_lem show_fraction n s h k fine loaded =
    simp (fine, loaded, valid-show n h k, to_natural-show n)

-- A number of minutes from 1 to 1440 that is typed into a field that can be typed into, and saved: the server is
-- asked once, for as many seconds. While it is asked, and if it refuses, the field shows what was typed; if it
-- answers with what it was asked for, the field shows the same number, now from the settings.
pub press_save-show :
    (show_fraction : ℕ → String) (n : ℕ) (s : RefreshForm)
    → 1 ≤ n
    → n ≤ 1440
    → s.load_failed ≡ false
    → field_disabled s ≡ false
    → let t = press_save show_fraction (type_minutes (show n) s) in
      (t.sent ≡ n * 60 ∷ s.sent)
      × (value show_fraction t ≡ show n)
      × (value show_fraction (save_ends none t) ≡ show n)
      × (value show_fraction (save_ends (some (n * 60)) t) ≡ show n)
      × ((save_ends (some (n * 60)) t).settings ≡ some (n * 60))
unfolding value value_of save_ends save_answered is_saving
press_save-show show_fraction n s h k fine ready =
    rw
      (
        type_minutes_lem (show n) s fine ready,
        press_save_lem show_fraction n s h k fine (field_loaded s ready),
      )
      (refl, refl, refl, minutes_text-times show_fraction n, refl)
