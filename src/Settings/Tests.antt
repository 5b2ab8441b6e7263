-- ===== src/Settings/Tests.antt =====
-- The interval of the refresh on concrete runs (frontend/src/components/RefreshSettings.tsx).
use inboxone.Common.{◌≡◌, refl, arith, ℕ, String, false, none, some, List, [], ◌∷◌, All}
use inboxone.Common.Decimal.{show, is_digit}
use inboxone.Common.Numeral.{to_natural, scan_digits}
use inboxone.Settings.{
  RefreshForm, opened, minutes_text, value, valid, field_disabled, button_disabled, on_submit,
  press_save, save_ends, load_ends, type_minutes, Event, types, submits, saves, loads, step, run,
}
use inboxone.Settings.Interval.{IsInterval, run-All, press_save-show}

abbrev as_fraction : ℕ → String
as_fraction seconds = "0.5"

abbrev ready : RefreshForm
ready = record opened { settings = some 900 }

abbrev editing : List Event
editing =
    types "9"
    ∷ loads (some 900)
    ∷ types "0"
    ∷ submits
    ∷ types "1441"
    ∷ submits
    ∷ types "3e1"
    ∷ submits
    ∷ submits
    ∷ saves (some 1800)
    ∷ []

program : Unit {0}
unfolding minutes_text value valid field_disabled button_disabled on_submit press_save save_ends
    load_ends type_minutes step run to_natural scan_digits is_digit show
program = tt

edited :
    ((run as_fraction editing opened).sent ≡ 1800 ∷ [])
    × (value as_fraction (run as_fraction editing opened) ≡ "30")
    × (valid "1.5" ≡ false)
    × (valid "" ≡ false)
    × (value as_fraction (record opened { settings = some 30 }) ≡ "0.5")
unfolding program
edited = (refl, refl, refl, refl, refl)

run-All_example : All IsInterval (run as_fraction editing opened).sent
run-All_example = run-All as_fraction editing opened tt

ready_field : field_disabled ready ≡ false
unfolding field_disabled
ready_field = refl

press_save-show_example :
    let t = press_save as_fraction (type_minutes (show 30) ready) in
    (t.sent ≡ 1800 ∷ [])
    × (value as_fraction t ≡ show 30)
    × (value as_fraction (save_ends none t) ≡ show 30)
    × (value as_fraction (save_ends (some 1800) t) ≡ show 30)
    × ((save_ends (some 1800) t).settings ≡ some 1800)
press_save-show_example =
    press_save-show as_fraction 30 ready (omega arith) (omega arith) refl ready_field
