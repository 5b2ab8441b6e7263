-- ===== src/Settings.antt =====
-- The interval of the automatic refresh, frontend/src/components/RefreshSettings.tsx.
pub mod Interval
mod Tests
use inboxone.Common.{
  ℕ, ◌+◌, ◌*◌, ◌/◌, ◌%◌, String, Bool, true, false, not, ◌&&◌, ◌||◌, Option, none, some, List, [],
  ◌∷◌, leb, ◌==◌, filled, is_some, if◌then◌else◌,
}
use inboxone.Common.Decimal.{show}
use inboxone.Common.Numeral.{to_natural}

-- where the last request that saves stands
pub data SaveState : Type 0 where
  idle saving saved save_failed : SaveState

-- What is typed, the settings as they have been loaded or saved, in seconds, and whether loading has failed;
-- and the requests that save, in seconds, the last one first.
pub record RefreshForm : Type 0 where
  pub minutes : Option String
  pub settings : Option ℕ
  pub load_failed : Bool
  pub save : SaveState
  pub sent : List ℕ

abbrev pub opened : RefreshForm
opened = record { minutes = none; settings = none; load_failed = false; save = idle; sent = [] }

-- `String(seconds / 60)`; what it is for a fraction of a minute is `show_fraction`, of the seconds
unfoldable pub minutes_text : (ℕ → String) → ℕ → String
minutes_text show_fraction seconds =
    if seconds % 60 == 0 then show (seconds / 60) else show_fraction seconds

value_of : (ℕ → String) → Option String → Option ℕ → String
unfolding minutes_text
value_of show_fraction (some text) settings = text
value_of show_fraction none (some seconds) = minutes_text show_fraction seconds
value_of show_fraction none none = ""

-- what the field shows
unfoldable pub value : (ℕ → String) → RefreshForm → String
unfolding value_of
value show_fraction s = value_of show_fraction s.minutes s.settings

in_range : Option ℕ → Bool
in_range none = false
in_range (some n) = leb 1 n && leb n 1440

unfoldable pub valid : String → Bool
unfolding in_range
valid text = filled text && in_range (to_natural text)

is_saving : SaveState → Bool
is_saving saving = true
is_saving _ = false

-- the field and the button
unfoldable pub field_disabled : RefreshForm → Bool
unfolding is_saving
field_disabled s = not (is_some s.settings) || is_saving s.save

unfoldable pub button_disabled : (ℕ → String) → RefreshForm → Bool
unfolding is_saving
button_disabled show_fraction s =
    not (is_some s.settings) || not (valid (value show_fraction s)) || is_saving s.save

-- `save.mutate(Number(value))`
mutate : Option ℕ → RefreshForm → RefreshForm
mutate none s = s
mutate (some n) s = record s { save = saving; sent = n * 60 ∷ s.sent }

unfoldable pub on_submit : (ℕ → String) → RefreshForm → RefreshForm
unfolding mutate
on_submit show_fraction s =
    if valid (value show_fraction s) then mutate (to_natural (value show_fraction s)) s else s

-- A form is not submitted, by its button or by the enter key, while its button is disabled. While the settings
-- could not be loaded, neither the field nor the button is there.
unfoldable pub press_save : (ℕ → String) → RefreshForm → RefreshForm
press_save show_fraction s =
    if s.load_failed || button_disabled show_fraction s then s else on_submit show_fraction s

-- the answer of a request that saves, with the settings, `none` if it has failed
save_answered : Option ℕ → RefreshForm → RefreshForm
save_answered none s = record s { save = save_failed }
save_answered (some seconds) s = record s {
  save = saved;
  settings = some seconds;
  load_failed = false;
  minutes = none;
}

unfoldable pub save_ends : Option ℕ → RefreshForm → RefreshForm
unfolding save_answered is_saving
save_ends answer s = if is_saving s.save then save_answered answer s else s

-- the answer of a request that loads the settings
unfoldable pub load_ends : Option ℕ → RefreshForm → RefreshForm
load_ends none s = record s { load_failed = true }
load_ends (some seconds) s = record s { settings = some seconds; load_failed = false }

unfoldable pub type_minutes : String → RefreshForm → RefreshForm
type_minutes text s =
    if s.load_failed || field_disabled s then s else record s { minutes = some text; save = idle }

pub data Event : Type 0 where
  types : String → Event
  submits : Event
  saves loads : Option ℕ → Event

unfoldable pub step : (ℕ → String) → Event → RefreshForm → RefreshForm
step show_fraction (types text) s = type_minutes text s
step show_fraction submits s = press_save show_fraction s
step show_fraction (saves answer) s = save_ends answer s
step show_fraction (loads answer) s = load_ends answer s

unfoldable pub run : (ℕ → String) → List Event → RefreshForm → RefreshForm
run show_fraction [] s = s
run show_fraction (e ∷ es) s = run show_fraction es (step show_fraction e s)
