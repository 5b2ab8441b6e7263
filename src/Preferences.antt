-- ===== src/Preferences.antt =====
-- The settings that the browser keeps, and the installation: frontend/src/store/themeStore.ts,
-- notificationStore.ts and pwaStore.ts in the same folder, and the click of
-- frontend/src/components/NotificationToggle.tsx where notifications are supported.
pub mod Theme
pub mod Toggle
pub mod Install
pub mod Buttons
mod Tests
use inboxone.Common.{
  ℕ, String, Bool, true, false, not, ◌&&◌, ◌||◌, Option, none, some, List, [], ◌∷◌, ◌++◌, str_eq,
  if◌then◌else◌,
}

pub data ThemePreference : Type 0 where
  light dark auto : ThemePreference

-- The store, the entry of the local storage, the system's own preference, and whether the document is dark.
pub record ThemeStore : Type 0 where
  pub preference : ThemePreference
  pub stored : Option String
  pub system_dark : Bool
  pub document_dark : Bool

theme_text : ThemePreference → String
theme_text light = "light"
theme_text dark = "dark"
theme_text auto = "auto"

theme_of_text : String → ThemePreference
theme_of_text text =
    if str_eq text "light" then light else if str_eq text "dark" then dark else auto

unfoldable pub get_stored_preference : Option String → ThemePreference
unfolding theme_of_text
get_stored_preference none = auto
get_stored_preference (some text) = theme_of_text text

unfoldable pub is_dark : ThemePreference → Bool → Bool
is_dark light system_dark = false
is_dark dark system_dark = true
is_dark auto system_dark = system_dark

unfoldable pub apply_theme : ThemePreference → ThemeStore → ThemeStore
unfolding is_dark
apply_theme preference s = record s { document_dark = is_dark preference s.system_dark }

unfoldable pub set_preference : ThemePreference → ThemeStore → ThemeStore
unfolding theme_text apply_theme
set_preference preference s =
    record (apply_theme preference (record s { stored = some (theme_text preference) })) {
      preference = preference;
    }

apply_if_auto : ThemePreference → ThemeStore → ThemeStore
unfolding apply_theme
apply_if_auto auto s = apply_theme auto s
apply_if_auto _ s = s

-- the system's preference changes
unfoldable pub system_changes : Bool → ThemeStore → ThemeStore
unfolding apply_if_auto
system_changes system_dark s = apply_if_auto s.preference (record s { system_dark = system_dark })

pub data ThemeEvent : Type 0 where
  prefer : ThemePreference → ThemeEvent
  system : Bool → ThemeEvent

unfoldable pub theme_step : ThemeEvent → ThemeStore → ThemeStore
theme_step (prefer preference) s = set_preference preference s
theme_step (system system_dark) s = system_changes system_dark s

-- The notifications: the setting, its entry in the storage, and the browser's permission.
pub data Permission : Type 0 where
  denied default granted : Permission

pub record Notices : Type 0 where
  pub enabled : Bool
  pub stored : Option String
  pub permission : Permission

unfoldable pub get_stored_enabled : Option String → Bool
get_stored_enabled none = false
get_stored_enabled (some text) = str_eq text "true"

unfoldable pub set_enabled : Bool → Notices → Notices
set_enabled enabled s = record s {
  enabled = enabled;
  stored = some (if enabled then "true" else "false");
}

enable_if : Permission → Notices → Notices
unfolding set_enabled
enable_if granted s = set_enabled true s
enable_if _ s = s

-- the button is disabled where the permission has been denied; `answer` is the user's answer, if asked
click_off : Permission → Permission → Notices → Notices
unfolding set_enabled enable_if
click_off granted answer s = set_enabled true s
click_off denied answer s = s
click_off default answer s = enable_if answer (record s { permission = answer })

click_with : Bool → Permission → Notices → Notices
unfolding set_enabled click_off
click_with true answer s = set_enabled false s
click_with false answer s = click_off s.permission answer s

is_denied : Permission → Bool
is_denied denied = true
is_denied _ = false

unfoldable pub click_toggle : Permission → Notices → Notices
unfolding click_with is_denied
click_toggle answer s = if is_denied s.permission then s else click_with s.enabled answer s

-- The installation: the browser's prompt, by number, while it can be used, and the prompts that have been
-- shown.
pub record Pwa : Type 0 where
  pub install_prompt : Option ℕ
  pub installed : Bool
  pub shown : List ℕ

show_prompt : Option ℕ → Pwa → Pwa
show_prompt none s = s
show_prompt (some prompt) s = record s { install_prompt = none; shown = s.shown ++ prompt ∷ [] }

-- `install` up to its `await`, and once the user has chosen
unfoldable pub start_install : Pwa → Pwa
unfolding show_prompt
start_install s = if s.installed then s else show_prompt s.install_prompt s

unfoldable pub finish_install : Bool → Pwa → Pwa
finish_install accepted s = if accepted then record s { installed = true } else s

unfoldable pub before_install : Bool → ℕ → Pwa → Pwa
before_install secure prompt s =
    if not secure || s.installed then s else record s { install_prompt = some prompt }

unfoldable pub app_installed : Pwa → Pwa
app_installed s = record s { installed = true; install_prompt = none }

pub data PwaEvent : Type 0 where
  press_install : PwaEvent
  choose : Bool → PwaEvent
  offer : Bool → ℕ → PwaEvent
  installs : PwaEvent
  standalone : Bool → PwaEvent

unfoldable pub pwa_step : PwaEvent → Pwa → Pwa
pwa_step press_install s = start_install s
pwa_step (choose accepted) s = finish_install accepted s
pwa_step (offer secure prompt) s = before_install secure prompt s
pwa_step installs s = app_installed s
pwa_step (standalone matches) s = if matches then app_installed s else s
