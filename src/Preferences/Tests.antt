-- ===== src/Preferences/Tests.antt =====
-- The settings that the browser keeps, on concrete runs (frontend/src/store/themeStore.ts and its
-- neighbours).
use inboxone.Common.{◌≡◌, refl, arith, true, false, none, some, [], ◌∷◌}
use inboxone.Preferences.{
  dark, auto, ThemeStore, get_stored_preference, set_preference, is_dark, apply_theme,
  system_changes, system, theme_step, denied, default, granted, Notices, get_stored_enabled,
  set_enabled, click_toggle, Pwa, start_install, finish_install, before_install, app_installed,
  press_install, choose, offer, pwa_step,
}
use inboxone.Preferences.Theme.{theme_run}
use inboxone.Preferences.Toggle.{IsAllowed, clicks}
use inboxone.Preferences.Install.{pwa_run}

abbrev fresh : ThemeStore
fresh = record { preference = auto; stored = none; system_dark = false; document_dark = false }

-- an unknown entry counts as following the system, which may change under a page that follows it
follows_system :
    (get_stored_preference (some "sepia") ≡ auto)
    × ((theme_run (system true ∷ []) (set_preference auto fresh)).document_dark ≡ true)
    × ((theme_run (system false ∷ []) (set_preference dark fresh)).document_dark ≡ true)
unfolding get_stored_preference set_preference is_dark apply_theme system_changes theme_step
follows_system = (refl, refl, refl)

abbrev silent : Notices
silent = record { enabled = false; stored = none; permission = default }

silent-IsAllowed : IsAllowed silent
unfolding get_stored_enabled
silent-IsAllowed = record { allowed = λ e. ground arith; kept = refl }

-- refused once, the button does nothing more
asked :
    ((clicks (granted ∷ []) silent).enabled ≡ true)
    × ((clicks (denied ∷ granted ∷ []) silent).enabled ≡ false)
unfolding click_toggle set_enabled
asked = (refl, refl)

abbrev in_browser : Pwa
in_browser = record { install_prompt = none; installed = false; shown = [] }

abbrev in_window : Pwa
in_window = record { install_prompt = some 7; installed = true; shown = 3 ∷ [] }

-- pressed twice, the button shows the prompt once
pressed_twice :
    (pwa_run (offer true 5 ∷ press_install ∷ press_install ∷ choose true ∷ []) in_browser).shown
    ≡ 5 ∷ []
unfolding pwa_step start_install finish_install before_install app_installed
pressed_twice = refl
