-- ===== src/Preferences/Toggle.antt =====
-- The notifications' setting (frontend/src/store/notificationStore.ts) and its button
-- (frontend/src/components/NotificationToggle.tsx).
use inboxone.Common.{◌≡◌, refl, arith, if◌then◌else◌, Bool, true, false, List, [], ◌∷◌}
use inboxone.Preferences.{
  Permission, denied, default, granted, Notices, get_stored_enabled, set_enabled, enable_if,
  click_off, click_with, is_denied, click_toggle,
}

-- notifications are on only with the browser's permission, and a reload finds the setting again
pub record IsAllowed (s : Notices) : Type 0 where
  pub allowed : s.enabled ≡ true → s.permission ≡ granted
  pub kept : get_stored_enabled s.stored ≡ s.enabled

abbrev pub clicks : List Permission → Notices → Notices
clicks [] s = s
clicks (answer ∷ answers) s = clicks answers (click_toggle answer s)

set_enabled-kept : (b : Bool) (s : Notices) → get_stored_enabled (set_enabled b s).stored ≡ b
unfolding get_stored_enabled set_enabled
set_enabled-kept true s = refl
set_enabled-kept false s = refl

turned_on : (s : Notices) → s.permission ≡ granted → IsAllowed (set_enabled true s)
unfolding set_enabled
turned_on s e = record { allowed = λ _. e; kept = set_enabled-kept true s }

turned_off : (s : Notices) → IsAllowed (set_enabled false s)
unfolding set_enabled
turned_off s = record { allowed = λ e. ground arith; kept = set_enabled-kept false s }

-- what is off stays allowed whatever the permission
still_off :
    (s : Notices) (p : Permission)
    → s.enabled ≡ false
    → IsAllowed s
    → IsAllowed (record s { permission = p })
still_off s p off h = record { allowed = λ e. ground arith; kept = h.kept }

enable_if-IsAllowed :
    (p : Permission) (s : Notices)
    → s.enabled ≡ false
    → IsAllowed s
    → IsAllowed (enable_if p (record s { permission = p }))
unfolding enable_if
enable_if-IsAllowed granted s off h = turned_on (record s { permission = granted }) refl
enable_if-IsAllowed default s off h = still_off s default off h
enable_if-IsAllowed denied s off h = still_off s denied off h

click_off-IsAllowed :
    (p answer : Permission) (s : Notices)
    → s.permission ≡ p
    → s.enabled ≡ false
    → IsAllowed s
    → IsAllowed (click_off p answer s)
unfolding click_off
click_off-IsAllowed granted answer s e off h = turned_on s e
click_off-IsAllowed denied answer s e off h = h
click_off-IsAllowed default answer s e off h = enable_if-IsAllowed answer s off h

click_with-IsAllowed :
    (b : Bool) (answer : Permission) (s : Notices)
    → s.enabled ≡ b
    → IsAllowed s
    → IsAllowed (click_with b answer s)
unfolding click_with
click_with-IsAllowed true answer s e h = turned_off s
click_with-IsAllowed false answer s e h = click_off-IsAllowed s.permission answer s refl e h

click_toggle-IsAllowed :
    (answer : Permission) (s : Notices) → IsAllowed s → IsAllowed (click_toggle answer s)
unfolding click_toggle
click_toggle-IsAllowed answer s h =
    elim (is_denied s.permission)
      as (λ b. IsAllowed (if b then s else click_with s.enabled answer s)) [
        | true ↦ h
        | false ↦ click_with-IsAllowed s.enabled answer s refl h
      ]

-- However often the button is pressed, and whatever the user answers the browser: if at the start
-- notifications were on only with the permission, and the storage held the setting, so it is afterwards.
pub clicks-IsAllowed :
    (answers : List Permission) (s : Notices) → IsAllowed s → IsAllowed (clicks answers s)
clicks-IsAllowed [] s h = h
clicks-IsAllowed (answer ∷ answers) s h =
    clicks-IsAllowed answers (click_toggle answer s) (click_toggle-IsAllowed answer s h)
