-- ===== src/Preferences/Theme.antt =====
-- The theme (frontend/src/store/themeStore.ts).
use inboxone.Common.{◌≡◌, refl, sym, ap, ◌∙◌, Bool, List, [], ◌∷◌}
use inboxone.Preferences.{
  ThemePreference, light, dark, auto, ThemeStore, get_stored_preference, theme_of_text, theme_text,
  is_dark, apply_theme, set_preference, apply_if_auto, system_changes, ThemeEvent, prefer, system,
  theme_step,
}

-- the document is as the preference and the system want it, and a reload finds the preference again
pub record IsApplied (s : ThemeStore) : Type 0 where
  pub applied : s.document_dark ≡ is_dark s.preference s.system_dark
  pub kept : get_stored_preference s.stored ≡ s.preference

abbrev pub theme_run : List ThemeEvent → ThemeStore → ThemeStore
theme_run [] s = s
theme_run (e ∷ es) s = theme_run es (theme_step e s)

stored_again : (p : ThemePreference) → theme_of_text (theme_text p) ≡ p
unfolding theme_of_text theme_text
stored_again light = refl
stored_again dark = refl
stored_again auto = refl

set_preference-IsApplied : (p : ThemePreference) (s : ThemeStore) → IsApplied (set_preference p s)
unfolding set_preference apply_theme get_stored_preference
set_preference-IsApplied p s = record { applied = refl; kept = stored_again p }

same_dark : {p q : ThemePreference} → p ≡ q → (b : Bool) → is_dark p b ≡ is_dark q b
same_dark e b = ap (λ p. is_dark p b) e

apply_if_auto-IsApplied :
    (p : ThemePreference) (b : Bool) (s : ThemeStore)
    → s.preference ≡ p
    → IsApplied s
    → IsApplied (apply_if_auto p (record s { system_dark = b }))
unfolding apply_if_auto apply_theme is_dark
apply_if_auto-IsApplied light b s e h = record {
  applied = h.applied ∙ same_dark e s.system_dark ∙ sym (same_dark e b);
  kept = h.kept;
}
apply_if_auto-IsApplied dark b s e h = record {
  applied = h.applied ∙ same_dark e s.system_dark ∙ sym (same_dark e b);
  kept = h.kept;
}
apply_if_auto-IsApplied auto b s e h = record { applied = sym (same_dark e b); kept = h.kept }

step-IsApplied : (e : ThemeEvent) (s : ThemeStore) → IsApplied s → IsApplied (theme_step e s)
unfolding theme_step system_changes
step-IsApplied (prefer p) s h = set_preference-IsApplied p s
step-IsApplied (system b) s h = apply_if_auto-IsApplied s.preference b s refl h

-- Once a preference has been set, whatever the user and the system do then: the document is dark exactly if
-- that is preferred, or if the system is dark and the preference follows it, and the stored preference is
-- the one in force.
pub theme_run-IsApplied :
    (es : List ThemeEvent) (p : ThemePreference) (s : ThemeStore)
    → IsApplied (theme_run es (set_preference p s))
theme_run-IsApplied es p s = go es (set_preference p s) (set_preference-IsApplied p s)
  where
    go : (es : List ThemeEvent) (s : ThemeStore) → IsApplied s → IsApplied (theme_run es s)
    go [] s h = h
    go (e ∷ es) s h = go es (theme_step e s) (step-IsApplied e s h)
