-- ===== src/Preferences/Buttons.antt =====
-- The buttons of the settings: frontend/src/components/ThemeToggle.tsx, NotificationToggle.tsx and
-- InstallAppButton.tsx in the same folder.
use inboxone.Common.{
  ◌≡◌, refl, ℕ, String, Bool, true, false, not, ◌&&◌, Option, none, some, List, [], ◌∷◌, ◌++◌,
  is_some, filter, map, if◌then◌else◌, Bool-cases, inl, inr,
}
use inboxone.Preferences.{
  ThemePreference, light, dark, auto, ThemeStore, get_stored_preference, set_preference, Permission,
  denied, default, granted, Notices, set_enabled, enable_if, click_off, click_with, is_denied,
  click_toggle, Pwa, show_prompt, start_install, finish_install,
}

-- `preference === opt.value`
is_preference : ThemePreference → ThemePreference → Bool
is_preference light light = true
is_preference dark dark = true
is_preference auto auto = true
is_preference _ _ = false

pub record ThemeButton : Type 0 where
  pub label : String
  pub value : ThemePreference
  pub pressed : Bool

option_label : ThemePreference → String
option_label light = "Light"
option_label dark = "Dark"
option_label auto = "Match system"

abbrev pub options : List ThemePreference
options = light ∷ dark ∷ auto ∷ []

unfoldable pub theme_buttons : ThemePreference → List ThemeButton
unfolding is_preference option_label
theme_buttons preference =
    map
      (λ value. record {
        label = option_label value;
        value = value;
        pressed = is_preference preference value;
      })
      options

-- The option that is chosen is the one button that is pressed, at once and when the program is opened again.
pub theme_buttons-pressed :
    (value : ThemePreference) (s : ThemeStore)
    → let t = set_preference value s in
      (map (λ (b : ThemeButton). b.value) (filter (λ b. b.pressed) (theme_buttons t.preference))
        ≡ value ∷ [])
      × (theme_buttons (get_stored_preference t.stored) ≡ theme_buttons t.preference)
unfolding theme_buttons set_preference get_stored_preference
theme_buttons-pressed light s = (refl, refl)
theme_buttons-pressed dark s = (refl, refl)
theme_buttons-pressed auto s = (refl, refl)

-- The button of the notifications; `supported` is whether the browser has them here.
pub record NoticeButton : Type 0 where
  pub disabled : Bool
  pub label : String
  pub pressed : Bool

unsupported_button : NoticeButton
unsupported_button = record {
  disabled = true;
  label = "Notifications unavailable - needs a secure context (HTTPS or localhost)";
  pressed = false;
}

blocked_button : NoticeButton
blocked_button = record {
  disabled = true;
  label = "Notifications blocked - check your browser's site settings";
  pressed = false;
}

unfoldable pub notice_button : Bool → Notices → NoticeButton
unfolding unsupported_button blocked_button is_denied
notice_button supported s =
    if not supported
    then unsupported_button
    else if is_denied s.permission
    then blocked_button
    else record {
      disabled = false;
      label =
          if s.enabled then "Turn off new-mail notifications" else "Turn on new-mail notifications";
      pressed = s.enabled;
    }

unfoldable pub press_notices : Bool → Permission → Notices → Notices
press_notices supported answer s =
    if (notice_button supported s).disabled then s else click_toggle answer s

-- The button that installs the program is there while the browser has a prompt for it.
unfoldable pub install_button : Pwa → Bool
install_button s = is_some s.install_prompt && not s.installed

-- how the prompt ends, and the toast of one that could not be shown
pub data PromptEnd : Type 0 where
  fails : PromptEnd
  chosen : Bool → PromptEnd

unfoldable pub end_install : PromptEnd → Pwa → Option String × Pwa
unfolding finish_install
end_install fails s =
    (some "Installation could not start. Try installing InboxOne from your browser's menu.", s)
end_install (chosen accepted) s = (none, finish_install accepted s)

abbrev pub has_grant : Permission → Bool
has_grant granted = true
has_grant _ = false

enable_if-enabled :
    (answer : Permission) (s : Notices)
    → s.enabled ≡ false
    → s.permission ≡ answer
    → (enable_if answer s).enabled ≡ has_grant (enable_if answer s).permission
unfolding enable_if set_enabled
enable_if-enabled granted s off e = rw e refl
enable_if-enabled default s off e = rw (off, e) refl
enable_if-enabled denied s off e = rw (off, e) refl

click_off-enabled :
    (p answer : Permission) (s : Notices)
    → s.permission ≡ p
    → s.enabled ≡ false
    → is_denied p ≡ false
    → (click_off p answer s).enabled ≡ has_grant (click_off p answer s).permission
unfolding click_off is_denied set_enabled
click_off-enabled granted answer s e off usable = rw e refl
click_off-enabled default answer s e off usable =
    enable_if-enabled answer (record s { permission = answer }) off refl
click_off-enabled denied answer s e off usable = cc

click_with-enabled :
    (b : Bool) (answer : Permission) (s : Notices)
    → s.enabled ≡ b
    → is_denied s.permission ≡ false
    → let t = click_with b answer s in t.enabled ≡ (if b then false else has_grant t.permission)
unfolding click_with set_enabled
click_with-enabled true answer s e usable = refl
click_with-enabled false answer s e usable = click_off-enabled s.permission answer s refl e usable

-- A press of the button that can be pressed turns the notifications off, or on if the browser grants them, before
-- or when it asks.
pub press_notices-enabled :
    (supported : Bool) (answer : Permission) (s : Notices)
    → (notice_button supported s).disabled ≡ false
    → let t = press_notices supported answer s in
      t.enabled ≡ (if s.enabled then false else has_grant t.permission)
unfolding press_notices click_toggle notice_button
press_notices-enabled false answer s usable = cc
press_notices-enabled true answer s usable = elim (Bool-cases (is_denied s.permission)) [
  | inl blocked ↦ cc (usable, blocked)
  | inr free ↦ simp free (click_with-enabled s.enabled answer s refl free)
]

-- A prompt to install is shown once: with the first press the button goes, and a second press before it has
-- gone does nothing; it stays away until the browser offers another prompt, however the first one ends.
pub end_install-once :
    (prompt : ℕ) (end_ : PromptEnd) (s : Pwa)
    → s.install_prompt ≡ some prompt
    → s.installed ≡ false
    → let t = start_install s in
      (install_button s ≡ true)
      × (t.shown ≡ s.shown ++ prompt ∷ [])
      × (start_install t ≡ t)
      × (install_button (end_install end_ t).1 ≡ false)
      × (start_install (end_install end_ t).1 ≡ (end_install end_ t).1)
unfolding install_button start_install end_install show_prompt finish_install
end_install-once prompt fails s e k = rw (e, k) (refl, refl, refl, refl, refl)
end_install-once prompt (chosen true) s e k = rw (e, k) (refl, refl, refl, refl, refl)
end_install-once prompt (chosen false) s e k = rw (e, k) (refl, refl, refl, refl, refl)
