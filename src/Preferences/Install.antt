-- ===== src/Preferences/Install.antt =====
-- The installation (frontend/src/store/pwaStore.ts).
use inboxone.Common.{◌≡◌, refl, ℕ, Bool, true, false, List, [], ◌∷◌}
use inboxone.Preferences.{
  Pwa, start_install, finish_install, before_install, app_installed, PwaEvent, press_install,
  choose, offer, installs, standalone, pwa_step,
}

abbrev pub pwa_run : List PwaEvent → Pwa → Pwa
pwa_run [] s = s
pwa_run (e ∷ es) s = pwa_run es (pwa_step e s)

-- the program runs installed, and has shown these prompts
pub record IsInstalled (prompts : List ℕ) (s : Pwa) : Type 0 where
  pub is_installed : s.installed ≡ true
  pub are_shown : s.shown ≡ prompts

start_install-IsInstalled :
    {l : List ℕ} (s : Pwa) → IsInstalled l s → IsInstalled l (start_install s)
unfolding start_install
start_install-IsInstalled s h = simp h.is_installed h

finish_install-IsInstalled :
    {l : List ℕ} (accepted : Bool) (s : Pwa)
    → IsInstalled l s
    → IsInstalled l (finish_install accepted s)
unfolding finish_install
finish_install-IsInstalled true s h = record { is_installed = refl; are_shown = h.are_shown }
finish_install-IsInstalled false s h = h

before_install-IsInstalled :
    {l : List ℕ} (secure : Bool) (prompt : ℕ) (s : Pwa)
    → IsInstalled l s
    → IsInstalled l (before_install secure prompt s)
unfolding before_install
before_install-IsInstalled true prompt s h = simp h.is_installed h
before_install-IsInstalled false prompt s h = h

app_installed-IsInstalled :
    {l : List ℕ} (s : Pwa) → IsInstalled l s → IsInstalled l (app_installed s)
unfolding app_installed
app_installed-IsInstalled s h = record { is_installed = refl; are_shown = h.are_shown }

step-IsInstalled :
    {l : List ℕ} (e : PwaEvent) (s : Pwa) → IsInstalled l s → IsInstalled l (pwa_step e s)
unfolding pwa_step
step-IsInstalled press_install s h = start_install-IsInstalled s h
step-IsInstalled (choose accepted) s h = finish_install-IsInstalled accepted s h
step-IsInstalled (offer secure prompt) s h = before_install-IsInstalled secure prompt s h
step-IsInstalled installs s h = app_installed-IsInstalled s h
step-IsInstalled (standalone true) s h = app_installed-IsInstalled s h
step-IsInstalled (standalone false) s h = h

run-IsInstalled :
    {l : List ℕ} (es : List PwaEvent) (s : Pwa) → IsInstalled l s → IsInstalled l (pwa_run es s)
run-IsInstalled [] s h = h
run-IsInstalled (e ∷ es) s h = run-IsInstalled es (pwa_step e s) (step-IsInstalled e s h)

-- Once the program counts as installed, whatever the user and the browser do then: it still does, and no
-- further prompt is shown.
pub pwa_run-IsInstalled :
    (es : List PwaEvent) (s : Pwa) → s.installed ≡ true → IsInstalled s.shown (pwa_run es s)
pwa_run-IsInstalled es s e = run-IsInstalled es s record { is_installed = e; are_shown = refl }
