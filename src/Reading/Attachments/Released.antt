-- ===== src/Reading/Attachments/Released.antt =====
-- The object URLs of downloaded attachments are revoked (frontend/src/components/MessageReadingPane.tsx).
use mathlib.Core.List.{map-append}
use inboxone.Common.{
  All-find, ℕ, zero, suc, ◌+◌, ◌≤◌, ◌<◌, ◌≡◌, refl, sym, ap, ◌∙◌, arith, Bool, not, Option, none,
  some, List, [], ◌∷◌, ◌++◌, ◌==◌, filter, map, All, All-filter, All-concat, Option-cases, inl, inr,
  length,
}
use inboxone.Types.{AttachmentMeta}
use inboxone.Timers.{Timer, no_timers, set_timeout, clear_timeout, next_due, advance, find_timer}
use inboxone.Timers.Laws.{IsHandled, set_timeout-IsHandled, clear_timeout-IsHandled, next_due_lem}
use inboxone.Timers.Due.{next_due-none}
use inboxone.Reading.Attachments.{
  Download, Attachments, no_attachments, click_attachment, DownloadEnd, arrives, throws,
  create_object_url, revoke_object_url, end_download, end_found, run_due, run_timer, Event, clicks,
  ends, waits, timer, step, run,
}

-- Each object URL has the timer that will revoke it, within a second; URLs and timers are numbered alike.
pub record IsReleased (s : Attachments) : Type 0 where
  pub handled : IsHandled s.timers
  pub alike : s.next_url ≡ s.timers.next_handle
  pub numbered : All (λ t. t.handle ≡ t.callback) s.timers.active
  pub urls : s.object_urls ≡ map (λ t. t.callback) s.timers.active
  pub soon : All (λ t. t.due ≤ s.timers.now + 1000) s.timers.active

map-filter_alike :
    (t : Timer ℕ) (ts : List (Timer ℕ))
    → t.handle ≡ t.callback
    → All (λ u. u.handle ≡ u.callback) ts
    → filter (λ u. not (u == t.callback)) (map (λ u. u.callback) ts)
      ≡ map (λ u. u.callback) (filter (λ u. not (u.handle == t.handle)) ts)
map-filter_alike t [] e h = refl
map-filter_alike t (u ∷ ts) e h = ground (arith, map-filter_alike t ts e h.1)

end_download-IsReleased :
    (end_ : DownloadEnd) (a : AttachmentMeta) (s : Attachments)
    → IsReleased s
    → IsReleased (end_download end_ a s)
unfolding end_download create_object_url set_timeout
end_download-IsReleased arrives a s h = record {
  handled = unfold set_timeout in set_timeout-IsHandled s.next_url 1000 s.timers h.handled;
  alike = ap (λ n. n + 1) h.alike;
  numbered = All-concat _ s.timers.active _ h.numbered (sym h.alike);
  urls =
      ap (λ us. us ++ s.next_url ∷ []) h.urls
      ∙ sym (map-append (λ (t : Timer ℕ). t.callback) s.timers.active _);
  soon = All-concat _ s.timers.active _ h.soon (omega arith);
}
end_download-IsReleased (throws text) a s h = record {
  handled = h.handled;
  alike = h.alike;
  numbered = h.numbered;
  urls = h.urls;
  soon = h.soon;
}

-- the timer that is due runs
fire-IsReleased :
    (t : Timer ℕ) (s : Attachments)
    → find_timer t.handle s.timers.active ≡ some t
    → IsReleased s
    → IsReleased (run_due (some t) s)
unfolding run_due revoke_object_url clear_timeout
fire-IsReleased t s found h =
    let own : t.handle ≡ t.callback = All-find _ _ s.timers.active t h.numbered found in
    record {
      handled = unfold clear_timeout in clear_timeout-IsHandled t.handle s.timers h.handled;
      alike = h.alike;
      numbered = All-filter _ _ s.timers.active h.numbered;
      urls =
          ap (filter (λ u. not (u == t.callback))) h.urls
          ∙ map-filter_alike t s.timers.active own h.numbered;
      soon = All-filter _ _ s.timers.active h.soon;
    }

run_due-IsReleased :
    (o : Option (Timer ℕ)) (s : Attachments)
    → next_due s.timers ≡ o
    → IsReleased s
    → IsReleased (run_due o s)
unfolding run_due
run_due-IsReleased none s e h = h
run_due-IsReleased (some t) s e h = fire-IsReleased t s (next_due_lem s.timers t h.handled e).0 h

-- a change that leaves the URLs and the timers
kept-IsReleased :
    (d : List Download) (s : Attachments) → IsReleased s → IsReleased (record s { downloads = d })
kept-IsReleased d s h = record {
  handled = h.handled;
  alike = h.alike;
  numbered = h.numbered;
  urls = h.urls;
  soon = h.soon;
}

end_found-IsReleased :
    (o : Option Download) (end_ : DownloadEnd) (s : Attachments)
    → IsReleased s
    → IsReleased (end_found o end_ s)
unfolding end_found
end_found-IsReleased none end_ s h = h
end_found-IsReleased (some d) end_ s h =
    end_download-IsReleased end_ d.attachment _ (kept-IsReleased _ s h)

All-later :
    (ms now : ℕ) (ts : List (Timer ℕ))
    → All (λ t. t.due ≤ now + 1000) ts
    → All (λ t. t.due ≤ now + ms + 1000) ts
All-later ms now [] h = tt
All-later ms now (t ∷ ts) h = (omega (arith, h.0), All-later ms now ts h.1)

step-IsReleased : (e : Event) (s : Attachments) → IsReleased s → IsReleased (step e s)
unfolding step click_attachment run_timer advance
step-IsReleased (clicks id a) s h = record {
  handled = h.handled;
  alike = h.alike;
  numbered = h.numbered;
  urls = h.urls;
  soon = h.soon;
}
step-IsReleased (ends key end_) s h = end_found-IsReleased _ end_ s h
step-IsReleased (waits ms) s h = record {
  handled = h.handled;
  alike = h.alike;
  numbered = h.numbered;
  urls = h.urls;
  soon = All-later ms s.timers.now s.timers.active h.soon;
}
step-IsReleased timer s h = run_due-IsReleased (next_due s.timers) s refl h

pub run-IsReleased : (es : List Event) (s : Attachments) → IsReleased s → IsReleased (run es s)
unfolding run
run-IsReleased [] s h = h
run-IsReleased (e ∷ es) s h = run-IsReleased es (step e s) (step-IsReleased e s h)

none-IsReleased : IsReleased no_attachments
unfolding no_attachments no_timers
none-IsReleased = record { handled = tt; alike = refl; numbered = tt; urls = refl; soon = tt }

-- the next timers that are due run, so many of them
abbrev pub drain : ℕ → Attachments → Attachments
drain zero s = s
drain (suc n) s = drain n (step timer s)

length-filter_le : {A : Type 0} (p : A → Bool) (xs : List A) → length (filter p xs) ≤ length xs
length-filter_le p [] = omega arith
length-filter_le p (x ∷ xs) = ground (arith, length-filter_le p xs)

shrinks :
    (h : ℕ) (ts : List (Timer ℕ)) (t : Timer ℕ)
    → find_timer h ts ≡ some t
    → length (filter (λ u. not (u.handle == h)) ts) < length ts
shrinks h [] t e = cc
shrinks h (u ∷ ts) t e =
    ground (arith, shrinks h ts t, length-filter_le (λ (w : Timer ℕ). not (w.handle == h)) ts)

-- all timers are due
abbrev AreDue : Attachments → Type 0
AreDue s = All (λ t. t.due ≤ s.timers.now) s.timers.active

drain-idle : (n : ℕ) (s : Attachments) → next_due s.timers ≡ none → drain n s ≡ s
unfolding step run_timer run_due
drain-idle zero s idle = refl
drain-idle (suc n) s idle = ap (λ o. drain n (run_due o s)) idle ∙ drain-idle n s idle

none_left : (ts : List (Timer ℕ)) → length ts ≤ 0 → ts ≡ []
none_left [] h = refl
none_left (t ∷ ts) h = absurd (omega (arith, h))

-- what is left to run after one timer
fired-smaller :
    (n : ℕ) (t : Timer ℕ) (s : Attachments)
    → find_timer t.handle s.timers.active ≡ some t
    → length s.timers.active ≤ suc n
    → AreDue s
    → (length (run_due (some t) s).timers.active ≤ n) × AreDue (run_due (some t) s)
unfolding run_due revoke_object_url clear_timeout
fired-smaller n t s found le due = (
  omega (arith, le, shrinks t.handle s.timers.active t found),
  All-filter _ _ s.timers.active due,
)

drain-releases :
    (n : ℕ) (s : Attachments)
    → length s.timers.active ≤ n
    → AreDue s
    → IsReleased s
    → (drain n s).object_urls ≡ []
unfolding step run_timer
drain-releases zero s le due h = h.urls ∙ ap (map (λ t. t.callback)) (none_left s.timers.active le)
drain-releases (suc n) s le due h = elim (Option-cases (next_due s.timers)) [
  | inl idle ↦
      ap (λ (t : Attachments). t.object_urls) (drain-idle (suc n) s idle)
      ∙ h.urls
      ∙ ap (map (λ t. t.callback)) (next_due-none s.timers due idle)
  | inr (t, fires) ↦
      let found = (next_due_lem s.timers t h.handled fires).0 in
      let (smaller, due') = fired-smaller n t s found le due in
      ap (λ o. (drain n (run_due o s)).object_urls) fires
      ∙ drain-releases n (run_due (some t) s) smaller due' (fire-IsReleased t s found h)
]

-- Whatever has been clicked, downloaded and waited for: a second later, once the timers that are due have run, every
-- object URL has been revoked.
pub run-revoked :
    (es : List Event)
    → let s = step (waits 1000) (run es no_attachments) in
      (drain (length s.timers.active) s).object_urls ≡ []
unfolding step advance
run-revoked es =
    let h = run-IsReleased es no_attachments none-IsReleased in
    let s = step (waits 1000) (run es no_attachments) in
    drain-releases (length s.timers.active) s (omega arith) h.soon
      (step-IsReleased (waits 1000) (run es no_attachments) h)
