-- ===== src/Inboxes/Indicator.antt =====
-- The title and icon of the tab over a sequence of updates
-- (frontend/src/components/TabUnreadIndicator.tsx).
use Prim.Native.String
use text.Mathlib.TextLemmas.{length-append, length-cons}
use inboxone.Common.{
  ℕ, suc, zero, ◌+◌, ◌/◌, ◌%◌, ◌≤◌, ◌<◌, ◌≡◌, refl, ◌∙◌, ap, ◌≢◌, inl, inr, true, false, Option,
  none, some, List, [], ◌∷◌, sym, arith, ltb, leb, ◌=?=◌, if◌then◌else◌, Bool-cases,
}
use inboxone.Common.Decimal.{show, show_from, one_char, digit}
use inboxone.Types.{Account}
use inboxone.Inboxes.{
  total_unread, title, canvas_size, badge_label, badge_radius, badge_of, badge, Icon, plain, badged,
  Tab, mounted, update, base_loaded,
}

count-one_char : (d : ℕ) → String.count (one_char (digit d)) ≡ 1
unfolding one_char
count-one_char d = length-cons (digit d) ""

count-digits : (fuel n : ℕ) → n < 10 → String.count (show_from (suc fuel) n) ≡ 1
unfolding show_from
count-digits fuel n h = elim (Bool-cases (ltb n 10)) [
  | inl small ↦ rw small (count-one_char n)
  | inr large ↦ absurd (ground arith)
]

count-show_from : (fuel n : ℕ) → n < 100 → String.count (show_from (suc (suc fuel)) n) ≤ 2
unfolding show_from
count-show_from fuel n h = elim (Bool-cases (ltb n 10)) [
  | inl small ↦ rw small (let e = count-one_char n in omega arith)
  | inr large ↦
      rw (large, length-append)
        (let front : String.count (show_from (suc fuel) (n / 10)) ≡ 1 =
            count-digits fuel (n / 10) (omega arith) in
          let last = count-one_char (n % 10) in omega arith)
]

count-show : (n : ℕ) → 0 < n → n < 100 → String.count (show n) ≤ 2
unfolding show
count-show zero h k = absurd (omega arith)
count-show (suc n) h k = count-show_from n (suc n) k

-- For every positive count the badge has a text of at most three characters, its disc with the ring of
-- two pixels round it touches the right and the upper edge of the canvas and nowhere leaves it.
pub badge_fits :
    (count : ℕ)
    → 0 < count
    → (String.count (badge count).label ≤ 3)
      × ((badge count).cx + (badge count).radius + 2 ≡ canvas_size)
      × ((badge count).cy ≡ (badge count).radius + 2)
      × ((badge count).radius + 2 ≤ (badge count).cx)
      × ((badge count).cy + (badge count).radius + 2 ≤ canvas_size)
unfolding badge badge_radius badge_of badge_label
badge_fits count h =
    let short : String.count (badge_label count) ≤ 3 = elim (Bool-cases (ltb 99 count)) [
      | inl many ↦ rw many (omega arith)
      | inr few ↦ rw few (let c = count-show count h (ground arith) in omega arith)
    ] in
    (short, ground arith, ground arith, ground arith, ground arith)

abbrev pub icon_for : ℕ → Icon
icon_for zero = plain
icon_for (suc n) = badged (badge (suc n))

-- the base icon is there before the accounts change again
answered : Tab × Option ℕ → Tab
answered (tab, none) = tab
answered (tab, some count) = base_loaded count tab

-- the effect runs, and the base icon is there at once
unfoldable pub refresh : List Account → Tab → Tab
unfolding answered
refresh accounts tab = answered (update accounts tab)

unfoldable pub follow : List (List Account) → Tab → Tab
follow [] tab = tab
follow (accounts ∷ later) tab = follow later (refresh accounts tab)

-- the icon is that of the count that was drawn last
abbrev pub IsDrawn : Tab → Type 0
IsDrawn tab = (n : ℕ) → tab.last_drawn_count ≡ some n → tab.icon ≡ icon_for n

icon_for_pos : (n : ℕ) → leb n 0 ≡ false → icon_for n ≡ badged (badge n)
icon_for_pos zero h = cc
icon_for_pos (suc n) h = refl

=?=_some : (n : ℕ) (o : Option ℕ) → (some n =?= o) ≡ true → o ≡ some n
=?=_some n none h = cc
=?=_some n (some m) h = ground arith

=?=_ne : (n : ℕ) (o : Option ℕ) → o ≢ some n → (some n =?= o) ≡ false
=?=_ne n none h = refl
=?=_ne n (some m) h = ground arith

refresh_lem :
    (accounts : List Account) (tab : Tab)
    → IsDrawn tab
    → ((refresh accounts tab).document_title ≡ title (total_unread accounts))
      × ((refresh accounts tab).last_drawn_count ≡ some (total_unread accounts))
      × ((refresh accounts tab).icon ≡ icon_for (total_unread accounts))
unfolding refresh update base_loaded
refresh_lem accounts tab drawn =
    elim (Bool-cases (some (total_unread accounts) =?= tab.last_drawn_count)) [
      | inl same ↦ let e = =?=_some _ _ same in rw same (refl, e, drawn (total_unread accounts) e)
      | inr new ↦ elim (Bool-cases (leb (total_unread accounts) 0)) [
        | inl nothing ↦
            let e : total_unread accounts ≡ 0 = ground arith in rw (new, nothing) (refl, refl, rw e)
        | inr unread ↦ rw (new, unread) (refl, refl, sym (icon_for_pos _ unread))
      ]
    ]

refresh-IsDrawn :
    (accounts : List Account) (tab : Tab) → IsDrawn tab → IsDrawn (refresh accounts tab)
refresh-IsDrawn accounts tab drawn n e =
    let (_, last, icon) = refresh_lem accounts tab drawn in
    let same : total_unread accounts ≡ n = ground arith in icon ∙ ap icon_for same

follow-IsDrawn : (ls : List (List Account)) (tab : Tab) → IsDrawn tab → IsDrawn (follow ls tab)
unfolding follow
follow-IsDrawn [] tab drawn = drawn
follow-IsDrawn (accounts ∷ ls) tab drawn =
    follow-IsDrawn ls (refresh accounts tab) (refresh-IsDrawn accounts tab drawn)

-- However the accounts change, as long as the base icon is there before they change again, the title
-- names the total of the accounts seen last, and the icon is plain if that is 0 and has the badge of
-- that total otherwise.
pub follow-current :
    (before : List (List Account)) (accounts : List Account)
    → let tab = refresh accounts (follow before mounted) in
      (tab.document_title ≡ title (total_unread accounts))
      × (tab.icon ≡ (
          if leb (total_unread accounts) 0 then plain else badged (badge (total_unread accounts))))
unfolding mounted
follow-current before accounts =
    let drawn = follow-IsDrawn before mounted (λ n e. cc) in
    let (named, _, icon) = refresh_lem accounts (follow before mounted) drawn in
    (named, icon ∙ icon_for-if (total_unread accounts))
  where
    icon_for-if : (n : ℕ) → icon_for n ≡ (if leb n 0 then plain else badged (badge n))
    icon_for-if zero = refl
    icon_for-if (suc n) = ground arith

update_unread :
    (accounts : List Account) (tab : Tab) (n : ℕ)
    → total_unread accounts ≡ suc n
    → tab.last_drawn_count ≢ some (suc n)
    → update accounts tab ≡ (
      record { document_title = title (suc n); icon = tab.icon; last_drawn_count = some (suc n) },
      some (suc n),
    )
unfolding update
update_unread accounts tab n e h =
    let positive : leb (suc n) 0 ≡ false = ground arith in rw (e, =?=_ne (suc n) _ h, positive)

update_read :
    (accounts : List Account) (tab : Tab)
    → total_unread accounts ≡ 0
    → tab.last_drawn_count ≢ some 0
    → update accounts tab
      ≡ (record { document_title = title 0; icon = plain; last_drawn_count = some 0 }, none)
unfolding update
update_read accounts tab e h = rw (e, =?=_ne 0 _ h)

update_same :
    (accounts : List Account) (tab : Tab)
    → total_unread accounts ≡ 0
    → tab.last_drawn_count ≡ some 0
    → update accounts tab ≡ (record tab { document_title = title 0 }, none)
unfolding update
update_same accounts tab e h = rw (e, h)

-- If the base icon is there only after the unread mail has gone, the badge is drawn all the same: the
-- icon shows the old count beside the title of a tab with nothing unread, and a further update with
-- nothing unread leaves it so.
pub stale_badge :
    (first second third : List Account) (tab : Tab) (n : ℕ)
    → total_unread first ≡ suc n
    → total_unread second ≡ 0
    → total_unread third ≡ 0
    → tab.last_drawn_count ≢ some (suc n)
    → let (t, asked) = update first tab in
      let late = base_loaded (suc n) (update second t).0 in
      (asked ≡ some (suc n))
      × (late.document_title ≡ "inboxone")
      × (late.icon ≡ badged (badge (suc n)))
      × ((update third late).0 ≡ late)
unfolding base_loaded title
stale_badge first second third tab n some_unread none_unread still h =
    rw (update_unread first tab n some_unread h) (
      let differ : ◌≢◌ {A = Option ℕ} (some (suc n)) (some 0) = ground arith in
      rw
        (update_read second
          (record {
            document_title = title (suc n);
            icon = tab.icon;
            last_drawn_count = some (suc n);
          })
          none_unread differ)
        (refl, refl, refl, ap (λ (r : Tab × Option ℕ). r.0) (update_same third _ still refl)))
