-- ===== src/Inboxes.antt =====
-- The inbox folders of the accounts and their unread counts: frontend/src/api/inboxes.ts, the badges of
-- frontend/src/components/AccountFilterRail.tsx, and the title and icon of the browser tab in
-- frontend/src/components/TabUnreadIndicator.tsx.
pub mod Counts
pub mod Indicator
mod Tests
use inboxone.Common.{
  ℕ, ◌+◌, ◌-◌, String, Bool, true, false, Option, none, some, List, [], ◌∷◌, flat_map, ltb, leb,
  ◌=?=◌, if◌then◌else◌, filter, ◌^^◌, length,
}
use Prim.Native.String
use inboxone.Common.Decimal.{show}
use inboxone.Types.{Folder, Account}

unfoldable pub inbox_folders : Account → List Folder
inbox_folders account = filter (λ folder. folder.is_inbox) account.folders

-- `reduce((sum, x) => sum + f(x), start)`
abbrev pub sum_from {ℓ} : {A : Type ℓ} → (A → ℕ) → ℕ → List A → ℕ
sum_from f sum [] = sum
sum_from f sum (x ∷ xs) = sum_from f (sum + f x) xs

unfoldable pub inbox_unread_count : Account → ℕ
unfolding inbox_folders
inbox_unread_count account = sum_from (λ folder. folder.unread_count) 0 (inbox_folders account)

-- the total of all accounts, in the rail and in the tab
unfoldable pub total_unread : List Account → ℕ
total_unread accounts = sum_from inbox_unread_count 0 accounts

-- `UnreadBadge`: what it shows
unfoldable pub unread_badge : ℕ → Option ℕ
unread_badge count = if leb count 0 then none else some count

-- the title of the document
unfoldable pub title : ℕ → String
title total = if ltb 0 total then "(" ^^ show total ^^ ") inboxone" else "inboxone"

-- The badge of `drawBadgedIcon` on a canvas of 64 by 64: its text, the radius and centre of its disc, and
-- the size of the font.
pub record Badge : Type 0 where
  pub label : String
  pub radius : ℕ
  pub cx : ℕ
  pub cy : ℕ
  pub font_size : ℕ

abbrev pub canvas_size : ℕ
canvas_size = 64

badge_label : ℕ → String
badge_label count = if ltb 99 count then "99+" else show count

badge_radius : String → ℕ
badge_radius label =
    if ltb 2 (String.count label) then 20 else if ltb 1 (String.count label) then 18 else 15

badge_of : String → ℕ → Badge
badge_of label radius = record {
  label = label;
  radius = radius;
  cx = canvas_size - radius - 2;
  cy = radius + 2;
  font_size = if ltb 2 (String.count label) then 17 else 20;
}

unfoldable pub badge : ℕ → Badge
unfolding badge_label badge_radius badge_of
badge count = badge_of (badge_label count) (badge_radius (badge_label count))

-- The icon of the tab: the plain one, or one with a badge.
pub data Icon : Type 0 where
  plain : Icon
  badged : Badge → Icon

-- The component's state, the document's title and icon, and the badge that is being drawn.
pub record Tab : Type 0 where
  pub document_title : String
  pub icon : Icon
  pub last_drawn_count : Option ℕ

unfoldable pub mounted : Tab
mounted = record { document_title = "inboxone"; icon = plain; last_drawn_count = none }

-- The effect; the result says whether the base icon is asked for, to draw a badge on it.
unfoldable pub update : List Account → Tab → Tab × Option ℕ
update accounts tab =
    let total = total_unread accounts in
    let titled = record tab { document_title = title total } in
    let drawn = record titled { last_drawn_count = some total } in
    if some total =?= tab.last_drawn_count
    then (titled, none)
    else if leb total 0
    then (record drawn { icon = plain }, none)
    else (drawn, some total)

-- the base icon has been loaded for a badge with this count, or could not be
unfoldable pub base_loaded : ℕ → Tab → Tab
base_loaded count tab = record tab { icon = badged (badge count) }

unfoldable pub base_failed : Tab → Tab
base_failed tab = tab

-- the cleanup when the component is unmounted
unfoldable pub unmounted : Tab → Tab
unmounted tab = record tab { document_title = "inboxone"; icon = plain }
